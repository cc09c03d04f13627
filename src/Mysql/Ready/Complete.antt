-- ===== src/Mysql/Ready/Complete.antt =====
-- sqlx-mysql/src/connection/stream.rs: `wait_until_ready` ends, having read what is waited for.
use mathlib.Core.List.{append_assoc}
use sqlx.Base.{
  ℕ, suc, ◌+◌, ◌<◌, ◌≡◌, refl, ap, subst, ◌∙◌, Bool, true, false, List, [], ◌∷◌, ◌++◌, map, ok,
  length, arith,
}
use sqlx.Base.Bytes.{Buf}
use sqlx.Base.Runs.{Exec}
use sqlx.Mysql.Packet.{Waiting, result, row}
use sqlx.Mysql.LengthEncoded.RoundTrip.{head_byte, tail_bytes}
use sqlx.Mysql.Response.{ok_packet, decode_ok-ok_packet}
use sqlx.Mysql.Ready.{skip_result_metadata, on_result, wait_until_ready}
use sqlx.Mysql.Ready.Answers.{
  Answer, affected, result_set, more, status_of, IsAnswer, Chain, Pending, answers, rest_of_rows,
  waiting_for, IsPending, ArePending, end_packet, end_of_columns, packets_of, packets_of_all,
  packets_pending, packets_all_pending, Delivers,
}
use sqlx.Mysql.Ready.Rounds.{wait, Leads, Leads-trans, result_round, after, after-result, rows_lem}
use sqlx.Mysql.Ready.Metadata.{is_ok_or_err-head_byte, skip_result_metadata_lem}

module _ {E S : Type 0} (buf : Buf) (deprecate_eof : Bool) (recv_packet : Exec E S (List ℕ)) where
  regroup :
      (columns ends rows rest : List (List ℕ)) (p : List ℕ)
      → (columns ++ (ends ++ (rows ++ p ∷ []))) ++ rest ≡ columns ++ (ends ++ (rows ++ (p ∷ rest)))
  regroup columns ends rows rest p =
      append_assoc columns (ends ++ (rows ++ p ∷ [])) rest
      ∙ ap (columns ++◌) (
          append_assoc ends (rows ++ p ∷ []) rest ∙ ap (ends ++◌) (append_assoc rows (p ∷ []) rest))

  on_result-affected :
      (rows id bits warnings : ℕ) (u : S) (ws : List Waiting)
      → IsAnswer (affected rows id bits warnings)
      → on_result buf deprecate_eof recv_packet
          (result ∷ ws)
          (ok_packet 0 rows id bits warnings)
          (u, result ∷ ws)
        ≡ (ok tt, (u, after buf deprecate_eof recv_packet (more bits) ws))
  unfolding on_result
  on_result-affected rows id bits warnings u ws (hr, hi, hb, hw) =
      rw (decode_ok-ok_packet buf 0 rows id bits warnings refl hr hi hb hw)
        (ap (λ vs. (ok tt, (u, vs))) (after-result buf deprecate_eof recv_packet (more bits) ws))

  on_result-columns :
      (n : ℕ) (u v : S) (ws : List Waiting)
      → 0 < n
      → n < 65536
      → skip_result_metadata buf deprecate_eof recv_packet
          (head_byte n ∷ tail_bytes n)
          (u, row ∷ ws)
        ≡ (ok tt, (v, row ∷ ws))
      → on_result buf deprecate_eof recv_packet
          (result ∷ ws)
          (head_byte n ∷ tail_bytes n)
          (u, result ∷ ws)
        ≡ (ok tt, (v, row ∷ ws))
  unfolding on_result
  on_result-columns n u v ws h hn skipped = rw (is_ok_or_err-head_byte n h hn) skipped

  answer_lem :
      (a : Answer) (rest : List (List ℕ)) (s t : S) (ws : List Waiting)
      → IsAnswer a
      → Delivers recv_packet s (packets_of deprecate_eof a ++ rest) t
      → (u : S) × (k : ℕ) × Leads buf deprecate_eof recv_packet k
          (s, result ∷ ws)
          (u, after buf deprecate_eof recv_packet (more (status_of a)) ws)
        × Delivers recv_packet u rest t
  unfolding packets_of
  answer_lem (affected rows id bits warnings) rest s t ws h (u, now, later) = (
    u,
    1,
    result_round buf deprecate_eof recv_packet s u u ws
        (after buf deprecate_eof recv_packet (more bits) ws) (ok_packet 0 rows id bits warnings) now
        (on_result-affected rows id bits warnings u ws h),
    later,
  )
  answer_lem (result_set columns rows bits warnings) rest s t ws h (u, now, later) =
      let (some_columns, hc, are_rows, hb, hw) = h in
      let n = length columns in
      let ends = end_of_columns deprecate_eof bits warnings in
      let last = end_packet deprecate_eof bits warnings in
      let grouped =
        subst (λ ps. Delivers recv_packet u ps t) (regroup columns ends rows rest last) later in
      let (v, skipped, at_rows) =
        skip_result_metadata_lem buf deprecate_eof recv_packet columns (rows ++ (last ∷ rest)) bits
          warnings u t (row ∷ ws) hc hb hw grouped in
      let (z, leads, left) =
        rows_lem buf deprecate_eof recv_packet rows rest bits warnings v t ws are_rows hb hw
          at_rows in
      let first =
        result_round buf deprecate_eof recv_packet s u v ws (row ∷ ws) (head_byte n ∷ tail_bytes n)
          now (on_result-columns n u v ws some_columns hc skipped) in
      (
        z,
        1 + (length rows + 1),
        Leads-trans buf deprecate_eof recv_packet 1 (length rows + 1) (s, result ∷ ws) (v, row ∷ ws)
            (z, after buf deprecate_eof recv_packet (more bits) ws) first leads,
        left,
      )

  nowhere : (s : S) (ws : List Waiting) → Leads buf deprecate_eof recv_packet 0 (s, ws) (s, ws)
  nowhere s ws f =
      ap (λ n. wait buf deprecate_eof recv_packet n (s, ws)) {x = 0 + f} {y = f} (omega arith)

  chain_lem :
      (b : Bool) (chain : List Answer) (rest : List (List ℕ)) (s t : S) (ws : List Waiting)
      → Chain b chain
      → Delivers recv_packet s (packets_of_all deprecate_eof chain ++ rest) t
      → (u : S) × (k : ℕ) × Leads buf deprecate_eof recv_packet k
          (s, after buf deprecate_eof recv_packet b ws)
          (u, ws)
        × Delivers recv_packet u rest t
  unfolding packets_of_all
  chain_lem false [] rest s t ws c h = (s, 0, nowhere s ws, h)
  chain_lem true [] rest s t ws c h = absurd c
  chain_lem false (a ∷ chain) rest s t ws c h = absurd c
  chain_lem true (a ∷ chain) rest s t ws (is_answer, c) h =
      let (u, j, first, behind) =
        answer_lem a (packets_of_all deprecate_eof chain ++ rest) s t ws is_answer (
          subst (λ ps. Delivers recv_packet s ps t)
            (append_assoc (packets_of deprecate_eof a) (packets_of_all deprecate_eof chain) rest)
            h) in
      let (v, k, others, left) = chain_lem (more (status_of a)) chain rest u t ws c behind in
      (
        v,
        j + k,
        Leads-trans buf deprecate_eof recv_packet j k (s, result ∷ ws)
            (u, after buf deprecate_eof recv_packet (more (status_of a)) ws) (v, ws) first others,
        left,
      )

  pending_lem :
      (p : Pending) (rest : List (List ℕ)) (s t : S) (ws : List Waiting)
      → IsPending p
      → Delivers recv_packet s (packets_pending deprecate_eof p ++ rest) t
      → (u : S) × (k : ℕ) × Leads buf deprecate_eof recv_packet k (s, waiting_for p ∷ ws) (u, ws)
        × Delivers recv_packet u rest t
  unfolding packets_pending
  pending_lem (answers chain) rest s t ws c h = chain_lem true chain rest s t ws c h
  pending_lem (rest_of_rows rows bits warnings chain) rest s t ws (are_rows, hb, hw, c) h =
      let others = packets_of_all deprecate_eof chain in
      let last = end_packet deprecate_eof bits warnings in
      let (u, first, behind) =
        rows_lem buf deprecate_eof recv_packet rows (others ++ rest) bits warnings s t ws are_rows
          hb hw
          (subst (λ ps. Delivers recv_packet s ps t) (append_assoc rows (last ∷ others) rest) h) in
      let (v, k, second, left) = chain_lem (more bits) chain rest u t ws c behind in
      (
        v,
        length rows + 1 + k,
        Leads-trans buf deprecate_eof recv_packet (length rows + 1) k (s, row ∷ ws)
            (u, after buf deprecate_eof recv_packet (more bits) ws) (v, ws) first second,
        left,
      )

  all_pending_lem :
      (pending : List Pending) (s t : S)
      → ArePending pending
      → Delivers recv_packet s (packets_all_pending deprecate_eof pending) t
      → (k : ℕ) × Leads buf deprecate_eof recv_packet k (s, map waiting_for pending) (t, [])
  unfolding packets_all_pending
  all_pending_lem [] s t c h =
      (0, λ f. nowhere s [] f ∙ ap (λ u. wait buf deprecate_eof recv_packet f (u, [])) h)
  all_pending_lem (p ∷ pending) s t (is_pending, c) h =
      let (u, j, first, behind) =
        pending_lem p (packets_all_pending deprecate_eof pending) s t (map waiting_for pending)
          is_pending h in
      let (k, others) = all_pending_lem pending u t c behind in
      (
        j + k,
        Leads-trans buf deprecate_eof recv_packet j k (s, map waiting_for (p ∷ pending))
            (u, map waiting_for pending) (t, []) first others,
      )

  -- Where the server sends what is waited for, which may start in the middle of some rows, and where
  -- each answer but the last of each says that another follows, `wait_until_ready` ends after so
  -- many rounds, whatever fuel is left: it has received exactly these packets, and nothing is waited
  -- for any more.
  pub wait_until_ready_lem :
      (pending : List Pending) (s t : S)
      → ArePending pending
      → Delivers recv_packet s (packets_all_pending deprecate_eof pending) t
      → (k : ℕ) × ((f : ℕ)
          → wait_until_ready buf deprecate_eof recv_packet (k + suc f) (s, map waiting_for pending)
            ≡ (ok tt, (t, [])))
  unfolding wait_until_ready
  wait_until_ready_lem pending s t c h =
      let (k, leads) = all_pending_lem pending s t c h in (k, λ f. leads (suc f))
