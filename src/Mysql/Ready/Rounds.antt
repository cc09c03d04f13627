-- ===== src/Mysql/Ready/Rounds.antt =====
-- sqlx-mysql/src/connection/stream.rs: `wait_until_ready` on the answers of a server.
use sqlx.Base.{
  ℕ, suc, ◌+◌, ◌<◌, ◌≡◌, refl, ap, subst, ◌∙◌, Bool, true, false, List, [], ◌∷◌, ◌++◌, ok,
  if◌then◌else◌, length, arith,
}
use sqlx.Base.Bytes.{Buf, to_le_bytes}
use sqlx.Base.Runs.{Exec, ◌>>◌, >>=-ok}
use sqlx.Mysql.Packet.{Waiting, result, row, pop_front}
use sqlx.Mysql.LengthEncoded.RoundTrip.{head_byte, tail_bytes}
use sqlx.Mysql.Response.{decode_ok-ok_packet, packet_eof-eof_packet, packet_eof, from_bits_truncate}
use sqlx.Mysql.Ready.{
  ReadyError, Reader, is_end, recv, skip_columns, on_row, on_result, wait_until_ready, set_front,
}
use sqlx.Mysql.Ready.Answers.{more, AreRows, end_packet, Delivers}

packet_eof-end_packet :
    (buf : Buf) (deprecate_eof : Bool) (bits warnings : ℕ)
    → bits < 65536
    → warnings < 65536
    → packet_eof buf deprecate_eof (end_packet deprecate_eof bits warnings)
      ≡ ok (record { warnings = warnings; status = from_bits_truncate bits })
unfolding packet_eof
packet_eof-end_packet buf true bits warnings hb hw =
    rw (decode_ok-ok_packet buf 254 0 0 bits warnings refl (omega arith) (omega arith) hb hw) refl
packet_eof-end_packet buf false bits warnings hb hw = packet_eof-eof_packet buf bits warnings hb hw

is_end-end_packet :
    (deprecate_eof : Bool) (bits warnings : ℕ)
    → is_end (end_packet deprecate_eof bits warnings) ≡ true
unfolding head_byte tail_bytes to_le_bytes
is_end-end_packet true bits warnings = refl
is_end-end_packet false bits warnings = refl

module _ {E S : Type 0} (buf : Buf) (deprecate_eof : Bool) (recv_packet : Exec E S (List ℕ)) where
  abbrev pub wait : ℕ → Exec (ReadyError E) (Reader S) (Unit {0})
  wait = wait_until_ready buf deprecate_eof recv_packet

  -- So many rounds lead from one state to another, whatever the fuel that is left.
  abbrev pub Leads : ℕ → Reader S → Reader S → Type 0
  Leads k c d = (f : ℕ) → wait (k + f) c ≡ wait f d

  pub Leads-trans : (j k : ℕ) (c d e : Reader S) → Leads j c d → Leads k d e → Leads (j + k) c e
  Leads-trans j k c d e h g f = ap (λ n. wait n c) (omega arith) ∙ h (k + f) ∙ g f

  pub recv-ok :
      (s u : S) (ws : List Waiting) (p : List ℕ)
      → recv_packet s ≡ (ok p, u)
      → recv buf deprecate_eof recv_packet (s, ws) ≡ (ok p, (u, ws))
  recv-ok s u ws p h = rw h refl

  pub row_round :
      (s u : S) (ws vs : List Waiting) (p : List ℕ)
      → recv_packet s ≡ (ok p, u)
      → on_row buf deprecate_eof recv_packet (row ∷ ws) p (u, row ∷ ws) ≡ (ok tt, (u, vs))
      → Leads 1 (s, row ∷ ws) (u, vs)
  unfolding wait_until_ready
  row_round s u ws vs p h g f =
      ap (λ n. wait n (s, row ∷ ws)) {x = 1 + f} {y = suc f} (omega arith)
      ∙ >>=-ok (recv buf deprecate_eof recv_packet)
          (λ packet. on_row buf deprecate_eof recv_packet (row ∷ ws) packet >> wait f) (s, row ∷ ws)
          p (u, row ∷ ws) (recv-ok s u (row ∷ ws) p h)
      ∙ >>=-ok (on_row buf deprecate_eof recv_packet (row ∷ ws) p) (λ _. wait f) (u, row ∷ ws) tt
          (u, vs) g

  pub result_round :
      (s u v : S) (ws vs : List Waiting) (p : List ℕ)
      → recv_packet s ≡ (ok p, u)
      → on_result buf deprecate_eof recv_packet (result ∷ ws) p (u, result ∷ ws) ≡ (ok tt, (v, vs))
      → Leads 1 (s, result ∷ ws) (v, vs)
  unfolding wait_until_ready
  result_round s u v ws vs p h g f =
      ap (λ n. wait n (s, result ∷ ws)) {x = 1 + f} {y = suc f} (omega arith)
      ∙ >>=-ok (recv buf deprecate_eof recv_packet)
          (λ packet. on_result buf deprecate_eof recv_packet (result ∷ ws) packet >> wait f)
          (s, result ∷ ws) p (u, result ∷ ws) (recv-ok s u (result ∷ ws) p h)
      ∙ >>=-ok (on_result buf deprecate_eof recv_packet (result ∷ ws) p) (λ _. wait f)
          (u, result ∷ ws) tt (v, vs) g

  pub skip_columns_lem :
      (columns rest : List (List ℕ)) (s t : S) (ws : List Waiting)
      → Delivers recv_packet s (columns ++ rest) t
      → (u : S) × (skip_columns buf deprecate_eof recv_packet (length columns) (s, ws)
          ≡ (ok tt, (u, ws)))
        × Delivers recv_packet u rest t
  unfolding skip_columns
  skip_columns_lem [] rest s t ws h = (s, refl, h)
  skip_columns_lem (p ∷ ps) rest s t ws (u, now, later) =
      let (v, skipped, left) = skip_columns_lem ps rest u t ws later in
      (
        v,
        >>=-ok (recv buf deprecate_eof recv_packet)
              (λ packet. skip_columns buf deprecate_eof recv_packet (length ps)) (s, ws) p (u, ws)
              (recv-ok s u ws p now)
            ∙ skipped,
        left,
      )

  -- The answers that are still waited for behind one.
  abbrev pub after : Bool → List Waiting → List Waiting
  after b ws = if b then result ∷ ws else ws

  after-row :
      (b : Bool) (ws : List Waiting)
      → (if b then set_front result (row ∷ ws) else pop_front (row ∷ ws)) ≡ after b ws
  after-row true ws = refl
  after-row false ws = refl

  pub after-result :
      (b : Bool) (ws : List Waiting)
      → (if b then result ∷ ws else pop_front (result ∷ ws)) ≡ after b ws
  after-result true ws = refl
  after-result false ws = refl

  on_row-row :
      (ws vs : List Waiting) (p : List ℕ) (u : S)
      → is_end p ≡ false
      → on_row buf deprecate_eof recv_packet ws p (u, vs) ≡ (ok tt, (u, vs))
  unfolding on_row
  on_row-row ws vs p u h = rw h refl

  on_row-end :
      (ws : List Waiting) (u : S) (bits warnings : ℕ)
      → bits < 65536
      → warnings < 65536
      → on_row buf deprecate_eof recv_packet
          (row ∷ ws)
          (end_packet deprecate_eof bits warnings)
          (u, row ∷ ws)
        ≡ (ok tt, (u, after (more bits) ws))
  unfolding on_row
  on_row-end ws u bits warnings hb hw =
      rw
        (
          is_end-end_packet deprecate_eof bits warnings,
          packet_eof-end_packet buf deprecate_eof bits warnings hb hw,
        )
        (ap (λ vs. (ok tt, (u, vs))) (after-row (more bits) ws))

  -- What is left of some rows.
  pub rows_lem :
      (rows rest : List (List ℕ)) (bits warnings : ℕ) (s t : S) (ws : List Waiting)
      → AreRows rows
      → bits < 65536
      → warnings < 65536
      → Delivers recv_packet s (rows ++ (end_packet deprecate_eof bits warnings ∷ rest)) t
      → (u : S) × Leads (length rows + 1) (s, row ∷ ws) (u, after (more bits) ws)
        × Delivers recv_packet u rest t
  rows_lem [] rest bits warnings s t ws h hb hw (u, now, later) = (
    u,
    row_round s u ws (after (more bits) ws) (end_packet deprecate_eof bits warnings) now
        (on_row-end ws u bits warnings hb hw),
    later,
  )
  rows_lem (p ∷ ps) rest bits warnings s t ws h hb hw (u, now, later) =
      let (v, leads, left) = rows_lem ps rest bits warnings u t ws h.1 hb hw later in
      (
        v,
        subst (λ k. Leads k (s, row ∷ ws) (v, after (more bits) ws)) {x = 1 + (length ps + 1)}
            {y = suc (length ps) + 1} (omega arith)
            (Leads-trans 1 (length ps + 1) (s, row ∷ ws) (u, row ∷ ws) (v, after (more bits) ws)
              (row_round s u ws (row ∷ ws) p now (on_row-row (row ∷ ws) (row ∷ ws) p u h.0)) leads),
        left,
      )
