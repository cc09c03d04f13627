-- ===== src/Mysql/Ready/Metadata.antt =====
-- sqlx-mysql/src/connection/stream.rs: `skip_result_metadata` over the columns that a result starts
-- with.
use mathlib.Core.List.{append-nil}
use sqlx.Base.{
  ℕ, ◌<◌, ◌≡◌, refl, sym, ap, ◌∙◌, Bool, true, false, List, [], ◌∷◌, ◌++◌, ok, length, arith,
}
use sqlx.Base.Bytes.{Buf}
use sqlx.Base.Runs.{Exec, >>=-ok}
use sqlx.Mysql.Packet.{Waiting}
use sqlx.Mysql.LengthEncoded.{get_uint_lenenc}
use sqlx.Mysql.LengthEncoded.RoundTrip.{head_byte, tail_bytes, get_uint_lenenc_lem}
use sqlx.Mysql.Response.{packet_eof-eof_packet, packet_eof}
use sqlx.Mysql.Ready.{is_ok_or_err, maybe_recv_eof, skip_columns, skip_result_metadata}
use sqlx.Mysql.Ready.Answers.{end_of_columns, Delivers}
use sqlx.Mysql.Ready.Rounds.{skip_columns_lem}

pub is_ok_or_err-head_byte :
    (n : ℕ) → 0 < n → n < 65536 → is_ok_or_err (head_byte n ∷ tail_bytes n) ≡ false
unfolding head_byte
is_ok_or_err-head_byte n h hn = ground arith

module _ {E S : Type 0} (buf : Buf) where
  pub maybe_recv_eof_lem :
      (deprecate_eof : Bool) (recv_packet : Exec E S (List ℕ)) (bits warnings : ℕ)
      (rest : List (List ℕ)) (s t : S) (ws : List Waiting)
      → bits < 65536
      → warnings < 65536
      → Delivers recv_packet s (end_of_columns deprecate_eof bits warnings ++ rest) t
      → (u : S) × (maybe_recv_eof buf deprecate_eof recv_packet (s, ws) ≡ (ok tt, (u, ws)))
        × Delivers recv_packet u rest t
  unfolding maybe_recv_eof packet_eof
  maybe_recv_eof_lem true recv_packet bits warnings rest s t ws hb hw h = (s, refl, h)
  maybe_recv_eof_lem false recv_packet bits warnings rest s t ws hb hw (u, now, later) =
      (u, rw (now, packet_eof-eof_packet buf bits warnings hb hw) refl, later)

module _ {E S : Type 0} (buf : Buf) (deprecate_eof : Bool) (recv_packet : Exec E S (List ℕ)) where
  pub skip_result_metadata_lem :
      (columns rest : List (List ℕ)) (bits warnings : ℕ) (s t : S) (ws : List Waiting)
      → length columns < 65536
      → bits < 65536
      → warnings < 65536
      → Delivers recv_packet s (columns ++ (end_of_columns deprecate_eof bits warnings ++ rest)) t
      → (u : S) × (skip_result_metadata buf deprecate_eof recv_packet
            (head_byte (length columns) ∷ tail_bytes (length columns))
            (s, ws)
          ≡ (ok tt, (u, ws)))
        × Delivers recv_packet u rest t
  unfolding skip_result_metadata
  skip_result_metadata_lem columns rest bits warnings s t ws hc hb hw h =
      let n = length columns in
      let behind = end_of_columns deprecate_eof bits warnings ++ rest in
      let (u, skipped, at_end) =
        skip_columns_lem buf deprecate_eof recv_packet columns behind s t ws h in
      let (v, ended, left) =
        maybe_recv_eof_lem buf deprecate_eof recv_packet bits warnings rest u t ws hb hw at_end in
      let counted =
        ap (λ x. get_uint_lenenc buf (head_byte n ∷ x)) (sym (append-nil (tail_bytes n)))
        ∙ get_uint_lenenc_lem buf n [] (omega (arith, hc)) in
      (
        v,
        rw counted (
            >>=-ok (skip_columns buf deprecate_eof recv_packet n)
              (λ _. maybe_recv_eof buf deprecate_eof recv_packet) (s, ws) tt (u, ws) skipped
            ∙ ended),
        left,
      )
