-- ===== src/Mysql/Ready.antt =====
-- sqlx-mysql/src/connection/stream.rs: `wait_until_ready`, which reads the answers that are asked for
-- and not read yet. What receives a packet (`recv_packet`, modelled in Mysql/Packet.antt) is a
-- parameter, and so is the capability DEPRECATE_EOF; the flush that comes first is that of
-- Core/WriteBuffer.antt. An error of `recv_packet` ends the function with `waiting` as it was before that
-- packet, though an ERR packet takes away what is waited for.
pub mod Answers
pub mod Rounds
pub mod Metadata
pub mod Complete
mod Tests
use sqlx.Base.{
  ℕ, zero, suc, Bool, true, false, ◌&&◌, ◌||◌, List, [], ◌∷◌, ltb, ◌==◌, if◌then◌else◌, Outcome, ok,
  err, panic, lift, map_err, length,
}
use sqlx.Base.Bytes.{Buf}
use sqlx.Base.Runs.{Exec, ◌>>=◌, ◌>>◌, return, pure_run}
use sqlx.Mysql.Packet.{Waiting, result, row, pop_front}
use sqlx.Mysql.LengthEncoded.{get_uint_lenenc}
use sqlx.Mysql.Response.{
  ResponseError, OkPacket, EofPacket, has_more_results, decode_ok, decode_eof, packet_eof,
}

-- `unfinished` is a fuel that was too small.
pub data ReadyError (E : Type 0) : Type 0 where
  response : ResponseError → ReadyError E
  receiving : E → ReadyError E
  unfinished : ReadyError E

-- The stream, and the answers that are waited for, the next one first.
abbrev pub Reader : Type 0 → Type 0
Reader S = S × List Waiting

abbrev pub set_waiting : {E S : Type 0} → List Waiting → Exec (ReadyError E) (Reader S) (Unit {0})
set_waiting ws (s, old) = (ok tt, (s, ws))

abbrev pub set_front : Waiting → List Waiting → List Waiting
set_front w [] = []
set_front w (old ∷ ws) = w ∷ ws

-- A row ends with a short packet that starts with 0xfe.
abbrev pub is_end : List ℕ → Bool
is_end [] = false
is_end (b ∷ bs) = b == 254 && ltb (length (b ∷ bs)) 9

abbrev pub is_ok_or_err : List ℕ → Bool
is_ok_or_err [] = false
is_ok_or_err (b ∷ bs) = b == 0 || b == 255

module _ {E S : Type 0} (buf : Buf) (deprecate_eof : Bool) (recv_packet : Exec E S (List ℕ)) where
  abbrev Run : Type 0 → Type 0
  Run = Exec (ReadyError E) (Reader S)

  abbrev pub recv : Run (List ℕ)
  recv (s, ws) = let r = recv_packet s in (map_err receiving r.0, (r.1, ws))

  abbrev pub decoded : {A : Type 0} → Outcome ResponseError A → Run A
  decoded r = pure_run (map_err response r)

  -- `maybe_recv_eof`.
  unfoldable pub maybe_recv_eof : Run (Unit {0})
  unfolding decode_eof
  maybe_recv_eof =
      if deprecate_eof
      then return tt
      else (recv >>= λ packet. decoded (decode_eof buf packet) >>= λ eof. return tt)

  unfoldable pub skip_columns : ℕ → Run (Unit {0})
  skip_columns zero = return tt
  skip_columns (suc n) = recv >>= λ packet. skip_columns n

  unfoldable pub skip_result_metadata : List ℕ → Run (Unit {0})
  unfolding maybe_recv_eof skip_columns
  skip_result_metadata packet =
      decoded (lift (get_uint_lenenc buf packet)) >>= λ r. skip_columns r.0 >> maybe_recv_eof

  -- What follows the packet, for the answers `ws` that are waited for.
  unfoldable pub on_row : List Waiting → List ℕ → Run (Unit {0})
  unfolding packet_eof
  on_row ws packet =
      if is_end packet
      then (decoded (packet_eof buf deprecate_eof packet) >>= λ eof.
          set_waiting (if has_more_results eof.status then set_front result ws else pop_front ws))
      else return tt

  unfoldable pub on_result : List Waiting → List ℕ → Run (Unit {0})
  unfolding skip_result_metadata decode_ok
  on_result ws packet =
      if is_ok_or_err packet
      then (decoded (decode_ok buf packet) >>= λ o.
          set_waiting (if has_more_results o.status then ws else pop_front ws))
      else (set_waiting (set_front row ws) >> skip_result_metadata packet)

  -- The three loops as one, a round for each packet that one of them receives.
  unfoldable pub wait_until_ready : ℕ → Run (Unit {0})
  wait_until_ready zero c = (err unfinished, c)
  wait_until_ready (suc fuel) (s, []) = (ok tt, (s, []))
  wait_until_ready (suc fuel) (s, row ∷ ws) =
      (recv >>= λ packet. on_row (row ∷ ws) packet >> wait_until_ready fuel) (s, row ∷ ws)
  wait_until_ready (suc fuel) (s, result ∷ ws) =
      (recv >>= λ packet. on_result (result ∷ ws) packet >> wait_until_ready fuel) (s, result ∷ ws)
