-- ===== src/Mysql/Packet.antt =====
-- sqlx-mysql/src/protocol/packet.rs, and the receiving half of sqlx-mysql/src/connection/stream.rs:
-- payloads cut into packets of at most 2^24 - 1 bytes, and put together again.
--
-- What the server sends until it closes the connection is one list of bytes; a read that goes past
-- its end fails.
pub mod Split
pub mod RoundTrip
pub mod Rounds
mod Tests
use sqlx.Base.{
  ℕ, zero, suc, ◌+◌, ◌-◌, ◌%◌, ◌≡◌, min, Bool, true, false, Option, none, some, List, [], ◌∷◌, ◌++◌,
  leb, ltb, ◌==◌, if◌then◌else◌, Outcome, ok, err, panic, lift, length, take, drop, set,
}
use sqlx.Base.Bytes.{Buf, to_le_bytes}
use sqlx.Base.Runs.{Exec, ◌>>=◌, ◌>>◌, return, pure_run}
use sqlx.Core.WriteBuffer.{Encoder}

abbrev pub max_payload : ℕ
max_payload = 16777215

-- The closure `next_header`: the header, and the sequence number after it.
pub next_header : ℕ → ℕ → List ℕ × ℕ
next_header len sequence_id = (set (to_le_bytes 4 len) 3 sequence_id, (sequence_id + 1) % 256)

-- The chunks of what does not fit into the first packet, the remainder last; `fuel` is at least
-- the length of the data.
pub put_chunks : ℕ → List ℕ → ℕ → List ℕ × ℕ
put_chunks zero rest seq =
    let (header, after) = next_header (length rest) seq in (header ++ rest, after)
put_chunks (suc fuel) rest seq =
    let (header, after) = next_header (min (length rest) max_payload) seq in
    let (later, last) = put_chunks fuel (drop max_payload rest) after in
    if ltb (length rest) max_payload
    then (header ++ rest, after)
    else (header ++ take max_payload rest ++ later, last)

-- What `encode_with` does once the payload stands behind `offset + 4` bytes.
pub put_headers : List ℕ → ℕ → ℕ → List ℕ × ℕ
put_headers buf offset seq =
    let len = length buf - offset - 4 in
    let (header, after) = next_header (min len max_payload) seq in
    let written = take offset buf ++ header ++ drop (offset + 4) buf in
    let rest = drop (offset + 4 + max_payload) written in
    let (chunks, last) = put_chunks (length rest) rest after in
    if leb max_payload len
    then (take (offset + 4 + max_payload) written ++ chunks, last)
    else (written, after)

-- `encode_with`, for the encoder of the payload and the sequence number of the stream.
pub settle : {E : Type 0} → ℕ → ℕ → List ℕ × Option E → (List ℕ × ℕ) × Option E
settle offset seq (buf, some e) = ((buf, seq), some e)
settle offset seq (buf, none) = (put_headers buf offset seq, none)

pub encode_with : {E : Type 0} → Encoder E → List ℕ → ℕ → (List ℕ × ℕ) × Option E
encode_with encode buf seq = settle (length buf) seq (encode (buf ++ 0 ∷ 0 ∷ 0 ∷ 0 ∷ []))

pub data Waiting : Type 0 where
  result row : Waiting

-- The parts of MySqlStream that receiving touches.
pub record Stream : Type 0 where
  pub incoming : List ℕ
  pub sequence_id : ℕ
  pub waiting : List Waiting

-- `error_packet` carries the packet that becomes a MySqlDatabaseError.
pub data RecvError : Type 0 where
  unexpected_eof packet_empty : RecvError
  error_packet : List ℕ → RecvError

abbrev pub Recv : Type 0 → Type 0
Recv = Exec RecvError Stream

-- `socket.read`.
pub read_exact : ℕ → Recv (List ℕ)
read_exact n s =
    if leb n (length s.incoming)
    then (ok (take n s.incoming), record s { incoming = drop n s.incoming })
    else (err unexpected_eof, s)

pub set_sequence_id : ℕ → Recv (Unit {0})
set_sequence_id n s = (ok tt, record s { sequence_id = n })

abbrev pub pop_front : List Waiting → List Waiting
pop_front [] = []
pop_front (w ∷ ws) = ws

pub fail_with : List ℕ → Recv (List ℕ)
fail_with payload s = (err (error_packet payload), record s { waiting = pop_front s.waiting })

-- The last part of `recv_packet`.
pub check_payload : List ℕ → Recv (List ℕ)
check_payload [] = pure_run (err packet_empty)
check_payload (b ∷ bs) = if b == 255 then fail_with (b ∷ bs) else return (b ∷ bs)

module _ (buf : Buf) where
  open buf use {get_le}

  pub recv_packet_part : Recv (List ℕ)
  recv_packet_part = do
    header ← read_exact 4
    (packet_size, at_id) ← pure_run (lift (get_le 3 header))
    (sequence_id, rest) ← pure_run (lift (get_le 1 at_id))
    set_sequence_id ((sequence_id + 1) % 256)
    read_exact packet_size

  -- The loop of `recv_packet`. A stream without bytes has no part to read, so that a fuel of the
  -- number of bytes in the stream is enough.
  pub gather : ℕ → List ℕ → Recv (List ℕ)
  gather zero final_payload = pure_run (err unexpected_eof)
  gather (suc fuel) final_payload = do
    part ← recv_packet_part
    let more = gather fuel (final_payload ++ part) in
        if length part == max_payload then more else return (final_payload ++ part)

  pub rest_of : ℕ → List ℕ → Recv (List ℕ)
  rest_of fuel payload =
      let more = gather fuel payload in
      if ltb (length payload) max_payload then return payload else more

  pub recv_packet : Recv (List ℕ)
  recv_packet s =
      (recv_packet_part >>= λ part. rest_of (length s.incoming) part >>= check_payload) s
