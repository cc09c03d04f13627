-- ===== src/Mysql/Response.antt =====
-- sqlx-mysql/src/protocol/response/ok.rs, eof.rs and status.rs, and what protocol/packet.rs makes of
-- them.
pub mod Errors
use sqlx.Base.{
  ℕ, ◌-◌, ◌*◌, ◌/◌, ◌%◌, ◌^◌, ◌<◌, ◌≡◌, refl, sym, Bool, true, false, not, ◌&&◌, ◌||◌, List, [],
  ◌∷◌, ◌++◌, ◌==◌, if◌then◌else◌, Outcome, ok, err, ◌>>=◌, lift, arith,
}
use mathlib.Core.List.{append-nil}
use sqlx.Base.Bytes.{Buf, to_le_bytes, get_u8, get_le-to_le_bytes}
use sqlx.Mysql.LengthEncoded.{get_uint_lenenc}
use sqlx.Mysql.LengthEncoded.RoundTrip.{head_byte, tail_bytes, get_uint_lenenc_lem}

-- `from_bits_truncate` clears the bits 4 and 32768.
abbrev pub from_bits_truncate : ℕ → ℕ
from_bits_truncate bits = bits % 32768 - bits / 4 % 2 * 4

-- `SERVER_MORE_RESULTS_EXISTS`.
abbrev pub has_more_results : ℕ → Bool
has_more_results status = status / 8 % 2 == 1

pub record OkPacket : Type 0 where
  pub affected_rows : ℕ
  pub last_insert_id : ℕ
  pub status : ℕ
  pub warnings : ℕ

pub record EofPacket : Type 0 where
  pub warnings : ℕ
  pub status : ℕ

-- The header that was found.
pub data ResponseError : Type 0 where
  expected_ok expected_eof : ℕ → ResponseError

module _ (buf : Buf) where
  open buf use {get_le}

  unfoldable pub decode_ok : List ℕ → Outcome ResponseError OkPacket
  decode_ok bytes = do
    (header, at_rows) ← lift (get_le 1 bytes)
    if not (header == 0) && not (header == 254) then err (expected_ok header) else do
      (rows, at_id) ← lift (get_uint_lenenc buf at_rows)
      (id, at_status) ← lift (get_uint_lenenc buf at_id)
      (bits, at_warnings) ← lift (get_le 2 at_status)
      (warnings, rest) ← lift (get_le 2 at_warnings)
      ok (record {
        affected_rows = rows;
        last_insert_id = id;
        status = from_bits_truncate bits;
        warnings = warnings;
      })

  unfoldable pub decode_eof : List ℕ → Outcome ResponseError EofPacket
  decode_eof bytes = do
    (header, at_warnings) ← lift (get_le 1 bytes)
    if not (header == 254) then err (expected_eof header) else do
      (warnings, at_status) ← lift (get_le 2 at_warnings)
      (bits, rest) ← lift (get_le 2 at_status)
      ok (record { warnings = warnings; status = from_bits_truncate bits })

  -- `Packet::eof`, for the capability DEPRECATE_EOF.
  unfoldable pub packet_eof : Bool → List ℕ → Outcome ResponseError EofPacket
  unfolding decode_ok decode_eof
  packet_eof false bytes = decode_eof bytes
  packet_eof true bytes = do
    o ← decode_ok bytes
    ok (record { warnings = o.warnings; status = o.status })

-- The packets as the server encodes them.
abbrev pub ok_packet : ℕ → ℕ → ℕ → ℕ → ℕ → List ℕ
ok_packet header rows id bits warnings =
    header
    ∷ head_byte rows
    ∷ (tail_bytes rows
        ++ head_byte id ∷ (tail_bytes id ++ (to_le_bytes 2 bits ++ to_le_bytes 2 warnings)))

abbrev pub eof_packet : ℕ → ℕ → List ℕ
eof_packet warnings bits = 254 ∷ (to_le_bytes 2 warnings ++ to_le_bytes 2 bits)

known : (h : ℕ) → (h == 0 || h == 254) ≡ true → (not (h == 0) && not (h == 254)) ≡ false
known h e = ground arith

module _ (buf : Buf) where
  pub decode_ok-ok_packet :
      (header rows id bits warnings : ℕ)
      → (header == 0 || header == 254) ≡ true
      → rows < 2 ^ 64
      → id < 2 ^ 64
      → bits < 65536
      → warnings < 65536
      → decode_ok buf (ok_packet header rows id bits warnings)
        ≡ ok (record {
          affected_rows = rows;
          last_insert_id = id;
          status = from_bits_truncate bits;
          warnings = warnings;
        })
  unfolding decode_ok
  decode_ok-ok_packet header rows id bits warnings hh hr hi hb hw =
      let at_status = to_le_bytes 2 bits ++ to_le_bytes 2 warnings in
      let at_id = head_byte id ∷ (tail_bytes id ++ at_status) in
      rw
        (
          get_u8 buf header (head_byte rows ∷ (tail_bytes rows ++ at_id)),
          known header hh,
          get_uint_lenenc_lem buf rows at_id hr,
          get_uint_lenenc_lem buf id at_status hi,
          get_le-to_le_bytes buf 2 bits (to_le_bytes 2 warnings) hb,
          sym (append-nil (to_le_bytes 2 warnings)),
          get_le-to_le_bytes buf 2 warnings [] hw,
        )
        refl

  pub packet_eof-eof_packet :
      (bits warnings : ℕ)
      → bits < 65536
      → warnings < 65536
      → packet_eof buf false (eof_packet warnings bits)
        ≡ ok (record { warnings = warnings; status = from_bits_truncate bits })
  unfolding packet_eof decode_eof
  packet_eof-eof_packet bits warnings hb hw =
      rw
        (
          get_u8 buf 254 (to_le_bytes 2 warnings ++ to_le_bytes 2 bits),
          get_le-to_le_bytes buf 2 warnings (to_le_bytes 2 bits) hw,
          sym (append-nil (to_le_bytes 2 bits)),
          get_le-to_le_bytes buf 2 bits [] hb,
        )
        refl
