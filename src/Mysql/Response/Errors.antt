-- ===== src/Mysql/Response/Errors.antt =====
-- sqlx-mysql/src/protocol/response/err.rs: the packet of an error.
use mathlib.Core.List.{append-nil}
use sqlx.Base.{
  ℕ, ◌<◌, ◌≡◌, refl, sym, ap, ◌∙◌, Bool, true, false, not, ◌&&◌, Option, none, some, List, [], ◌∷◌,
  ◌++◌, ◌==◌, if◌then◌else◌, Outcome, ok, err, ◌>>=◌, lift, map_err, length,
}
use sqlx.Base.Bytes.{Buf, to_le_bytes, get_u8, get_le-to_le_bytes, advance-append}
use sqlx.Core.BufExt.{BufError, get_str, get_str-append}

pub record ErrPacket : Type 0 where
  pub error_code : ℕ
  pub sql_state : Option (List ℕ)
  pub error_message : List ℕ

-- The header that was found, or a text that is not UTF-8.
pub data ErrError : Type 0 where
  expected_err : ℕ → ErrError
  bad_text : BufError → ErrError

-- `buf.starts_with(b"#")`.
abbrev pub has_state : List ℕ → Bool
has_state [] = false
has_state (c ∷ cs) = c == 35

module _ (buf : Buf) (is_utf8 : List ℕ → Bool) where
  open buf use {get_le, advance}

  abbrev read_state : Bool → List ℕ → Outcome ErrError (Option (List ℕ) × List ℕ)
  read_state false bytes = ok (none, bytes)
  read_state true bytes = do
    at_state ← lift (advance 1 bytes)
    (state, rest) ← map_err bad_text (get_str buf is_utf8 5 at_state)
    ok (some state, rest)

  -- `PROTOCOL_41` is a capability of the connection.
  pub decode_err : Bool → List ℕ → Outcome ErrError ErrPacket
  decode_err protocol_41 bytes = do
    (header, at_code) ← lift (get_le 1 bytes)
    if not (header == 255) then err (expected_err header) else do
      (code, at_state) ← lift (get_le 2 at_code)
      (state, at_message) ← read_state (protocol_41 && has_state at_state) at_state
      (message, rest) ← map_err bad_text (get_str buf is_utf8 (length at_message) at_message)
      ok (record { error_code = code; sql_state = state; error_message = message })

-- The packet as the server encodes it: a state stands behind a `#`.
abbrev state_bytes : Option (List ℕ) → List ℕ
state_bytes none = []
state_bytes (some state) = 35 ∷ state

abbrev pub err_packet : ErrPacket → List ℕ
err_packet p = 255 ∷ (to_le_bytes 2 p.error_code ++ (state_bytes p.sql_state ++ p.error_message))

-- A state has five bytes, and a message without one does not start with a `#`.
abbrev IsState : (List ℕ → Bool) → Option (List ℕ) → List ℕ → Type 0
IsState is_utf8 none message = has_state message ≡ false
IsState is_utf8 (some state) message = (length state ≡ 5) × (is_utf8 state ≡ true)

module _ (buf : Buf) (is_utf8 : List ℕ → Bool) where
  read_state_lem :
      (state : Option (List ℕ)) (message : List ℕ)
      → IsState is_utf8 state message
      → read_state buf is_utf8
          (has_state (state_bytes state ++ message))
          (state_bytes state ++ message)
        ≡ ok (state, message)
  read_state_lem none message plain = rw plain refl
  read_state_lem (some state) message (five, text) =
      let read =
        ap (λ n. get_str buf is_utf8 n (state ++ message)) (sym five)
        ∙ get_str-append buf is_utf8 state message in
      rw (advance-append buf (35 ∷ []) (state ++ message), read, text) refl

  -- An error of the server with a code of 16 bits and texts of UTF-8 is read back as it was, with its
  -- state, by a connection with the capability PROTOCOL_41; a message that has no state is, if it
  -- does not start with a `#`.
  decode_err-err_packet :
      (p : ErrPacket)
      → p.error_code < 65536
      → IsState is_utf8 p.sql_state p.error_message
      → is_utf8 p.error_message ≡ true
      → decode_err buf is_utf8 true (err_packet p) ≡ ok p
  unfolding decode_err
  decode_err-err_packet p code state text =
      let whole =
        ap (get_str buf is_utf8 (length p.error_message)) (sym (append-nil p.error_message))
        ∙ get_str-append buf is_utf8 p.error_message [] in
      rw
        (
          get_u8 buf 255
              (to_le_bytes 2 p.error_code ++ (state_bytes p.sql_state ++ p.error_message)),
          get_le-to_le_bytes buf 2 p.error_code (state_bytes p.sql_state ++ p.error_message) code,
          read_state_lem p.sql_state p.error_message state,
          whole,
          text,
        )
        refl
