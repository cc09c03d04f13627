-- ===== src/Postgres/Backend/Notice.antt =====
-- sqlx-postgres/src/message/response.rs: notices and errors of the server, and their fields. The crate
-- `memchr` and the check for UTF-8 are parameters. The loops over the fields run on fuel of the
-- length of the message, of which each field takes two bytes or more.
pub mod Ranges
pub mod Fuel
pub mod Cached
use sqlx.Base.{
  ℕ, zero, suc, ◌+◌, ◌≤◌, ◌<◌, ◌≡◌, Bool, true, false, not, ◌&&◌, ◌||◌, Option, none, some, List,
  [], ◌∷◌, leb, ◌==◌, if◌then◌else◌, Outcome, ok, err, panic, ◌>>=◌, length, drop, get_elem?,
}
use sqlx.Base.Eq.{list_eq, nat_eq}
use sqlx.Base.Text.{codes}
use sqlx.Base.Slices.{slice}

pub data PgSeverity : Type 0 where
  panicked fatal error warning notice debug info log : PgSeverity

unfoldable pub is_error : PgSeverity → Bool
is_error panicked = true
is_error fatal = true
is_error error = true
is_error _ = false

-- `TryFrom<&str>`.
unfoldable pub severity_from : List ℕ → Option PgSeverity
severity_from s =
    if list_eq s (codes "PANIC")
    then some panicked
    else if list_eq s (codes "FATAL")
    then some fatal
    else if list_eq s (codes "ERROR")
    then some error
    else if list_eq s (codes "WARNING")
    then some warning
    else if list_eq s (codes "NOTICE")
    then some notice
    else if list_eq s (codes "DEBUG")
    then some debug
    else if list_eq s (codes "INFO")
    then some info
    else if list_eq s (codes "LOG")
    then some log
    else none

pub data NoticeError : Type 0 where
  not_utf8 : NoticeError
  unknown_severity : List ℕ → NoticeError

pub record Notice : Type 0 where
  pub storage : List ℕ
  pub severity : PgSeverity
  pub message : ℕ × ℕ
  pub code : ℕ × ℕ

abbrev pub known_or : List ℕ → Option PgSeverity → Outcome NoticeError PgSeverity
known_or text none = err (unknown_severity text)
known_or text (some s) = ok s

-- What the loop of `decode_with` has found.
pub record Seen : Type 0 where
  pub severity_v : Option PgSeverity
  pub severity_s : Option PgSeverity
  pub message : ℕ × ℕ
  pub code : ℕ × ℕ

abbrev pub nothing_seen : Seen
nothing_seen = record { severity_v = none; severity_s = none; message = (0, 0); code = (0, 0) }

abbrev pub is_empty_range : ℕ × ℕ → Bool
is_empty_range (start, end_) = leb end_ start

-- The slice at a range, which panics out of bounds.
abbrev pub index : {E : Type 0} → List ℕ → ℕ × ℕ → Outcome E (List ℕ)
index buf (start, end_) =
    if leb start end_ && leb end_ (length buf) then ok (slice buf start end_) else panic

-- `severity_v.or(severity_s).unwrap_or(DEFAULT_SEVERITY)`.
abbrev pub severity_or : Option PgSeverity → Option PgSeverity → PgSeverity
severity_or (some v) s = v
severity_or none (some s) = s
severity_or none none = log

module _ (memchr : ℕ → List ℕ → Option ℕ) (is_utf8 : List ℕ → Bool) where
  -- The tag and the range of a field, and the offset behind it.
  abbrev pub FieldRange : Type 0
  FieldRange = ℕ × (ℕ × ℕ) × ℕ

  abbrev pub field_to : ℕ → ℕ → Option ℕ → Option FieldRange
  field_to ty start none = none
  field_to ty start (some len) = some (ty, (start, start + len), start + len + 1)

  abbrev pub field_from : List ℕ → ℕ → Option ℕ → Option FieldRange
  field_from storage offset none = none
  field_from storage offset (some ty) =
      if ty == 0 then none else field_to ty (offset + 1) (memchr 0 (drop (offset + 1) storage))

  -- `Fields::next`.
  unfoldable pub next_field : List ℕ → ℕ → Option FieldRange
  next_field storage offset = field_from storage offset (get_elem? storage offset)

  abbrev pub utf8_at : List ℕ → ℕ × ℕ → Outcome NoticeError (List ℕ)
  utf8_at buf v = index buf v >>= λ text. if is_utf8 text then ok text else err not_utf8

  -- The arms of the match: the fields S, V, M and C.
  unfoldable pub on_field : List ℕ → ℕ → ℕ × ℕ → Seen → Outcome NoticeError Seen
  on_field buf field v seen =
      if field == 83
      then (utf8_at buf v >>= λ text. ok (record seen { severity_s = severity_from text }))
      else if field == 86
      then (utf8_at buf v >>= λ text.
          known_or text (severity_from text) >>= λ s. ok (record seen { severity_v = some s }))
      else if field == 77
      then (utf8_at buf v >>= λ text. ok (record seen { message = v }))
      else if field == 67
      then (utf8_at buf v >>= λ text. ok (record seen { code = v }))
      else ok seen

  -- A round of the loop of `decode_with`, and the loop.
  abbrev pub on_next :
      Option FieldRange
      → List ℕ
      → Seen
      → (ℕ → Seen → Outcome NoticeError Seen)
      → Outcome NoticeError Seen
  unfolding on_field
  on_next none buf seen rest = ok seen
  on_next (some (field, v, next)) buf seen rest =
      if not (is_empty_range seen.message || is_empty_range seen.code)
      then ok seen
      else on_field buf field v seen >>= rest next

  unfoldable pub read_fields : ℕ → List ℕ → ℕ → Seen → Outcome NoticeError Seen
  read_fields zero buf offset seen = ok seen
  read_fields (suc fuel) buf offset seen =
      on_next (next_field buf offset) buf seen (read_fields fuel buf)

  unfoldable pub decode_with : List ℕ → Outcome NoticeError Notice
  unfolding read_fields
  decode_with buf = read_fields (length buf) buf 0 nothing_seen >>= λ seen. ok (record {
    storage = buf;
    severity = severity_or seen.severity_v seen.severity_s;
    message = seen.message;
    code = seen.code;
  })

  -- The `unwrap` of bytes that are not UTF-8 panics.
  unfoldable pub get_cached_str : List ℕ → ℕ × ℕ → Outcome ⊥ (List ℕ)
  get_cached_str storage cache =
      index storage cache >>= λ text. if is_utf8 text then ok text else panic

  -- A round of the search of `get_raw`, and the search.
  abbrev pub find_next :
      Option FieldRange
      → ℕ
      → List ℕ
      → (ℕ → Outcome ⊥ (Option (List ℕ)))
      → Outcome ⊥ (Option (List ℕ))
  find_next none ty storage rest = ok none
  find_next (some (field, v, next)) ty storage rest =
      if field == ty then (index storage v >>= λ text. ok (some text)) else rest next

  unfoldable pub find_field : ℕ → ℕ → List ℕ → ℕ → Outcome ⊥ (Option (List ℕ))
  find_field zero ty storage offset = ok none
  find_field (suc fuel) ty storage offset =
      find_next (next_field storage offset) ty storage (find_field fuel ty storage)

  unfoldable pub get_raw : Notice → ℕ → Outcome ⊥ (Option (List ℕ))
  unfolding find_field
  get_raw n ty = find_field (length n.storage) ty n.storage 0
