-- ===== src/Core/ReadBuffer/Delivery.antt =====
-- sqlx-core/src/net/socket/buffered.rs, the half that reads: what it delivers of what the socket gives.
use mathlib.Core.List.{append_assoc}
use sqlx.Base.{
  ℕ, suc, ◌+◌, ◌-◌, ◌≤◌, ◌<◌, ◌≡◌, refl, sym, ap, ◌∙◌, true, false, Bool-cases, inl, inr, List, [],
  ◌∷◌, ◌++◌, ltb, leb, length, length-append, length-take, take-append-drop, take, drop, arith,
}
use sqlx.Core.ReadBuffer.{
  Capacity, ReadBuffer, Reply, received, failed, done, Reading, reserve, read_more, try_read,
  read_buffered, split_front, advance,
}

-- The bytes of the replies, and that none is an error or the end of the file.
abbrev pub bytes_of : List Reply → List ℕ
bytes_of [] = []
bytes_of (failed ∷ rs) = bytes_of rs
bytes_of (received xs ∷ rs) = xs ++ bytes_of rs

abbrev pub AreBytes : List Reply → Type 0
AreBytes [] = Unit
AreBytes (failed ∷ rs) = ⊥
AreBytes (received xs ∷ rs) = (0 < length xs) × AreBytes rs

ltb-ge : (a b : ℕ) → b ≤ a → ltb a b ≡ false
ltb-ge a b h = ground arith

-- The read has ended with so many bytes, and none is lost.
abbrev pub Delivers : {E : Type 0} → ℕ → List ℕ → Reading E (Unit {0}) → Type 0
Delivers len all r =
    (r.progress ≡ done tt)
    × (len ≤ length r.buffer.read)
    × (r.buffer.read ++ bytes_of r.replies ≡ all)

module _ (capacity : Capacity) where
  open capacity use {reserve_more_enough, reserve_more_keeps}

  -- The socket is never read into nothing, so that no bytes from it are the end of the file.
  pub reserve_lem : (b : ReadBuffer) (amt : ℕ) → 0 < amt → 0 < (reserve capacity b amt).available
  unfolding reserve
  reserve_lem b amt h = elim (Bool-cases (leb b.available amt)) [
    | inl e ↦ rw e (
        omega (
          arith,
          h,
          reserve_more_enough b.available (amt - b.available),
          reserve_more_keeps b.available (amt - b.available),
        ))
    | inr e ↦ rw e (ground (arith, e, h))
  ]

  read_more-enough :
      {E : Type 0} (len : ℕ) (b : ReadBuffer) (rs : List Reply)
      → len ≤ length b.read
      → read_more capacity {E = E} len b rs
        ≡ record { buffer = b; progress = done tt; replies = rs }
  unfolding read_more
  read_more-enough len b [] h = rw (ltb-ge (length b.read) len h) refl
  read_more-enough len b (failed ∷ rs) h = rw (ltb-ge (length b.read) len h) refl
  read_more-enough len b (received [] ∷ rs) h = rw (ltb-ge (length b.read) len h) refl
  read_more-enough len b (received (x ∷ xs) ∷ rs) h = rw (ltb-ge (length b.read) len h) refl

  pub read_more-Delivers :
      {E : Type 0} (len : ℕ) (b : ReadBuffer) (rs : List Reply)
      → AreBytes rs
      → len ≤ length b.read + length (bytes_of rs)
      → Delivers {E = E} len (b.read ++ bytes_of rs) (read_more capacity len b rs)
  unfolding read_more reserve
  read_more-Delivers len b [] bytes h =
      let enough : len ≤ length b.read = omega (arith, h) in
      rw (ltb-ge (length b.read) len enough) (refl, enough, refl)
  read_more-Delivers len b (failed ∷ rs) bytes h = absurd bytes
  read_more-Delivers len b (received [] ∷ rs) (some_, bytes) h = absurd (omega (arith, some_))
  read_more-Delivers {E = E} len b (received (x ∷ xs) ∷ rs) (some_, bytes) h =
      elim (Bool-cases (ltb (length b.read) len)) [
        | inr e ↦
            let enough : len ≤ length b.read = ground (arith, e) in
            rw (ltb-ge (length b.read) len enough) (refl, enough, refl)
        | inl e ↦
            let next = advance (reserve capacity b (len - length b.read)) (x ∷ xs) in
            let total = length-append (x ∷ xs) (bytes_of rs) in
            let grown = length-append b.read (x ∷ xs) in
            let later =
              read_more-Delivers {E = E} len next rs bytes (omega (arith, h, total, grown)) in
            rw e (later.0, later.1, later.2 ∙ append_assoc b.read (x ∷ xs) (bytes_of rs))
      ]

  try_read-enough :
      (fuel len : ℕ) (b : ReadBuffer) (rs : List Reply)
      → len ≤ length b.read
      → try_read capacity (suc fuel) (split_front capacity len) b rs ≡ record {
        buffer = record b { read = drop len b.read };
        progress = done (take len b.read);
        replies = rs;
      }
  unfolding try_read
  try_read-enough fuel len b rs h = rw (ltb-ge (length b.read) len h) refl

  try_read-more :
      (fuel len : ℕ) (b : ReadBuffer) (rs : List Reply)
      → ltb (length b.read) len ≡ true
      → (read_more capacity {E = ⊥} len b rs).progress ≡ done tt
      → let r = read_more capacity {E = ⊥} len b rs in
        try_read capacity (suc fuel) (split_front capacity len) b rs
        ≡ try_read capacity fuel (split_front capacity len) r.buffer r.replies
  unfolding try_read
  try_read-more fuel len b rs e h = rw (e, h) refl

  -- The message has the length that was asked for, and with what is left it is all that there was.
  abbrev pub IsMessage : ℕ → List ℕ → Reading ⊥ (List ℕ) → Type 0
  IsMessage len all r =
      (message : List ℕ) × (r.progress ≡ done message)
      × (length message ≡ len)
      × (message ++ (r.buffer.read ++ bytes_of r.replies) ≡ all)

  try_read-IsMessage :
      (fuel len : ℕ) (b : ReadBuffer) (rs : List Reply)
      → len ≤ length b.read
      → IsMessage len
          (b.read ++ bytes_of rs)
          (try_read capacity (suc fuel) (split_front capacity len) b rs)
  try_read-IsMessage fuel len b rs h = rw (try_read-enough fuel len b rs h) (
    take len b.read,
    refl,
    omega (arith, length-take len b.read, h),
    sym (append_assoc (take len b.read) (drop len b.read) (bytes_of rs))
        ∙ ap (λ x. x ++ bytes_of rs) (take-append-drop len b.read),
  )

  -- If the replies of the socket bring bytes each, and enough of them, `read_buffered` returns as many
  -- bytes as it was asked for; and what it returns, what it leaves in the buffer and what it leaves to
  -- the socket are, in this order, all the bytes that were in the buffer and that the socket had.
  pub read_buffered_lem :
      (len : ℕ) (b : ReadBuffer) (rs : List Reply)
      → AreBytes rs
      → len ≤ length b.read + length (bytes_of rs)
      → IsMessage len (b.read ++ bytes_of rs) (read_buffered capacity len b rs)
  unfolding read_buffered
  read_buffered_lem len b rs bytes h = elim (Bool-cases (ltb (length b.read) len)) [
    | inr e ↦ try_read-IsMessage 1 len b rs (ground (arith, e))
    | inl e ↦
        let (ended, enough, all) = read_more-Delivers {E = ⊥} len b rs bytes h in
        let r = read_more capacity {E = ⊥} len b rs in
        rw (try_read-more 1 len b rs e ended, sym all)
          (try_read-IsMessage 0 len r.buffer r.replies enough)
  ]
