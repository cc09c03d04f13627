-- ===== src/Core/ReadBuffer.antt =====
-- sqlx-core/src/net/socket/buffered.rs, the half that reads: ReadBuffer, and the methods of
-- BufferedSocket that use it. Of `BytesMut`, which the crate `bytes` provides, the capacity is a
-- parameter. What the socket gives is a list of its replies, as far as it has answered.
pub mod Delivery
mod Tests
use sqlx.Base.{
  ℕ, zero, suc, ◌+◌, ◌-◌, ◌≤◌, Bool, true, false, List, [], ◌∷◌, ◌++◌, ltb, leb, if◌then◌else◌,
  length, take, drop, Outcome, ok, err, panic,
}
use sqlx.Core.WriteBuffer.{default_buf_size}

-- Empty bytes with a capacity: after `with_capacity`, after `reserve` of so many more, and after the
-- front has been split off.
pub record Capacity : Type 0 where
  pub with_capacity : ℕ → ℕ
  pub reserve_more : ℕ → ℕ → ℕ
  pub with_capacity_enough : (n : ℕ) → n ≤ with_capacity n
  pub reserve_more_enough : (c n : ℕ) → n ≤ reserve_more c n
  pub reserve_more_keeps : (c n : ℕ) → c ≤ reserve_more c n

-- The bytes that are read, and the capacity of those that are available.
pub record ReadBuffer : Type 0 where
  pub read : List ℕ
  pub available : ℕ

-- What one `socket.read` comes to.
pub data Reply : Type 0 where
  received : List ℕ → Reply
  failed : Reply

-- What a callback answers: `Break` with the bytes that it leaves, or `Continue`.
pub data ControlFlow (R : Type 0) : Type 0 where
  break : R → List ℕ → ControlFlow R
  continue : ℕ → ControlFlow R

-- How far a read is: its future has not ended while the socket has not answered. At the end of the
-- file, the bytes expected and those that there were.
pub data Progress (E R : Type 0) : Type 0 where
  done : R → Progress E R
  io_error : Progress E R
  unexpected_eof : ℕ → ℕ → Progress E R
  refused : E → Progress E R
  waiting panicked unfinished : Progress E R

pub record Reading (E R : Type 0) : Type 0 where
  pub buffer : ReadBuffer
  pub progress : Progress E R
  pub replies : List Reply

-- `split_to` of what has been read, and `unsplit`.
abbrev pub advance : ReadBuffer → List ℕ → ReadBuffer
advance b bytes = record { read = b.read ++ bytes; available = b.available - length bytes }

module _ (capacity : Capacity) where
  open capacity use {reserve_more, with_capacity}

  pub new : ReadBuffer
  new = record { read = []; available = with_capacity default_buf_size }

  -- `checked_sub` has a difference where it is not negative.
  unfoldable pub reserve : ReadBuffer → ℕ → ReadBuffer
  reserve b amt = record b {
    available =
        if leb b.available amt then reserve_more b.available (amt - b.available) else b.available;
  }

  unfoldable pub shrink : ReadBuffer → ReadBuffer
  shrink b =
      if ltb default_buf_size b.available
      then record b { available = with_capacity default_buf_size }
      else b

  -- `ReadBuffer::read`, which reserves before it reads.
  unfoldable pub read_more : {E : Type 0} → ℕ → ReadBuffer → List Reply → Reading E (Unit {0})
  unfolding reserve
  read_more len b [] =
      if ltb (length b.read) len
      then record { buffer = reserve b (len - length b.read); progress = waiting; replies = [] }
      else record { buffer = b; progress = done tt; replies = [] }
  read_more len b (failed ∷ rs) =
      if ltb (length b.read) len
      then record { buffer = reserve b (len - length b.read); progress = io_error; replies = rs }
      else record { buffer = b; progress = done tt; replies = failed ∷ rs }
  read_more len b (received [] ∷ rs) =
      if ltb (length b.read) len
      then record {
        buffer = reserve b (len - length b.read);
        progress = unexpected_eof len (length b.read);
        replies = rs;
      }
      else record { buffer = b; progress = done tt; replies = received [] ∷ rs }
  read_more len b (received (x ∷ xs) ∷ rs) =
      let later = read_more len (advance (reserve b (len - length b.read)) (x ∷ xs)) rs in
      if ltb (length b.read) len
      then later
      else record { buffer = b; progress = done tt; replies = received (x ∷ xs) ∷ rs }

  -- What follows on a read: another round where it is done, its end otherwise.
  abbrev pub continued :
      {E R : Type 0}
      → Progress E (Unit {0})
      → ReadBuffer
      → List Reply
      → (ReadBuffer → List Reply → Reading E R)
      → Reading E R
  continued (done u) b rs next = next b rs
  continued io_error b rs next = record { buffer = b; progress = io_error; replies = rs }
  continued (unexpected_eof n m) b rs next = record {
    buffer = b;
    progress = unexpected_eof n m;
    replies = rs;
  }
  continued (refused e) b rs next = record { buffer = b; progress = refused e; replies = rs }
  continued waiting b rs next = record { buffer = b; progress = waiting; replies = rs }
  continued panicked b rs next = record { buffer = b; progress = panicked; replies = rs }
  continued unfinished b rs next = record { buffer = b; progress = unfinished; replies = rs }

  -- A round of the loop, for what the callback answers.
  abbrev pub on_answer :
      {E R : Type 0}
      → Outcome E (ControlFlow R)
      → ReadBuffer
      → List Reply
      → (ReadBuffer → List Reply → Reading E R)
      → Reading E R
  on_answer (err e) b rs next = record { buffer = b; progress = refused e; replies = rs }
  on_answer panic b rs next = record { buffer = b; progress = panicked; replies = rs }
  on_answer (ok (break r left)) b rs next = record {
    buffer = record b { read = left };
    progress = done r;
    replies = rs;
  }
  on_answer (ok (continue len)) b rs next =
      let r = read_more len b rs in continued r.progress r.buffer r.replies next

  -- The loop, as long as there is fuel.
  unfoldable pub try_read :
      {E R : Type 0}
      → ℕ
      → (List ℕ → Outcome E (ControlFlow R))
      → ReadBuffer
      → List Reply
      → Reading E R
  unfolding read_more
  try_read zero f b rs = record { buffer = b; progress = unfinished; replies = rs }
  try_read (suc fuel) f b rs = on_answer (f b.read) b rs (try_read fuel f)

  -- The callback of `read_buffered`: the front is split off where it is there.
  abbrev pub split_front : ℕ → List ℕ → Outcome ⊥ (ControlFlow (List ℕ))
  split_front len buf =
      if ltb (length buf) len then ok (continue len) else ok (break (take len buf) (drop len buf))

  unfoldable pub read_buffered : ℕ → ReadBuffer → List Reply → Reading ⊥ (List ℕ)
  unfolding try_read
  read_buffered len b rs = try_read 2 (split_front len) b rs
