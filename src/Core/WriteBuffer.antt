-- ===== src/Core/WriteBuffer.antt =====
-- sqlx-core/src/net/socket/buffered.rs, the half that writes: WriteBuffer, and the methods of
-- BufferedSocket that use it. The capacity of the vector is a field, kept as `Vec` keeps it.
pub mod Queue
pub mod Consuming
pub mod Writing
pub mod Shrink
pub mod Flushing
mod Tests
use sqlx.Base.{
  ℕ, zero, suc, ◌+◌, ◌-◌, ◌*◌, ◌^◌, max, Bool, true, false, Option, none, some, List, [], ◌∷◌, ◌++◌,
  ltb, leb, ◌==◌, not, if◌then◌else◌, Outcome, ok, err, panic, ◌>>=◌, ◌>>◌, ensure, expect, length,
  take, drop, replicate,
}
use sqlx.Base.Slices.{slice}

abbrev pub default_buf_size : ℕ
default_buf_size = 8192

-- The range of `usize`.
abbrev pub usize_range : ℕ
usize_range = 2 ^ 64

abbrev pub checked_add : ℕ → ℕ → Option ℕ
checked_add a b = if ltb (a + b) usize_range then some (a + b) else none

pub record WriteBuffer : Type 0 where
  pub buf : List ℕ
  pub capacity : ℕ
  pub bytes_written : ℕ
  pub bytes_flushed : ℕ

-- `Vec::reserve`: the capacity doubles at least, when `need` does not fit.
pub reserve : ℕ → ℕ → ℕ
reserve cap need = if leb need cap then cap else max (2 * cap) (max need 8)

pub new : WriteBuffer
new = record { buf = []; capacity = default_buf_size; bytes_written = 0; bytes_flushed = 0 }

pub sanity_check : WriteBuffer → Outcome ⊥ (Unit {0})
sanity_check w = do
  ensure (not (w.capacity == 0))
  ensure (leb w.bytes_written (length w.buf))
  ensure (leb w.bytes_flushed w.bytes_written)

pub checked : WriteBuffer → Outcome ⊥ WriteBuffer
unfolding sanity_check
checked w = do sanity_check w; ok w

pub buf_mut : WriteBuffer → Outcome ⊥ WriteBuffer
unfolding checked
buf_mut w = checked (record w { buf = take w.bytes_written w.buf })

-- `Vec::resize(n, 0)`.
resize : ℕ → List ℕ → List ℕ
resize n xs = take n xs ++ replicate (n - length xs) 0

pub init_remaining_mut : WriteBuffer → Outcome ⊥ WriteBuffer
unfolding checked resize
init_remaining_mut w = checked (record w { buf = resize w.capacity w.buf })

pub advance : WriteBuffer → ℕ → Outcome ⊥ WriteBuffer
unfolding checked
advance w amt = do
  new_bytes_written ← expect (checked_add w.bytes_written amt)
  ensure (leb new_bytes_written (length w.buf))
  checked (record w { bytes_written = new_bytes_written })

-- The slice goes over initialised bytes where it fits, and is appended otherwise.
pub placed : WriteBuffer → List ℕ → WriteBuffer
unfolding reserve
placed w bytes =
    let end = w.bytes_written + length bytes in
    if leb end (length w.buf)
    then record w { buf = take w.bytes_written w.buf ++ (bytes ++ drop end w.buf) }
    else record w { buf = take w.bytes_written w.buf ++ bytes; capacity = reserve w.capacity end }

pub put_slice : WriteBuffer → List ℕ → Outcome ⊥ WriteBuffer
put_slice w bytes = do
  ensure (leb w.bytes_written (length w.buf))
  w' ← advance (placed w bytes) (length bytes)
  checked w'

pub is_empty : WriteBuffer → Bool
is_empty w = leb w.bytes_written w.bytes_flushed

pub is_full : WriteBuffer → Bool
is_full w = w.bytes_written == length w.buf

-- What is still to be sent.
pub get : WriteBuffer → List ℕ
get w = slice w.buf w.bytes_flushed w.bytes_written

-- `copy_within(flushed..written, 0)`, and both cursors moved back.
to_front : WriteBuffer → WriteBuffer
to_front w =
    let n : ℕ = w.bytes_written - w.bytes_flushed in
    if ltb 0 w.bytes_flushed
    then record w {
      buf = slice w.buf w.bytes_flushed w.bytes_written ++ drop n w.buf;
      bytes_written = n;
      bytes_flushed = 0;
    }
    else w

-- `truncate` and `shrink_to_fit`, which leaves no spare capacity.
trim : WriteBuffer → WriteBuffer
trim w =
    let kept = take (max w.bytes_written default_buf_size) w.buf in
    record w { buf = kept; capacity = length kept }

pub shrink : WriteBuffer → WriteBuffer
unfolding to_front trim
shrink w = trim (to_front w)

-- Both cursors go back to the start once all is flushed.
pub rewound : WriteBuffer → WriteBuffer
rewound w =
    if w.bytes_flushed == w.bytes_written
    then record w { bytes_written = 0; bytes_flushed = 0 }
    else w

pub consume : WriteBuffer → ℕ → Outcome ⊥ WriteBuffer
unfolding checked rewound
consume w amt = do
  new_bytes_flushed ← expect (checked_add w.bytes_flushed amt)
  ensure (leb new_bytes_flushed w.bytes_written)
  checked (rewound (record w { bytes_flushed = new_bytes_flushed }))

-- An encoder changes the vector that it is given, and may fail after having written to it.
abbrev pub Encoder : Type 0 → Type 0
Encoder E = List ℕ → List ℕ × Option E

-- What `write_with` does with the vector that the encoder leaves: on an error it returns at once.
pub finish_write :
    {E : Type 0} → WriteBuffer → List ℕ → Option E → Outcome ⊥ (WriteBuffer × Option E)
finish_write w bytes (some e) =
    ok (record w { buf = bytes; capacity = reserve w.capacity (length bytes) }, some e)
finish_write w bytes none =
    let w' : WriteBuffer = record w {
      buf = bytes;
      capacity = reserve w.capacity (length bytes);
      bytes_written = length bytes;
    } in
    do sanity_check w'; ok (w', none)

-- `write_with`, for the encoder of the value and its context.
pub write_with : {E : Type 0} → Encoder E → WriteBuffer → Outcome ⊥ (WriteBuffer × Option E)
write_with encode w = do w' ← buf_mut w; finish_write w' (encode w'.buf).0 (encode w'.buf).1

-- What one `socket.write` comes to: the number of bytes that it took, or an I/O error.
pub data Reply : Type 0 where
  wrote : ℕ → Reply
  failed : Reply

-- What `socket.flush`, which comes last, comes to: it ends, with an error or without, or has not yet.
pub data Closing : Type 0 where
  done refused pending : Closing

-- How far `flush` is: its future has not ended while the socket has not answered.
pub data Progress : Type 0 where
  flushed io_error waiting : Progress

pub record Flush : Type 0 where
  pub buffer : WriteBuffer
  pub sent : List ℕ
  pub progress : Progress

abbrev pub also_sent : List ℕ → Flush → Flush
also_sent bytes f = record f { sent = bytes ++ f.sent }

-- `self.socket.flush().await?`.
abbrev pub closing : Closing → Progress
closing done = flushed
closing refused = io_error
closing pending = waiting

-- `flush`, against the replies of `socket.write` so far, and that of `socket.flush`.
pub flush : WriteBuffer → List Reply → Closing → Outcome ⊥ Flush
flush w [] last =
    ok (record { buffer = w; sent = []; progress = if is_empty w then closing last else waiting })
flush w (failed ∷ rs) last =
    ok (record { buffer = w; sent = []; progress = if is_empty w then closing last else io_error })
flush w (wrote n ∷ rs) last = elim (is_empty w) [
  | true ↦ ok (record { buffer = w; sent = []; progress = closing last })
  | false ↦ do
    w' ← consume w n
    sanity_check w'
    rest ← flush w' rs last
    ok (also_sent (take n (get w)) rest)
]
