-- ===== src/Core/WriteBuffer/Writing.antt =====
-- Encoding a value into the queue.
use mathlib.Core.List.{append-nil}
use sqlx.Base.{
  ℕ, ◌+◌, ◌≤◌, ◌<◌, ◌≡◌, refl, sym, ap, ◌∙◌, Option, none, some, List, [], ◌++◌, arith, ok, length,
  take, drop, length-append, length-take,
}
use sqlx.Base.Slices.{slice, take-append, drop-append_le, take-all}
use sqlx.Core.WriteBuffer.{
  WriteBuffer, usize_range, reserve, get, Encoder, finish_write, write_with,
}
use sqlx.Core.WriteBuffer.Queue.{IsSane, sanity_check-IsSane, reserve-fits, buf_mut-IsSane}

-- What a write adds to the queue: nothing, if the encoder failed.
abbrev pub added_by : {E : Type 0} → List ℕ → Option E → List ℕ
added_by bytes none = bytes
added_by bytes (some e) = []

finish_write_lem :
    {E : Type 0} (w : WriteBuffer) (bytes : List ℕ) (r : Option E)
    → IsSane w
    → length w.buf ≡ w.bytes_written
    → w.bytes_written + length bytes < usize_range
    → (w' : WriteBuffer) × (finish_write w (w.buf ++ bytes) r ≡ ok (w', r))
      × IsSane w'
      × (get w' ≡ get w ++ added_by bytes r)
unfolding finish_write get
finish_write_lem w bytes (some e) v full h = (
  record w { buf = w.buf ++ bytes; capacity = reserve w.capacity (length (w.buf ++ bytes)) },
  refl,
  omega (arith, len, cap, v),
  ap (drop w.bytes_flushed) (
        take-append w.buf bytes w.bytes_written full
        ∙ sym (take-all w.bytes_written w.buf (omega arith)))
      ∙ sym (append-nil (slice w.buf w.bytes_flushed w.bytes_written)),
)
  where
    len : length (w.buf ++ bytes) ≡ w.bytes_written + length bytes
    len = omega (arith, length-append w.buf bytes)

    cap :
        (0 < reserve w.capacity (length (w.buf ++ bytes)))
        × (length (w.buf ++ bytes) ≤ reserve w.capacity (length (w.buf ++ bytes)))
    cap = reserve-fits w.capacity (length (w.buf ++ bytes)) v.allocated
finish_write_lem w bytes none v full h = (w', rw (sanity_check-IsSane w' sane), sane, joined)
  where
    len : length (w.buf ++ bytes) ≡ w.bytes_written + length bytes
    len = omega (arith, length-append w.buf bytes)

    cap :
        (0 < reserve w.capacity (length (w.buf ++ bytes)))
        × (length (w.buf ++ bytes) ≤ reserve w.capacity (length (w.buf ++ bytes)))
    cap = reserve-fits w.capacity (length (w.buf ++ bytes)) v.allocated

    w' : WriteBuffer
    w' = record w {
      buf = w.buf ++ bytes;
      capacity = reserve w.capacity (length (w.buf ++ bytes));
      bytes_written = length (w.buf ++ bytes);
    }

    sane : IsSane w'
    sane = omega (arith, len, cap, v)

    joined :
        drop w.bytes_flushed (take (length (w.buf ++ bytes)) (w.buf ++ bytes))
        ≡ slice w.buf w.bytes_flushed w.bytes_written ++ bytes
    joined =
        ap (drop w.bytes_flushed) (take-all _ (w.buf ++ bytes) (omega arith))
        ∙ drop-append_le w.buf bytes w.bytes_flushed (omega (arith, v))
        ∙ ap (λ t. drop w.bytes_flushed t ++ bytes)
            (sym (take-all w.bytes_written w.buf (omega arith)))

-- `write_with` never panics on a sane buffer, for an encoder that appends to the vector it is given
-- and stays within `usize`. Where the encoder succeeds its bytes join the queue; where it fails,
-- whatever it had appended by then, the error comes back and the queue is as before.
pub write_with_lem :
    {E : Type 0} (encode : Encoder E) (w : WriteBuffer) (bytes : List ℕ) (r : Option E)
    → IsSane w
    → encode (take w.bytes_written w.buf) ≡ (take w.bytes_written w.buf ++ bytes, r)
    → w.bytes_written + length bytes < usize_range
    → (w' : WriteBuffer) × (write_with encode w ≡ ok (w', r))
      × IsSane w'
      × (get w' ≡ get w ++ added_by bytes r)
unfolding write_with
write_with_lem encode w bytes r v e h =
    let (w', opened, sane, kept, cut, written, flushed) = buf_mut-IsSane w v in
    let (w'', done, sane', joined) =
      finish_write_lem w' bytes r sane
        (omega (arith, ap length cut, length-take w.bytes_written w.buf, v)) (omega arith) in
    let encoded : encode w'.buf ≡ (w'.buf ++ bytes, r) = rw cut e in
    (
      w'',
      rw opened (ap (λ p. finish_write w' p.0 p.1) encoded ∙ done),
      sane',
      joined ∙ ap (λ q. q ++ added_by bytes r) kept,
    )
