-- ===== src/Core/WriteBuffer/Queue.antt =====
-- The write buffer as a queue of bytes: `get` is the queue, writing adds at its end, and `consume`
-- takes from its front.
use mathlib.Core.List.{append-nil}
use sqlx.Base.{
  ℕ, ◌+◌, ◌-◌, ◌≤◌, ◌<◌, ◌≡◌, refl, sym, ap, ◌∙◌, List, [], ◌++◌, arith, leb, leb→le, le→leb,
  Bool-cases, ok, length, take, drop, length-append, length-take, length-drop, inl, inr,
}
use sqlx.Base.Slices.{
  slice, take-append, take-append_length, drop-append_le, take-take, length-slice,
}
use sqlx.Core.WriteBuffer.{
  WriteBuffer, usize_range, reserve, sanity_check, checked, buf_mut, advance, placed, put_slice,
  get,
}

-- The assertions of `sanity_check`, and what `Vec` promises of its length.
pub record IsSane (w : WriteBuffer) : Type 0 where
  pub allocated : 0 < w.capacity
  pub within : length w.buf ≤ w.capacity
  pub fits : length w.buf < usize_range
  pub written : w.bytes_written ≤ length w.buf
  pub in_order : w.bytes_flushed ≤ w.bytes_written

pub checked-IsSane : (w : WriteBuffer) → IsSane w → checked w ≡ ok w
unfolding checked
checked-IsSane w v = ground arith

pub sanity_check-IsSane : (w : WriteBuffer) → IsSane w → sanity_check w ≡ ok tt
unfolding sanity_check
sanity_check-IsSane w v = ground arith

pub reserve-fits : (cap need : ℕ) → 0 < cap → (0 < reserve cap need) × (need ≤ reserve cap need)
unfolding reserve
reserve-fits cap need h = ground arith

pub length-get : (w : WriteBuffer) → IsSane w → length (get w) ≡ w.bytes_written - w.bytes_flushed
unfolding get
length-get w v = length-slice w.buf w.bytes_flushed w.bytes_written v.written

-- A write behind the cursor joins the queue at its end, whatever stands behind the written bytes.
pub get-written :
    (buf bytes tail : List ℕ) (f n : ℕ)
    → f ≤ n
    → n ≤ length buf
    → slice (take n buf ++ (bytes ++ tail)) f (n + length bytes) ≡ slice buf f n ++ bytes
get-written buf bytes tail f n hf hn =
    ap (drop f) (
      take-append_length (take n buf) (bytes ++ tail) n (length bytes)
        (omega (arith, length-take n buf))
      ∙ ap (◌++◌ (take n buf)) (take-append bytes tail (length bytes) refl))
    ∙ drop-append_le (take n buf) bytes f (omega (arith, length-take n buf))

pub buf_mut-IsSane :
    (w : WriteBuffer)
    → IsSane w
    → (w' : WriteBuffer) × (buf_mut w ≡ ok w')
      × IsSane w'
      × (get w' ≡ get w)
      × (w'.buf ≡ take w.bytes_written w.buf)
      × (w'.bytes_written ≡ w.bytes_written)
      × (w'.bytes_flushed ≡ w.bytes_flushed)
unfolding buf_mut get
buf_mut-IsSane w v = (
  record w { buf = take w.bytes_written w.buf },
  checked-IsSane _ sane,
  sane,
  ap (drop w.bytes_flushed) (take-take w.bytes_written w.bytes_written w.buf (omega arith)),
  refl,
  refl,
  refl,
)
  where
    sane : IsSane (record w { buf = take w.bytes_written w.buf })
    sane = omega (arith, length-take w.bytes_written w.buf, v)

abbrev pub advanced : WriteBuffer → ℕ → WriteBuffer
advanced w n = record w { bytes_written = w.bytes_written + n }

pub advance_lem :
    (w : WriteBuffer) (n : ℕ)
    → IsSane w
    → w.bytes_written + n ≤ length w.buf
    → (advance w n ≡ ok (advanced w n)) × IsSane (advanced w n)
unfolding advance checked
advance_lem w n v h = (ground arith, omega arith)

-- What `put_slice` leaves before it moves the cursor.
record Placed (w : WriteBuffer) (bytes : List ℕ) (p : WriteBuffer) : Type 0 where
  sane : IsSane p
  room : p.bytes_written + length bytes ≤ length p.buf
  joined : get (advanced p (length bytes)) ≡ get w ++ bytes

Placed-over :
    (w : WriteBuffer) (bytes : List ℕ)
    → IsSane w
    → w.bytes_written + length bytes ≤ length w.buf
    → let end = w.bytes_written + length bytes in
      Placed w bytes (record w { buf = take w.bytes_written w.buf ++ (bytes ++ drop end w.buf) })
unfolding get
Placed-over w bytes v h = record {
  sane = omega (arith, len);
  room = omega (arith, len);
  joined = get-written w.buf bytes tail w.bytes_flushed w.bytes_written v.in_order v.written;
}
  where
    tail : List ℕ
    tail = drop (w.bytes_written + length bytes) w.buf

    len : length (take w.bytes_written w.buf ++ (bytes ++ tail)) ≡ length w.buf
    len = omega (
      arith,
      length-append (take w.bytes_written w.buf) (bytes ++ tail),
      length-append bytes tail,
      length-take w.bytes_written w.buf,
      length-drop (w.bytes_written + length bytes) w.buf,
      v,
      h,
    )

Placed-after :
    (w : WriteBuffer) (bytes : List ℕ)
    → IsSane w
    → w.bytes_written + length bytes < usize_range
    → Placed w bytes (record w {
      buf = take w.bytes_written w.buf ++ bytes;
      capacity = reserve w.capacity (w.bytes_written + length bytes);
    })
unfolding get
Placed-after w bytes v h = record {
  sane = omega (arith, len, cap);
  room = omega (arith, len);
  joined =
      ap
        (λ t.
          slice (take w.bytes_written w.buf ++ t) w.bytes_flushed (w.bytes_written + length bytes))
        (sym (append-nil bytes))
      ∙ get-written w.buf bytes [] w.bytes_flushed w.bytes_written v.in_order v.written;
}
  where
    cap :
        (0 < reserve w.capacity (w.bytes_written + length bytes))
        × (w.bytes_written + length bytes ≤ reserve w.capacity (w.bytes_written + length bytes))
    cap = reserve-fits w.capacity (w.bytes_written + length bytes) v.allocated

    len : length (take w.bytes_written w.buf ++ bytes) ≡ w.bytes_written + length bytes
    len = omega (
      arith,
      length-append (take w.bytes_written w.buf) bytes,
      length-take w.bytes_written w.buf,
      v,
    )

placed-Placed :
    (w : WriteBuffer) (bytes : List ℕ)
    → IsSane w
    → w.bytes_written + length bytes < usize_range
    → Placed w bytes (placed w bytes)
unfolding placed
placed-Placed w bytes v h =
    elim (Bool-cases (leb (w.bytes_written + length bytes) (length w.buf))) [
      | inl fits ↦ rw fits (Placed-over w bytes v (leb→le _ _ fits))
      | inr full ↦ rw full (Placed-after w bytes v h)
    ]

-- `put_slice` never panics on a sane buffer whose length stays within `usize`: it leaves a sane
-- buffer, and the bytes join the queue at its end.
pub put_slice_lem :
    (w : WriteBuffer) (bytes : List ℕ)
    → IsSane w
    → w.bytes_written + length bytes < usize_range
    → (w' : WriteBuffer) × (put_slice w bytes ≡ ok w') × IsSane w' × (get w' ≡ get w ++ bytes)
unfolding put_slice
put_slice_lem w bytes v h =
    let p = placed-Placed w bytes v h in
    let (moved, sane) = advance_lem (placed w bytes) (length bytes) p.sane p.room in
    (
      advanced (placed w bytes) (length bytes),
      rw (le→leb _ _ v.written, moved) (checked-IsSane _ sane),
      sane,
      p.joined,
    )
