-- ===== src/Core/WriteBuffer/Consuming.antt =====
-- Taking bytes from the front of the queue.
use sqlx.Base.{
  ℕ, ◌+◌, ◌≤◌, ◌≡◌, sym, true, arith, ltb, le→leb, lt→ltb, ◌==◌, Bool-cases, ok, length, take, drop,
  inl, inr,
}
use sqlx.Base.Slices.{slice, drop-all, drop-drop, length-slice}
use sqlx.Core.WriteBuffer.{WriteBuffer, usize_range, get, rewound, consume}
use sqlx.Core.WriteBuffer.Queue.{IsSane, checked-IsSane, length-get}

consumed-IsSane :
    (w : WriteBuffer) (n : ℕ)
    → IsSane w
    → w.bytes_flushed + n ≤ w.bytes_written
    → let r = rewound (record w { bytes_flushed = w.bytes_flushed + n }) in
      IsSane r × (get r ≡ drop n (get w))
unfolding rewound get
consumed-IsSane w n v h = elim (Bool-cases (w.bytes_flushed + n == w.bytes_written)) [
  | inl all ↦ rw all (
    omega (arith, v),
    sym (
        drop-all n (slice w.buf w.bytes_flushed w.bytes_written)
          (ground (arith, length-slice w.buf w.bytes_flushed w.bytes_written v.written))),
  )
  | inr part ↦
      rw part (omega (arith, v, h), sym (drop-drop n w.bytes_flushed (take w.bytes_written w.buf)))
]

-- `consume` never panics on a sane buffer when the queue has that many bytes: it leaves a sane
-- buffer, and takes that many bytes from the front of the queue.
pub consume_lem :
    (w : WriteBuffer) (n : ℕ)
    → IsSane w
    → n ≤ length (get w)
    → (w' : WriteBuffer) × (consume w n ≡ ok w') × IsSane w' × (get w' ≡ drop n (get w))
unfolding consume
consume_lem w n v h =
    let room : w.bytes_flushed + n ≤ w.bytes_written = omega (arith, length-get w v, v, h) in
    let range : ltb (w.bytes_flushed + n) usize_range ≡ true = lt→ltb _ _ (omega (arith, v)) in
    let (sane, rest) = consumed-IsSane w n v room in
    (
      rewound (record w { bytes_flushed = w.bytes_flushed + n }),
      rw (range, le→leb _ _ room) (checked-IsSane _ sane),
      sane,
      rest,
    )
