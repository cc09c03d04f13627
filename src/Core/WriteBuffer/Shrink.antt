-- ===== src/Core/WriteBuffer/Shrink.antt =====
-- Giving back memory: the queue survives, and one assertion may not.
use sqlx.Base.{
  ◌-◌, ◌≤◌, ◌<◌, ◌≡◌, refl, ap, ◌∙◌, max, [], ◌++◌, arith, ltb, Bool-cases, panic, length, take,
  drop, length-append, length-take, length-drop, inl, inr,
}
use sqlx.Base.Slices.{slice, take-append, take-take, length-slice}
use sqlx.Core.WriteBuffer.{
  WriteBuffer, usize_range, default_buf_size, buf_mut, get, checked, sanity_check, to_front, trim,
  shrink,
}
use sqlx.Core.WriteBuffer.Queue.{IsSane}

-- What `IsSane` says, but for the capacity.
record IsOrdered (w : WriteBuffer) : Type 0 where
  fits : length w.buf < usize_range
  written : w.bytes_written ≤ length w.buf
  in_order : w.bytes_flushed ≤ w.bytes_written

to_front_lem :
    (w : WriteBuffer)
    → IsSane w
    → IsOrdered (to_front w) × (get (to_front w) ≡ get w) × (length (to_front w).buf ≡ length w.buf)
unfolding to_front get
to_front_lem w v = elim (Bool-cases (ltb 0 w.bytes_flushed)) [
  | inl some_flushed ↦ rw some_flushed (
    omega (arith, v, len),
    take-append (slice w.buf w.bytes_flushed w.bytes_written)
        (drop (w.bytes_written - w.bytes_flushed) w.buf) (w.bytes_written - w.bytes_flushed) held,
    len,
  )
  | inr none_flushed ↦ rw none_flushed (omega (arith, v), refl, refl)
]
  where
    held : length (slice w.buf w.bytes_flushed w.bytes_written) ≡ w.bytes_written - w.bytes_flushed
    held = length-slice w.buf w.bytes_flushed w.bytes_written v.written

    len :
        length (
          slice w.buf w.bytes_flushed w.bytes_written
          ++ drop (w.bytes_written - w.bytes_flushed) w.buf)
        ≡ length w.buf
    len = omega (
      arith,
      held,
      length-append (slice w.buf w.bytes_flushed w.bytes_written)
          (drop (w.bytes_written - w.bytes_flushed) w.buf),
      length-drop (w.bytes_written - w.bytes_flushed) w.buf,
      v,
    )

trim_lem :
    (w : WriteBuffer)
    → IsOrdered w
    → IsOrdered (trim w) × (get (trim w) ≡ get w) × (0 < length w.buf → IsSane (trim w))
unfolding trim get
trim_lem w v = (
  omega (arith, len, v),
  ap (drop w.bytes_flushed)
      (take-take w.bytes_written (max w.bytes_written default_buf_size) w.buf (omega arith)),
  λ h. record {
    allocated = len.2 h;
    within = omega arith;
    fits = omega (arith, len, v);
    written = omega (arith, len);
    in_order = v.in_order;
  },
)
  where
    len :
        (length (take (max w.bytes_written default_buf_size) w.buf) ≤ length w.buf)
        × (w.bytes_written ≤ length (take (max w.bytes_written default_buf_size) w.buf))
        × (0 < length w.buf → 0 < length (take (max w.bytes_written default_buf_size) w.buf))
    len = omega (arith, length-take (max w.bytes_written default_buf_size) w.buf, v)

-- `shrink` loses none of the queue, and a buffer that holds any bytes, flushed ones included,
-- stays sane.
pub shrink_lem :
    (w : WriteBuffer) → IsSane w → (get (shrink w) ≡ get w) × (0 < length w.buf → IsSane (shrink w))
unfolding shrink
shrink_lem w v =
    let (ordered, front, len) = to_front_lem w v in
    let (_, same, sane) = trim_lem (to_front w) ordered in (same ∙ front, λ h. sane (omega arith))

-- A sane buffer with an empty vector is left without capacity by `shrink`, and from then on the
-- next `buf_mut` panics.
pub shrink_empty-panics : (w : WriteBuffer) → IsSane w → w.buf ≡ [] → buf_mut (shrink w) ≡ panic
unfolding shrink buf_mut sanity_check checked
shrink_empty-panics w v e = rw (front, bare)
  where
    front : to_front w ≡ w
    front = unfold to_front in ground (arith, ap length e)

    bare : (trim w).capacity ≡ 0
    bare =
        unfold trim in
        omega (arith, length-take (max w.bytes_written default_buf_size) w.buf, ap length e)
