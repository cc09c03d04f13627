-- ===== src/Core/WriteBuffer/Flushing.antt =====
-- `flush` against the answers of the socket.
use mathlib.Core.List.{append_assoc}
use sqlx.Base.{
  ℕ, zero, suc, ◌+◌, ◌-◌, ◌≤◌, ◌<◌, ◌≡◌, refl, ap, ◌∙◌, true, false, List, [], ◌∷◌, ◌++◌, arith,
  if◌then◌else◌, Bool-cases, ok, length, take, drop, length-take, length-drop, ◌≢◌, inl, inr,
  leb→le, take-append-drop,
}
use sqlx.Base.Slices.{drop-all}
use sqlx.Core.WriteBuffer.{
  WriteBuffer, get, is_empty, consume, flush, also_sent, Reply, wrote, failed, Flush, Progress,
  flushed, io_error, waiting, Closing, done, refused, pending, closing,
}
use sqlx.Core.WriteBuffer.Queue.{IsSane, length-get, sanity_check-IsSane}
use sqlx.Core.WriteBuffer.Consuming.{consume_lem}

-- The socket takes no more than it is offered, as long as the queue lasts.
abbrev pub Fits : ℕ → List Reply → Type 0
Fits n [] = Unit
Fits n (failed ∷ rs) = Unit
Fits zero (wrote k ∷ rs) = Unit
Fits (suc n) (wrote k ∷ rs) = (k ≤ suc n) × Fits (suc n - k) rs

-- The most that the replies can take.
abbrev pub taken : List Reply → ℕ
taken [] = 0
taken (failed ∷ rs) = 0
taken (wrote k ∷ rs) = k + taken rs

is_empty-get : (w : WriteBuffer) → IsSane w → is_empty w ≡ true → get w ≡ []
unfolding is_empty get
is_empty-get w v e =
    drop-all w.bytes_flushed (take w.bytes_written w.buf)
      (omega (arith, length-take w.bytes_written w.buf, leb→le _ _ e))

not_empty-get : (w : WriteBuffer) → IsSane w → is_empty w ≡ false → 0 < length (get w)
unfolding is_empty
not_empty-get w v e = ground (arith, length-get w v)

-- What one run may come to. It ends as `socket.flush` does once all is sent.
pub record Delivers (w : WriteBuffer) (rs : List Reply) (last : Closing) (f : Flush) : Type 0 where
  pub sane : IsSane f.buffer
  pub in_order : f.sent ++ get f.buffer ≡ get w
  pub all_sent : f.progress ≡ flushed → (get f.buffer ≡ []) × (last ≡ done)
  pub enough : length (get w) ≤ taken rs → (get f.buffer ≡ []) × (f.progress ≡ closing last)

closing-done : (last : Closing) → closing last ≡ flushed → last ≡ done
closing-done done h = refl
closing-done refused h = cc
closing-done pending h = cc

done-Delivers :
    (w : WriteBuffer) (rs : List Reply) (last : Closing)
    → IsSane w
    → is_empty w ≡ true
    → Delivers w rs last (record { buffer = w; sent = []; progress = closing last })
done-Delivers w rs last v e = record {
  sane = v;
  in_order = refl;
  all_sent = λ h. (is_empty-get w v e, closing-done last h);
  enough = λ _. (is_empty-get w v e, refl);
}

-- The loop stops at once where the socket takes nothing more.
stopped-Delivers :
    (w : WriteBuffer) (rs : List Reply) (last : Closing) (p : Progress)
    → IsSane w
    → p ≢ flushed
    → taken rs ≡ 0
    → Delivers w rs last
        (record { buffer = w; sent = []; progress = if is_empty w then closing last else p })
stopped-Delivers w rs last p v busy none_taken = elim (Bool-cases (is_empty w)) [
  | inl e ↦ rw e (done-Delivers w rs last v e)
  | inr e ↦ rw e (record {
    sane = v;
    in_order = refl;
    all_sent = λ h. absurd (busy h);
    enough = λ h. absurd (omega (arith, not_empty-get w v e));
  })
]

Fits-split : (m n : ℕ) (rs : List Reply) → 0 < m → Fits m (wrote n ∷ rs) → (n ≤ m) × Fits (m - n) rs
Fits-split zero n rs h fit = elim h [ ]
Fits-split (suc m) n rs h fit = fit

-- One round that took `n` bytes, before the rest of the loop.
round-Delivers :
    (w w' : WriteBuffer) (n : ℕ) (rs : List Reply) (last : Closing) (f : Flush)
    → get w' ≡ drop n (get w)
    → n ≤ length (get w)
    → Delivers w' rs last f
    → Delivers w (wrote n ∷ rs) last (also_sent (take n (get w)) f)
round-Delivers w w' n rs last f rest h d = record {
  sane = d.sane;
  in_order =
      append_assoc (take n (get w)) f.sent (get f.buffer)
      ∙ ap (◌++◌ (take n (get w))) (d.in_order ∙ rest)
      ∙ take-append-drop n (get w);
  all_sent = d.all_sent;
  enough = λ k. d.enough (omega (arith, ap length rest, length-drop n (get w)));
}

flush_empty :
    (w : WriteBuffer) (n : ℕ) (rs : List Reply) (last : Closing)
    → is_empty w ≡ true
    → flush w (wrote n ∷ rs) last ≡ ok (record { buffer = w; sent = []; progress = closing last })
unfolding flush
flush_empty w n rs last e = rw (e, flush)

flush_round :
    (w w' : WriteBuffer) (n : ℕ) (rs : List Reply) (last : Closing) (f : Flush)
    → is_empty w ≡ false
    → consume w n ≡ ok w'
    → IsSane w'
    → flush w' rs last ≡ ok f
    → flush w (wrote n ∷ rs) last ≡ ok (also_sent (take n (get w)) f)
flush_round w w' n rs last f e took sane run =
    unfold flush in rw (e, flush) (rw took (rw (sanity_check-IsSane w' sane) (rw run)))

-- As long as the socket takes no more than it is offered, a flush of a sane buffer never panics. What
-- it has sent followed by what is still queued is the queue that it began with, also when it fails or
-- is dropped half way. It ends as flushed only with an empty queue and after `socket.flush` has ended
-- well; and once the socket has taken as many bytes as were queued, the queue is empty, and the end is
-- that of `socket.flush`: flushed, its error, or none yet.
pub flush-Delivers :
    (w : WriteBuffer) (rs : List Reply) (last : Closing)
    → IsSane w
    → Fits (length (get w)) rs
    → (f : Flush) × (flush w rs last ≡ ok f) × Delivers w rs last f
unfolding flush
flush-Delivers w [] last v fit = (_, refl, stopped-Delivers w [] last waiting v (λ e. cc) refl)
flush-Delivers w (failed ∷ rs) last v fit =
    (_, refl, stopped-Delivers w (failed ∷ rs) last io_error v (λ e. cc) refl)
flush-Delivers w (wrote n ∷ rs) last v fit = elim (Bool-cases (is_empty w)) [
  | inl e ↦ (_, flush_empty w n rs last e, done-Delivers w (wrote n ∷ rs) last v e)
  | inr e ↦
      let (le, fit') = Fits-split (length (get w)) n rs (not_empty-get w v e) fit in
      let (w', took, sane, rest) = consume_lem w n v le in
      let len : length (get w') ≡ length (get w) - n = ap length rest ∙ length-drop n (get w) in
      let (f, run, d) = flush-Delivers w' rs last sane (rw len fit') in
      (
        also_sent (take n (get w)) f,
        flush_round w w' n rs last f e took sane run,
        round-Delivers w w' n rs last f rest le d,
      )
]
