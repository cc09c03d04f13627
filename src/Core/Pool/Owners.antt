-- ===== src/Core/Pool/Owners.antt =====
-- Where each connection is: never in two places.
use sqlx.Base.{
  ℕ, ◌+◌, ◌≤◌, ◌≡◌, ◌≢◌, refl, ap, subst, sym, ◌∙◌, some, List, [], ◌∷◌, ◌++◌, ◌==◌, ==_iff,
  if◌then◌else◌, ok, err, panic, arith, Bool-cases, Option-cases, ◌⊎◌, inl, inr,
}
use sqlx.Core.Pool.{
  Pool, Step, new, one_of, take_out, Action, perform, acquires_permit, drops_permit, pops_idle,
  increments_size, decrements_size, drops_guard, releases_permit, counts_idle, marks_closed,
  drains_idle, counts_off, connects, reattaches, floats, closes_floating, pushes_idle,
  acquire_permit, drop_permit, pop_idle, count_off, try_increment_size, decrement_size, drop_guard,
  connect, reattach, float, close_floating, push_idle, release_permit, count_idle, mark_closed,
  drain_idle,
}
use native.Mathlib.Nat.{le_trans}
use sqlx.Core.Pool.Account.{kept-some}

abbrev pub count : ℕ → List ℕ → ℕ
count x [] = 0
count x (c ∷ cs) = (if c == x then 1 else 0) + count x cs

count-append : (x : ℕ) (xs ys : List ℕ) → count x (xs ++ ys) ≡ count x xs + count x ys
count-append x [] ys = omega arith
count-append x (c ∷ xs) ys = omega (arith, count-append x xs ys)

count-take_out :
    (x c : ℕ) (ds rest : List ℕ)
    → take_out c ds ≡ some rest
    → count x ds ≡ (if c == x then 1 else 0) + count x rest
unfolding take_out
count-take_out x c [] rest h = cc
count-take_out x c (d ∷ ds) rest h = elim (Bool-cases (d == c)) [
  | inl e ↦ ground (arith, ap (count x) (take_out_here ds rest (rw e at h)))
  | inr e ↦
      let (tail, found, shape) = kept-some d (take_out c ds) rest (rw e at h) in
      omega (arith, count-take_out x c ds tail found, ap (count x) shape)
]
  where
    take_out_here : (ds rest : List ℕ) → some ds ≡ some rest → ds ≡ rest
    take_out_here ds rest k = cc

-- How many times a connection is in the pool or in use.
abbrev pub places : ℕ → Pool → ℕ
places x p = count x p.idle_conns + count x p.popped + count x p.floating + count x p.attached

-- The step makes no place for `x`, but for the `n` that it may.
abbrev pub Adds : ℕ → ℕ → Pool → Step → Type 0
Adds n x p (ok q) = places x q ≤ n + places x p
Adds n x p (err e) = Unit
Adds n x p panic = Unit

one_of-Adds :
    (x c : ℕ) (p : Pool) (ds : List ℕ) (f : List ℕ → Step)
    → ((rest : List ℕ)
        → count x ds ≡ (if c == x then 1 else 0) + count x rest
        → Adds 0 x p (f rest))
    → Adds 0 x p (one_of (take_out c ds) f)
one_of-Adds x c p ds f h = elim (Option-cases (take_out c ds)) [
  | inl e ↦ rw e tt
  | inr (rest, e) ↦ rw e (h rest (count-take_out x c ds rest e))
]

moved-Adds : (x : ℕ) (a : Action) (p : Pool) → ((c : ℕ) → a ≢ connects c) → Adds 0 x p (perform a p)
unfolding perform
moved-Adds x acquires_permit p h = unfold acquire_permit in ground arith
moved-Adds x drops_permit p h = unfold drop_permit in ground arith
moved-Adds x pops_idle p h = unfold pop_idle in ground arith
moved-Adds x (increments_size closed) p h = unfold try_increment_size in ground arith
moved-Adds x decrements_size p h = unfold decrement_size in ground arith
moved-Adds x drops_guard p h = unfold drop_guard in ground arith
moved-Adds x releases_permit p h = unfold release_permit in ground arith
moved-Adds x counts_idle p h = unfold count_idle in ground arith
moved-Adds x marks_closed p h = unfold mark_closed in ground arith
moved-Adds x drains_idle p h = unfold drain_idle in ground arith
moved-Adds x (counts_off c) p h =
    unfold count_off in one_of-Adds x c p p.popped _ (λ rest e. omega arith)
moved-Adds x (connects c) p h = absurd (h c refl)
moved-Adds x (reattaches c) p h =
    unfold reattach in one_of-Adds x c p p.floating _ (λ rest e. omega arith)
moved-Adds x (floats c) p h = unfold float in one_of-Adds x c p p.attached _ (λ rest e. omega arith)
moved-Adds x (closes_floating c) p h =
    unfold close_floating in one_of-Adds x c p p.floating _ (λ rest e. omega arith)
moved-Adds x (pushes_idle c) p h =
    unfold push_idle in
    one_of-Adds x c p p.floating _ (λ rest e. ground (arith, count-append x p.idle_conns (c ∷ [])))

-- A connection that is opened is not one that the pool has already.
abbrev pub IsFresh : Action → Pool → Type 0
IsFresh (connects c) p = places c p ≡ 0
IsFresh _ p = Unit

pub data FreshReach (p : Pool) : Pool → Type 0 where
  start : FreshReach p p
  step :
      {q r : Pool}
      → FreshReach p q
      → (a : Action) → IsFresh a q
      → perform a q ≡ ok r
      → FreshReach p r

connects-places : (x c : ℕ) (p : Pool) → Adds (if c == x then 1 else 0) x p (perform (connects c) p)
unfolding perform connect
connects-places x c p = ground arith

IsConnect-cases : (a : Action) → ((c : ℕ) × (a ≡ connects c)) ⊎ ((c : ℕ) → a ≢ connects c)
IsConnect-cases (connects c) = inl (c, refl)
IsConnect-cases acquires_permit = inr (λ c e. cc)
IsConnect-cases drops_permit = inr (λ c e. cc)
IsConnect-cases pops_idle = inr (λ c e. cc)
IsConnect-cases (increments_size closed) = inr (λ c e. cc)
IsConnect-cases decrements_size = inr (λ c e. cc)
IsConnect-cases drops_guard = inr (λ c e. cc)
IsConnect-cases releases_permit = inr (λ c e. cc)
IsConnect-cases counts_idle = inr (λ c e. cc)
IsConnect-cases marks_closed = inr (λ c e. cc)
IsConnect-cases drains_idle = inr (λ c e. cc)
IsConnect-cases (counts_off d) = inr (λ c e. cc)
IsConnect-cases (reattaches d) = inr (λ c e. cc)
IsConnect-cases (floats d) = inr (λ c e. cc)
IsConnect-cases (closes_floating d) = inr (λ c e. cc)
IsConnect-cases (pushes_idle d) = inr (λ c e. cc)

step-places :
    (x : ℕ) (a : Action) (q r : Pool)
    → IsFresh a q
    → perform a q ≡ ok r
    → places x q ≤ 1
    → places x r ≤ 1
step-places x a q r fresh e h = elim (IsConnect-cases a) [
  | inl (c, is) ↦ opened c is
  | inr other ↦ le_trans (subst (Adds 0 x q) e (moved-Adds x a q other)) (omega arith)
]
  where
    opened : (c : ℕ) → a ≡ connects c → places x r ≤ 1
    opened c is =
        let grown : Adds (if c == x then 1 else 0) x q (ok r) =
          subst (Adds (if c == x then 1 else 0) x q) (ap (λ b. perform b q) (sym is) ∙ e)
            (connects-places x c q) in
        let none_yet : places c q ≡ 0 = subst (λ b. IsFresh b q) is fresh in
        elim (Bool-cases (c == x)) [
          | inl same ↦ ground (
            arith,
            grown,
            none_yet,
            (==_iff c x).0 same,
            ap (λ y. places y q) ((==_iff c x).0 same),
          )
          | inr not_same ↦ ground (arith, grown, not_same)
        ]

-- As long as each connection that is opened is a new one, no connection is ever in two places: in
-- the queue twice, idle and in use, or in use by two owners.
pub places-le-one : (m : ℕ) (x : ℕ) {p : Pool} → FreshReach (new m) p → places x p ≤ 1
places-le-one m x start = unfold new in omega arith
places-le-one m x (step {q = q} {r = r} reach a fresh e) =
    step-places x a q r fresh e (places-le-one m x reach)
