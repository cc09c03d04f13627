-- ===== src/Core/Pool/Account.antt =====
-- The counters of the pool against its connections.
use sqlx.Base.{
  ℕ, suc, ◌+◌, ◌%◌, ◌≤◌, ◌<◌, ◌≡◌, ◌≢◌, refl, ap, subst, Option, none, some, List, [], ◌∷◌, ◌==◌,
  Bool, ok, err, panic, length, length-append, arith, Bool-cases, Option-cases, inl, inr,
}
use sqlx.Core.Pool.{
  Pool, Step, usize_range, u32_range, new, one_of, take_out, kept, Action, perform, Reach, here,
  next, acquires_permit, drops_permit, pops_idle, increments_size, decrements_size, drops_guard,
  releases_permit, counts_idle, marks_closed, drains_idle, counts_off, connects, reattaches, floats,
  closes_floating, pushes_idle, acquire_permit, drop_permit, pop_idle, count_off,
  try_increment_size, decrement_size, drop_guard, connect, reattach, float, close_floating,
  push_idle, release_permit, count_idle, mark_closed, drain_idle,
}

-- The connections that count towards `size`: idle ones, those in use, and those still to be opened
-- or just closed.
abbrev pub live : Pool → ℕ
live p = length p.idle_conns + length p.popped + p.guards + length p.floating + length p.attached

pub record Inv (m : ℕ) (p : Pool) : Type 0 where
  pub same_max : p.max_connections ≡ m
  pub sized : p.size ≡ live p
  pub max_range : p.max_connections < u32_range
  pub bounded : p.size ≤ p.max_connections
  pub permitted :
      p.permits
        + p.releasers
        + length p.popped
        + p.guards
        + p.dropping
        + length p.floating
        + length p.attached
        + p.pushed
      ≡ p.max_connections + p.drained
  pub in_range : p.num_idle < usize_range
  pub counted :
      (p.num_idle + p.returned + p.pushed) % usize_range
      ≡ (length p.idle_conns + length p.popped + p.drained) % usize_range

pub new-Inv : (m : ℕ) → m < u32_range → Inv m (new m)
unfolding new
new-Inv m h = omega arith

pub kept-some :
    (d : ℕ) (o : Option (List ℕ)) (rest : List ℕ)
    → kept d o ≡ some rest
    → (tail : List ℕ) × (o ≡ some tail) × (rest ≡ d ∷ tail)
unfolding kept
kept-some d none rest h = cc
kept-some d (some tail) rest h = (tail, refl, cc)

pub length-take_out :
    (c : ℕ) (ds rest : List ℕ) → take_out c ds ≡ some rest → length ds ≡ suc (length rest)
unfolding take_out
length-take_out c [] rest h = cc
length-take_out c (d ∷ ds) rest h = elim (Bool-cases (d == c)) [
  | inl e ↦ ap (λ (xs : List ℕ). suc (length xs)) (cc (rw e at h))
  | inr e ↦
      let (tail, found, shape) = kept-some d (take_out c ds) rest (rw e at h) in
      omega (arith, length-take_out c ds tail found, ap length shape)
]

-- What holds of the pool that a step comes to.
abbrev pub Keeps : ℕ → Step → Type 0
Keeps m (ok q) = Inv m q
Keeps m (err e) = Unit
Keeps m panic = ⊥

module _ (m : ℕ) where
  one_of-Keeps :
      (c : ℕ) (ds : List ℕ) (f : List ℕ → Step)
      → ((rest : List ℕ) → length ds ≡ suc (length rest) → Keeps m (f rest))
      → Keeps m (one_of (take_out c ds) f)
  one_of-Keeps c ds f h = elim (Option-cases (take_out c ds)) [
    | inl e ↦ rw e tt
    | inr (rest, e) ↦ rw e (h rest (length-take_out c ds rest e))
  ]

  acquire_permit-Keeps : (p : Pool) → Inv m p → Keeps m (acquire_permit p)
  unfolding acquire_permit
  acquire_permit-Keeps p v = ground arith

  drop_permit-Keeps : (p : Pool) → Inv m p → Keeps m (drop_permit p)
  unfolding drop_permit
  drop_permit-Keeps p v = ground arith

  pop_idle-Keeps : (p : Pool) → Inv m p → Keeps m (pop_idle p)
  unfolding pop_idle
  pop_idle-Keeps p v = ground arith

  count_off-Keeps : (c : ℕ) (p : Pool) → Inv m p → Keeps m (count_off c p)
  unfolding count_off
  count_off-Keeps c p v = one_of-Keeps c p.popped _ (λ rest h. omega arith)

  try_increment_size-Keeps :
      (closed : Bool) (p : Pool) → Inv m p → Keeps m (try_increment_size closed p)
  unfolding try_increment_size
  try_increment_size-Keeps closed p v = ground arith

  decrement_size-Keeps : (p : Pool) → Inv m p → Keeps m (decrement_size p)
  unfolding decrement_size
  decrement_size-Keeps p v = ground arith

  drop_guard-Keeps : (p : Pool) → Inv m p → Keeps m (drop_guard p)
  unfolding drop_guard
  drop_guard-Keeps p v = ground arith

  connect-Keeps : (c : ℕ) (p : Pool) → Inv m p → Keeps m (connect c p)
  unfolding connect
  connect-Keeps c p v = ground arith

  reattach-Keeps : (c : ℕ) (p : Pool) → Inv m p → Keeps m (reattach c p)
  unfolding reattach
  reattach-Keeps c p v = one_of-Keeps c p.floating _ (λ rest h. omega arith)

  float-Keeps : (c : ℕ) (p : Pool) → Inv m p → Keeps m (float c p)
  unfolding float
  float-Keeps c p v = one_of-Keeps c p.attached _ (λ rest h. omega arith)

  close_floating-Keeps : (c : ℕ) (p : Pool) → Inv m p → Keeps m (close_floating c p)
  unfolding close_floating
  close_floating-Keeps c p v = one_of-Keeps c p.floating _ (λ rest h. omega arith)

  push_idle-Keeps : (c : ℕ) (p : Pool) → Inv m p → Keeps m (push_idle c p)
  unfolding push_idle
  push_idle-Keeps c p v =
      one_of-Keeps c p.floating _ (λ rest h. ground (arith, length-append p.idle_conns (c ∷ [])))

  release_permit-Keeps : (p : Pool) → Inv m p → Keeps m (release_permit p)
  unfolding release_permit
  release_permit-Keeps p v = ground arith

  count_idle-Keeps : (p : Pool) → Inv m p → Keeps m (count_idle p)
  unfolding count_idle
  count_idle-Keeps p v = ground arith

  drain_idle-Keeps : (p : Pool) → Inv m p → Keeps m (drain_idle p)
  unfolding drain_idle
  drain_idle-Keeps p v = ground arith

  perform-Keeps : (a : Action) (p : Pool) → Inv m p → Keeps m (perform a p)
  unfolding perform
  perform-Keeps acquires_permit p v = acquire_permit-Keeps p v
  perform-Keeps drops_permit p v = drop_permit-Keeps p v
  perform-Keeps pops_idle p v = pop_idle-Keeps p v
  perform-Keeps (increments_size closed) p v = try_increment_size-Keeps closed p v
  perform-Keeps decrements_size p v = decrement_size-Keeps p v
  perform-Keeps drops_guard p v = drop_guard-Keeps p v
  perform-Keeps releases_permit p v = release_permit-Keeps p v
  perform-Keeps counts_idle p v = count_idle-Keeps p v
  perform-Keeps marks_closed p v = unfold mark_closed in omega arith
  perform-Keeps drains_idle p v = drain_idle-Keeps p v
  perform-Keeps (counts_off c) p v = count_off-Keeps c p v
  perform-Keeps (connects c) p v = connect-Keeps c p v
  perform-Keeps (reattaches c) p v = reattach-Keeps c p v
  perform-Keeps (floats c) p v = float-Keeps c p v
  perform-Keeps (closes_floating c) p v = close_floating-Keeps c p v
  perform-Keeps (pushes_idle c) p v = push_idle-Keeps c p v

  Reach-Inv : {p q : Pool} → Inv m p → Reach p q → Inv m q
  Reach-Inv v here = v
  Reach-Inv v (next {q = q} r a e) = subst (Keeps m) e (perform-Keeps a q (Reach-Inv v r))

-- Whatever the tasks of a pool of fewer than 2^32 connections do, and in any interleaving: its size is the number of connections
-- that are idle, in use, being opened or being closed, and never passes `max_connections`; each
-- permit is available, held, or left behind by a connection in use, but for one more for each idle
-- connection that `close` drained; and no action panics, so that `release` always finds room in the
-- queue.
pub pool_bounded :
    (m : ℕ) (p : Pool)
    → m < u32_range
    → Reach (new m) p
    → Inv m p × (live p ≤ m) × ((a : Action) → perform a p ≢ panic)
pool_bounded m p h r =
    let v : Inv m p = Reach-Inv m (new-Inv m h) r in
    (v, omega (arith, v), λ a e. subst (Keeps m) e (perform-Keeps m a p v))

-- Once no connection is being popped or released, in a pool of fewer than 2^32 connections, `num_idle` is the number of idle connections, and of those that
-- `close` drained, which it never counts off (modulo 2^64).
pub num_idle_settled :
    (m : ℕ) (p : Pool)
    → m < u32_range
    → Reach (new m) p
    → length p.popped + p.pushed + p.returned ≡ 0
    → p.num_idle ≡ (length p.idle_conns + p.drained) % usize_range
num_idle_settled m p h r quiet =
    let v : Inv m p = Reach-Inv m (new-Inv m h) r in omega (arith, v.counted, v.in_range, quiet)
