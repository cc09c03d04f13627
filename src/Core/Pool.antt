-- ===== src/Core/Pool.antt =====
-- sqlx-core/src/pool: PoolInner, its guards and its floating connections (inner.rs, connection.rs),
-- for a pool without a parent. The tasks that use a pool interleave between any two accesses to
-- what they share, so that each access is an action here, and the state also counts the tasks that
-- stand between two accesses of one function.
--
-- The semaphore and the queue of idle connections are those of other crates: the semaphore is its
-- number of available permits, and the queue is first in, first out, with a fixed capacity.
pub mod Account
pub mod Owners
mod Tests
use sqlx.Base.{
  ℕ, zero, suc, ◌+◌, ◌-◌, ◌%◌, ◌^◌, Bool, true, false, ◌||◌, Option, none, some, List, [], ◌∷◌,
  ◌++◌, ◌≡◌, leb, ltb, ◌==◌, if◌then◌else◌, Outcome, ok, err, panic, ◌>>=◌, length,
}

abbrev pub usize_range : ℕ
usize_range = 2 ^ 64

abbrev pub u32_range : ℕ
u32_range = 2 ^ 32

pub record Pool : Type 0 where
  pub max_connections : ℕ
  pub idle_conns : List ℕ
  -- The permits of the semaphore that nobody holds.
  pub permits : ℕ
  pub size : ℕ
  pub num_idle : ℕ
  pub is_closed : Bool
  -- Permits held by an AsyncSemaphoreReleaser.
  pub releasers : ℕ
  -- Connections that `pop_idle` has taken from the queue and not yet counted off.
  pub popped : List ℕ
  -- Guards without a connection, and those that have lowered `size` and not yet given back a permit.
  pub guards : ℕ
  pub dropping : ℕ
  -- Connections with a guard, and those that a PoolConnection holds.
  pub floating : List ℕ
  pub attached : List ℕ
  -- Calls of `release` that have pushed, and those that have also given back their permit.
  pub pushed : ℕ
  pub returned : ℕ
  -- Idle connections that `close` has taken from the queue.
  pub drained : ℕ

-- `PoolInner::new_arc`, which panics where `max_connections` is 0, since the queue has no capacity
-- then: there is no such pool.
pub new : ℕ → Pool
new max_connections = record {
  max_connections = max_connections;
  idle_conns = [];
  permits = max_connections;
  size = 0;
  num_idle = 0;
  is_closed = false;
  releasers = 0;
  popped = [];
  guards = 0;
  dropping = 0;
  floating = [];
  attached = [];
  pushed = 0;
  returned = 0;
  drained = 0;
}

-- An action that cannot be taken in this state.
pub data Blocked : Type 0 where
  blocked : Blocked

abbrev pub Step : Type 0
Step = Outcome Blocked Pool

-- One less, where there is one.
abbrev pub some_of : ℕ → (ℕ → Step) → Step
some_of zero f = err blocked
some_of (suc n) f = f n

abbrev pub first_of_queue : List ℕ → (ℕ → List ℕ → Step) → Step
first_of_queue [] f = err blocked
first_of_queue (c ∷ cs) f = f c cs

pub kept : ℕ → Option (List ℕ) → Option (List ℕ)
kept d none = none
kept d (some rest) = some (d ∷ rest)

-- The list without the first `c`.
pub take_out : ℕ → List ℕ → Option (List ℕ)
unfolding kept
take_out c [] = none
take_out c (d ∷ ds) = let rest = take_out c ds in if d == c then some ds else kept d rest

abbrev pub one_of : Option (List ℕ) → (List ℕ → Step) → Step
one_of none f = err blocked
one_of (some rest) f = f rest

-- `semaphore.acquire(1)` and `try_acquire(1)`, and the drop of what they return.
pub acquire_permit : Pool → Step
acquire_permit p = some_of p.permits λ n. ok (record p { permits = n; releasers = p.releasers + 1 })

pub drop_permit : Pool → Step
drop_permit p = some_of p.releasers λ n. ok (record p { releasers = n; permits = p.permits + 1 })

-- `pop_idle`: the queue, and then the count; the guard takes over the permit.
pub pop_idle : Pool → Step
pop_idle p = some_of p.releasers λ n.
    first_of_queue p.idle_conns
      λ c rest. ok (record p { releasers = n; idle_conns = rest; popped = c ∷ p.popped })

pub count_off : ℕ → Pool → Step
count_off c p = one_of (take_out c p.popped) λ rest. ok (record p {
  popped = rest;
  num_idle = (p.num_idle + usize_range - 1) % usize_range;
  floating = c ∷ p.floating;
})

-- `try_increment_size`: on success the guard takes over the permit. What was read of `is_closed` may
-- be older than the size, and then a pool that is closed by now grows all the same.
pub try_increment_size : Bool → Pool → Step
try_increment_size closed p = some_of p.releasers λ n.
    if closed || leb p.max_connections p.size
    then err blocked
    else ok (record p { size = p.size + 1; releasers = n; guards = p.guards + 1 })

-- The two steps of the drop of a DecrementSizeGuard.
pub decrement_size : Pool → Step
decrement_size p = some_of p.guards λ n. ok (record p {
  size = (p.size + u32_range - 1) % u32_range;
  guards = n;
  dropping = p.dropping + 1;
})

pub drop_guard : Pool → Step
drop_guard p = some_of p.dropping λ n. ok (record p { dropping = n; permits = p.permits + 1 })

-- `connect` has opened a connection: `Floating::new_live`.
pub connect : ℕ → Pool → Step
connect c p = some_of p.guards λ n. ok (record p { guards = n; floating = c ∷ p.floating })

-- `Floating::reattach` cancels the guard, and `Live::float` makes one from the permit left behind.
pub reattach : ℕ → Pool → Step
reattach c p =
    one_of (take_out c p.floating)
      λ rest. ok (record p { floating = rest; attached = c ∷ p.attached })

pub float : ℕ → Pool → Step
float c p =
    one_of (take_out c p.attached)
      λ rest. ok (record p { attached = rest; floating = c ∷ p.floating })

-- `close`, `close_hard` and `detach` of a floating connection leave its guard.
pub close_floating : ℕ → Pool → Step
close_floating c p =
    one_of (take_out c p.floating) λ rest. ok (record p { floating = rest; guards = p.guards + 1 })

-- `release`: the queue, the permit, and the count. A full queue is a panic.
pub push_idle : ℕ → Pool → Step
push_idle c p = one_of (take_out c p.floating) λ rest.
    if ltb (length p.idle_conns) p.max_connections
    then ok
        (record p { floating = rest; idle_conns = p.idle_conns ++ c ∷ []; pushed = p.pushed + 1 })
    else panic

pub release_permit : Pool → Step
release_permit p =
    some_of p.pushed
      λ n. ok (record p { pushed = n; permits = p.permits + 1; returned = p.returned + 1 })

pub count_idle : Pool → Step
count_idle p =
    some_of p.returned
      λ n. ok (record p { returned = n; num_idle = (p.num_idle + 1) % usize_range })

pub mark_closed : Pool → Step
mark_closed p = ok (record p { is_closed = true })

-- The loop of `close` takes an idle connection and closes it under a guard of its own; it does not
-- touch the count of idle connections.
pub drain_idle : Pool → Step
drain_idle p =
    if p.is_closed
    then (first_of_queue p.idle_conns λ c rest.
        ok (record p { idle_conns = rest; guards = p.guards + 1; drained = p.drained + 1 }))
    else err blocked

pub data Action : Type 0 where
  acquires_permit drops_permit pops_idle decrements_size drops_guard : Action
  releases_permit counts_idle marks_closed drains_idle : Action
  increments_size : Bool → Action
  counts_off connects reattaches floats closes_floating pushes_idle : ℕ → Action

pub perform : Action → Pool → Step
perform acquires_permit p = acquire_permit p
perform drops_permit p = drop_permit p
perform pops_idle p = pop_idle p
perform (increments_size closed) p = try_increment_size closed p
perform decrements_size p = decrement_size p
perform drops_guard p = drop_guard p
perform releases_permit p = release_permit p
perform counts_idle p = count_idle p
perform marks_closed p = mark_closed p
perform drains_idle p = drain_idle p
perform (counts_off c) p = count_off c p
perform (connects c) p = connect c p
perform (reattaches c) p = reattach c p
perform (floats c) p = float c p
perform (closes_floating c) p = close_floating c p
perform (pushes_idle c) p = push_idle c p

-- The states that a pool can get to.
pub data Reach (p : Pool) : Pool → Type 0 where
  here : Reach p p
  next : {q r : Pool} → Reach p q → (a : Action) → perform a q ≡ ok r → Reach p r
