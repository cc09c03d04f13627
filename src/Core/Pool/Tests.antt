-- ===== src/Core/Pool/Tests.antt =====
-- Short histories of a pool, and its theorems at them.
use sqlx.Base.{◌-◌, ◌≤◌, ◌≡◌, ◌≢◌, refl, true, false, List, [], ◌∷◌, ok, panic, ◌>>=◌, arith}
use sqlx.Core.Pool.{
  Pool, Step, usize_range, new, take_out, Action, perform, Reach, here, next, acquires_permit,
  increments_size, connects, pushes_idle, releases_permit, counts_idle, pops_idle, counts_off,
  marks_closed, drains_idle, decrements_size, drops_guard, acquire_permit, drop_permit, pop_idle,
  count_off, try_increment_size, decrement_size, drop_guard, connect, reattach, float,
  close_floating, push_idle, release_permit, count_idle, mark_closed, drain_idle,
}
use sqlx.Core.Pool.Account.{Inv, live, pool_bounded, num_idle_settled}
use sqlx.Core.Pool.Owners.{places, FreshReach, start, step, places-le-one}

run : List Action → Pool → Step
unfolding perform take_out acquire_permit drop_permit pop_idle count_off try_increment_size
    decrement_size drop_guard connect reattach float close_floating push_idle release_permit
    count_idle mark_closed drain_idle
run [] p = ok p
run (a ∷ rest) p = perform a p >>= run rest

-- A connection is opened, put into the queue, and drained by `close`.
abbrev opened : Pool
opened = record {
  max_connections = 2;
  idle_conns = 4 ∷ [];
  permits = 2;
  size = 1;
  num_idle = 1;
  is_closed = false;
  releasers = 0;
  popped = [];
  guards = 0;
  dropping = 0;
  floating = [];
  attached = [];
  pushed = 0;
  returned = 0;
  drained = 0;
}

opened-run :
    run
      (acquires_permit
        ∷ increments_size false
        ∷ connects 4
        ∷ pushes_idle 4
        ∷ releases_permit
        ∷ counts_idle
        ∷ [])
      (new 2)
    ≡ ok opened
unfolding run new
opened-run = refl

opened-Reach : Reach (new 2) opened
unfolding new perform take_out acquire_permit try_increment_size connect push_idle release_permit
    count_idle
opened-Reach =
    next
      (next
        (next
          (next (next (next here acquires_permit refl) (increments_size false) refl) (connects 4)
            refl)
          (pushes_idle 4) refl)
        releases_permit refl)
      counts_idle refl

opened_fresh : FreshReach (new 2) opened
unfolding new perform take_out acquire_permit try_increment_size connect push_idle release_permit
    count_idle
opened_fresh =
    step
      (step
        (step
          (step (step (step start acquires_permit tt refl) (increments_size false) tt refl)
            (connects 4) refl refl)
          (pushes_idle 4) tt refl)
        releases_permit tt refl)
      counts_idle tt refl

-- The same pool after `close` has drained it.
abbrev drained : Pool
drained = record opened { idle_conns = []; permits = 3; size = 0; is_closed = true; drained = 1 }

drained-Reach : Reach (new 2) drained
unfolding new perform mark_closed drain_idle decrement_size drop_guard
drained-Reach =
    next (next (next (next opened-Reach marks_closed refl) drains_idle refl) decrements_size refl)
      drops_guard refl

-- Between the two last accesses of `release` another task may take the connection: the count of
-- idle connections then wraps to the largest `usize`.
num_idle_wraps :
    run
      (acquires_permit
        ∷ increments_size false
        ∷ connects 4
        ∷ pushes_idle 4
        ∷ releases_permit
        ∷ acquires_permit
        ∷ pops_idle
        ∷ counts_off 4
        ∷ [])
      (new 2)
    ≡ ok (record {
      max_connections = 2;
      idle_conns = [];
      permits = 1;
      size = 1;
      num_idle = usize_range - 1;
      is_closed = false;
      releasers = 0;
      popped = [];
      guards = 0;
      dropping = 0;
      floating = 4 ∷ [];
      attached = [];
      pushed = 0;
      returned = 1;
      drained = 0;
    })
unfolding run new
num_idle_wraps = refl

pool_bounded_example : Inv 2 opened × (live opened ≤ 2) × ((a : Action) → perform a opened ≢ panic)
pool_bounded_example = pool_bounded 2 opened (omega arith) opened-Reach

num_idle_settled_example : drained.num_idle ≡ 1
num_idle_settled_example = num_idle_settled 2 drained (omega arith) drained-Reach refl

places-le-one_example : places 4 opened ≤ 1
places-le-one_example = places-le-one 2 4 opened_fresh
