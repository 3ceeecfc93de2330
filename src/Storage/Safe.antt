-- ===== src/Storage/Safe.antt =====
-- Multithreading/q3.c: what holds of the store at every moment.
use os_in_parts.Prelude.{ℕ, ◌+◌, ◌≤◌, ◌≢◌, ap, arith, weight, total_pair-ge, total-ge}
use os_in_parts.Storage.Defs.{buffer_size, Storage, Thread, Created, Reached}
use os_in_parts.Storage.Ring.{IsRing}
use os_in_parts.Storage.Invariant.{truck_inside, manager_inside, Inv, Reached-Inv}

-- 1 for a thread inside the lock.
abbrev pub inside : Storage → Thread → ℕ
inside s (Thread.truck i) = truck_inside (s.trucks i)
inside s (Thread.manager i) = manager_inside (s.managers i)

-- Whatever the order of the steps and the results of `rand`, the store is a ring whose `count` slots
-- from `out` on hold a product and whose other slots hold none, `in` is `count` slots after `out`,
-- and the products and the free slots that `empty` counts are together at most 25.
pub Reached-IsRing :
    (n m k : ℕ) (s : Storage)
    → Reached n m k s
    → IsRing s.store × (s.store.count + s.empty ≤ buffer_size)
Reached-IsRing n m k s reached =
    let v = Reached-Inv n m reached in (v.ring, omega (arith, v.slots, v.stock))

-- Whatever the order of the steps, of two threads at most one is inside the lock, and then the lock
-- is taken.
pub Reached-alone :
    (n m k : ℕ) (s : Storage) (t t' : Thread)
    → Reached n m k s
    → Created n m t
    → Created n m t'
    → t ≢ t'
    → inside s t + inside s t' ≤ weight s.mutex
Reached-alone n m k s t t' reached h h' ne = go t t' h h' ne
  where
    v : Inv n m s
    v = Reached-Inv n m reached

    go :
        (t t' : Thread)
        → Created n m t
        → Created n m t'
        → t ≢ t'
        → inside s t + inside s t' ≤ weight s.mutex
    go (Thread.truck i) (Thread.truck j) h h' ne = omega (
      arith,
      v.locked,
      total_pair-ge truck_inside n s.trucks i j h h' (λ e. ne (ap (λ x. Thread.truck x) e)),
    )
    go (Thread.truck i) (Thread.manager j) h h' ne = omega (
      arith,
      v.locked,
      total-ge truck_inside n s.trucks i h,
      total-ge manager_inside m s.managers j h',
    )
    go (Thread.manager i) (Thread.truck j) h h' ne = omega (
      arith,
      v.locked,
      total-ge truck_inside n s.trucks j h',
      total-ge manager_inside m s.managers i h,
    )
    go (Thread.manager i) (Thread.manager j) h h' ne = omega (
      arith,
      v.locked,
      total_pair-ge manager_inside m s.managers i j h h' (λ e. ne (ap (λ x. Thread.manager x) e)),
    )
