-- ===== src/Storage/Examples.antt =====
-- Multithreading/q3.c: the first steps of a run.
use os_in_parts.Prelude.{ℕ, ◌+◌, ◌-◌, ◌*◌, ◌≤◌, ◌<◌, ◌≡◌, refl, arith, ◌⊎◌, some, weight}
use os_in_parts.Storage.Defs.{
  buffer_size, max_deliveries, Truck, Storage, Outcome, empty_store, initial, put, take_products,
  truck_step, Thread, step, Created, Reached,
}
use os_in_parts.Storage.Ring.{IsRing}
use os_in_parts.Storage.Rounds.{delivery_of}
use os_in_parts.Storage.Safe.{inside, Reached-IsRing, Reached-alone}
use os_in_parts.Storage.Ends.{Reached-fault}

-- One truck delivers: it chooses three products, waits for a slot, and locks.
decided : (s : Storage) × (step (Thread.truck 0) 8 (initial 1) ≡ Outcome.moved s)
unfolding step truck_step
decided = (_, refl)

waited : (s : Storage) × (step (Thread.truck 0) 0 decided.0 ≡ Outcome.moved s)
unfolding step truck_step decided
waited = (_, refl)

locked : (s : Storage) × (step (Thread.truck 0) 0 waited.0 ≡ Outcome.moved s)
unfolding step truck_step decided waited
locked = (_, refl)

stored : (s : Storage) × (step (Thread.truck 0) 0 locked.0 ≡ Outcome.moved s)
unfolding step truck_step decided waited locked
stored = (_, refl)

stored-count : (stored.0.store.count ≡ 1) × (stored.0.empty ≡ 24)
unfolding decided waited locked stored put
stored-count = (refl, refl)

three_steps : Reached 1 2 3 locked.0
three_steps =
    Reached.next (Thread.truck 0) 0
      (Reached.next (Thread.truck 0) 0
        (Reached.next (Thread.truck 0) 8 Reached.start (omega arith) decided.1) (omega arith)
        waited.1)
      (omega arith) locked.1

four_steps : Reached 1 2 4 stored.0
four_steps = Reached.next (Thread.truck 0) 0 three_steps (omega arith) stored.1

-- Managers take no more than there is.
two_left : (take_products 3 (put (put empty_store))).count ≡ 0
unfolding take_products put
two_left = refl

Reached-IsRing_example :
    IsRing stored.0.store × (stored.0.store.count + stored.0.empty ≤ buffer_size)
Reached-IsRing_example = Reached-IsRing 1 2 4 stored.0 four_steps

Reached-alone_example :
    inside locked.0 (Thread.truck 0) + inside locked.0 (Thread.manager 1) ≤ weight locked.0.mutex
Reached-alone_example =
    Reached-alone 1 2 3 locked.0 (Thread.truck 0) (Thread.manager 1) three_steps (omega arith)
      (omega arith) (λ e. cc)

Reached-fault_example :
    (4 ≤ 112 * 1 + 2)
    × (((t : Thread) × (r : ℕ) × (s' : Storage) × Created 1 2 t
          × (step t r stored.0 ≡ Outcome.moved s'))
        ⊎ (((i : ℕ)
              → i + 1 < 1
              → (stored.0.trucks i ≡ Truck.finished)
                × (delivery_of stored.0 i ≡ some max_deliveries))
            × ((r : ℕ) → step (Thread.truck (1 - 1)) r stored.0 ≡ Outcome.fault)))
Reached-fault_example = Reached-fault 1 2 4 stored.0 (omega arith) (omega arith) four_steps
