-- ===== src/Storage/Defs.antt =====
-- Multithreading/q3.c: delivery trucks that fill a store, and managers that empty it.
-- Each truck and each manager is a thread. A step is one call by one of them that touches what is
-- shared: a wait, a lock, the work inside the lock with the unlock, a post; or a choice by `rand`,
-- whose result is an argument of the step. What is printed is not modelled.
use os_in_parts.Prelude.{
  ℕ, zero, suc, ◌+◌, ◌-◌, ◌%◌, ◌<◌, ◌≡◌, Bool, true, false, List, Option, none, some, get_elem?,
  set, replicate, leb, ◌==◌, if◌then◌else◌, update,
}

abbrev pub buffer_size : ℕ
buffer_size = 25

abbrev pub delivery_max_products : ℕ
delivery_max_products = 6

abbrev pub storage_max_products : ℕ
storage_max_products = 3

abbrev pub max_deliveries : ℕ
max_deliveries = 2

-- Where a truck stands in its loop, with the products that it has left: before the choice of
-- `products`, at the test of the inner loop, before the lock, inside it, before the post of `full`,
-- and past its exit.
pub data Truck : Type 0 where
  deciding : Truck
  unloading : ℕ → Truck
  entering : ℕ → Truck
  inside : ℕ → Truck
  posting : ℕ → Truck
  finished : Truck

-- Where a manager stands: before the choice, before the wait for `full`, before the lock, inside it,
-- and before the post of `empty`.
pub data Manager : Type 0 where
  deciding : Manager
  waiting : ℕ → Manager
  entering : ℕ → Manager
  inside : ℕ → Manager
  posting : Manager

-- The store, with its indices `in` and `out`.
pub record Store : Type 0 where
  pub buffer : ℕ → ℕ
  pub count : ℕ
  pub in_index : ℕ
  pub out_index : ℕ

-- The globals, and the place of each thread. The truck at `i` has the id `i + 1`.
pub record Storage : Type 0 where
  pub store : Store
  pub empty : ℕ
  pub full : ℕ
  pub mutex : Bool
  pub deliveries : List ℕ
  pub trucks : ℕ → Truck
  pub managers : ℕ → Manager

-- A step, a call that blocks or the end of the thread, or an access out of bounds.
pub data Outcome : Type 0 where
  moved : Storage → Outcome
  blocked : Outcome
  fault : Outcome

-- What `main` sets up for its trucks. The buffer is a global, so it is 0.
abbrev pub empty_store : Store
empty_store = record { buffer = λ _. 0; count = 0; in_index = 0; out_index = 0 }

abbrev pub initial : ℕ → Storage
initial num_trucks = record {
  store = empty_store;
  empty = buffer_size;
  full = 0;
  mutex = false;
  deliveries = replicate num_trucks 0;
  trucks = λ _. Truck.deciding;
  managers = λ _. Manager.deciding;
}

-- One product into the store.
unfoldable pub put : Store → Store
put s = record {
  buffer = update s.buffer s.in_index 1;
  count = s.count + 1;
  in_index = (s.in_index + 1) % buffer_size;
  out_index = s.out_index;
}

-- The removal loop: up to `products` of them, while there are some.
unfoldable pub take_products : ℕ → Store → Store
take_products zero s = s
take_products (suc products) s =
    let rest = take_products products (record s {
      buffer = update s.buffer s.out_index 0;
      count = s.count - 1;
      out_index = (s.out_index + 1) % buffer_size;
    }) in
    if s.count == 0 then s else rest

abbrev pub at_truck : ℕ → Truck → Storage → Storage
at_truck i place s = record s { trucks = update s.trucks i place }

abbrev pub at_manager : ℕ → Manager → Storage → Storage
at_manager i place s = record s { managers = update s.managers i place }

-- The end of a delivery: `deliveries[id]++`, and the test of it.
abbrev pub delivered : ℕ → Storage → Option ℕ → Outcome
delivered i s none = Outcome.fault
delivered i s (some d) = Outcome.moved (
    at_truck i (if leb max_deliveries (d + 1) then Truck.finished else Truck.deciding)
      (record s { deliveries = set s.deliveries (i + 1) (d + 1) }))

unfoldable pub truck_step : Truck → ℕ → ℕ → Storage → Outcome
unfolding put
truck_step Truck.deciding r i s =
    Outcome.moved (at_truck i (Truck.unloading (r % delivery_max_products + 1)) s)
truck_step (Truck.unloading zero) r i s = delivered i s (get_elem? s.deliveries (i + 1))
truck_step (Truck.unloading (suc p)) r i s =
    if s.empty == 0
    then Outcome.blocked
    else Outcome.moved (at_truck i (Truck.entering (suc p)) (record s { empty = s.empty - 1 }))
truck_step (Truck.entering p) r i s =
    if s.mutex
    then Outcome.blocked
    else Outcome.moved (at_truck i (Truck.inside p) (record s { mutex = true }))
truck_step (Truck.inside p) r i s =
    Outcome.moved
      (at_truck i (Truck.posting (p - 1)) (record s { store = put s.store; mutex = false }))
truck_step (Truck.posting p) r i s =
    Outcome.moved (at_truck i (Truck.unloading p) (record s { full = s.full + 1 }))
truck_step Truck.finished r i s = Outcome.blocked

unfoldable pub manager_step : Manager → ℕ → ℕ → Storage → Outcome
unfolding take_products
manager_step Manager.deciding r i s =
    Outcome.moved (at_manager i (Manager.waiting (r % storage_max_products + 1)) s)
manager_step (Manager.waiting p) r i s =
    if s.full == 0
    then Outcome.blocked
    else Outcome.moved (at_manager i (Manager.entering p) (record s { full = s.full - 1 }))
manager_step (Manager.entering p) r i s =
    if s.mutex
    then Outcome.blocked
    else Outcome.moved (at_manager i (Manager.inside p) (record s { mutex = true }))
manager_step (Manager.inside p) r i s =
    Outcome.moved
      (at_manager i Manager.posting (record s { store = take_products p s.store; mutex = false }))
manager_step Manager.posting r i s =
    Outcome.moved (at_manager i Manager.deciding (record s { empty = s.empty + 1 }))

pub data Thread : Type 0 where
  truck : ℕ → Thread
  manager : ℕ → Thread

-- The step of a thread, with the next result of `rand`.
unfoldable pub step : Thread → ℕ → Storage → Outcome
unfolding truck_step manager_step
step (Thread.truck i) r s = truck_step (s.trucks i) r i s
step (Thread.manager i) r s = manager_step (s.managers i) r i s

-- The threads that `main` creates.
abbrev pub Created : ℕ → ℕ → Thread → Type 0
Created num_trucks num_managers (Thread.truck i) = i < num_trucks
Created num_trucks num_managers (Thread.manager i) = i < num_managers

-- The states after `k` steps of the threads, in any order, whatever `rand` returns.
pub data Reached (num_trucks num_managers : ℕ) : ℕ → Storage → Type 0 where
  start : Reached num_trucks num_managers 0 (initial num_trucks)
  next :
      {k : ℕ} {s s' : Storage} (t : Thread) (r : ℕ)
      → Reached num_trucks num_managers k s
      → Created num_trucks num_managers t
      → step t r s ≡ Outcome.moved s'
      → Reached num_trucks num_managers (suc k) s'
