-- ===== src/Storage/Invariant.antt =====
-- Multithreading/q3.c: what the semaphores and the lock keep.
use os_in_parts.Prelude.{
  ℕ, zero, suc, ◌+◌, ◌≤◌, ◌<◌, ◌≡◌, refl, arith, ◌⊎◌, ℕ_discrete, if_both, subst, ◌==◌, update,
  weight, total, total-update, total-ge, total-zero, get_elem?, Option, none, some,
}
use os_in_parts.Storage.Defs.{
  buffer_size, Truck, Manager, Storage, Outcome, initial, put, delivered, truck_step, manager_step,
  Thread, step, Created, Reached,
}
use os_in_parts.Storage.Ring.{
  IsRing, IsRing-empty, put-IsRing, take_products-IsRing, take_products-count,
}

-- The trucks that have waited for a slot and not yet filled it, that have filled it and not yet
-- posted `full`, and that are inside the lock.
abbrev pub truck_before : Truck → ℕ
truck_before (Truck.entering p) = 1
truck_before (Truck.inside p) = 1
truck_before _ = 0

abbrev pub truck_after : Truck → ℕ
truck_after (Truck.posting p) = 1
truck_after _ = 0

abbrev pub truck_inside : Truck → ℕ
truck_inside (Truck.inside p) = 1
truck_inside _ = 0

-- The same of the managers, which wait for `full` and post `empty`.
abbrev pub manager_before : Manager → ℕ
manager_before (Manager.entering p) = 1
manager_before (Manager.inside p) = 1
manager_before _ = 0

abbrev pub manager_after : Manager → ℕ
manager_after Manager.posting = 1
manager_after _ = 0

abbrev pub manager_inside : Manager → ℕ
manager_inside (Manager.inside p) = 1
manager_inside _ = 0

-- A manager asks for one product at least.
abbrev pub Asks : Manager → Type 0
Asks (Manager.waiting p) = 1 ≤ p
Asks (Manager.entering p) = 1 ≤ p
Asks (Manager.inside p) = 1 ≤ p
Asks _ = Unit

-- The invariant, for `n` trucks and `m` managers.
pub record Inv (n m : ℕ) (s : Storage) : Type 0 where
  pub ring : IsRing s.store
  pub slots :
      s.empty
        + s.full
        + total truck_before n s.trucks
        + total truck_after n s.trucks
        + total manager_before m s.managers
        + total manager_after m s.managers
      ≡ buffer_size
  pub stock :
      s.store.count ≤ s.full + total truck_after n s.trucks + total manager_before m s.managers
  pub locked : weight s.mutex ≡ total truck_inside n s.trucks + total manager_inside m s.managers
  pub asks : (i : ℕ) → i < m → Asks (s.managers i)

pub Inv-initial : (n m : ℕ) → Inv n m (initial n)
Inv-initial n m = record {
  ring = IsRing-empty;
  slots = omega (
    arith,
    total-zero truck_before n Truck.deciding refl,
    total-zero truck_after n Truck.deciding refl,
    total-zero manager_before m Manager.deciding refl,
    total-zero manager_after m Manager.deciding refl,
  );
  stock = omega arith;
  locked = omega (
    arith,
    total-zero truck_inside n Truck.deciding refl,
    total-zero manager_inside m Manager.deciding refl,
  );
  asks = λ i h. tt;
}

-- A truck that moves changes the sums by what it is itself.
module _ (n m i : ℕ) (s : Storage) (lt : i < n) (v : Inv n m s) where
  truck-Inv :
      (place : Truck) (s' : Storage)
      → s'.trucks ≡ update s.trucks i place
      → s'.managers ≡ s.managers
      → IsRing s'.store
      → (s'.empty + s'.full + truck_before place + truck_after place
          ≡ s.empty + s.full + truck_before (s.trucks i) + truck_after (s.trucks i))
      → (s'.store.count + s.full + truck_after (s.trucks i)
          ≤ s.store.count + s'.full + truck_after place)
      → weight s'.mutex + truck_inside (s.trucks i) ≡ weight s.mutex + truck_inside place
      → Inv n m s'
  truck-Inv place s' trucks managers ring slots stock locked = record {
    ring = ring;
    slots =
        rw (trucks, managers)
          (omega (
            arith,
            v.slots,
            total-update truck_before n s.trucks i place lt,
            total-update truck_after n s.trucks i place lt,
          ));
    stock =
        rw (trucks, managers)
          (omega (arith, v.stock, total-update truck_after n s.trucks i place lt));
    locked =
        rw (trucks, managers)
          (omega (arith, v.locked, total-update truck_inside n s.trucks i place lt));
    asks = rw managers v.asks;
  }

-- A manager that moves, likewise.
module _ (n m i : ℕ) (s : Storage) (lt : i < m) (v : Inv n m s) where
  manager-Inv :
      (place : Manager) (s' : Storage)
      → s'.managers ≡ update s.managers i place
      → s'.trucks ≡ s.trucks
      → IsRing s'.store
      → (s'.empty + s'.full + manager_before place + manager_after place
          ≡ s.empty + s.full + manager_before (s.managers i) + manager_after (s.managers i))
      → (s'.store.count + s.full + manager_before (s.managers i)
          ≤ s.store.count + s'.full + manager_before place)
        ⊎ (s'.store.count ≡ 0)
      → weight s'.mutex + manager_inside (s.managers i) ≡ weight s.mutex + manager_inside place
      → Asks place
      → Inv n m s'
  manager-Inv place s' managers trucks ring slots stock locked asks = record {
    ring = ring;
    slots =
        rw (trucks, managers)
          (omega (
            arith,
            v.slots,
            total-update manager_before m s.managers i place lt,
            total-update manager_after m s.managers i place lt,
          ));
    stock =
        rw (trucks, managers)
          (omega (arith, stock, v.stock, total-update manager_before m s.managers i place lt));
    locked =
        rw (trucks, managers)
          (omega (arith, v.locked, total-update manager_inside m s.managers i place lt));
    asks = λ j h. rw managers (elim (ℕ_discrete j i) [
      | yes same ↦ ground (arith, asks)
      | no ne ↦ ground (arith, v.asks j h)
    ]);
  }

-- Fewer than 25 products are in the store when a truck is about to put one.
truck-room :
    (n m i : ℕ) (s : Storage)
    → i < n
    → Inv n m s
    → 1 ≤ truck_before (s.trucks i)
    → s.store.count < buffer_size
truck-room n m i s lt v before =
    omega (arith, v.slots, v.stock, total-ge truck_before n s.trucks i lt)

-- What a step of the threads has to keep.
Keeps : ℕ → ℕ → Outcome → Type 0
Keeps n m (Outcome.moved s) = Inv n m s
Keeps n m Outcome.blocked = Unit
Keeps n m Outcome.fault = Unit

truck_step-Keeps :
    (n m i r : ℕ) (s : Storage) (p : Truck)
    → i < n
    → Inv n m s
    → s.trucks i ≡ p
    → Keeps n m (truck_step p r i s)
unfolding Keeps truck_step
truck_step-Keeps n m i r s Truck.deciding lt v f =
    truck-Inv n m i s lt v _ _ refl refl v.ring (ground arith) (ground arith) (ground arith)
truck_step-Keeps n m i r s (Truck.unloading zero) lt v f = go (get_elem? s.deliveries (i + 1))
  where
    go : (d : Option ℕ) → Keeps n m (delivered i s d)
    go none = tt
    go (some d) =
        truck-Inv n m i s lt v _ _ refl refl v.ring (ground arith) (ground arith) (ground arith)
truck_step-Keeps n m i r s (Truck.unloading (suc p)) lt v f =
    if_both (Keeps n m) (s.empty == 0) _ _ (λ _. tt)
      (λ some_left.
        truck-Inv n m i s lt v _ _ refl refl v.ring (ground arith) (ground arith) (ground arith))
truck_step-Keeps n m i r s (Truck.entering p) lt v f =
    if_both (Keeps n m) s.mutex _ _ (λ _. tt)
      (λ free.
        truck-Inv n m i s lt v _ _ refl refl v.ring (ground arith) (ground arith) (ground arith))
truck_step-Keeps n m i r s (Truck.inside p) lt v f =
    truck-Inv n m i s lt v _ _ refl refl
      (put-IsRing s.store v.ring (truck-room n m i s lt v (ground arith))) (ground arith)
      (unfold put in ground arith) (ground (arith, v.locked, total-ge truck_inside n s.trucks i lt))
truck_step-Keeps n m i r s (Truck.posting p) lt v f =
    truck-Inv n m i s lt v _ _ refl refl v.ring (ground arith) (ground arith) (ground arith)
truck_step-Keeps n m i r s Truck.finished lt v f = tt

manager_step-Keeps :
    (n m i r : ℕ) (s : Storage) (p : Manager)
    → i < m
    → Inv n m s
    → s.managers i ≡ p
    → Keeps n m (manager_step p r i s)
unfolding Keeps manager_step
manager_step-Keeps n m i r s Manager.deciding lt v f =
    manager-Inv n m i s lt v _ _ refl refl v.ring (ground arith) (ground arith) (ground arith)
      (omega arith)
manager_step-Keeps n m i r s (Manager.waiting p) lt v f =
    if_both (Keeps n m) (s.full == 0) _ _ (λ _. tt)
      (λ some_left.
        manager-Inv n m i s lt v _ _ refl refl v.ring (ground arith) (ground arith) (ground arith)
          (subst Asks f (v.asks i lt)))
manager_step-Keeps n m i r s (Manager.entering p) lt v f =
    if_both (Keeps n m) s.mutex _ _ (λ _. tt)
      (λ free.
        manager-Inv n m i s lt v _ _ refl refl v.ring (ground arith) (ground arith) (ground arith)
          (subst Asks f (v.asks i lt)))
manager_step-Keeps n m i r s (Manager.inside p) lt v f =
    let asks : 1 ≤ p = subst Asks f (v.asks i lt) in
    manager-Inv n m i s lt v _ _ refl refl (take_products-IsRing p s.store v.ring) (ground arith)
      (ground (arith, take_products-count p s.store))
      (ground (arith, v.locked, total-ge manager_inside m s.managers i lt)) tt
manager_step-Keeps n m i r s Manager.posting lt v f =
    manager-Inv n m i s lt v _ _ refl refl v.ring (ground arith) (ground arith) (ground arith) tt

pub step-Inv :
    (n m : ℕ) (t : Thread) (r : ℕ) (s s' : Storage)
    → Created n m t
    → Inv n m s
    → step t r s ≡ Outcome.moved s'
    → Inv n m s'
unfolding Keeps step
step-Inv n m (Thread.truck i) r s s' lt v e =
    subst (Keeps n m) e (truck_step-Keeps n m i r s (s.trucks i) lt v refl)
step-Inv n m (Thread.manager i) r s s' lt v e =
    subst (Keeps n m) e (manager_step-Keeps n m i r s (s.managers i) lt v refl)

pub Reached-Inv : (n m : ℕ) {k : ℕ} {s : Storage} → Reached n m k s → Inv n m s
Reached-Inv n m Reached.start = Inv-initial n m
Reached-Inv n m (Reached.next {k} {s} {s'} t r reached created e) =
    step-Inv n m t r s s' created (Reached-Inv n m reached) e
