-- ===== src/Storage/Ends.antt =====
-- Multithreading/q3.c: where a run of the trucks and managers ends.
use os_in_parts.Prelude.{
  ℕ, zero, suc, ◌+◌, ◌-◌, ◌*◌, ◌≤◌, ◌<◌, ◌≡◌, refl, arith, Bool, true, false, none, some,
  Option-cases, ◌⊎◌, inl, inr, find_below, total_zeros, get_elem?-none, get_elem?_lt, subst,
}
use os_in_parts.Storage.Defs.{
  buffer_size, max_deliveries, Truck, Manager, Storage, Outcome, truck_step, manager_step, Thread,
  step, Created, Reached,
}
use os_in_parts.Storage.Invariant.{
  truck_before, truck_after, truck_inside, manager_before, manager_after, manager_inside, Inv,
  Reached-Inv,
}
use os_in_parts.Storage.Rounds.{delivery_of, Round, Rounds}
use os_in_parts.Storage.Steps.{Reached-Rounds}

is_moved : Outcome → Bool
is_moved (Outcome.moved s) = true
is_moved Outcome.blocked = false
is_moved Outcome.fault = false

is_moved-true : (o : Outcome) → is_moved o ≡ true → (s : Storage) × (o ≡ Outcome.moved s)
unfolding is_moved
is_moved-true (Outcome.moved s) e = (s, refl)
is_moved-true Outcome.blocked e = absurd (cc)
is_moved-true Outcome.fault e = absurd (cc)

-- Why a truck does not move.
data TruckStuck (i : ℕ) (s : Storage) : Truck → Type 0 where
  out_of_bounds : delivery_of s i ≡ none → TruckStuck i s (Truck.unloading 0)
  no_slot : (p : ℕ) → s.empty ≡ 0 → TruckStuck i s (Truck.unloading (suc p))
  no_lock : (p : ℕ) → s.mutex ≡ true → TruckStuck i s (Truck.entering p)
  ended : TruckStuck i s Truck.finished

data ManagerStuck (s : Storage) : Manager → Type 0 where
  no_product : (p : ℕ) → s.full ≡ 0 → ManagerStuck s (Manager.waiting p)
  no_lock : (p : ℕ) → s.mutex ≡ true → ManagerStuck s (Manager.entering p)

truck_stuck :
    (i r : ℕ) (s : Storage) (p : Truck) → is_moved (truck_step p r i s) ≡ false → TruckStuck i s p
unfolding is_moved truck_step
truck_stuck i r s Truck.deciding e = absurd (cc)
truck_stuck i r s (Truck.unloading zero) e = elim (Option-cases (delivery_of s i)) [
  | inl missing ↦ TruckStuck.out_of_bounds missing
  | inr (d, there) ↦ absurd (ground (arith, there))
]
truck_stuck i r s (Truck.unloading (suc p)) e = TruckStuck.no_slot p (ground arith)
truck_stuck i r s (Truck.entering p) e = TruckStuck.no_lock p (ground arith)
truck_stuck i r s (Truck.inside p) e = absurd (cc)
truck_stuck i r s (Truck.posting p) e = absurd (cc)
truck_stuck i r s Truck.finished e = TruckStuck.ended

manager_stuck :
    (i r : ℕ) (s : Storage) (p : Manager)
    → is_moved (manager_step p r i s) ≡ false
    → ManagerStuck s p
unfolding is_moved manager_step
manager_stuck i r s Manager.deciding e = absurd (cc)
manager_stuck i r s (Manager.waiting p) e = ManagerStuck.no_product p (ground arith)
manager_stuck i r s (Manager.entering p) e = ManagerStuck.no_lock p (ground arith)
manager_stuck i r s (Manager.inside p) e = absurd (cc)
manager_stuck i r s Manager.posting e = absurd (cc)

-- No thread that does not move is inside the lock or before a post, and with the lock free none is
-- between its wait and its post.
TruckStuck-outside :
    (i : ℕ) (s : Storage) (p : Truck)
    → TruckStuck i s p
    → (truck_inside p ≡ 0) × (truck_after p ≡ 0) × (s.mutex ≡ false → truck_before p ≡ 0)
TruckStuck-outside i s p (TruckStuck.out_of_bounds e) = (refl, refl, λ f. refl)
TruckStuck-outside i s p (TruckStuck.no_slot q e) = (refl, refl, λ f. refl)
TruckStuck-outside i s p (TruckStuck.no_lock q e) = (refl, refl, λ f. absurd (cc))
TruckStuck-outside i s p TruckStuck.ended = (refl, refl, λ f. refl)

ManagerStuck-outside :
    (s : Storage) (p : Manager)
    → ManagerStuck s p
    → (manager_inside p ≡ 0)
      × (manager_after p ≡ 0)
      × (s.mutex ≡ false → (manager_before p ≡ 0) × (s.full ≡ 0))
ManagerStuck-outside s p (ManagerStuck.no_product q e) = (refl, refl, λ f. (refl, e))
ManagerStuck-outside s p (ManagerStuck.no_lock q e) = (refl, refl, λ f. absurd (cc))

module _ (n m : ℕ) (s : Storage) (v : Inv n m s) (some_manager : 1 ≤ m)
    (trucks : (i : ℕ) → i < n → TruckStuck i s (s.trucks i))
    (managers : (i : ℕ) → i < m → ManagerStuck s (s.managers i)) where
  lock_free : s.mutex ≡ false
  lock_free = ground (
    arith,
    v.locked,
    total_zeros truck_inside n s.trucks (λ i h. (TruckStuck-outside i s _ (trucks i h)).0),
    total_zeros manager_inside m s.managers (λ i h. (ManagerStuck-outside s _ (managers i h)).0),
  )

  -- Then every slot is free.
  all_empty : s.empty ≡ buffer_size
  all_empty = omega (
    arith,
    v.slots,
    total_zeros truck_after n s.trucks (λ i h. (TruckStuck-outside i s _ (trucks i h)).1),
    total_zeros truck_before n s.trucks
        (λ i h. (TruckStuck-outside i s _ (trucks i h)).2 lock_free),
    total_zeros manager_after m s.managers (λ i h. (ManagerStuck-outside s _ (managers i h)).1),
    total_zeros manager_before m s.managers
        (λ i h. ((ManagerStuck-outside s _ (managers i h)).2 lock_free).0),
    ((ManagerStuck-outside s _ (managers 0 some_manager)).2 lock_free).1,
  )

  -- A truck has ended or is about to count its delivery out of bounds.
  truck_ends :
      (i : ℕ)
      → i < n
      → (s.trucks i ≡ Truck.finished)
        ⊎ ((s.trucks i ≡ Truck.unloading 0) × (delivery_of s i ≡ none))
  truck_ends i h = go (s.trucks i) refl (trucks i h)
    where
      go :
          (p : Truck)
          → s.trucks i ≡ p
          → TruckStuck i s p
          → (s.trucks i ≡ Truck.finished)
            ⊎ ((s.trucks i ≡ Truck.unloading 0) × (delivery_of s i ≡ none))
      go p f (TruckStuck.out_of_bounds e) = inr (f, e)
      go p f (TruckStuck.no_slot q e) = absurd (omega (arith, all_empty))
      go p f (TruckStuck.no_lock q e) = let free = lock_free in absurd (cc)
      go p f TruckStuck.ended = inl f

others-finished :
    (n : ℕ) (s : Storage)
    → Rounds n s
    → (i : ℕ) → i + 1 < n
    → (s.trucks i ≡ Truck.finished) ⊎ ((s.trucks i ≡ Truck.unloading 0) × (delivery_of s i ≡ none))
    → (s.trucks i ≡ Truck.finished) × (delivery_of s i ≡ some max_deliveries)
others-finished n s v i h (inl f) =
    (f, subst (λ p. Round p (delivery_of s i)) f (v.rounds i (omega arith)))
others-finished n s v i h (inr (f, missing)) =
    let (d, there) = get_elem?_lt s.deliveries (i + 1) (omega (arith, v.size)) in absurd (cc)

-- The last truck has no element of its own.
last-fault :
    (n : ℕ) (s : Storage)
    → 1 ≤ n
    → Rounds n s
    → (s.trucks (n - 1) ≡ Truck.finished)
      ⊎ ((s.trucks (n - 1) ≡ Truck.unloading 0) × (delivery_of s (n - 1) ≡ none))
    → (r : ℕ) → truck_step (s.trucks (n - 1)) r (n - 1) s ≡ Outcome.fault
unfolding truck_step
last-fault n s h v (inl f) r =
    let missing = get_elem?-none s.deliveries (n - 1 + 1) (omega (arith, v.size)) in
    let there = subst (λ p. Round p (delivery_of s (n - 1))) f (v.rounds (n - 1) (omega arith)) in
    absurd (cc)
last-fault n s h v (inr (f, missing)) r = rw (f, missing) refl

-- After `k` steps of one truck or more and one manager or more, in any order and whatever `rand`
-- returns, `k` is at most 112 for each truck and 1 for each manager, and either some thread can move,
-- or every truck but the last has left after its two deliveries and the next step of the last one is
-- an access out of bounds.
pub Reached-fault :
    (n m k : ℕ) (s : Storage)
    → 1 ≤ n
    → 1 ≤ m
    → Reached n m k s
    → (k ≤ 112 * n + m)
      × (((t : Thread) × (r : ℕ) × (s' : Storage) × Created n m t × (step t r s ≡ Outcome.moved s'))
          ⊎ (((i : ℕ)
                → i + 1 < n
                → (s.trucks i ≡ Truck.finished) × (delivery_of s i ≡ some max_deliveries))
              × ((r : ℕ) → step (Thread.truck (n - 1)) r s ≡ Outcome.fault)))
unfolding step
Reached-fault n m k s some_truck some_manager reached =
    let (rounds, bound) = Reached-Rounds n m reached in
    (
      omega arith,
      elim (find_below (λ i. is_moved (step (Thread.truck i) 0 s)) n) [
        | inl (i, lt, e) ↦
            let (s', moves) = is_moved-true (step (Thread.truck i) 0 s) e in
            inl (Thread.truck i, 0, s', lt, moves)
        | inr trucks ↦ elim (find_below (λ i. is_moved (step (Thread.manager i) 0 s)) m) [
          | inl (i, lt, e) ↦
              let (s', moves) = is_moved-true (step (Thread.manager i) 0 s) e in
              inl (Thread.manager i, 0, s', lt, moves)
          | inr managers ↦
              let ends =
                truck_ends n m s (Reached-Inv n m reached) some_manager
                  (λ i h. truck_stuck i 0 s (s.trucks i) (trucks i h))
                  (λ i h. manager_stuck i 0 s (s.managers i) (managers i h)) in
              inr (
                (λ i h. others-finished n s rounds i h (ends i (omega arith))),
                last-fault n s some_truck rounds (ends (n - 1) (omega arith)),
              )
        ]
      ],
    )
