-- ===== src/Storage/Rounds.antt =====
-- Multithreading/q3.c: the deliveries of each truck, and the steps that the threads have left.
use os_in_parts.Prelude.{
  ℕ, zero, suc, ◌+◌, ◌-◌, ◌*◌, ◌≤◌, ◌<◌, ◌≡◌, ◌≢◌, refl, sym, arith, subst, ap, ◌∙◌, ℕ_discrete,
  update, total, total-update, total_change, total-cong, total-le, length, length-replicate,
  get_elem?, replicate, Option, none, some,
}
use os_in_parts.Storage.Defs.{max_deliveries, Truck, Manager, Storage, initial}

-- What is read of an element that is there, and 0 of another.
abbrev pub or_zero : Option ℕ → ℕ
or_zero none = 0
or_zero (some d) = d

abbrev pub delivery_of : Storage → ℕ → Option ℕ
delivery_of s i = get_elem? s.deliveries (i + 1)

-- The steps of a truck that has done `d` deliveries, with those of a manager that its products cause.
abbrev pub truck_left : Truck → ℕ → ℕ
truck_left Truck.deciding d = 56 * (2 - d)
truck_left (Truck.unloading p) d = 9 * p + 1 + 56 * (1 - d)
truck_left (Truck.entering p) d = 9 * p + 56 * (1 - d)
truck_left (Truck.inside p) d = 9 * p - 1 + 56 * (1 - d)
truck_left (Truck.posting p) d = 9 * p + 7 + 56 * (1 - d)
truck_left Truck.finished d = 0

-- The steps of a manager up to its next wait.
abbrev pub manager_left : Manager → ℕ
manager_left Manager.deciding = 1
manager_left (Manager.waiting p) = 0
manager_left (Manager.entering p) = 4
manager_left (Manager.inside p) = 3
manager_left Manager.posting = 2

abbrev pub to_go : Storage → ℕ → ℕ
to_go s i = truck_left (s.trucks i) (or_zero (delivery_of s i))

abbrev pub left : ℕ → ℕ → Storage → ℕ
left n m s = total (λ k. k) n (to_go s) + 5 * s.full + total manager_left m s.managers

-- A truck with a slot has a product for it, and it ends with its last delivery.
abbrev pub Round : Truck → Option ℕ → Type 0
Round Truck.finished d = d ≡ some max_deliveries
Round (Truck.entering p) d = (1 ≤ p) × (or_zero d < max_deliveries)
Round (Truck.inside p) d = (1 ≤ p) × (or_zero d < max_deliveries)
Round _ d = Unit × (or_zero d < max_deliveries)

pub record Rounds (n : ℕ) (s : Storage) : Type 0 where
  pub size : length s.deliveries ≡ n
  pub rounds : (i : ℕ) → i < n → Round (s.trucks i) (delivery_of s i)

nothing_done : (n i : ℕ) → or_zero (get_elem? (replicate n 0) i) ≡ 0
nothing_done zero i = refl
nothing_done (suc n) zero = refl
nothing_done (suc n) (suc i) = nothing_done n i

pub Rounds-initial : (n : ℕ) → Rounds n (initial n)
Rounds-initial n = record {
  size = length-replicate n 0;
  rounds = λ i h. (tt, omega (arith, nothing_done n (i + 1)));
}

pub left-initial : (n m : ℕ) → left n m (initial n) ≤ 112 * n + m
left-initial n m = omega (
  arith,
  total-cong (λ k. k) (λ _. 112) n (to_go (initial n)) (λ i. i)
      (λ i h. omega (arith, nothing_done n (i + 1))),
  total-le (λ _. 112) 112 (λ i. omega arith) n (λ i. i),
  total-cong manager_left (λ _. 1) m (λ _. Manager.deciding) (λ i. i) (λ i h. refl),
  total-le (λ _. 1) 1 (λ i. omega arith) m (λ i. i),
)

-- A truck that moves.
module _ (n m i : ℕ) (s : Storage) (lt : i < n) (v : Rounds n s) where
  pub truck_moves :
      (place : Truck) (s' : Storage)
      → s'.trucks ≡ update s.trucks i place
      → s'.managers ≡ s.managers
      → length s'.deliveries ≡ length s.deliveries
      → ((j : ℕ) → j ≢ i → delivery_of s' j ≡ delivery_of s j)
      → Round place (delivery_of s' i)
      → truck_left place (or_zero (delivery_of s' i)) + 5 * s'.full < to_go s i + 5 * s.full
      → Rounds n s' × (left n m s' < left n m s)
  truck_moves place s' trucks managers same_size others round less = (
    record {
      size = same_size ∙ v.size;
      rounds = λ j h. rw trucks (elim (ℕ_discrete j i) [
        | yes same ↦ ground (arith, round)
        | no ne ↦ ground (arith, others j ne, v.rounds j h)
      ]);
    },
    rw managers (
        omega (
          arith,
          less,
          total_change (λ k. k) n (to_go s) (to_go s') i lt
              (λ j ne. rw (trucks, others j ne) (ground arith)),
          (let own : to_go s' i ≡ truck_left place (or_zero (delivery_of s' i)) =
                rw trucks (ground arith) in
              own),
        )),
  )

  -- The same in a step that writes no number of deliveries.
  pub truck_stays :
      (place : Truck) (s' : Storage)
      → s'.trucks ≡ update s.trucks i place
      → s'.managers ≡ s.managers
      → s'.deliveries ≡ s.deliveries
      → Round place (delivery_of s i)
      → truck_left place (or_zero (delivery_of s i)) + 5 * s'.full < to_go s i + 5 * s.full
      → Rounds n s' × (left n m s' < left n m s)
  truck_stays place s' trucks managers same round less =
      let same_at : (j : ℕ) → delivery_of s' j ≡ delivery_of s j =
        λ j. ap (λ xs. get_elem? xs (j + 1)) same in
      truck_moves place s' trucks managers (ap length same) (λ j ne. same_at j)
        (subst (Round place) (sym (same_at i)) round) (rw (same_at i) less)

-- A manager that moves.
pub manager_moves :
    (n m i : ℕ) (s : Storage) (place : Manager) (s' : Storage)
    → i < m
    → Rounds n s
    → s'.managers ≡ update s.managers i place
    → s'.trucks ≡ s.trucks
    → s'.deliveries ≡ s.deliveries
    → manager_left place + 5 * s'.full < manager_left (s.managers i) + 5 * s.full
    → Rounds n s' × (left n m s' < left n m s)
manager_moves n m i s place s' lt v managers trucks same less = (
  record { size = ap length same ∙ v.size; rounds = rw (trucks, same) v.rounds },
  rw (managers, trucks, same)
      (omega (arith, less, total-update manager_left m s.managers i place lt)),
)
