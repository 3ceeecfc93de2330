-- ===== src/TryLock/Locks.antt =====
-- Multithreading/q1.c: who holds the locks, and how the threads end.
use os_in_parts.Prelude.{
  ℕ, zero, suc, ◌+◌, ◌-◌, ◌*◌, ◌≤◌, ◌<◌, ◌≡◌, ◌≢◌, refl, arith, false, Option, none, some, update,
  subst, weight, total, total-update, total-ge, total-add-le, total_zeros, ◌⊎◌, inl, inr, if_both,
  ap, weight-le, total_pair-ge,
}
use os_in_parts.TryLock.Defs.{num_threads, Place, Locks, initial, step_in, step, Reached}

-- What a thread holds of the locks.
abbrev pub has_a : Place → ℕ
has_a (Place.looping c) = 0
has_a (Place.holding_a c) = 1
has_a (Place.holding_both c) = 1
has_a (Place.releasing c) = 1
has_a (Place.pausing c) = 0

abbrev pub has_b : Place → ℕ
has_b (Place.holding_both c) = 1
has_b _ = 0

abbrev only_a : Place → ℕ
only_a (Place.holding_a c) = 1
only_a (Place.releasing c) = 1
only_a _ = 0

-- The steps that a thread has before it.
abbrev to_go : Place → ℕ
to_go (Place.looping c) = 5 * c
to_go (Place.holding_a c) = 5 * (c - 1) + 4
to_go (Place.holding_both c) = 5 * (c - 1) + 3
to_go (Place.releasing c) = 5 * (c - 1) + 2
to_go (Place.pausing c) = 5 * (c - 1) + 1

abbrev left : Locks → ℕ
left s = total to_go num_threads s.threads

record Inv (s : Locks) : Type 0 where
  a_held : weight s.lock_a ≡ total has_a num_threads s.threads
  b_held : weight s.lock_b ≡ total has_b num_threads s.threads

Keeps : Locks → Option Locks → Type 0
Keeps s none = Unit
Keeps s (some s') = Inv s' × (left s' < left s)

module _ (i : ℕ) (s : Locks) (lt : i < num_threads) (v : Inv s) where
  moved :
      (place : Place) (s' : Locks)
      → s'.threads ≡ update s.threads i place
      → weight s'.lock_a + has_a (s.threads i) ≡ weight s.lock_a + has_a place
      → weight s'.lock_b + has_b (s.threads i) ≡ weight s.lock_b + has_b place
      → to_go place < to_go (s.threads i)
      → Inv s' × (left s' < left s)
  moved place s' threads a b less = (
    record {
      a_held =
          rw threads (omega (arith, v.a_held, total-update has_a num_threads s.threads i place lt));
      b_held =
          rw threads (omega (arith, v.b_held, total-update has_b num_threads s.threads i place lt));
    },
    rw threads (omega (arith, less, total-update to_go num_threads s.threads i place lt)),
  )

  -- A thread that holds lock A alone finds lock B free.
  b_free : only_a (s.threads i) ≡ 1 → s.lock_b ≡ false
  b_free e = ground (
    arith,
    v.a_held,
    v.b_held,
    total-ge only_a num_threads s.threads i lt,
    total-add-le only_a has_b has_a num_threads s.threads s.threads (λ j h. ground arith),
    (let one : weight s.lock_a ≤ 1 = ground arith in one),
  )

module _ (i : ℕ) (s : Locks) (lt : i < num_threads) (v : Inv s) where
  step_in-Keeps : (p : Place) → s.threads i ≡ p → Keeps s (step_in p i s)
  unfolding Keeps step_in
  step_in-Keeps (Place.looping zero) f = tt
  step_in-Keeps (Place.looping (suc c)) f =
      if_both (λ s'. Keeps s (some s')) s.lock_a _ _
        (λ taken. moved i s lt v _ _ refl (ground arith) (ground arith) (ground arith))
        (λ free. moved i s lt v _ _ refl (ground arith) (ground arith) (ground arith))
  step_in-Keeps (Place.holding_a c) f =
      if_both (λ s'. Keeps s (some s')) s.lock_b _ _
        (λ taken. moved i s lt v _ _ refl (ground arith) (ground arith) (ground arith))
        (λ free. moved i s lt v _ _ refl (ground arith) (ground arith) (ground arith))
  step_in-Keeps (Place.holding_both c) f =
      moved i s lt v _ _ refl (ground arith)
        (ground (arith, v.b_held, total-ge has_b num_threads s.threads i lt)) (ground arith)
  step_in-Keeps (Place.releasing c) f =
      moved i s lt v _ _ refl (ground (arith, v.a_held, total-ge has_a num_threads s.threads i lt))
        (ground arith) (ground arith)
  step_in-Keeps (Place.pausing c) f =
      moved i s lt v _ _ refl (ground arith) (ground arith) (ground arith)

-- Three threads with three rounds of five steps.
abbrev pub all_steps : ℕ
all_steps = 45

Inv-initial : Inv initial
unfolding total
Inv-initial = record { a_held = refl; b_held = refl }

Reached-Inv : {k : ℕ} {s : Locks} → Reached k s → Inv s × (k + left s ≤ all_steps)
unfolding Keeps step
Reached-Inv Reached.start = (Inv-initial, unfold total in omega arith)
Reached-Inv (Reached.next {k} {s} {s'} i reached lt e) =
    let (v, le) = Reached-Inv reached in
    let (v', less) = subst (Keeps s) e (step_in-Keeps i s lt v (s.threads i) refl) in
    (v', omega arith)

-- Whatever the order of the steps, of two threads at most one holds lock A, and a thread that holds
-- lock A and is about to try lock B finds it free.
pub Reached-b_free :
    (k : ℕ) (s : Locks)
    → Reached k s
    → ((i j : ℕ)
        → i < num_threads
        → j < num_threads
        → i ≢ j
        → has_a (s.threads i) + has_a (s.threads j) ≤ 1)
      × ((i count : ℕ) → i < num_threads → s.threads i ≡ Place.holding_a count → s.lock_b ≡ false)
Reached-b_free k s reached =
    let (v, le) = Reached-Inv reached in
    (
      (λ i j hi hj ne. omega (
        arith,
        v.a_held,
        total_pair-ge has_a num_threads s.threads i j hi hj ne,
        weight-le s.lock_a,
      )),
      (λ i count lt f. b_free i s lt v (ap only_a f)),
    )

-- After `k` steps, in any order, `k` is at most 45, each thread can move or has ended, and once all
-- have ended both locks are free.
pub Reached-unlocked :
    (k : ℕ) (s : Locks)
    → Reached k s
    → (k ≤ all_steps)
      × ((i : ℕ)
          → i < num_threads
          → ((s' : Locks) × (step i s ≡ some s')) ⊎ (s.threads i ≡ Place.looping 0))
      × (((i : ℕ) → i < num_threads → s.threads i ≡ Place.looping 0)
          → (s.lock_a ≡ false) × (s.lock_b ≡ false))
unfolding step step_in
Reached-unlocked k s reached =
    let (v, le) = Reached-Inv reached in
    (
      omega arith,
      (λ i lt. can_move (s.threads i) i s),
      (λ ended. (
        ground (
          arith,
          v.a_held,
          total_zeros has_a num_threads s.threads (λ i h. ap has_a (ended i h)),
        ),
        ground (
          arith,
          v.b_held,
          total_zeros has_b num_threads s.threads (λ i h. ap has_b (ended i h)),
        ),
      )),
    )
  where
    can_move :
        (p : Place) (i : ℕ) (s : Locks)
        → ((s' : Locks) × (step_in p i s ≡ some s')) ⊎ (p ≡ Place.looping 0)
    can_move (Place.looping zero) i s = inr refl
    can_move (Place.looping (suc c)) i s = inl (_, refl)
    can_move (Place.holding_a c) i s = inl (_, refl)
    can_move (Place.holding_both c) i s = inl (_, refl)
    can_move (Place.releasing c) i s = inl (_, refl)
    can_move (Place.pausing c) i s = inl (_, refl)
