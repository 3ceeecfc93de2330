-- ===== src/Scheduler/Fifo/Sort.antt =====
-- Fork, Wait, Exec, Process Scheduling/q4.c: the bubble sort of `fifo`.
use mathlib.Core.List.{Perm, append_assoc, append-nil}
use mathlib.Core.List.Perm
use os_in_parts.Prelude.{
  ℕ, zero, suc, ◌+◌, ◌-◌, ◌≤◌, ◌<◌, ◌≡◌, refl, ◌⊎◌, inl, inr, true, false, List, [], ◌∷◌, ◌++◌,
  arith, length, All, if◌then◌else◌, Bool-cases, subst,
}
use os_in_parts.Scheduler.Process.{Process}
use os_in_parts.Scheduler.Fifo.{out_of_order, pass, sort_rounds}

-- Earlier arrival, or the same arrival and no larger pid.
abbrev pub Before : Process → Process → Type 0
Before p q =
    (p.arrival_time < q.arrival_time) ⊎ ((p.arrival_time ≡ q.arrival_time) × (p.pid ≤ q.pid))

-- Every process is before all that follow.
abbrev pub IsSorted : List Process → Type 0
IsSorted [] = Unit
IsSorted (p ∷ ps) = All (Before p) ps × IsSorted ps

Before-trans : (p q r : Process) → Before p q → Before q r → Before p r
Before-trans p q r h k = ground arith

in_order-Before : (p q : Process) → out_of_order p q ≡ false → Before p q
in_order-Before p q h = ground arith

out_of_order-Before : (p q : Process) → out_of_order p q ≡ true → Before q p
out_of_order-Before p q h = ground arith

-- A pass over the whole of `p ∷ ps`, as the processes before its end and the last of them all.
carry : Process → List Process → List Process × Process
carry p [] = ([], p)
carry p (q ∷ ps) =
    if out_of_order p q
    then (q ∷ (carry p ps).0, (carry p ps).1)
    else (p ∷ (carry q ps).0, (carry q ps).1)

pass-carry :
    (p : Process) (ps back : List Process)
    → pass (length ps) (p ∷ ps ++ back) ≡ (carry p ps).0 ++ (carry p ps).1 ∷ back
unfolding pass carry
pass-carry p [] back = refl
pass-carry p (q ∷ ps) back = ground (arith, pass-carry p ps back, pass-carry q ps back)

carry-Perm :
    (p : Process) (ps : List Process) → Perm ((carry p ps).0 ++ (carry p ps).1 ∷ []) (p ∷ ps)
unfolding carry
carry-Perm p [] = Perm.refl _
carry-Perm p (q ∷ ps) = elim (Bool-cases (out_of_order p q)) [
  | inl swap ↦
      rw (swap, if◌then◌else◌) (Perm.trans (Perm.cons q (carry-Perm p ps)) (Perm.swap p q ps))
  | inr keep ↦ rw (keep, if◌then◌else◌) (Perm.cons p (carry-Perm q ps))
]

carry-All :
    (P : Process → Type 0) (p : Process) (ps : List Process)
    → P p
    → All P ps
    → All P (carry p ps).0 × P (carry p ps).1
unfolding carry
carry-All P p [] h k = (tt, h)
carry-All P p (q ∷ ps) h k = elim (Bool-cases (out_of_order p q)) [
  | inl swap ↦
      let (front, last) = carry-All P p ps h k.1 in rw (swap, if◌then◌else◌) ((k.0, front), last)
  | inr keep ↦
      let (front, last) = carry-All P q ps k.0 k.1 in rw (keep, if◌then◌else◌) ((h, front), last)
]

-- The last process of a pass has no other before it.
carry-Before :
    (p : Process) (ps : List Process)
    → All (λ q. Before q (carry p ps).1) (carry p ps).0 × Before p (carry p ps).1
unfolding carry
carry-Before p [] = (tt, ground arith)
carry-Before p (q ∷ ps) = elim (Bool-cases (out_of_order p q)) [
  | inl swap ↦
      let (front, below) = carry-Before p ps in
      let q_first = out_of_order-Before p q swap in
      rw (swap, if◌then◌else◌) ((Before-trans q p (carry p ps).1 q_first below, front), below)
  | inr keep ↦
      let (front, below) = carry-Before q ps in
      let p_below = Before-trans p q (carry q ps).1 (in_order-Before p q keep) below in
      rw (keep, if◌then◌else◌) ((p_below, front), p_below)
]

length-carry : (p : Process) (ps : List Process) → length (carry p ps).0 ≡ length ps
unfolding carry
length-carry p [] = refl
length-carry p (q ∷ ps) = ground (arith, length-carry p ps, length-carry q ps)

All-both :
    (P Q : Process → Type 0) (ps : List Process) → All P ps → All Q ps → All (λ q. P q × Q q) ps
All-both P Q [] h k = tt
All-both P Q (q ∷ ps) h k = ((h.0, k.0), All-both P Q ps h.1 k.1)

-- What the outer loop makes of the array `ps`.
abbrev Sorts : ℕ → List Process → Type 0
Sorts k ps = IsSorted (sort_rounds k ps) × Perm (sort_rounds k ps) ps

-- The back of the array is sorted, and follows all of the front.
abbrev Split : List Process → List Process → Type 0
Split front back = IsSorted back × All (λ q. All (Before q) back) front

-- A pass moves the last process of the front to the back.
carry-Split :
    (p : Process) (front back : List Process)
    → Split (p ∷ front) back
    → Split (carry p front).0 ((carry p front).1 ∷ back)
carry-Split p front back (sorted, below) =
    let (rest, last) = carry-All (λ q. All (Before q) back) p front below.0 below.1 in
    ((last, sorted), All-both _ _ (carry p front).0 (carry-Before p front).0 rest)

pass-Perm :
    (p : Process) (front back : List Process)
    → Perm (pass (length front) (p ∷ front ++ back)) (p ∷ front ++ back)
pass-Perm p front back = rw pass-carry (
    subst (λ l. Perm l (p ∷ front ++ back))
      (append_assoc (carry p front).0 ((carry p front).1 ∷ []) back)
      (Perm.append (carry-Perm p front) (Perm.refl back)))

-- The outer loop, whose front has `k + 1` processes left.
sort_rounds-Sorts :
    (k : ℕ) (front back : List Process)
    → length front ≡ k + 1
    → Split front back
    → Sorts k (front ++ back)
unfolding sort_rounds
sort_rounds-Sorts k [] back e split = absurd (omega arith)
sort_rounds-Sorts zero (p ∷ []) back e (sorted, below) = ((below.0, sorted), Perm.refl _)
sort_rounds-Sorts zero (p ∷ q ∷ front) back e split = absurd (omega arith)
sort_rounds-Sorts (suc k) (p ∷ front) back e split =
    let rest =
      sort_rounds-Sorts k (carry p front).0 ((carry p front).1 ∷ back)
        (omega (arith, length-carry p front)) (carry-Split p front back split) in
    let size : length front ≡ suc k = omega arith in
    let moved =
      subst (λ n. Perm (pass n (p ∷ front ++ back)) (p ∷ front ++ back)) size
        (pass-Perm p front back) in
    let passed =
      subst (λ n. pass n (p ∷ front ++ back) ≡ (carry p front).0 ++ (carry p front).1 ∷ back) size
        (pass-carry p front back) in
    let sorts : Sorts k (pass (suc k) (p ∷ front ++ back)) = rw passed rest in
    (sorts.0, Perm.trans sorts.1 moved)

-- The loops of `fifo` sort the array: the result is in order of arrival, then of pid, and holds
-- the same processes.
pub sort_rounds-IsSorted :
    (ps : List Process)
    → IsSorted (sort_rounds (length ps - 1) ps) × Perm (sort_rounds (length ps - 1) ps) ps
unfolding sort_rounds
sort_rounds-IsSorted [] = (tt, Perm.refl [])
sort_rounds-IsSorted (p ∷ ps) =
    subst (Sorts (suc (length ps) - 1)) (append-nil (p ∷ ps))
      (sort_rounds-Sorts (suc (length ps) - 1) (p ∷ ps) [] (omega arith) (tt, All-nil (p ∷ ps)))
  where
    All-nil : (l : List Process) → All (λ q. All (Before q) []) l
    All-nil [] = tt
    All-nil (q ∷ l) = (tt, All-nil l)
