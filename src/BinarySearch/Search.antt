-- ===== src/BinarySearch/Search.antt =====
-- Fork, Wait, Exec, Process Scheduling/q2.c: what the search finds.
use os_in_parts.Prelude.{
  ℕ, zero, suc, ◌+◌, ◌-◌, ◌≤◌, ◌<◌, ◌≡◌, ◌⊎◌, inl, inr, true, false, some, arith, Bool-cases,
  dec_lt,
}
use os_in_parts.Prelude.Int.{ℤ, ◌≤ℤ◌, ltb_ℤ, ◌==ℤ◌}
use os_in_parts.BinarySearch.{Outcome, middle, binary_search}

-- What the search prints is right.
pub data IsAnswer (arr : ℕ → ℤ) (start stop : ℕ) (target : ℤ) : Outcome → Type 0 where
  found :
      (m : ℕ)
      → start ≤ m
      → m < stop
      → (arr m ==ℤ target) ≡ true
      → IsAnswer arr start stop target (Outcome.index m)
  nowhere :
      ((i : ℕ) → start ≤ i → i < stop → (arr i ==ℤ target) ≡ false)
      → IsAnswer arr start stop target Outcome.absent

abbrev pub IsSorted : (ℕ → ℤ) → ℕ → ℕ → Type 0
IsSorted arr start stop = (p q : ℕ) → start ≤ p → p ≤ q → q < stop → arr p ≤ℤ arr q

-- The answer for a half is the answer for the whole, if the target is not in the rest.
wider :
    (arr : ℕ → ℤ) (start stop start' stop' : ℕ) (target : ℤ) (o : Outcome)
    → start ≤ start'
    → stop' ≤ stop
    → ((i : ℕ) → start ≤ i → i < stop → (i < start') ⊎ (stop' ≤ i) → (arr i ==ℤ target) ≡ false)
    → IsAnswer arr start' stop' target o
    → IsAnswer arr start stop target o
wider arr start stop start' stop' target o h k rest (IsAnswer.found m low high e) =
    IsAnswer.found m (omega arith) (omega arith) e
wider arr start stop start' stop' target o h k rest (IsAnswer.nowhere none_there) =
    IsAnswer.nowhere (λ i low high. elim (dec_lt i start') [
      | yes below ↦ rest i low high (inl below)
      | no above ↦ elim (dec_lt i stop') [
        | yes inside ↦ none_there i (omega arith) inside
        | no beyond ↦ rest i low high (inr (omega arith))
      ]
    ])

-- On a sorted array, with a step for each element and one more, the search returns: the index of an
-- element that is equal to the target, or -1 if there is none.
pub binary_search-IsAnswer :
    (fuel : ℕ) (arr : ℕ → ℤ) (start stop : ℕ) (target : ℤ)
    → IsSorted arr start stop
    → stop - start < fuel
    → (o : Outcome) × (binary_search fuel arr start stop target ≡ some o)
      × IsAnswer arr start stop target o
unfolding binary_search
binary_search-IsAnswer zero arr start stop target sorted enough = absurd (omega arith)
binary_search-IsAnswer (suc fuel) arr start stop target sorted enough =
    let mid = middle start stop in
    elim (dec_lt start stop) [
      | no empty ↦
          (Outcome.absent, ground arith, IsAnswer.nowhere (λ i low high. absurd (omega arith)))
      | yes more ↦ elim (Bool-cases (arr mid ==ℤ target)) [
        | inl here ↦
            (Outcome.index mid, ground arith, IsAnswer.found mid (omega arith) (omega arith) here)
        | inr elsewhere ↦ elim (Bool-cases (ltb_ℤ (arr mid) target)) [
          | inl larger ↦
              let (o, e, answer) =
                binary_search-IsAnswer fuel arr (mid + 1) stop target
                  (λ p q h k l. sorted p q (omega arith) k l) (omega arith) in
              (
                o,
                ground (arith, e),
                wider arr start stop (mid + 1) stop target o (omega arith) (omega arith)
                    (λ i low high out. ground (arith, sorted i mid low)) answer,
              )
          | inr smaller ↦
              let (o, e, answer) =
                binary_search-IsAnswer fuel arr start mid target
                  (λ p q h k l. sorted p q h k (omega arith)) (omega arith) in
              (
                o,
                ground (arith, e),
                wider arr start stop start mid target o (omega arith) (omega arith)
                    (λ i low high out. ground (arith, sorted mid i)) answer,
              )
        ]
      ]
    ]
