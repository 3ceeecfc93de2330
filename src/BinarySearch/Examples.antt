-- ===== src/BinarySearch/Examples.antt =====
-- Fork, Wait, Exec, Process Scheduling/q2.c: the array of `main`, 1 to 16.
use os_in_parts.Prelude.{ℕ, ◌+◌, ◌≡◌, refl, some, arith}
use os_in_parts.Prelude.Int.{ℤ, pos}
use os_in_parts.BinarySearch.{Outcome, binary_search}
use os_in_parts.BinarySearch.Search.{IsAnswer, binary_search-IsAnswer}

abbrev arr : ℕ → ℤ
arr i = pos (i + 1)

binary_search-11 : binary_search 17 arr 0 16 (pos 11) ≡ some (Outcome.index 10)
unfolding binary_search
binary_search-11 = refl

binary_search-17 : binary_search 17 arr 0 16 (pos 17) ≡ some Outcome.absent
unfolding binary_search
binary_search-17 = refl

binary_search-IsAnswer_example :
    (o : Outcome) × (binary_search 17 arr 0 16 (pos 11) ≡ some o) × IsAnswer arr 0 16 (pos 11) o
binary_search-IsAnswer_example =
    binary_search-IsAnswer 17 arr 0 16 (pos 11) (λ p q h k l. omega arith) (omega arith)
