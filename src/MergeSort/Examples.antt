-- ===== src/MergeSort/Examples.antt =====
-- Segmentation, Paging, IPC/q1.c: the array of `main`.
use os_in_parts.Prelude.{
  ℕ, ◌≡◌, refl, Option, none, some, List, [], ◌∷◌, arith, get_elem?, ◌==◌, if◌then◌else◌,
}
use os_in_parts.Prelude.Int.{ℤ, pos}
use os_in_parts.MergeSort.Defs.{
  Array, merge, mergesort, merge_step, merge_both, copy_left, copy_right, both_left, gather,
}
use os_in_parts.MergeSort.Sort.{Sorts, mergesort-Sorts}

abbrev elements : List ℕ
elements = 6 ∷ 3 ∷ 2 ∷ 8 ∷ 12 ∷ 5 ∷ 7 ∷ 16 ∷ 9 ∷ 10 ∷ 11 ∷ 1 ∷ 15 ∷ 14 ∷ 13 ∷ 4 ∷ []

element : Option ℕ → ℤ
element none = pos 0
element (some n) = pos n

abbrev arr : Array
unfolding element
arr i = element (get_elem? elements i)

mergesort-Sorts_example :
    (after : Array) × (mergesort 16 arr 0 15 ≡ some after) × Sorts arr after 0 15
mergesort-Sorts_example = mergesort-Sorts 16 arr 0 15 (omega arith) (omega arith)

-- Two elements in each half.
abbrev halves : Array
halves i = if i == 0 then pos 2 else if i == 1 then pos 5 else if i == 2 then pos 1 else pos 5

abbrev first_four : Array → List ℤ
first_four a = a 0 ∷ a 1 ∷ a 2 ∷ a 3 ∷ []

abbrev first_four_of : Option Array → List ℤ
first_four_of none = []
first_four_of (some a) = first_four a

mergesort-main : first_four_of (mergesort 4 halves 0 3) ≡ pos 1 ∷ pos 2 ∷ pos 5 ∷ pos 5 ∷ []
unfolding mergesort merge merge_step merge_both both_left copy_left copy_right gather
mergesort-main = refl
