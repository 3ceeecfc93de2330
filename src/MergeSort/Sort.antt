-- ===== src/MergeSort/Sort.antt =====
-- Segmentation, Paging, IPC/q1.c: `mergesort` sorts its segment.
use os_in_parts.Prelude.{
  ℕ, zero, suc, ◌+◌, ◌-◌, ◌≤◌, ◌<◌, ◌≡◌, refl, ap, ◌∙◌, subst, ◌⊎◌, some, arith, total-cong,
  total-split, dec_lt,
}
use os_in_parts.Prelude.Int.{ℤ}
use os_in_parts.MergeSort.Defs.{Array, copy_from, merge, middle, gather, mergesort}
use os_in_parts.MergeSort.Merge.{same, count, IsSorted, merged, merged-Inv}

-- The array `after` has the elements `left` to `right` of `before` in order, and all others in place.
pub record Sorts (before after : Array) (left right : ℕ) : Type 0 where
  pub sorted : IsSorted (right - left + 1) (copy_from left after)
  pub counted :
      (x : ℤ)
      → count x (right - left + 1) (copy_from left after)
        ≡ count x (right - left + 1) (copy_from left before)
  pub outside : (p : ℕ) → (p < left) ⊎ (right < p) → after p ≡ before p

-- The count of a segment is the sum of those of its halves.
count-halves :
    (x : ℤ) (arr : Array) (left mid right : ℕ)
    → left ≤ mid
    → mid < right
    → count x (right - left + 1) (copy_from left arr)
      ≡ count x (mid - left + 1) (copy_from left arr)
        + count x (right - mid) (copy_from (mid + 1) arr)
count-halves x arr left mid right h k =
    let e : right - left + 1 ≡ (mid - left + 1) + (right - mid) = omega arith in
    rw e (
      total-split (same x) (mid - left + 1) (right - mid) (copy_from left arr)
        (copy_from (mid + 1) arr) (λ i lt. ap arr (omega arith)))

-- If `left` is at most `mid`, `mid` is below `right`, and both halves are in order, `merge` puts the whole in order: it has the same
-- elements, as often, and nothing outside has changed.
pub merge-Sorts :
    (arr : Array) (left mid right : ℕ)
    → left ≤ mid
    → mid < right
    → IsSorted (mid - left + 1) (copy_from left arr)
    → IsSorted (right - mid) (copy_from (mid + 1) arr)
    → Sorts arr (merge arr left mid right) left right
unfolding merge
merge-Sorts arr left mid right h k sorted_left sorted_right =
    let n1 = mid - left + 1 in
    let n2 = right - mid in
    let (v, e, e') =
      merged-Inv (copy_from left arr) (copy_from (mid + 1) arr) n1 n2 left arr sorted_left
        sorted_right in
    record {
      sorted = λ p q lt lt'.
          v.sorted (left + p) (left + q) (omega arith) (omega arith) (omega (arith, v.place));
      counted = λ x.
          let s =
            merged (copy_from left arr) (copy_from (mid + 1) arr) n1 n2 left arr sorted_left
              sorted_right in
          let size : s.i + s.j ≡ right - left + 1 = omega (arith, e, e') in
          omega (
            arith,
            v.counted x,
            ap (λ n. count x n (copy_from left s.arr)) size,
            ap (λ n. count x n (copy_from left arr)) e,
            ap (λ n. count x n (copy_from (mid + 1) arr)) e',
            count-halves x arr left mid right h k,
          );
      outside = λ p away. v.outside p (ground arith);
    }

IsSorted-cong : (n : ℕ) (a b : Array) → ((i : ℕ) → i < n → b i ≡ a i) → IsSorted n a → IsSorted n b
IsSorted-cong n a b e sorted p q h k = rw (e p (omega arith), e q k) (sorted p q h k)

-- The parent's array has the two halves that its children have put in order.
gather-first :
    (arr first second : Array) (left mid right i : ℕ)
    → i < mid - left + 1
    → left ≤ mid
    → gather arr first second left mid right (left + i) ≡ first (left + i)
unfolding gather
gather-first arr first second left mid right i h k = ground arith

gather-second :
    (arr first second : Array) (left mid right i : ℕ)
    → i < right - mid
    → gather arr first second left mid right (mid + 1 + i) ≡ second (mid + 1 + i)
unfolding gather
gather-second arr first second left mid right i h = ground arith

gather-outside :
    (arr first second : Array) (left mid right p : ℕ)
    → left ≤ mid
    → mid < right
    → (p < left) ⊎ (right < p)
    → gather arr first second left mid right p ≡ arr p
unfolding gather
gather-outside arr first second left mid right p h k away = ground arith

module _ (arr first second : Array) (left mid right : ℕ) (h : left ≤ mid) (k : mid < right)
    (ordered : Sorts arr first left mid) (ordered' : Sorts arr second (mid + 1) right) where
  abbrev gathered : Array
  gathered = gather arr first second left mid right

  size : right - (mid + 1) + 1 ≡ right - mid
  size = omega arith

  gathered-counted :
      (x : ℤ)
      → count x (right - left + 1) (copy_from left gathered)
        ≡ count x (right - left + 1) (copy_from left arr)
  gathered-counted x = omega (
    arith,
    count-halves x gathered left mid right h k,
    count-halves x arr left mid right h k,
    total-cong (same x) (same x) (mid - left + 1) (copy_from left gathered) (copy_from left first)
        (λ i lt. ap (same x) (gather-first arr first second left mid right i lt h)),
    total-cong (same x) (same x) (right - mid) (copy_from (mid + 1) gathered)
        (copy_from (mid + 1) second)
        (λ i lt. ap (same x) (gather-second arr first second left mid right i lt)),
    ordered.counted x,
    subst (λ n. count x n (copy_from (mid + 1) second) ≡ count x n (copy_from (mid + 1) arr)) size
        (ordered'.counted x),
  )

  -- The merge of the halves puts the segment in order.
  halves-Sorts : Sorts arr (merge gathered left mid right) left right
  halves-Sorts =
      let m =
        merge-Sorts gathered left mid right h k
          (IsSorted-cong (mid - left + 1) (copy_from left first) (copy_from left gathered)
            (λ i lt. gather-first arr first second left mid right i lt h) ordered.sorted)
          (IsSorted-cong (right - mid) (copy_from (mid + 1) second) (copy_from (mid + 1) gathered)
            (λ i lt. gather-second arr first second left mid right i lt)
            (subst (λ n. IsSorted n (copy_from (mid + 1) second)) size ordered'.sorted)) in
      record {
        sorted = m.sorted;
        counted = λ x. m.counted x ∙ gathered-counted x;
        outside =
            λ p away. m.outside p away ∙ gather-outside arr first second left mid right p h k away;
      }

Sorts-one : (arr : Array) (left right : ℕ) → right ≡ left → Sorts arr arr left right
Sorts-one arr left right e = record {
  sorted = λ p q h k. absurd (omega arith);
  counted = λ x. refl;
  outside = λ p away. refl;
}

-- With `left` at most `right` and a level of recursion for each element, `mergesort` returns the array with the segment from
-- `left` to `right` in order: sorted, with each value as often as before, and no other element
-- changed.
pub mergesort-Sorts :
    (fuel : ℕ) (arr : Array) (left right : ℕ)
    → left ≤ right
    → right - left < fuel
    → (after : Array) × (mergesort fuel arr left right ≡ some after) × Sorts arr after left right
unfolding mergesort
mergesort-Sorts zero arr left right h enough = absurd (omega arith)
mergesort-Sorts (suc fuel) arr left right h enough = elim (dec_lt left right) [
  | no one ↦ (arr, ground arith, Sorts-one arr left right (omega arith))
  | yes more ↦
      let mid = middle left right in
      let (first, e, ordered) = mergesort-Sorts fuel arr left mid (omega arith) (omega arith) in
      let (second, e', ordered') =
        mergesort-Sorts fuel arr (mid + 1) right (omega arith) (omega arith) in
      (
        merge (gather arr first second left mid right) left mid right,
        ground (arith, e, e'),
        halves-Sorts arr first second left mid right (omega arith) (omega arith) ordered ordered',
      )
]
