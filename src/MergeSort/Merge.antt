-- ===== src/MergeSort/Merge.antt =====
-- Segmentation, Paging, IPC/q1.c: `merge` of two sorted halves.
use os_in_parts.Prelude.{
  ℕ, zero, suc, ◌+◌, ◌-◌, ◌≤◌, ◌<◌, ◌≡◌, refl, ◌⊎◌, inl, inr, true, false, arith, if◌then◌else◌,
  update, total, total-cong, Bool-cases,
}
use os_in_parts.Prelude.Int.{ℤ, ◌≤ℤ◌, ◌==ℤ◌, leb_ℤ}
use os_in_parts.MergeSort.Defs.{
  Array, Merging, copy_from, take_left, take_right, merge_step, both_left, merge_both, copy_left,
  copy_right,
}

abbrev pub same : ℤ → ℤ → ℕ
same x y = if x ==ℤ y then 1 else 0

-- How often `x` stands in the first `n` elements.
abbrev pub count : ℤ → ℕ → Array → ℕ
count x n a = total (same x) n a

abbrev pub IsSorted : ℕ → Array → Type 0
IsSorted n a = (p q : ℕ) → p < q → q < n → a p ≤ℤ a q

count-suc : (x : ℤ) (n : ℕ) (a : Array) → count x (n + 1) a ≡ count x n a + same x (a n)
unfolding total
count-suc x n a = let e : n + 1 ≡ suc n = omega arith in rw e refl

count-zero : (x : ℤ) (a b c : Array) → count x (0 + 0) a ≡ count x 0 b + count x 0 c
unfolding total
count-zero x a b c = refl

-- A write behind the first `n` elements of a segment adds one to its count.
count-write :
    (x y : ℤ) (n m k left : ℕ) (a : Array)
    → k ≡ left + n
    → m ≡ n + 1
    → count x m (copy_from left (update a k y)) ≡ count x n (copy_from left a) + same x y
count-write x y n m k left a at_end next =
    let before =
      total-cong (same x) (same x) n (copy_from left (update a k y)) (copy_from left a)
        (λ i h. ground arith) in
    let written : same x (copy_from left (update a k y) n) ≡ same x y = ground arith in
    rw next (omega (arith, count-suc x n (copy_from left (update a k y)), before, written))

module _ (left_arr right_arr : Array) (n1 n2 left : ℕ) (arr : Array)
    (left_sorted : IsSorted n1 left_arr) (right_sorted : IsSorted n2 right_arr) where
  -- What has been merged is sorted, is not above what is left of the halves, and has as many of each
  -- value as they have lost; nothing outside the segment has changed.
  pub record Inv (s : Merging) : Type 0 where
    pub place : s.k ≡ left + s.i + s.j
    pub i_in : s.i ≤ n1
    pub j_in : s.j ≤ n2
    pub sorted : (p q : ℕ) → left ≤ p → p < q → q < s.k → s.arr p ≤ℤ s.arr q
    pub below_left : (p i : ℕ) → left ≤ p → p < s.k → s.i ≤ i → i < n1 → s.arr p ≤ℤ left_arr i
    pub below_right : (p j : ℕ) → left ≤ p → p < s.k → s.j ≤ j → j < n2 → s.arr p ≤ℤ right_arr j
    pub counted :
        (x : ℤ)
        → count x (s.i + s.j) (copy_from left s.arr) ≡ count x s.i left_arr + count x s.j right_arr
    pub outside : (p : ℕ) → (p < left) ⊎ (left + n1 + n2 ≤ p) → s.arr p ≡ arr p

  take_left-Inv :
      (s : Merging)
      → Inv s
      → s.i < n1
      → ((j : ℕ) → s.j ≤ j → j < n2 → left_arr s.i ≤ℤ right_arr j)
      → Inv (take_left left_arr s)
  take_left-Inv s v more least = record {
    place = omega (arith, v.place);
    i_in = omega arith;
    j_in = v.j_in;
    sorted = λ p q h k l. ground (arith, v.sorted p q h k, v.below_left p s.i h);
    below_left = λ p i h k l m. ground (arith, v.below_left p i h, left_sorted s.i i);
    below_right = λ p j h k l m. ground (arith, v.below_right p j h, least j l m);
    counted = λ x. omega (
      arith,
      count-write x (left_arr s.i) (s.i + s.j) (s.i + 1 + s.j) s.k left s.arr
          (omega (arith, v.place)) (omega arith),
      count-suc x s.i left_arr,
      v.counted x,
    );
    outside = λ p h. ground (arith, v.outside p h, v.place, v.j_in);
  }

  take_right-Inv :
      (s : Merging)
      → Inv s
      → s.j < n2
      → ((i : ℕ) → s.i ≤ i → i < n1 → right_arr s.j ≤ℤ left_arr i)
      → Inv (take_right right_arr s)
  take_right-Inv s v more least = record {
    place = omega (arith, v.place);
    i_in = v.i_in;
    j_in = omega arith;
    sorted = λ p q h k l. ground (arith, v.sorted p q h k, v.below_right p s.j h);
    below_left = λ p i h k l m. ground (arith, v.below_left p i h, least i l m);
    below_right = λ p j h k l m. ground (arith, v.below_right p j h, right_sorted s.j j);
    counted = λ x. omega (
      arith,
      count-write x (right_arr s.j) (s.i + s.j) (s.i + (s.j + 1)) s.k left s.arr
          (omega (arith, v.place)) (omega arith),
      count-suc x s.j right_arr,
      v.counted x,
    );
    outside = λ p h. ground (arith, v.outside p h, v.place, v.i_in);
  }

  merge_step-Inv :
      (s : Merging)
      → Inv s
      → s.i < n1
      → s.j < n2
      → Inv (merge_step left_arr right_arr s)
        × ((merge_step left_arr right_arr s).i + (merge_step left_arr right_arr s).j
            ≡ s.i + s.j + 1)
  unfolding merge_step
  merge_step-Inv s v more more' = elim (Bool-cases (leb_ℤ (left_arr s.i) (right_arr s.j))) [
    | inl le ↦
        rw (le, if◌then◌else◌)
          (take_left-Inv s v more (λ j h k. ground (arith, right_sorted s.j j)), omega arith)
    | inr gt ↦
        rw (gt, if◌then◌else◌)
          (take_right-Inv s v more' (λ i h k. ground (arith, left_sorted s.i i)), omega arith)
  ]

  both_left-true : (s : Merging) → both_left n1 n2 s ≡ true → (s.i < n1) × (s.j < n2)
  unfolding both_left
  both_left-true s h = ground arith

  both_left-false : (s : Merging) → Inv s → both_left n1 n2 s ≡ false → (s.i ≡ n1) ⊎ (s.j ≡ n2)
  unfolding both_left
  both_left-false s v h = ground (arith, v.i_in, v.j_in)

  -- The first loop ends at the end of a half.
  merge_both-Inv :
      (fuel : ℕ) (s : Merging)
      → Inv s
      → n1 + n2 ≤ s.i + s.j + fuel
      → let s' = merge_both fuel left_arr right_arr n1 n2 s in Inv s' × ((s'.i ≡ n1) ⊎ (s'.j ≡ n2))
  unfolding merge_both
  merge_both-Inv zero s v enough = (v, inl (omega (arith, v.i_in, v.j_in)))
  merge_both-Inv (suc fuel) s v enough = elim (Bool-cases (both_left n1 n2 s)) [
    | inr done ↦ rw (done, if◌then◌else◌) (v, both_left-false s v done)
    | inl more ↦
        let (more_i, more_j) = both_left-true s more in
        let (v', further) = merge_step-Inv s v more_i more_j in
        rw (more, if◌then◌else◌)
          (merge_both-Inv fuel (merge_step left_arr right_arr s) v' (omega arith))
  ]

  copy_left-Inv :
      (n : ℕ) (s : Merging)
      → Inv s
      → s.i + n ≡ n1
      → (n ≡ 0) ⊎ (s.j ≡ n2)
      → Inv (copy_left n left_arr s)
        × ((copy_left n left_arr s).i ≡ n1)
        × ((copy_left n left_arr s).j ≡ s.j)
  unfolding copy_left
  copy_left-Inv zero s v e at_end = (v, omega arith, refl)
  copy_left-Inv (suc n) s v e at_end =
      copy_left-Inv n (take_left left_arr s)
        (take_left-Inv s v (omega arith) (λ j h k. absurd (ground arith))) (omega arith)
        (inr (ground arith))

  copy_right-Inv :
      (n : ℕ) (s : Merging)
      → Inv s
      → s.i ≡ n1
      → s.j + n ≡ n2
      → Inv (copy_right n right_arr s)
        × ((copy_right n right_arr s).i ≡ n1)
        × ((copy_right n right_arr s).j ≡ n2)
  unfolding copy_right
  copy_right-Inv zero s v e e' = (v, e, omega arith)
  copy_right-Inv (suc n) s v e e' =
      copy_right-Inv n (take_right right_arr s)
        (take_right-Inv s v (omega arith) (λ i h k. absurd (omega arith))) e (omega arith)

  -- The three loops from the start of `merge`.
  abbrev pub merged : Merging
  merged =
      let s =
        merge_both (n1 + n2) left_arr right_arr n1 n2
          (record { arr = arr; i = 0; j = 0; k = left }) in
      let s' = copy_left (n1 - s.i) left_arr s in copy_right (n2 - s'.j) right_arr s'

  pub merged-Inv : Inv merged × (merged.i ≡ n1) × (merged.j ≡ n2)
  merged-Inv =
      let start : Merging = record { arr = arr; i = 0; j = 0; k = left } in
      let (v, at_end) =
        merge_both-Inv (n1 + n2) start
          (record {
            place = omega arith;
            i_in = omega arith;
            j_in = omega arith;
            sorted = λ p q h k l. absurd (omega arith);
            below_left = λ p i h k l m. absurd (omega arith);
            below_right = λ p j h k l m. absurd (omega arith);
            counted = λ x. count-zero x (copy_from left arr) left_arr right_arr;
            outside = λ p h. refl;
          })
          (omega arith) in
      let s = merge_both (n1 + n2) left_arr right_arr n1 n2 start in
      let (w, e, same_j) =
        copy_left-Inv (n1 - s.i) s v (omega (arith, v.i_in)) (ground (arith, at_end)) in
      let s' = copy_left (n1 - s.i) left_arr s in
      copy_right-Inv (n2 - s'.j) s' w e (omega (arith, w.j_in))
