-- ===== src/MergeSort/Defs.antt =====
-- Segmentation, Paging, IPC/q1.c: merge sort by processes that send their halves through pipes.
-- An array is a function of the index. The calls of the system are taken to succeed: a child of
-- `fork` works on a copy of the array, and what it writes to its pipe is what its parent reads,
-- which holds while a half fits into the pipe, since the parent waits before it reads.
use os_in_parts.Prelude.{
  ℕ, zero, suc, ◌+◌, ◌-◌, ◌/◌, Bool, ◌&&◌, Option, none, some, ltb, leb, if◌then◌else◌, update,
}
use os_in_parts.Prelude.Int.{ℤ, leb_ℤ}

abbrev pub Array : Type 0
Array = ℕ → ℤ

-- The local variables of `merge`, and the array.
pub record Merging : Type 0 where
  pub arr : Array
  pub i : ℕ
  pub j : ℕ
  pub k : ℕ

-- `leftArr` or `rightArr`, copied from the index `from` on.
abbrev pub copy_from : ℕ → Array → Array
copy_from from arr i = arr (from + i)

abbrev pub take_left : Array → Merging → Merging
take_left left_arr s = record {
  arr = update s.arr s.k (left_arr s.i);
  i = s.i + 1;
  j = s.j;
  k = s.k + 1;
}

abbrev pub take_right : Array → Merging → Merging
take_right right_arr s = record {
  arr = update s.arr s.k (right_arr s.j);
  i = s.i;
  j = s.j + 1;
  k = s.k + 1;
}

-- The body of the first `while`.
unfoldable pub merge_step : Array → Array → Merging → Merging
merge_step left_arr right_arr s =
    if leb_ℤ (left_arr s.i) (right_arr s.j) then take_left left_arr s else take_right right_arr s

-- Its test.
unfoldable pub both_left : ℕ → ℕ → Merging → Bool
both_left n1 n2 s = ltb s.i n1 && ltb s.j n2

-- The first `while`, with at most `fuel` rounds.
unfoldable pub merge_both : ℕ → Array → Array → ℕ → ℕ → Merging → Merging
merge_both zero left_arr right_arr n1 n2 s = s
merge_both (suc fuel) left_arr right_arr n1 n2 s =
    let rest = merge_both fuel left_arr right_arr n1 n2 (merge_step left_arr right_arr s) in
    if both_left n1 n2 s then rest else s

-- The second `while`, with `n` rounds left, and the third.
unfoldable pub copy_left : ℕ → Array → Merging → Merging
copy_left zero left_arr s = s
copy_left (suc n) left_arr s = copy_left n left_arr (take_left left_arr s)

unfoldable pub copy_right : ℕ → Array → Merging → Merging
copy_right zero right_arr s = s
copy_right (suc n) right_arr s = copy_right n right_arr (take_right right_arr s)

-- Each round of the first `while` moves `i` or `j` forward, so `n1 + n2` rounds are enough.
unfoldable pub merge : Array → (left mid right : ℕ) → Array
merge arr left mid right =
    let n1 = mid - left + 1 in
    let n2 = right - mid in
    let left_arr = copy_from left arr in
    let right_arr = copy_from (mid + 1) arr in
    let s =
      merge_both (n1 + n2) left_arr right_arr n1 n2
        (record { arr = arr; i = 0; j = 0; k = left }) in
    let s' = copy_left (n1 - s.i) left_arr s in (copy_right (n2 - s'.j) right_arr s').arr

abbrev pub middle : ℕ → ℕ → ℕ
middle left right = left + (right - left) / 2

-- The array of the parent once it has read both halves.
unfoldable pub gather : (arr first second : Array) → (left mid right : ℕ) → Array
gather arr first second left mid right p =
    if leb left p && leb p mid
    then first p
    else if leb (mid + 1) p && leb p right
    then second p
    else arr p

-- `mergesort` on fuel; `none` is a recursion that is deeper. Both children start from the array as
-- it stands before the parent reads.
unfoldable pub mergesort : ℕ → Array → (left right : ℕ) → Option Array
mergesort zero arr left right = none
mergesort (suc fuel) arr left right =
    let mid = middle left right in
    let first = mergesort fuel arr left mid in
    let second = mergesort fuel arr (mid + 1) right in
    if ltb left right
    then elim first [
      | none ↦ none
      | some first' ↦ elim second [
        | none ↦ none
        | some second' ↦ some (merge (gather arr first' second' left mid right) left mid right)
      ]
    ]
    else some arr
