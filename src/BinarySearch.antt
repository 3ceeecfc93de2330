-- ===== src/BinarySearch.antt =====
-- Fork, Wait, Exec, Process Scheduling/q2.c: binary search, one process for each step.
-- The child of `fork` goes on with the search and its parent waits, so what is printed is what the
-- last child prints; `fork` is taken to succeed. An array is a function of the index.
pub mod Search
mod Examples
use os_in_parts.Prelude.{ℕ, zero, suc, ◌+◌, ◌-◌, ◌/◌, Bool, Option, none, some, leb, if◌then◌else◌}
use os_in_parts.Prelude.Int.{ℤ, ltb_ℤ, ◌==ℤ◌}

-- What is printed: -1, or the index of the target.
pub data Outcome : Type 0 where
  absent : Outcome
  index : ℕ → Outcome

-- `end` can be -1, so `stop` is `end + 1`.
abbrev pub middle : ℕ → ℕ → ℕ
middle start stop = start + (stop - 1 - start) / 2

-- On fuel; `none` is a recursion that is deeper.
unfoldable pub binary_search : ℕ → (ℕ → ℤ) → (start stop : ℕ) → ℤ → Option Outcome
binary_search zero arr start stop target = none
binary_search (suc fuel) arr start stop target =
    let mid = middle start stop in
    let right = binary_search fuel arr (mid + 1) stop target in
    let left = binary_search fuel arr start mid target in
    if leb stop start
    then some Outcome.absent
    else if arr mid ==ℤ target
    then some (Outcome.index mid)
    else if ltb_ℤ (arr mid) target
    then right
    else left
