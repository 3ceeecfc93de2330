-- ===== src/Scheduler/Select.antt =====
-- Fork, Wait, Exec, Process Scheduling/q4.c: the search that `sjf` and `srtf` share, for the
-- arrived and uncompleted process with the smallest burst or remaining time.
-- An array of `n` elements is a function of the index; `n` loops keep the index below `n`.
pub mod Optimal
use os_in_parts.Prelude.{
  ℕ, zero, suc, ◌+◌, Bool, true, false, not, ◌&&◌, Option, none, some, ltb, leb, if◌then◌else◌,
}
use os_in_parts.Prelude.Int.{ℤ, pos, ltb_ℤ, ◌==ℤ◌, int_max}
use os_in_parts.Scheduler.Process.{Process}

-- The local variables of the search; `none` is the index -1.
pub record Best : Type 0 where
  pub min_index : Option ℕ
  pub min_burst_time : ℤ

abbrev pub no_best : Best
no_best = record { min_index = none; min_burst_time = pos int_max }

-- `p[i].arrivalTime < p[min_index].arrivalTime`. At index -1 the program reads outside the array,
-- which happens only if a key is INT_MAX.
unfoldable pub arrives_before : (ℕ → Process) → ℕ → Option ℕ → Bool
arrives_before p i none = false
arrives_before p i (some m) = ltb (p i).arrival_time (p m).arrival_time

-- The first inner `if`.
unfoldable pub take_smaller : ℕ → ℤ → Best → Best
take_smaller i key b =
    if ltb_ℤ key b.min_burst_time then record { min_index = some i; min_burst_time = key } else b

-- The second inner `if`.
unfoldable pub take_earlier : (ℕ → Process) → ℕ → ℤ → Best → Best
unfolding arrives_before
take_earlier p i key b =
    if key ==ℤ b.min_burst_time && arrives_before p i b.min_index
    then record b { min_index = some i }
    else b

-- The body of the search at index `i`.
unfoldable pub consider : (ℕ → Process) → (ℕ → ℤ) → (ℕ → Bool) → ℕ → ℕ → Best → Best
unfolding take_smaller take_earlier
consider p keys is_completed current_time i b =
    if leb (p i).arrival_time current_time && not (is_completed i)
    then take_earlier p i (keys i) (take_smaller i (keys i) b)
    else b

-- The loop of the search, with `n` rounds left from index `i`.
unfoldable pub search_from : (ℕ → Process) → (ℕ → ℤ) → (ℕ → Bool) → ℕ → (n i : ℕ) → Best → Best
unfolding consider
search_from p keys is_completed current_time zero i b = b
search_from p keys is_completed current_time (suc n) i b =
    search_from p keys is_completed current_time n (i + 1)
      (consider p keys is_completed current_time i b)

-- The index that the search finds.
unfoldable pub select : (ℕ → Process) → (ℕ → ℤ) → (ℕ → Bool) → ℕ → ℕ → Option ℕ
unfolding search_from
select p keys is_completed current_time n =
    (search_from p keys is_completed current_time n 0 no_best).min_index
