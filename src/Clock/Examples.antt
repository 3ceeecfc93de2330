-- ===== src/Clock/Examples.antt =====
-- Segmentation, Paging, IPC/q5.c: a clock of three frames at the start.
use os_in_parts.Prelude.{
  ℕ, ◌+◌, ◌<◌, ◌≡◌, refl, true, false, some, [], ◌∷◌, length, ◌==◌, if◌then◌else◌, arith,
}
use os_in_parts.Prelude.Int.{pos}
use os_in_parts.Clock.Defs.{
  Clock, is_page_in_memory, clock_algorithm, handle_page_request, initialize_memory, main,
}
use os_in_parts.Clock.Passed.{IsValid}
use os_in_parts.Clock.Sweep.{Swept, clock_algorithm-Swept}
use os_in_parts.Clock.Numbers.{number_at}
use os_in_parts.Clock.Handled.{Distinct}
use os_in_parts.Clock.Request.{handle_page_request_miss}
use os_in_parts.Clock.Run.{ready, ready-IsValid, main-Distinct}

three : IsValid (ready 3)
three = ready-IsValid 3 (omega arith) (omega arith)

clock_algorithm-Swept_example :
    (r : ℕ × Clock) × (clock_algorithm (ready 3) ≡ some r) × Swept (ready 3) r
clock_algorithm-Swept_example = clock_algorithm-Swept (ready 3) three

absent : is_page_in_memory 7 (ready 3) ≡ false
unfolding is_page_in_memory initialize_memory
absent = refl

-- The placeholder counts as a page in memory.
placeholder : is_page_in_memory 255 (ready 3) ≡ true
unfolding is_page_in_memory initialize_memory
placeholder = refl

handle_page_request_miss_example :
    (c' : Clock) × (handle_page_request 7 (ready 3) ≡ some c')
    × (is_page_in_memory 7 c' ≡ true)
    × (c'.total_hits ≡ (ready 3).total_hits)
    × (c'.total_faults ≡ (ready 3).total_faults + 1)
    × ((victim : ℕ) × (victim < (ready 3).num_frames)
        × ((i : ℕ) → number_at c' i ≡ (if victim == i then some 7 else number_at (ready 3) i)))
handle_page_request_miss_example = handle_page_request_miss 7 (ready 3) three absent

main-Distinct_example :
    (c : Clock) × (main 3 (pos 2 ∷ pos 3 ∷ pos 2 ∷ []) ≡ some c)
    × (c.total_hits + c.total_faults ≡ length (pos 2 ∷ pos 3 ∷ pos 2 ∷ []))
    × Distinct c
main-Distinct_example = main-Distinct 3 (pos 2 ∷ pos 3 ∷ pos 2 ∷ []) (omega arith) (omega arith)
