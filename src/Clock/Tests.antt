-- ===== src/Clock/Tests.antt =====
-- Segmentation, Paging, IPC/q5.c: the runs that the end of the file lists.
use os_in_parts.Prelude.{ℕ, ◌≡◌, refl, Option, none, some, List, [], ◌∷◌, map}
use os_in_parts.Prelude.Int.{pos}
use os_in_parts.Clock.Defs.{
  Clock, initialize_memory, is_page_in_memory, find_empty_frame, clock_from, clock_algorithm, visit,
  touch, choose_frame, handle_page_request, requests, main,
}

-- The counters at the end of a run.
abbrev counters : Option Clock → ℕ × ℕ
counters none = (0, 0)
counters (some c) = (c.total_faults, c.total_hits)

abbrev first_run : List ℕ
first_run = 0 ∷ 4 ∷ 1 ∷ 4 ∷ 2 ∷ 4 ∷ 3 ∷ 4 ∷ 2 ∷ 4 ∷ 0 ∷ 4 ∷ 1 ∷ 4 ∷ 2 ∷ 4 ∷ 3 ∷ 4 ∷ []

first_run-counters : counters (main 3 (map pos first_run)) ≡ (9, 9)
unfolding main requests handle_page_request choose_frame find_empty_frame clock_algorithm clock_from
    visit touch is_page_in_memory initialize_memory
first_run-counters = refl

abbrev second_run : List ℕ
second_run = 2 ∷ 3 ∷ 2 ∷ 1 ∷ 5 ∷ 2 ∷ 4 ∷ 5 ∷ 3 ∷ 2 ∷ 5 ∷ 2 ∷ []

second_run-counters : counters (main 3 (map pos second_run)) ≡ (8, 4)
unfolding main requests handle_page_request choose_frame find_empty_frame clock_algorithm clock_from
    visit touch is_page_in_memory initialize_memory
second_run-counters = refl

abbrev third_run : List ℕ
third_run = 2 ∷ 4 ∷ 5 ∷ 3 ∷ 2 ∷ 6 ∷ 1 ∷ 5 ∷ 6 ∷ 2 ∷ []

third_run-counters : counters (main 3 (map pos third_run)) ≡ (9, 1)
unfolding main requests handle_page_request choose_frame find_empty_frame clock_algorithm clock_from
    visit touch is_page_in_memory initialize_memory
third_run-counters = refl
