-- ===== src/Clock/Request.antt =====
-- Segmentation, Paging, IPC/q5.c: hits and faults.
use os_in_parts.Prelude.{
  ℕ, ◌+◌, ◌<◌, ◌≡◌, inl, inr, true, false, some, arith, ◌==◌, if◌then◌else◌, Bool-cases, ◌∙◌, sym,
}
use os_in_parts.Clock.Defs.{Clock, is_page_in_memory, handle_page_request}
use os_in_parts.Clock.Numbers.{number_at, number-holds_page}
use os_in_parts.Clock.Passed.{IsValid}
use os_in_parts.Clock.Handled.{Distinct, Handled, handle_page_request-Handled}

-- In a valid clock, a request for a page in memory is a hit: it returns, counts a hit and no fault,
-- and moves no page, so the page is still in memory.
pub handle_page_request_hit :
    (q : ℕ) (c : Clock)
    → IsValid c
    → is_page_in_memory q c ≡ true
    → (c' : Clock) × (handle_page_request q c ≡ some c')
      × (is_page_in_memory q c' ≡ true)
      × (c'.total_hits ≡ c.total_hits + 1)
      × (c'.total_faults ≡ c.total_faults)
      × ((i : ℕ) → number_at c' i ≡ number_at c i)
handle_page_request_hit q c v present =
    let (c', e, handled) = handle_page_request-Handled q c v in
    let (hits, faults, same) = handled.hit present in (c', e, handled.present, hits, faults, same)

-- In a valid clock, a request for a page that is not in memory is a fault: it returns, counts a fault and no hit, and
-- gives exactly one of the frames to the page, which is then in memory.
pub handle_page_request_miss :
    (q : ℕ) (c : Clock)
    → IsValid c
    → is_page_in_memory q c ≡ false
    → (c' : Clock) × (handle_page_request q c ≡ some c')
      × (is_page_in_memory q c' ≡ true)
      × (c'.total_hits ≡ c.total_hits)
      × (c'.total_faults ≡ c.total_faults + 1)
      × ((victim : ℕ) × (victim < c.num_frames)
          × ((i : ℕ) → number_at c' i ≡ (if victim == i then some q else number_at c i)))
handle_page_request_miss q c v absent =
    let (c', e, handled) = handle_page_request-Handled q c v in
    let (hits, faults, moved) = handled.miss absent in (c', e, handled.present, hits, faults, moved)

-- The page that is asked for, and no frame that keeps its page, can repeat a page.
pub handle_page_request-Distinct :
    (q : ℕ) (c c' : Clock) → Distinct c → Handled q c c' → Distinct c'
unfolding is_page_in_memory
handle_page_request-Distinct q c c' distinct handled p i j hi hj ne ei ej =
    elim (Bool-cases (is_page_in_memory q c)) [
      | inl present ↦
          let same = (handled.hit present).2 in
          distinct p i j old_i old_j ne (sym (same i) ∙ ei) (sym (same j) ∙ ej)
      | inr absent ↦
          let (victim, lt, new) = (handled.miss absent).2 in
          ground (
            arith,
            new i,
            new j,
            distinct p i j old_i old_j ne,
            number-holds_page q c.num_frames c.memory i old_i,
            number-holds_page q c.num_frames c.memory j old_j,
          )
    ]
  where
    old_i : i < c.num_frames
    old_i = omega (arith, handled.frames)

    old_j : j < c.num_frames
    old_j = omega (arith, handled.frames)
