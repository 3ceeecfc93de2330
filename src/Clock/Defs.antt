-- ===== src/Clock/Defs.antt =====
-- Segmentation, Paging, IPC/q5.c: page replacement by the clock algorithm.
use os_in_parts.Prelude.{
  ℕ, zero, suc, ◌+◌, ◌%◌, Bool, true, false, ◌||◌, Option, none, some, List, [], ◌∷◌, ◌==◌,
  if◌then◌else◌, get_elem?, set, replicate,
}
use os_in_parts.Prelude.Int.{ℤ, pos, negsuc, ◌==ℤ◌, to_uint8}

abbrev pub max_frames : ℕ
max_frames = 100

pub record Page : Type 0 where
  pub page_number : ℕ  -- uint8_t
  pub reference_bit : Bool
  pub dirty_bit : Bool

-- The globals; `memory` has `max_frames` elements.
pub record Clock : Type 0 where
  pub memory : List Page
  pub num_frames : ℕ
  pub clock_hand : ℕ
  pub total_faults : ℕ
  pub total_hits : ℕ

-- The static storage, once `main` has read the number of frames.
abbrev pub globals : ℕ → Clock
globals num_frames = record {
  memory =
      replicate max_frames (record { page_number = 0; reference_bit = false; dirty_bit = false });
  num_frames = num_frames;
  clock_hand = 0;
  total_faults = 0;
  total_hits = 0;
}

-- What `initialize_memory` stores: -1 is cut to eight bits.
abbrev pub empty_page : Page
empty_page = record { page_number = to_uint8 (negsuc 0); reference_bit = false; dirty_bit = false }

-- A loop over the first `n` frames, which stops at the end of the array.
unfoldable pub clear_frames : ℕ → List Page → List Page
clear_frames (suc n) (p ∷ ps) = empty_page ∷ clear_frames n ps
clear_frames _ ps = ps

unfoldable pub initialize_memory : Clock → Clock
unfolding clear_frames
initialize_memory c = record c { memory = clear_frames c.num_frames c.memory }

unfoldable pub holds_page : ℕ → ℕ → List Page → Bool
holds_page page_number (suc n) (p ∷ ps) =
    p.page_number == page_number || holds_page page_number n ps
holds_page page_number _ _ = false

unfoldable pub is_page_in_memory : ℕ → Clock → Bool
unfolding holds_page
is_page_in_memory page_number c = holds_page page_number c.num_frames c.memory

-- The loop of `find_empty_frame` from index `i`; `none` is the return of -1. The number of a page
-- is promoted to `int` before it is compared.
unfoldable pub empty_frame_from : ℕ → ℕ → List Page → Option ℕ
empty_frame_from i (suc n) (p ∷ ps) =
    if pos p.page_number ==ℤ negsuc 0 then some i else empty_frame_from (i + 1) n ps
empty_frame_from i _ _ = none

unfoldable pub find_empty_frame : Clock → Option ℕ
unfolding empty_frame_from
find_empty_frame c = empty_frame_from 0 c.num_frames c.memory

-- What the loop of `clock_algorithm` does to the page under the hand: `none` takes it as the
-- victim, `some` clears a bit.
unfoldable pub visit : Page → Option Page
visit p =
    if p.reference_bit
    then some (record p { reference_bit = false })
    else if p.dirty_bit
    then some (record p { dirty_bit = false })
    else none

abbrev pub advance : Clock → Clock
advance c = record c { clock_hand = (c.clock_hand + 1) % c.num_frames }

-- The `while` of `clock_algorithm` on fuel; `none` is no return, or a read outside the array.
unfoldable pub clock_from : ℕ → ℕ → Clock → Option (ℕ × Clock)
clock_from zero start_hand c = none
clock_from (suc fuel) start_hand c = elim (get_elem? c.memory c.clock_hand) [
  | none ↦ none
  | some p ↦ elim (visit p) [
    | none ↦ some (c.clock_hand, advance c)
    | some p' ↦
        let c' = advance (record c { memory = set c.memory c.clock_hand p' }) in
        let rest = clock_from fuel start_hand c' in
        if c'.clock_hand == start_hand then some (c'.clock_hand, advance c') else rest
  ]
]

-- One round for each frame is enough fuel.
unfoldable pub clock_algorithm : Clock → Option (ℕ × Clock)
clock_algorithm c = clock_from c.num_frames c.clock_hand c

-- The loop of a hit: the first frame with the page gets its reference bit.
unfoldable pub touch : ℕ → ℕ → List Page → List Page
touch page_number (suc n) (p ∷ ps) =
    if p.page_number == page_number
    then record p { reference_bit = true } ∷ ps
    else p ∷ touch page_number n ps
touch page_number _ ps = ps

abbrev pub loaded : ℕ → Page
loaded page_number = record { page_number = page_number; reference_bit = true; dirty_bit = false }

-- The frame that a fault fills.
unfoldable pub choose_frame : Clock → Option (ℕ × Clock)
choose_frame c = elim (find_empty_frame c) [
  | some frame ↦ some (frame, c)
  | none ↦ clock_algorithm c
]

unfoldable pub handle_page_request : ℕ → Clock → Option Clock
handle_page_request page_number c =
    if is_page_in_memory page_number c
    then some (record c {
      total_hits = c.total_hits + 1;
      memory = touch page_number c.num_frames c.memory;
    })
    else elim (choose_frame (record c { total_faults = c.total_faults + 1 })) [
      | none ↦ none
      | some (frame, c') ↦ some (record c' { memory = set c'.memory frame (loaded page_number) })
    ]

-- The loop of `main` over the tokens, each as the number that `atoi` makes of it.
unfoldable pub requests : List ℤ → Clock → Option Clock
requests [] c = some c
requests (token ∷ tokens) c = elim (handle_page_request (to_uint8 token) c) [
  | none ↦ none
  | some c' ↦ requests tokens c'
]

unfoldable pub main : ℕ → List ℤ → Option Clock
main num_frames tokens = requests tokens (initialize_memory (globals num_frames))
