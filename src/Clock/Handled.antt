-- ===== src/Clock/Handled.antt =====
-- Segmentation, Paging, IPC/q5.c: what `handle_page_request` does to the pages in memory.
use os_in_parts.Prelude.{
  ℕ, zero, suc, ◌+◌, ◌<◌, ◌≡◌, ◌≢◌, inl, inr, refl, true, false, none, some, List, [], ◌∷◌, arith,
  ◌==◌, if◌then◌else◌, length, get_elem?, set, length-set, get_elem?-set_self, get_elem?-set_ne,
  Bool-cases, ℕ_discrete, ◌∙◌, ap, sym, subst,
}
use os_in_parts.Clock.Defs.{
  Page, Clock, is_page_in_memory, empty_frame_from, find_empty_frame, touch, loaded, choose_frame,
  handle_page_request,
}
use os_in_parts.Prelude.Circle.{place-lt}
use os_in_parts.Clock.Numbers.{
  number_of, number_at, Swept-number, holds_page-number, number-holds_page, touch-number,
  length-touch,
}
use os_in_parts.Clock.Passed.{IsValid}
use os_in_parts.Clock.Sweep.{Swept, clock_algorithm-Swept}

-- The search for an empty frame compares a promoted `uint8_t` with -1.
empty_frame_from-none : (i n : ℕ) (ps : List Page) → empty_frame_from i n ps ≡ none
unfolding empty_frame_from
empty_frame_from-none i zero ps = refl
empty_frame_from-none i (suc n) [] = refl
empty_frame_from-none i (suc n) (p ∷ ps) = ground (arith, empty_frame_from-none (i + 1) n ps)

-- `find_empty_frame` never finds a frame, also when no page has been loaded.
pub find_empty_frame-none : (c : Clock) → find_empty_frame c ≡ none
unfolding find_empty_frame
find_empty_frame-none c = empty_frame_from-none 0 c.num_frames c.memory

-- No page but the placeholder 255 is in two frames.
abbrev pub Distinct : Clock → Type 0
Distinct c =
    (q i j : ℕ)
    → i < c.num_frames
    → j < c.num_frames
    → q ≢ 255
    → number_at c i ≡ some q
    → number_at c j ≡ some q
    → i ≡ j

-- What a request for page `q` makes of the clock.
pub record Handled (q : ℕ) (c c' : Clock) : Type 0 where
  pub valid : IsValid c'
  pub frames : c'.num_frames ≡ c.num_frames
  pub present : is_page_in_memory q c' ≡ true
  pub hit :
      is_page_in_memory q c ≡ true
      → (c'.total_hits ≡ c.total_hits + 1)
        × (c'.total_faults ≡ c.total_faults)
        × ((i : ℕ) → number_at c' i ≡ number_at c i)
  pub miss :
      is_page_in_memory q c ≡ false
      → (c'.total_hits ≡ c.total_hits)
        × (c'.total_faults ≡ c.total_faults + 1)
        × ((victim : ℕ) × (victim < c.num_frames)
            × ((i : ℕ) → number_at c' i ≡ (if victim == i then some q else number_at c i)))

-- The state after a hit.
abbrev touched : ℕ → Clock → Clock
touched q c = record c { total_hits = c.total_hits + 1; memory = touch q c.num_frames c.memory }

Handled-hit :
    (q : ℕ) (c : Clock) → IsValid c → is_page_in_memory q c ≡ true → Handled q c (touched q c)
unfolding is_page_in_memory
Handled-hit q c v present =
    let (i, lt, e) = holds_page-number q c.num_frames c.memory present in
    record {
      valid = record {
        some_frame = v.some_frame;
        few = v.few;
        size = length-touch q c.num_frames c.memory ∙ v.size;
        hand_in = v.hand_in;
      };
      frames = refl;
      present =
          number-holds_page q c.num_frames (touch q c.num_frames c.memory) i lt
            (touch-number q c.num_frames c.memory i ∙ e);
      hit = λ _. (refl, refl, touch-number q c.num_frames c.memory);
      miss = λ absent. absurd (cc);
    }

-- A sweep leaves the counters alone.
module _ (c : Clock) (r : ℕ × Clock) (swept : Swept c r) where
  same_frames : r.1.num_frames ≡ c.num_frames
  same_frames = ap (λ (x : Clock). x.num_frames) swept.rest

  same_faults : r.1.total_faults ≡ c.total_faults
  same_faults = ap (λ (x : Clock). x.total_faults) swept.rest

  same_hits : r.1.total_hits ≡ c.total_hits
  same_hits = ap (λ (x : Clock). x.total_hits) swept.rest

  Swept-IsValid : IsValid c → IsValid r.1
  Swept-IsValid v = record {
    some_frame = omega (arith, same_frames, v.some_frame);
    few = omega (arith, same_frames, v.few);
    size = swept.passed.size ∙ v.size;
    hand_in =
        subst (λ (x : Clock). x.clock_hand < x.num_frames) (sym swept.rest)
          (place-lt c.num_frames c.clock_hand v.hand_in (swept.steps + 1));
  }

  victim-lt : IsValid c → r.0 < c.num_frames
  victim-lt v =
      subst (λ x. x < c.num_frames) (sym swept.victim)
        (place-lt c.num_frames c.clock_hand v.hand_in swept.steps)

set-number :
    (ps : List Page) (k : ℕ) (q i : ℕ)
    → k < length ps
    → number_of (get_elem? (set ps k (loaded q)) i)
      ≡ (if k == i then some q else number_of (get_elem? ps i))
set-number ps k q i h = elim (ℕ_discrete k i) [
  | yes e ↦ ground (arith, get_elem?-set_self ps k (loaded q) h)
  | no ne ↦ ground (arith, get_elem?-set_ne ps k i (loaded q) ne)
]

-- The state after a fault: a sweep, and then the page in the frame of the victim.
abbrev filled : ℕ → ℕ × Clock → Clock
filled q r = record r.1 { memory = set r.1.memory r.0 (loaded q) }

-- The state in which the sweep starts.
abbrev faulted : Clock → Clock
faulted c = record c { total_faults = c.total_faults + 1 }

Handled-miss :
    (q : ℕ) (c : Clock) (r : ℕ × Clock)
    → IsValid c
    → Swept (faulted c) r
    → is_page_in_memory q c ≡ false
    → Handled q c (filled q r)
unfolding is_page_in_memory
Handled-miss q c r v swept absent = record {
  valid = record {
    some_frame = valid.some_frame;
    few = valid.few;
    size = length-set r.1.memory r.0 (loaded q) ∙ valid.size;
    hand_in = valid.hand_in;
  };
  frames = same_frames (faulted c) r swept;
  present =
      number-holds_page q r.1.num_frames (set r.1.memory r.0 (loaded q)) r.0
        (omega (arith, victim-lt (faulted c) r swept v', same_frames (faulted c) r swept))
        (ground (arith, new r.0));
  hit = λ present. absurd (cc);
  miss = λ _. (
    same_hits (faulted c) r swept,
    same_faults (faulted c) r swept,
    (
      r.0,
      victim-lt (faulted c) r swept v',
      (λ i. ground (arith, new i, Swept-number (faulted c) r v' swept i)),
    ),
  );
}
  where
    v' : IsValid (faulted c)
    v' = record { some_frame = v.some_frame; few = v.few; size = v.size; hand_in = v.hand_in }

    valid : IsValid r.1
    valid = Swept-IsValid (faulted c) r swept v'

    new : (i : ℕ) → number_at (filled q r) i ≡ (if r.0 == i then some q else number_at r.1 i)
    new i =
        set-number r.1.memory r.0 q i
          (omega (arith, victim-lt (faulted c) r swept v', swept.passed.size, v.few, v.size))

-- A request returns, for every page. The page is then in memory; a hit moves no page, and a fault
-- gives exactly one frame to the page that was asked for.
pub handle_page_request-Handled :
    (q : ℕ) (c : Clock)
    → IsValid c
    → (c' : Clock) × (handle_page_request q c ≡ some c') × Handled q c c'
unfolding handle_page_request choose_frame
handle_page_request-Handled q c v = elim (Bool-cases (is_page_in_memory q c)) [
  | inl present ↦ (touched q c, rw present, Handled-hit q c v present)
  | inr absent ↦
      let (r, e, swept) =
        clock_algorithm-Swept (faulted c)
          (record { some_frame = v.some_frame; few = v.few; size = v.size; hand_in = v.hand_in }) in
      (
        filled q r,
        ground (arith, absent, e, find_empty_frame-none (faulted c)),
        Handled-miss q c r v swept absent,
      )
]
