-- ===== src/Clock/Passed.antt =====
-- Segmentation, Paging, IPC/q5.c: the frames that `clock_algorithm` has passed.
use os_in_parts.Prelude.{
  ℕ, ◌+◌, ◌%◌, ◌≤◌, ◌<◌, ◌≡◌, ◌≢◌, Option, some, List, true, false, arith, ◌⊎◌, length, get_elem?,
  set, length-set, get_elem?-set_self, get_elem?-set_ne, ℕ_discrete, ◌∙◌, sym, subst,
}
use os_in_parts.Prelude.Circle.{place, place-lt, place_injective}
use os_in_parts.Clock.Defs.{Page, Clock, max_frames, visit}

-- What holds of a clock.
pub record IsValid (c : Clock) : Type 0 where
  pub some_frame : 0 < c.num_frames
  pub few : c.num_frames ≤ max_frames
  pub size : length c.memory ≡ max_frames
  pub hand_in : c.clock_hand < c.num_frames

abbrev pub page_at : Clock → ℕ → Option Page
page_at c k = get_elem? c.memory ((c.clock_hand + k) % c.num_frames)

-- A page that has lost a bit: its reference bit, or its dirty bit once that is clear.
abbrev pub OneLess : Page → Page → Type 0
OneLess p p' =
    ((p.reference_bit ≡ true) × (p' ≡ record p { reference_bit = false }))
    ⊎ ((p.reference_bit ≡ false) × (p.dirty_bit ≡ true) × (p' ≡ record p { dirty_bit = false }))

visit-OneLess : (p p' : Page) → visit p ≡ some p' → OneLess p p'
unfolding visit
visit-OneLess p p' e = ground arith

pub OneLess-number : (p p' : Page) → OneLess p p' → p'.page_number ≡ p.page_number
OneLess-number p p' e = ground arith

-- A page with one more bit cleared.
abbrev pub Cleared : Option Page → Option Page → Type 0
Cleared before after = (p p' : Page) × (before ≡ some p) × OneLess p p' × (after ≡ some p')

-- The first `k` frames from the hand of `c` on have lost a bit in `memory`, and no other frame
-- has changed.
pub record Passed (c : Clock) (k : ℕ) (memory : List Page) : Type 0 where
  pub size : length memory ≡ length c.memory
  pub cleared :
      (j : ℕ) → j < k → Cleared (page_at c j) (get_elem? memory ((c.clock_hand + j) % c.num_frames))
  pub ahead :
      (j : ℕ)
      → k ≤ j
      → j < c.num_frames
      → get_elem? memory ((c.clock_hand + j) % c.num_frames) ≡ page_at c j
  pub outside : (i : ℕ) → c.num_frames ≤ i → get_elem? memory i ≡ get_elem? c.memory i

-- The state of the loop after `k` rounds.
abbrev pub after : Clock → ℕ → List Page → Clock
after c k memory = record c { memory = memory; clock_hand = (c.clock_hand + k) % c.num_frames }

pub Passed-suc :
    (c : Clock) (k : ℕ) (memory : List Page) (p p' : Page)
    → IsValid c
    → k < c.num_frames
    → Passed c k memory
    → page_at c k ≡ some p
    → visit p ≡ some p'
    → Passed c (k + 1) (set memory ((c.clock_hand + k) % c.num_frames) p')
Passed-suc c k memory p p' v h passed at_k visited = record {
  size = length-set memory here p' ∙ passed.size;
  cleared = λ j hj. elim (ℕ_discrete j k) [
    | yes e ↦ (
      p,
      p',
      subst (λ x. page_at c x ≡ some p) (sym e) at_k,
      visit-OneLess p p' visited,
      subst (λ x. get_elem? (set memory here p') (place n s v.hand_in x) ≡ some p') (sym e)
          (get_elem?-set_self memory here p' in_memory),
    )
    | no ne ↦
        subst (Cleared (page_at c j)) (sym (elsewhere j (omega arith) ne))
          (passed.cleared j (omega arith))
  ];
  ahead = λ j low high. elsewhere j high (omega arith) ∙ passed.ahead j (omega arith) high;
  outside =
      λ i high. get_elem?-set_ne memory here i p' (omega (arith, here_lt)) ∙ passed.outside i high;
}
  where
    n : ℕ
    n = c.num_frames

    s : ℕ
    s = c.clock_hand

    here : ℕ
    here = (c.clock_hand + k) % c.num_frames

    here_lt : here < n
    here_lt = place-lt n s v.hand_in k

    in_memory : here < length memory
    in_memory = omega (arith, here_lt, passed.size, v.size)

    elsewhere :
        (j : ℕ)
        → j < n
        → j ≢ k
        → get_elem? (set memory here p') (place n s v.hand_in j)
          ≡ get_elem? memory (place n s v.hand_in j)
    elsewhere j hj ne =
        get_elem?-set_ne memory here (place n s v.hand_in j) p'
          (λ e. ne (sym (place_injective n s v.hand_in k j h hj e)))
