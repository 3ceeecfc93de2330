-- ===== src/Clock/Sweep.antt =====
-- Segmentation, Paging, IPC/q5.c: what `clock_algorithm` does on its way round the frames.
use native.Mathlib.Nat.{mod-eq_of_lt}
use os_in_parts.Prelude.{
  ℕ, zero, suc, ◌+◌, ◌%◌, ◌≤◌, ◌<◌, ◌≡◌, ◌≢◌, ◌⊎◌, inl, inr, refl, none, some, false, List, arith,
  get_elem?, set, get_elem?_lt, Option-cases, ℕ_discrete, ◌∙◌, ap, sym, subst,
}
use os_in_parts.Prelude.Circle.{place, place-lt, place-suc, place_full, place_value}
use os_in_parts.Clock.Defs.{Page, Clock, visit, advance, clock_from, clock_algorithm}
use os_in_parts.Clock.Passed.{IsValid, page_at, Passed, after, Passed-suc}

-- How the sweep ends: after `steps` frames, at one with both bits clear, or after all of them.
pub record Swept (c : Clock) (r : ℕ × Clock) : Type 0 where
  pub steps : ℕ
  pub within : steps ≤ c.num_frames
  pub victim : r.0 ≡ (c.clock_hand + steps) % c.num_frames
  pub stop :
      (steps ≡ c.num_frames)
      ⊎ ((p : Page) × (page_at c steps ≡ some p)
          × (p.reference_bit ≡ false)
          × (p.dirty_bit ≡ false))
  pub passed : Passed c steps r.1.memory
  pub rest :
      r.1
      ≡ record c { memory = r.1.memory; clock_hand = (c.clock_hand + (steps + 1)) % c.num_frames }

visit-clear : (p : Page) → visit p ≡ none → (p.reference_bit ≡ false) × (p.dirty_bit ≡ false)
unfolding visit
visit-clear p e = ground arith

module _ (fuel start : ℕ) (c : Clock) (p : Page)
    (under : get_elem? c.memory c.clock_hand ≡ some p) where
  clock_from_stop : visit p ≡ none → clock_from (suc fuel) start c ≡ some (c.clock_hand, advance c)
  unfolding clock_from
  clock_from_stop e = ground arith

  module _ (p' : Page) (visited : visit p ≡ some p') where
    cleared_once : Clock
    cleared_once = advance (record c { memory = set c.memory c.clock_hand p' })

    clock_from_full :
        (c.clock_hand + 1) % c.num_frames ≡ start
        → clock_from (suc fuel) start c ≡ some (start, advance cleared_once)
    unfolding clock_from cleared_once
    clock_from_full e = ground arith

    clock_from_next :
        (c.clock_hand + 1) % c.num_frames ≢ start
        → clock_from (suc fuel) start c ≡ clock_from fuel start cleared_once
    unfolding clock_from cleared_once
    clock_from_next ne = ground arith

module _ (c : Clock) (k : ℕ) (memory : List Page) (v : IsValid c) (h : k < c.num_frames)
    (passed : Passed c k memory) (p : Page) (found : page_at c k ≡ some p) where
  under_hand : get_elem? memory (place c.num_frames c.clock_hand v.hand_in k) ≡ some p
  under_hand = passed.ahead k (omega arith) h ∙ found

  -- The hand comes to a page with both bits clear.
  sweep_stop :
      (fuel : ℕ)
      → visit p ≡ none
      → (r : ℕ × Clock) × (clock_from (suc fuel) c.clock_hand (after c k memory) ≡ some r)
        × Swept c r
  sweep_stop fuel stops = (
    (place c.num_frames c.clock_hand v.hand_in k, advance (after c k memory)),
    clock_from_stop fuel c.clock_hand (after c k memory) p under_hand stops,
    record {
      steps = k;
      within = omega arith;
      victim = refl;
      stop = let (clean, written) = visit-clear p stops in inr (p, found, clean, written);
      passed = passed;
      rest =
          ap (λ x. record c { memory = memory; clock_hand = x })
            (place-suc c.num_frames c.clock_hand v.hand_in k);
    },
  )

  module _ (p' : Page) (visited : visit p ≡ some p') where
    memory' : List Page
    memory' = set memory (place c.num_frames c.clock_hand v.hand_in k) p'

    hand' :
        (place c.num_frames c.clock_hand v.hand_in k + 1) % c.num_frames
        ≡ (c.clock_hand + (k + 1)) % c.num_frames
    hand' = place-suc c.num_frames c.clock_hand v.hand_in k

    passed' : Passed c (k + 1) memory'
    unfolding memory'
    passed' = Passed-suc c k memory p p' v h passed found visited

    -- It has gone full circle.
    sweep_full :
        (fuel : ℕ)
        → k + 1 ≡ c.num_frames
        → (r : ℕ × Clock) × (clock_from (suc fuel) c.clock_hand (after c k memory) ≡ some r)
          × Swept c r
    unfolding cleared_once memory'
    sweep_full fuel last = (
      (
        c.clock_hand,
        advance (cleared_once fuel c.clock_hand (after c k memory) p under_hand p' visited),
      ),
      clock_from_full fuel c.clock_hand (after c k memory) p under_hand p' visited (hand' ∙ home),
      record {
        steps = k + 1;
        within = omega arith;
        victim = sym home;
        stop = inl last;
        passed = passed';
        rest =
            ap (λ x. record c { memory = memory'; clock_hand = (x + 1) % c.num_frames }) hand'
            ∙ ap (λ x. record c { memory = memory'; clock_hand = x })
                (place-suc c.num_frames c.clock_hand v.hand_in (k + 1));
      },
    )
      where
        home : (c.clock_hand + (k + 1)) % c.num_frames ≡ c.clock_hand
        home =
            subst (λ x. (c.clock_hand + x) % c.num_frames ≡ c.clock_hand) (sym last)
              (place_full c.num_frames c.clock_hand v.hand_in)

    -- It has not: the loop goes on.
    sweep_next :
        (fuel : ℕ)
        → k + 1 ≢ c.num_frames
        → clock_from (suc fuel) c.clock_hand (after c k memory)
          ≡ clock_from fuel c.clock_hand (after c (k + 1) memory')
    unfolding cleared_once memory'
    sweep_next fuel more =
        clock_from_next fuel c.clock_hand (after c k memory) p under_hand p' visited away
        ∙ ap (λ x. clock_from fuel c.clock_hand (record c { memory = memory'; clock_hand = x }))
            hand'
      where
        away : (place c.num_frames c.clock_hand v.hand_in k + 1) % c.num_frames ≢ c.clock_hand
        away e = omega (
          arith,
          place_value c.num_frames c.clock_hand v.hand_in (k + 1) (omega arith),
          sym hand' ∙ e,
          v.hand_in,
        )

-- The loop, entered after `k` frames with a round of fuel for each frame left.
sweep :
    (fuel k : ℕ) (c : Clock) (memory : List Page)
    → IsValid c
    → k < c.num_frames
    → c.num_frames ≤ k + fuel
    → Passed c k memory
    → (r : ℕ × Clock) × (clock_from fuel c.clock_hand (after c k memory) ≡ some r) × Swept c r
sweep zero k c memory v h enough passed = absurd (omega arith)
sweep (suc fuel) k c memory v h enough passed =
    let (p, found) =
      get_elem?_lt c.memory (place c.num_frames c.clock_hand v.hand_in k)
        (omega (arith, place-lt c.num_frames c.clock_hand v.hand_in k, v.size, v.few)) in
    elim (Option-cases (visit p)) [
      | inl stops ↦ sweep_stop c k memory v h passed p found fuel stops
      | inr (p', visited) ↦ elim (ℕ_discrete (k + 1) c.num_frames) [
        | yes last ↦ sweep_full c k memory v h passed p found p' visited fuel last
        | no more ↦
            let (r, e, swept) =
              sweep fuel (k + 1) c (memory' c k memory v h passed p found p' visited) v
                (omega arith) (omega arith) (passed' c k memory v h passed p found p' visited) in
            (r, sweep_next c k memory v h passed p found p' visited fuel more ∙ e, swept)
      ]
    ]

-- In a valid clock, with one to a hundred frames, `clock_algorithm` returns. It clears a bit of each frame from the
-- hand on until it comes to one with both bits clear, which is the victim; if there is none, it
-- clears a bit of every frame, and the victim is the frame that it started from. The hand ends one
-- frame past the victim, and nothing else has changed.
pub clock_algorithm-Swept :
    (c : Clock) → IsValid c → (r : ℕ × Clock) × (clock_algorithm c ≡ some r) × Swept c r
unfolding clock_algorithm
clock_algorithm-Swept c v =
    let (r, e, swept) = sweep c.num_frames 0 c c.memory v v.some_frame (omega arith) untouched in
    (
      r,
      ap (λ x. clock_from c.num_frames c.clock_hand (record c { clock_hand = x })) home ∙ e,
      swept,
    )
  where
    untouched : Passed c 0 c.memory
    untouched = record {
      size = refl;
      cleared = λ j h. absurd (omega arith);
      ahead = λ j low high. refl;
      outside = λ i high. refl;
    }

    home : c.clock_hand ≡ (c.clock_hand + 0) % c.num_frames
    home = sym (ap (λ x. x % c.num_frames) (omega arith) ∙ mod-eq_of_lt v.hand_in)
