-- ===== src/Scheduler/Select/Optimal.antt =====
-- Fork, Wait, Exec, Process Scheduling/q4.c: what the search finds.
use os_in_parts.Prelude.{
  ℕ, zero, suc, ◌+◌, ◌≤◌, ◌<◌, ◌≡◌, refl, ◌⊎◌, inl, inr, Bool, true, false, not, ◌&&◌, Option, none,
  some, arith, leb, Bool-cases, ℕ_discrete, subst, sym,
}
use os_in_parts.Prelude.Int.{ℤ, pos, pos_part, neg_part, ◌<ℤ◌, ◌≤ℤ◌, int_max}
use os_in_parts.Scheduler.Process.{Process}
use os_in_parts.Scheduler.Select.{
  Best, no_best, take_smaller, take_earlier, consider, search_from, select,
}

module _ (p : ℕ → Process) (keys : ℕ → ℤ) (is_completed : ℕ → Bool) (current_time : ℕ) where
  -- A process that has arrived and is not completed.
  pub record IsReady (i : ℕ) : Type 0 where
    pub arrived : (p i).arrival_time ≤ current_time
    pub pending : is_completed i ≡ false

  -- A smaller key, or the same key and no later arrival.
  abbrev pub NoWorse : ℕ → ℕ → Type 0
  NoWorse m j =
      (keys m <ℤ keys j) ⊎ ((keys m ≤ℤ keys j) × ((p m).arrival_time ≤ (p j).arrival_time))

  -- The variable `min_burst_time` holds the key of `m`.
  abbrev HoldsKey : Best → ℕ → Type 0
  HoldsKey b m =
      pos_part b.min_burst_time + neg_part (keys m) ≡ pos_part (keys m) + neg_part b.min_burst_time

  -- What the search knows once it has seen the processes below `i`.
  data Seen (i : ℕ) (b : Best) : Type 0 where
    nothing : b ≡ no_best → ((j : ℕ) → j < i → ¬ IsReady j) → Seen i b
    found :
        (m : ℕ)
        → b.min_index ≡ some m
        → HoldsKey b m
        → m < i
        → IsReady m
        → ((j : ℕ) → j < i → IsReady j → NoWorse m j)
        → Seen i b

  is_ready : ℕ → Bool
  is_ready i = leb (p i).arrival_time current_time && not (is_completed i)

  is_ready→IsReady : (i : ℕ) → is_ready i ≡ true → IsReady i
  unfolding is_ready
  is_ready→IsReady i h = ground arith

  IsReady→is_ready : (i : ℕ) → IsReady i → is_ready i ≡ true
  unfolding is_ready
  IsReady→is_ready i h = ground arith

  -- A process that is not ready changes nothing.
  consider_skip :
      (i : ℕ) (b : Best) → is_ready i ≡ false → consider p keys is_completed current_time i b ≡ b
  unfolding consider is_ready
  consider_skip i b h = rw h

  consider_first :
      (i : ℕ)
      → is_ready i ≡ true
      → keys i <ℤ pos int_max
      → consider p keys is_completed current_time i no_best
        ≡ record { min_index = some i; min_burst_time = keys i }
  unfolding consider is_ready take_smaller take_earlier
  consider_first i h small = ground arith

  -- A process that is ready replaces the best so far, or is no better.
  consider_next :
      (i m : ℕ) (b : Best)
      → is_ready i ≡ true
      → b.min_index ≡ some m
      → HoldsKey b m
      → (((consider p keys is_completed current_time i b).min_index ≡ some i)
          × HoldsKey (consider p keys is_completed current_time i b) i
          × NoWorse i m)
        ⊎ ((consider p keys is_completed current_time i b ≡ b) × NoWorse m i)
  unfolding consider is_ready take_smaller take_earlier
  consider_next i m b ready index key = ground arith

  NoWorse-trans : (a b c : ℕ) → NoWorse a b → NoWorse b c → NoWorse a c
  NoWorse-trans a b c h k = ground arith

  NoWorse-refl : (a : ℕ) → NoWorse a a
  NoWorse-refl a = ground arith

  -- A fact about the indices below `i`, and about `i`.
  extend :
      {Q : ℕ → Type 0} (i : ℕ)
      → ((j : ℕ) → j < i → IsReady j → Q j)
      → (IsReady i → Q i)
      → (j : ℕ) → j < i + 1
      → IsReady j
      → Q j
  extend {Q} i below here j h ready = elim (ℕ_discrete j i) [
    | yes e ↦ subst Q (sym e) (here (subst IsReady e ready))
    | no ne ↦ below j (omega arith) ready
  ]

  Seen-suc :
      (i : ℕ) (b : Best)
      → keys i <ℤ pos int_max
      → Seen i b
      → Seen (i + 1) (consider p keys is_completed current_time i b)
  Seen-suc i b small (Seen.nothing e none_ready) = elim (Bool-cases (is_ready i)) [
    | inr skip ↦
        rw (consider_skip i b skip)
          (Seen.nothing e (extend i none_ready (λ r. cc (IsReady→is_ready i r))))
    | inl ready ↦
        rw (e, consider_first i ready small)
          (Seen.found i refl (omega arith) (omega arith) (is_ready→IsReady i ready)
            (extend i (λ j h r. absurd (none_ready j h r)) (λ r. NoWorse-refl i)))
  ]
  Seen-suc i b small (Seen.found m index key lt ready best) = elim (Bool-cases (is_ready i)) [
    | inr skip ↦ rw (consider_skip i b skip) (
        Seen.found m index key (omega arith) ready
          (extend i best (λ r. absurd (cc (IsReady→is_ready i r)))))
    | inl now ↦ elim (consider_next i m b now index key) [
      | inl (index', key', better) ↦
          Seen.found i index' key' (omega arith) (is_ready→IsReady i now)
            (extend i (λ j h r. NoWorse-trans i m j better (best j h r)) (λ r. NoWorse-refl i))
      | inr (same, worse) ↦
          rw same (Seen.found m index key (omega arith) ready (extend i best (λ r. worse)))
    ]
  ]

  Seen-search_from :
      (n i : ℕ) (b : Best)
      → ((j : ℕ) → j < i + n → keys j <ℤ pos int_max)
      → Seen i b
      → Seen (i + n) (search_from p keys is_completed current_time n i b)
  unfolding search_from
  Seen-search_from zero i b small seen = let e : i ≡ i + 0 = omega arith in rw (← e) seen
  Seen-search_from (suc n) i b small seen =
      let e : i + 1 + n ≡ i + suc n = omega arith in
      subst (λ k. Seen k (search_from p keys is_completed current_time (suc n) i b)) e
        (Seen-search_from n (i + 1) (consider p keys is_completed current_time i b)
          (λ j h. small j (omega arith)) (Seen-suc i b (small i (omega arith)) seen))

  -- How the search ends.
  pub data Found (n : ℕ) : Option ℕ → Type 0 where
    none_ready : ((j : ℕ) → j < n → ¬ IsReady j) → Found n none
    optimal :
        (m : ℕ) → m < n → IsReady m → ((j : ℕ) → j < n → IsReady j → NoWorse m j) → Found n (some m)

  -- If every key is below INT_MAX, the search finds an index exactly if a process has arrived and is
  -- not completed. It finds such a process, and no other has a smaller key, or the same key and an
  -- earlier arrival.
  pub select-Found :
      (n : ℕ)
      → ((j : ℕ) → j < n → keys j <ℤ pos int_max)
      → Found n (select p keys is_completed current_time n)
  unfolding select
  select-Found n small = ends (
      Seen-search_from n 0 no_best (λ j h. small j (omega arith))
        (Seen.nothing refl (λ j h. absurd (omega arith))))
    where
      ends : {b : Best} → Seen (0 + n) b → Found n b.min_index
      ends (Seen.nothing e none_there) = rw e (Found.none_ready (λ j h. none_there j (omega arith)))
      ends (Seen.found m index key lt ready best) =
          rw index (Found.optimal m (omega arith) ready (λ j h. best j (omega arith)))
