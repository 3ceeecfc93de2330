-- ===== src/Threads/Order.antt =====
-- Multithreading/q4p1.c: a run of threads is their work in some order.
use os_in_parts.Prelude.{
  ℕ, suc, ◌+◌, ◌*◌, ◌≤◌, ◌<◌, ◌≡◌, refl, sym, ap, ◌∙◌, arith, true, false, not, Option, none, some,
  List, [], ◌∷◌, ◌++◌, length, get_elem?, get_elem?_lt, get_elem?-some, get_elem?-append_lt,
  get_elem?-append_last, All, All-append, update, weight, total, total-update, total_zeros,
  count-le, find_below, ◌⊎◌, inl, inr, ℕ_discrete, dec_lt,
}
use os_in_parts.Threads.Run.{Run, Move, fresh, work, step, Reached, work_all}

module _ {D S : Type 0} (act : D → S → S) (threads : List D) where
  pub work_all-last :
      (order : List D) (d : D) (state : S)
      → work_all act (order ++ d ∷ []) state ≡ act d (work_all act order state)
  work_all-last [] d state = refl
  work_all-last (x ∷ order) d state = work_all-last order d (act x state)

  -- The state is that of the finished threads' work in some order.
  pub record Inv (initial : S) (k : ℕ) (s : Run S) : Type 0 where
    pub order : List D
    pub worked : s.state ≡ work_all act order initial
    pub theirs : All (λ d. (i : ℕ) × (get_elem? threads i ≡ some d)) order
    pub done :
        (i : ℕ) (d : D)
        → s.finished i ≡ true
        → get_elem? threads i ≡ some d
        → (j : ℕ) × (get_elem? order j ≡ some d)
    pub waited : (i : ℕ) → i < s.joined → s.finished i ≡ true
    pub below : (s.created ≤ length threads) × (s.joined ≤ s.created)
    pub steps : k ≡ s.created + s.joined + total weight (length threads) s.finished

  Inv-step :
      (initial : S) (k : ℕ) (s s' : Run S) (move : Move)
      → Inv initial k s
      → step act threads move s ≡ some s'
      → Inv initial (suc k) s'
  unfolding step
  Inv-step initial k s s' Move.create v e = record {
    order = v.order;
    worked = ground (arith, v.worked);
    theirs = v.theirs;
    done = λ i d f. v.done i d (ground arith);
    waited = λ i h. ground (arith, v.waited i);
    below = ground (arith, v.below);
    steps = ground (arith, v.steps);
  }
  Inv-step initial k s s' Move.join v e = record {
    order = v.order;
    worked = ground (arith, v.worked);
    theirs = v.theirs;
    done = λ i d f. v.done i d (ground arith);
    waited = λ i h. ground (arith, v.waited i);
    below = ground (arith, v.below);
    steps = ground (arith, v.steps);
  }
  Inv-step initial k s s' (Move.run i) v e = go (get_elem? threads i) refl e
    where
      go :
          (o : Option D)
          → get_elem? threads i ≡ o
          → work act threads i s o ≡ some s'
          → Inv initial (suc k) s'
      go none at f = absurd (cc)
      go (some d) at f = record {
        order = v.order ++ d ∷ [];
        worked = ground (arith, v.worked, work_all-last v.order d initial);
        theirs = All-append _ v.order (d ∷ []) v.theirs ((i, at), tt);
        done = λ j d' g at'. elim (ℕ_discrete j i) [
          | yes same ↦ (
            length v.order,
            get_elem?-append_last v.order d ∙ sym at ∙ ap (get_elem? threads) (sym same) ∙ at',
          )
          | no ne ↦
              let (l, found) = v.done j d' (ground arith) at' in
              (
                l,
                get_elem?-append_lt v.order (d ∷ []) l (get_elem?-some v.order l d' found) ∙ found,
              )
        ];
        waited = λ j h. ground (arith, v.waited j);
        below = ground (arith, v.below);
        steps = ground (
          arith,
          v.steps,
          total-update weight (length threads) s.finished i true (get_elem?-some threads i d at),
        );
      }

  Inv-fresh : (initial : S) → Inv initial 0 (fresh initial)
  Inv-fresh initial = record {
    order = [];
    worked = refl;
    theirs = tt;
    done = λ i d f. absurd (cc);
    waited = λ i h. absurd (omega arith);
    below = (omega arith, omega arith);
    steps = omega (arith, total_zeros weight (length threads) (λ _. false) (λ i h. refl));
  }

  Reached-Inv :
      (initial : S) {k : ℕ} {s : Run S} → Reached act threads initial k s → Inv initial k s
  Reached-Inv initial Reached.start = Inv-fresh initial
  Reached-Inv initial (Reached.next {k} {s} {s'} move reached e) =
      Inv-step initial k s s' move (Reached-Inv initial reached) e

  -- After `k` steps, `k` is at most three for each thread, and something can happen next, or all
  -- threads are joined and the state is that of their work in some order.
  pub Reached-order :
      (initial : S) (k : ℕ) (s : Run S)
      → Reached act threads initial k s
      → (k ≤ 3 * length threads)
        × (((move : Move) × (s' : Run S) × (step act threads move s ≡ some s'))
            ⊎ ((s.joined ≡ length threads)
                × ((order : List D) × (s.state ≡ work_all act order initial)
                    × All (λ d. (i : ℕ) × (get_elem? threads i ≡ some d)) order
                    × ((i : ℕ) (d : D)
                        → get_elem? threads i ≡ some d
                        → (j : ℕ) × (get_elem? order j ≡ some d)))))
  unfolding step
  Reached-order initial k s reached =
      let v = Reached-Inv initial reached in
      (
        omega (arith, v.steps, v.below, count-le (length threads) s.finished),
        elim (dec_lt s.created (length threads)) [
          | yes lt ↦ inl (Move.create, record s { created = s.created + 1 }, ground (arith, lt))
          | no all ↦ elim (find_below (λ i. not (s.finished i)) (length threads)) [
            | inl (i, lt, e) ↦
                let (d, at) = get_elem?_lt threads i lt in
                inl (
                  Move.run i,
                  record s { finished = update s.finished i true; state = act d s.state },
                  ground (arith, at, e, v.below),
                )
            | inr done ↦ elim (dec_lt s.joined (length threads)) [
              | yes lt ↦ inl (
                Move.join,
                record s { joined = s.joined + 1 },
                ground (arith, v.below, done s.joined lt),
              )
              | no ended ↦ inr (
                omega (arith, v.below),
                (
                  v.order,
                  v.worked,
                  v.theirs,
                  λ i d at. v.done i d (ground (arith, done i (get_elem?-some threads i d at))) at,
                ),
              )
            ]
          ]
        ],
      )
