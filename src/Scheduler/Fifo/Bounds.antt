-- ===== src/Scheduler/Fifo/Bounds.antt =====
-- Fork, Wait, Exec, Process Scheduling/q4.c: how large the times of `fifo` get.
use os_in_parts.Prelude.{
  ℕ, zero, suc, ◌+◌, ◌≤◌, ◌≡◌, refl, ◌⊎◌, List, [], ◌∷◌, arith, All, sum_by, if_both,
}
use os_in_parts.Scheduler.Process.{Process}
use os_in_parts.Scheduler.Fifo.{out_of_order, pass, sort_rounds, Clock, execute_one, execute}

abbrev pub burst : Process → ℕ
burst q = q.burst_time

-- What has arrived by `last`.
abbrev pub Arrives : ℕ → Process → Type 0
Arrives last q = q.arrival_time ≤ last

-- No arrival is after `last`, and the bursts fit behind it.
abbrev pub Fits : ℕ → ℕ → List Process → Type 0
Fits last most ps = All (Arrives last) ps × (last + sum_by burst ps ≤ most)

pass-Fits :
    (k last most : ℕ) (ps : List Process)
    → All (Arrives last) ps
    → All (Arrives last) (pass k ps) × (sum_by burst (pass k ps) ≡ sum_by burst ps)
unfolding pass
pass-Fits zero last most ps h = (h, refl)
pass-Fits (suc k) last most [] h = (h, refl)
pass-Fits (suc k) last most (p ∷ []) h = (h, refl)
pass-Fits (suc k) last most (p ∷ q ∷ ps) h =
    if_both {A = List Process}
      (λ l. All (Arrives last) l × (sum_by burst l ≡ sum_by burst (p ∷ q ∷ ps))) (out_of_order p q)
      _ _
      (λ swap.
        let (all, same) = pass-Fits k last most (p ∷ ps) (h.0, h.1.1) in
        ((h.1.0, all), omega (arith, same)))
      (λ keep.
        let (all, same) = pass-Fits k last most (q ∷ ps) h.1 in ((h.0, all), omega (arith, same)))

pub sort_rounds-Fits :
    (k last most : ℕ) (ps : List Process) → Fits last most ps → Fits last most (sort_rounds k ps)
unfolding sort_rounds
sort_rounds-Fits zero last most ps h = h
sort_rounds-Fits (suc k) last most ps h =
    let (all, same) = pass-Fits (suc k) last most ps h.0 in
    sort_rounds-Fits k last most (pass (suc k) ps) (all, omega (arith, same, h.1))

execute_one-le :
    (p : Process) (c : Clock) (last most : ℕ)
    → p.arrival_time ≤ last
    → c.curr_time + p.burst_time ≤ most
    → last + p.burst_time ≤ most
    → ((execute_one p c).0.completion_time ≤ most)
      × (((execute_one p c).1.curr_time ≤ c.curr_time + p.burst_time)
          ⊎ ((execute_one p c).1.curr_time ≤ last + p.burst_time))
unfolding execute_one
execute_one-le p c last most h k l = ground arith

pub execute-le :
    (ps : List Process) (c : Clock) (last most : ℕ)
    → Fits last most ps
    → c.curr_time + sum_by burst ps ≤ most
    → All (λ q. q.completion_time ≤ most) (execute ps c).0
unfolding execute
execute-le [] c last most h k = tt
execute-le (p ∷ ps) c last most h k =
    let (ends, later) =
      execute_one-le p c last most h.0.0 (omega (arith, h.1)) (omega (arith, h.1)) in
    (
      omega (arith, ends),
      execute-le ps (execute_one p c).1 last most (h.0.1, omega (arith, h.1))
          (ground (arith, later, h.1)),
    )
