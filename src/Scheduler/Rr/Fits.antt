-- ===== src/Scheduler/Rr/Fits.antt =====
-- Fork, Wait, Exec, Process Scheduling/q4.c: how large the sums of `rr` get.
use os_in_parts.Prelude.{ℕ, ◌≤◌, ◌≡◌, arith, if_both, ◌==◌}
use os_in_parts.Scheduler.Times.{Within}
use os_in_parts.Scheduler.Rr.{Rr, mark_start, slice, finish, print_pid, serve}

finish-Within :
    (i most : ℕ) (s : Rr)
    → s.current_time ≤ most
    → (s.p i).start_time ≤ s.current_time
    → Within most s.completed s.report
    → Within most (finish i s).completed (finish i s).report
unfolding finish
finish-Within i most s soon started w =
    if_both {A = Rr} (λ t. Within most t.completed t.report) ((s.p i).remaining_time == 0) _ _
      (λ done. record {
        turnaround = omega (arith, w.turnaround);
        response = omega (arith, w.response, started);
      })
      (λ more. w)

mark_start-Within :
    (i most : ℕ) (s : Rr)
    → Within most s.completed s.report
    → Within most (mark_start i s).completed (mark_start i s).report
unfolding mark_start
mark_start-Within i most s w =
    if_both {A = Rr} (λ t. Within most t.completed t.report) (s.p i).started _ _ (λ went. w)
      (λ first. w)

serve-now :
    (quantum i : ℕ) (s : Rr)
    → (serve quantum i s).current_time ≡ (slice quantum i (mark_start i s)).current_time
unfolding serve print_pid finish
serve-now quantum i s = ground arith

slice-started :
    (quantum i : ℕ) (s : Rr)
    → ((mark_start i s).p i).start_time ≤ s.current_time
    → ((slice quantum i (mark_start i s)).p i).start_time
      ≤ (slice quantum i (mark_start i s)).current_time
unfolding slice mark_start
slice-started quantum i s h = ground (arith, h)

-- A process that is served, and has started by now, adds at most the time to each sum.
pub serve-Within :
    (quantum i most : ℕ) (s : Rr)
    → (serve quantum i s).current_time ≤ most
    → ((mark_start i s).p i).start_time ≤ s.current_time
    → Within most s.completed s.report
    → Within most (serve quantum i s).completed (serve quantum i s).report
serve-Within quantum i most s soon started w =
    let served =
      finish-Within i most (slice quantum i (mark_start i s))
        (omega (arith, soon, serve-now quantum i s)) (slice-started quantum i s started)
        (unfold slice in mark_start-Within i most s w) in
    unfold serve print_pid in record { turnaround = served.turnaround; response = served.response }
