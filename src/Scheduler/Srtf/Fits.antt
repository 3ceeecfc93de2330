-- ===== src/Scheduler/Srtf/Fits.antt =====
-- Fork, Wait, Exec, Process Scheduling/q4.c: how large the time and the sums of `srtf` get.
use os_in_parts.Prelude.{
  ℕ, ◌+◌, ◌*◌, ◌≤◌, ◌<◌, ◌≡◌, refl, arith, if_both, total, total-cong, total-update,
}
use os_in_parts.Prelude.Int.{pos, pos_part, pred_ℤ, ◌==ℤ◌, int_max}
use os_in_parts.Scheduler.Process.{Process}
use os_in_parts.Scheduler.Times.{Within, IsInt, Within-IsInt}
use os_in_parts.Scheduler.Srtf.{Srtf, initial, mark_start, tick, finish}

abbrev pub burst : Process → ℕ
burst q = q.burst_time

abbrev pub limit : ℕ → ℕ → (ℕ → Process) → ℕ
limit n last p = total burst n p + last

-- The time leaves room for the bursts that are still to come.
pub record Fits (n last : ℕ) (p : ℕ → Process) (s : Srtf) : Type 0 where
  pub to_come : total pos_part n s.burst_remaining ≤ total burst n p
  pub now : s.current_time + total pos_part n s.burst_remaining ≤ limit n last p
  pub sums : Within (limit n last p) s.completed s.report

pub Fits-initial : (n last : ℕ) (p : ℕ → Process) → Fits n last p (initial p)
Fits-initial n last p =
    let all = total-cong pos_part burst n (initial p).burst_remaining p (λ i h. refl) in
    record {
      to_come = omega (arith, all);
      now = omega (arith, all);
      sums = record { turnaround = omega arith; response = omega arith };
    }

pub Fits-wait :
    (n last : ℕ) (p : ℕ → Process) (s : Srtf)
    → s.current_time < last
    → Fits n last p s
    → Fits n last p (record s { current_time = s.current_time + 1 })
Fits-wait n last p s early f = record {
  to_come = f.to_come;
  now = omega (arith, f.to_come);
  sums = f.sums;
}

-- One unit of the burst of the process at `i` is gone.
pub run-left :
    (n i : ℕ) (s : Srtf)
    → i < n
    → 0 < pos_part (s.burst_remaining i)
    → total pos_part n (finish i (tick i (mark_start i s))).burst_remaining + 1
      ≡ total pos_part n s.burst_remaining
unfolding finish mark_start
run-left n i s lt some_left =
    ground (arith, total-update pos_part n s.burst_remaining i (pred_ℤ (s.burst_remaining i)))

pub run-now :
    (i : ℕ) (s : Srtf) → (finish i (tick i (mark_start i s))).current_time ≡ s.current_time + 1
unfolding finish mark_start
run-now i s = ground arith

-- A process that has started by now adds at most the time to each sum.
pub finish-Within :
    (i most : ℕ) (s : Srtf)
    → s.current_time ≤ most
    → (s.p i).start_time ≤ s.current_time
    → Within most s.completed s.report
    → Within most (finish i s).completed (finish i s).report
unfolding finish
finish-Within i most s soon started w =
    if_both {A = Srtf} (λ t. Within most t.completed t.report) (s.burst_remaining i ==ℤ pos 0) _ _
      (λ done. record {
        turnaround = omega (arith, w.turnaround);
        response = omega (arith, w.response, started);
      })
      (λ more. w)

pub mark_start-Within :
    (i most : ℕ) (s : Srtf)
    → Within most s.completed s.report
    → Within most (mark_start i s).completed (mark_start i s).report
unfolding mark_start
mark_start-Within i most s w =
    if_both {A = Srtf} (λ t. Within most t.completed t.report)
      (s.burst_remaining i ==ℤ pos (s.p i).burst_time) _ _ (λ whole. w) (λ part. w)

pub mark_start-now : (i : ℕ) (s : Srtf) → (mark_start i s).current_time ≡ s.current_time
unfolding mark_start
mark_start-now i s = ground arith

pub Fits-run :
    (n last i : ℕ) (p : ℕ → Process) (s : Srtf)
    → i < n
    → 0 < pos_part (s.burst_remaining i)
    → ((mark_start i s).p i).start_time ≤ s.current_time
    → Fits n last p s
    → Fits n last p (finish i (tick i (mark_start i s)))
Fits-run n last i p s lt some_left started f =
    let gone = run-left n i s lt some_left in
    let later = run-now i s in
    record {
      to_come = omega (arith, gone, f.to_come);
      now = omega (arith, gone, later, f.now);
      sums =
          finish-Within i (limit n last p) (tick i (mark_start i s))
            (omega (arith, gone, f.now, mark_start-now i s))
            (omega (arith, started, mark_start-now i s))
            (mark_start-Within i (limit n last p) s f.sums);
    }

pub Fits-IsInt :
    (n last : ℕ) (p : ℕ → Process) (s : Srtf)
    → 0 < n
    → n * limit n last p ≤ int_max
    → s.completed ≡ n
    → Fits n last p s
    → IsInt s.current_time s.report
Fits-IsInt n last p s some_process room done f =
    Within-IsInt n (limit n last p) s.completed s.current_time s.report some_process room done
      (omega (arith, f.now)) f.sums
