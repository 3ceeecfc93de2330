-- ===== src/Scheduler/Sjf/Fits.antt =====
-- Fork, Wait, Exec, Process Scheduling/q4.c: how large the time and the sums of `sjf` get.
use os_in_parts.Prelude.{
  ℕ, ◌+◌, ◌*◌, ◌≤◌, ◌<◌, ◌≡◌, refl, Bool, true, false, arith, if◌then◌else◌, total, total_change,
  total-cong, update,
}
use os_in_parts.Prelude.Int.{int_max}
use os_in_parts.Scheduler.Process.{Process}
use os_in_parts.Scheduler.Times.{Within, IsInt, Within-IsInt}
use os_in_parts.Scheduler.Sjf.{Sjf, initial, run_to_end}

abbrev pub burst : Process → ℕ
burst q = q.burst_time

-- The burst of a process that is still to run.
unfoldable pub pending : (ℕ → Process) → (ℕ → Bool) → ℕ → ℕ
pending p is_completed i = if is_completed i then 0 else (p i).burst_time

abbrev pub limit : ℕ → ℕ → (ℕ → Process) → ℕ
limit n last p = total burst n p + last

-- The time leaves room for the bursts that are still to come.
pub record Fits (n last : ℕ) (p : ℕ → Process) (s : Sjf) : Type 0 where
  pub to_come : total (λ k. k) n (pending p s.is_completed) ≤ total burst n p
  pub now : s.current_time + total (λ k. k) n (pending p s.is_completed) ≤ limit n last p
  pub sums : Within (limit n last p) s.completed s.report

pub Fits-initial : (n last : ℕ) (p : ℕ → Process) → Fits n last p (initial p)
Fits-initial n last p =
    let all : total (λ k. k) n (pending p (λ _. false)) ≡ total burst n p =
      total-cong (λ k. k) burst n (pending p (λ _. false)) p (λ i h. unfold pending in refl) in
    record {
      to_come = omega (arith, all);
      now = omega (arith, all);
      sums = record { turnaround = omega arith; response = omega arith };
    }

pub Fits-wait :
    (n last : ℕ) (p : ℕ → Process) (s : Sjf)
    → s.current_time < last
    → Fits n last p s
    → Fits n last p (record s { current_time = s.current_time + 1 })
Fits-wait n last p s early f = record {
  to_come = f.to_come;
  now = omega (arith, f.to_come);
  sums = f.sums;
}

pub Fits-run :
    (n last i : ℕ) (p : ℕ → Process) (s : Sjf)
    → i < n
    → s.is_completed i ≡ false
    → (s.p i).burst_time ≡ (p i).burst_time
    → Fits n last p s
    → Fits n last p (run_to_end i s)
unfolding run_to_end
Fits-run n last i p s lt waits same f =
    let gone : total (λ k. k) n (pending p (update s.is_completed i true)) + (p i).burst_time
        ≡ total (λ k. k) n (pending p s.is_completed) =
      unfold pending in
      ground (
        arith,
        waits,
        total_change (λ k. k) n (pending p s.is_completed)
            (pending p (update s.is_completed i true)) i lt
            (λ j ne. unfold pending in ground arith),
      ) in
    record {
      to_come = omega (arith, gone, f.to_come);
      now = omega (arith, gone, f.now, same);
      sums = record {
        turnaround = omega (arith, gone, f.now, same, f.sums.turnaround);
        response = omega (arith, gone, f.now, same, f.sums.response);
      };
    }

pub Fits-IsInt :
    (n last : ℕ) (p : ℕ → Process) (s : Sjf)
    → 0 < n
    → n * limit n last p ≤ int_max
    → s.completed ≡ n
    → Fits n last p s
    → IsInt s.current_time s.report
Fits-IsInt n last p s some_process room done f =
    Within-IsInt n (limit n last p) s.completed s.current_time s.report some_process room done
      (omega (arith, f.now)) f.sums
