-- ===== src/Scheduler/Main/Input.antt =====
-- Fork, Wait, Exec, Process Scheduling/q4.c: the processes that `main` reads.
use os_in_parts.Prelude.{
  ℕ, zero, suc, ◌+◌, ◌<◌, ◌≡◌, refl, false, some, List, [], ◌∷◌, arith, length, get_elem?,
}
use os_in_parts.Scheduler.Process.{Process, input_from, input_processes}
use os_in_parts.Scheduler.Rr.Serve.{IsInput}
use os_in_parts.Scheduler.Main.{array}

-- The element of the array that the inputs at `k` fill, if the loop starts from `i`.
input_from-array :
    (i : ℕ) (inputs : List (ℕ × ℕ)) (ps : List Process) (rest : Process) (k : ℕ)
    → length inputs ≡ length ps
    → k < length inputs
    → let q = array rest (input_from i inputs ps) k in
      (q.pid ≡ i + k + 1)
      × (get_elem? inputs k ≡ some (q.arrival_time, q.burst_time))
      × (q.remaining_time ≡ q.burst_time)
      × (q.started ≡ false)
unfolding input_from
input_from-array i [] ps rest k same h = absurd (omega arith)
input_from-array i (x ∷ inputs) [] rest k same h = absurd (omega arith)
input_from-array i (x ∷ inputs) (p ∷ ps) rest zero same h = (omega arith, refl, refl, refl)
input_from-array i (x ∷ inputs) (p ∷ ps) rest (suc k) same h =
    let (pid, typed, whole, fresh) =
      input_from-array (i + 1) inputs ps rest k (omega arith) (omega arith) in
    (omega arith, typed, whole, fresh)

-- If the array has as many elements as there are inputs, then the process at `k` has the
-- pid `k + 1`, the arrival and burst typed in at `k`, its whole burst left, and has not started.
pub input_processes-IsInput :
    (inputs : List (ℕ × ℕ)) (ps : List Process) (rest : Process)
    → length inputs ≡ length ps
    → IsInput (length inputs) (array rest (input_processes inputs ps))
      × ((k : ℕ)
          → k < length inputs
          → get_elem? inputs k
            ≡ some (
              (array rest (input_processes inputs ps) k).arrival_time,
              (array rest (input_processes inputs ps) k).burst_time,
            ))
unfolding input_processes
input_processes-IsInput inputs ps rest same = (
  record {
    numbered = λ k h. omega (arith, (input_from-array 0 inputs ps rest k same h).0);
    whole = λ k h. (input_from-array 0 inputs ps rest k same h).2;
    fresh = λ k h. (input_from-array 0 inputs ps rest k same h).3;
  },
  (λ k h. (input_from-array 0 inputs ps rest k same h).1),
)
