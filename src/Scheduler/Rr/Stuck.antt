-- ===== src/Scheduler/Rr/Stuck.antt =====
-- Fork, Wait, Exec, Process Scheduling/q4.c: `rr` when a process is still to come.
use os_in_parts.Prelude.{
  count-lt, count-le, weight, ℕ, zero, suc, ◌+◌, ◌-◌, ◌*◌, ◌≤◌, ◌<◌, ◌≡◌, refl, true, false, none,
  inl, inr, arith, if◌then◌else◌, total, total-update, total_change, total-ge, total-cong,
  total-zero, Bool-cases,
}
use os_in_parts.Prelude.Int.{int_max}
use os_in_parts.Scheduler.Process.{Process}
use os_in_parts.Scheduler.Times.{Within, IsInt, Within-le, Within-IsInt}
use os_in_parts.Scheduler.Rr.Fits.{serve-Within}
use os_in_parts.Scheduler.Rr.{
  Rr, initial, is_ready, mark_start, execution_time, slice, finish, print_pid, serve, wrap,
  round_at, round, rounds, rr,
}
use os_in_parts.Scheduler.Rr.Serve.{burst, left, IsInput, wrap-lt}

-- The process at `i` has not run, and comes after all that the others have to run.
record IsLate (n i total_burst : ℕ) (s : Rr) : Type 0 where
  below : i < n
  counted : s.completed ≡ total weight n s.is_completed
  queued : (j : ℕ) → j < n → s.queue j ≡ j + 1
  busy : s.current_time + total left n s.p ≡ total_burst
  late : total_burst < (s.p i).arrival_time + (s.p i).remaining_time
  pending : s.is_completed i ≡ false
  sums : Within total_burst s.completed s.report
  started : (j : ℕ) → j < n → (s.p j).started ≡ true → (s.p j).start_time ≤ s.current_time

-- The state after `k` rounds of a loop that has not returned.
unfoldable pub after : ℕ → ℕ → ℕ → Rr → Rr
after zero quantum n s = s
after (suc k) quantum n s = after k quantum n (round quantum n s)

mark_start-started :
    (i : ℕ) (s : Rr)
    → ((s.p i).started ≡ true → (s.p i).start_time ≤ s.current_time)
    → ((mark_start i s).p i).start_time ≤ s.current_time
unfolding mark_start
mark_start-started i s h = elim (Bool-cases (s.p i).started) [
  | inl went ↦ ground (arith, h went, went)
  | inr first ↦ ground (arith, first)
]

serve-IsLate :
    (quantum n i j total_burst : ℕ) (s : Rr)
    → j < n
    → is_ready j s ≡ true
    → IsLate n i total_burst s
    → IsLate n i total_burst (serve quantum j s)
unfolding serve print_pid finish slice execution_time mark_start is_ready
serve-IsLate quantum n i j total_burst s lt ready h =
    let change = total_change left n s.p (serve quantum j s).p j lt (λ k ne. ground arith) in
    let not_i : (total left n s.p < (s.p i).remaining_time) → ⊥ =
      λ k. omega (arith, total-ge left n s.p i h.below) in
    let busy' : (serve quantum j s).current_time + total left n (serve quantum j s).p
        ≡ total_burst =
      ground (arith, h.busy, change) in
    record {
      below = h.below;
      counted = ground (arith, h.counted, total-update weight n s.is_completed j true);
      queued = λ k hk. ground (arith, h.queued k);
      busy = busy';
      late = ground (arith, h.late, h.busy, not_i);
      pending = ground (arith, h.pending, h.late, h.busy, not_i);
      sums =
          serve-Within quantum j total_burst s (omega (arith, busy'))
            (mark_start-started j s (h.started j lt)) h.sums;
      started = λ k hk went. ground (arith, h.started k hk, went);
    }

IsLate-idx :
    (n i total_burst k : ℕ) (s : Rr)
    → IsLate n i total_burst s
    → IsLate n i total_burst (record s { idx = k })
IsLate-idx n i total_burst k s h = record {
  below = h.below;
  counted = h.counted;
  queued = h.queued;
  busy = h.busy;
  late = h.late;
  pending = h.pending;
  sums = h.sums;
  started = h.started;
}

round-IsLate :
    (quantum n i total_burst : ℕ) (s : Rr)
    → IsLate n i total_burst s
    → IsLate n i total_burst (round quantum n s)
unfolding round round_at
round-IsLate quantum n i total_burst s h =
    let k = wrap n s.idx in
    let j-lt : s.queue k - 1 < n = omega (arith, h.queued k, wrap-lt n s.idx i h.below) in
    IsLate-idx n i total_burst (k + 1)
      (if is_ready (s.queue k - 1) s then serve quantum (s.queue k - 1) s else s)
      (elim (Bool-cases (is_ready (s.queue k - 1) s)) [
        | inl ready ↦
            rw (ready, if◌then◌else◌)
              (serve-IsLate quantum n i (s.queue k - 1) total_burst s j-lt ready h)
        | inr skip ↦ rw (skip, if◌then◌else◌) h
      ])

rounds-IsLate :
    (fuel quantum n i total_burst : ℕ) (s : Rr)
    → IsLate n i total_burst s
    → rounds fuel quantum n s ≡ none
unfolding rounds
rounds-IsLate zero quantum n i total_burst s h = refl
rounds-IsLate (suc fuel) quantum n i total_burst s h = ground (
  arith,
  h.counted,
  h.pending,
  count-lt n s.is_completed i h.below,
  rounds-IsLate fuel quantum n i total_burst (round quantum n s)
      (round-IsLate quantum n i total_burst s h),
)

after-IsLate :
    (k quantum n i total_burst : ℕ) (s : Rr)
    → IsLate n i total_burst s
    → IsLate n i total_burst (after k quantum n s)
unfolding after
after-IsLate zero quantum n i total_burst s h = h
after-IsLate (suc k) quantum n i total_burst s h =
    after-IsLate k quantum n i total_burst (round quantum n s)
      (round-IsLate quantum n i total_burst s h)

-- If the processes are as they are read in, whether their bursts are positive or 0, and one of them
-- arrives later than all the others take to run, and the sum of the bursts is at most INT_MAX / `n`,
-- then `rr` does not return, whatever the quantum and however many rounds it has. No `int` has
-- overflowed after that many rounds: the time and the sums are at most INT_MAX.
pub rr_stuck :
    (n : ℕ) (p : ℕ → Process) (i : ℕ)
    → IsInput n p
    → i < n
    → total burst n p < (p i).arrival_time + (p i).burst_time
    → n * total burst n p ≤ int_max
    → (quantum fuel : ℕ)
    → let s = after fuel quantum n (initial p) in
      (rr fuel p n quantum ≡ none) × IsInt s.current_time s.report
unfolding rr
rr_stuck n p i input lt late room quantum fuel =
    let start : IsLate n i (total burst n p) (initial p) = record {
      below = lt;
      counted = omega (arith, total-zero weight n false refl);
      queued = input.numbered;
      busy = omega (arith, total-cong left burst n p p input.whole);
      late = omega (arith, late, input.whole i lt);
      pending = refl;
      sums = record { turnaround = omega arith; response = omega arith };
      started = λ j hj went. let never = input.fresh j hj in absurd (cc);
    } in
    let s = after fuel quantum n (initial p) in
    let h = after-IsLate fuel quantum n i (total burst n p) (initial p) start in
    let all =
      Within-le (total burst n p) s.completed n s.report
        (omega (arith, h.counted, count-le n s.is_completed)) h.sums in
    (
      rounds-IsLate fuel quantum n i (total burst n p) (initial p) start,
      Within-IsInt n (total burst n p) n s.current_time s.report (omega (arith, lt)) room refl
          (omega (arith, h.busy)) all,
    )
