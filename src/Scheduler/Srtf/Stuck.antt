-- ===== src/Scheduler/Srtf/Stuck.antt =====
-- Fork, Wait, Exec, Process Scheduling/q4.c: `srtf` with a burst of 0.
use os_in_parts.Prelude.{
  count-lt, count-le, weight, ℕ, zero, suc, ◌*◌, ◌≤◌, ◌<◌, ◌≡◌, refl, true, false, Option, none,
  some, arith, total, total-update, total-zero,
}
use os_in_parts.Prelude.Int.{pos, pos_part, neg_part, int_max, ◌<ℤ◌}
use os_in_parts.Scheduler.Process.{Process}
use os_in_parts.Scheduler.Select.Optimal.{Found, select-Found}
use os_in_parts.Scheduler.Times.{IsInt, Within-le, Within-IsInt}
use os_in_parts.Scheduler.Srtf.Rounds.{after, Bounded-initial, after-Bounded}
use os_in_parts.Scheduler.Srtf.{
  Srtf, initial, mark_start, tick, finish, shortest, advance, rounds, srtf,
}

-- The process at `i` has run out of its burst without having been completed.
record IsStuck (n i : ℕ) (s : Srtf) : Type 0 where
  counted : s.completed ≡ total weight n s.is_completed
  pending : s.is_completed i ≡ false
  spent : pos_part (s.burst_remaining i) ≡ 0
  small : (j : ℕ) → j < n → s.burst_remaining j <ℤ pos int_max

finish-IsStuck :
    (n i j : ℕ) (s : Srtf)
    → j < n
    → s.is_completed j ≡ false
    → IsStuck n i s
    → IsStuck n i (finish j (tick j (mark_start j s)))
unfolding finish mark_start
finish-IsStuck n i j s lt pending h = record {
  counted = ground (arith, h.counted, total-update weight n s.is_completed j true);
  pending = ground (arith, h.pending, h.spent);
  spent = ground (arith, h.spent);
  small = λ k hk. ground (arith, h.small k hk);
}

advance-IsStuck : (n i : ℕ) (s : Srtf) → IsStuck n i s → IsStuck n i (advance (shortest n s) s)
unfolding advance shortest
advance-IsStuck n i s h =
    go (shortest n s) (select-Found s.p s.burst_remaining s.is_completed s.current_time n h.small)
  where
    go :
        (o : Option ℕ)
        → Found s.p s.burst_remaining s.is_completed s.current_time n o
        → IsStuck n i (advance o s)
    go none found = record {
      counted = h.counted;
      pending = h.pending;
      spent = h.spent;
      small = h.small;
    }
    go (some j) (Found.optimal _ lt ready best) = finish-IsStuck n i j s lt ready.pending h

after-IsStuck : (k n i : ℕ) (s : Srtf) → IsStuck n i s → IsStuck n i (after k n s)
unfolding after
after-IsStuck zero n i s h = h
after-IsStuck (suc k) n i s h =
    after-IsStuck k n i (advance (shortest n s) s) (advance-IsStuck n i s h)

rounds-IsStuck : (fuel n i : ℕ) (s : Srtf) → i < n → IsStuck n i s → rounds fuel n s ≡ none
unfolding rounds
rounds-IsStuck zero n i s lt h = refl
rounds-IsStuck (suc fuel) n i s lt h = ground (
  arith,
  h.counted,
  h.pending,
  count-lt n s.is_completed i lt,
  rounds-IsStuck fuel n i (advance (shortest n s) s) lt (advance-IsStuck n i s h),
)

-- With a burst of 0 among bursts below INT_MAX, `srtf` does not return within any number of rounds
-- that is at most INT_MAX / `n`. No `int` has overflowed after that many rounds: the time and the sums
-- are at most INT_MAX, and what is left of each burst is at least its negation.
pub srtf_stuck :
    (n : ℕ) (p : ℕ → Process) (i : ℕ)
    → i < n
    → (p i).burst_time ≡ 0
    → ((j : ℕ) → j < n → (p j).burst_time < int_max)
    → (fuel : ℕ) → n * fuel ≤ int_max
    → let s = after fuel n (initial p) in
      (srtf fuel p n ≡ none)
      × IsInt s.current_time s.report
      × ((j : ℕ) → neg_part (s.burst_remaining j) ≤ int_max)
unfolding srtf
srtf_stuck n p i lt empty small fuel room =
    let start : IsStuck n i (initial p) = record {
      counted = omega (arith, total-zero weight n false refl);
      pending = refl;
      spent = empty;
      small = λ j hj. omega (arith, small j hj);
    } in
    let s = after fuel n (initial p) in
    let b = after-Bounded fuel n fuel (initial p) (omega arith) (Bounded-initial fuel p) in
    let stuck = after-IsStuck fuel n i (initial p) start in
    let some_process : 0 < n = omega (arith, lt) in
    let all =
      Within-le fuel s.completed n s.report
        (omega (arith, stuck.counted, count-le n s.is_completed)) b.sums in
    let in_int = Within-IsInt n fuel n s.current_time s.report some_process room refl b.now all in
    (
      rounds-IsStuck fuel n i (initial p) lt start,
      in_int,
      (λ j. omega (arith, b.low j, in_int.time)),
    )
