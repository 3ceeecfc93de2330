-- ===== src/Scheduler/Srtf/Rounds.antt =====
-- Fork, Wait, Exec, Process Scheduling/q4.c: the variables of `srtf` after a number of rounds.
use os_in_parts.Prelude.{ℕ, zero, suc, ◌+◌, ◌≤◌, ◌≡◌, false, Option, none, some, arith}
use os_in_parts.Prelude.Int.{pos, neg_part, ◌==ℤ◌}
use os_in_parts.Scheduler.Process.{Process}
use os_in_parts.Scheduler.Times.{Within}
use os_in_parts.Scheduler.Srtf.{Srtf, initial, mark_start, tick, finish, shortest, advance}
use os_in_parts.Scheduler.Srtf.Fits.{finish-Within, mark_start-Within, mark_start-now, run-now}

-- The state after `k` rounds of a loop that has not returned.
unfoldable pub after : ℕ → ℕ → Srtf → Srtf
after zero n s = s
after (suc k) n s = after k n (advance (shortest n s) s)

-- Nothing is further from 0 than the time allows.
pub record Bounded (most : ℕ) (s : Srtf) : Type 0 where
  pub now : s.current_time ≤ most
  pub sums : Within most s.completed s.report
  pub started :
      (j : ℕ)
      → (s.burst_remaining j ==ℤ pos (s.p j).burst_time) ≡ false
      → (s.p j).start_time ≤ s.current_time
  pub low : (j : ℕ) → neg_part (s.burst_remaining j) ≤ s.current_time

pub Bounded-initial : (most : ℕ) (p : ℕ → Process) → Bounded most (initial p)
Bounded-initial most p = record {
  now = omega arith;
  sums = record { turnaround = omega arith; response = omega arith };
  started = λ j h. absurd (ground (arith, h));
  low = λ j. omega arith;
}

mark_start-started :
    (most i : ℕ) (s : Srtf) → Bounded most s → ((mark_start i s).p i).start_time ≤ s.current_time
unfolding mark_start
mark_start-started most i s b = ground (arith, b.started i)

Bounded-run :
    (most i : ℕ) (s : Srtf)
    → s.current_time + 1 ≤ most
    → Bounded most s
    → Bounded most (finish i (tick i (mark_start i s)))
Bounded-run most i s room b = record {
  now = omega (arith, room, run-now i s);
  sums =
      finish-Within i most (tick i (mark_start i s)) (omega (arith, room, mark_start-now i s))
        (omega (arith, mark_start-started most i s b, mark_start-now i s))
        (mark_start-Within i most s b.sums);
  started = λ j h. unfold finish mark_start in ground (arith, h, b.started j);
  low = λ j. unfold finish mark_start in ground (arith, b.low j);
}

Bounded-advance :
    (most : ℕ) (s : Srtf) (o : Option ℕ)
    → s.current_time + 1 ≤ most
    → Bounded most s
    → Bounded most (advance o s) × ((advance o s).current_time ≡ s.current_time + 1)
unfolding advance
Bounded-advance most s none room b = (
  record {
    now = room;
    sums = b.sums;
    started = λ j h. omega (arith, b.started j h);
    low = λ j. omega (arith, b.low j);
  },
  omega arith,
)
Bounded-advance most s (some i) room b = (Bounded-run most i s room b, run-now i s)

pub after-Bounded :
    (k n most : ℕ) (s : Srtf)
    → s.current_time + k ≤ most
    → Bounded most s
    → Bounded most (after k n s)
unfolding after
after-Bounded zero n most s room b = b
after-Bounded (suc k) n most s room b =
    let (b', later) = Bounded-advance most s (shortest n s) (omega arith) b in
    after-Bounded k n most (advance (shortest n s) s) (omega (arith, later)) b'
