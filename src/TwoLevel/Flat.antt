-- ===== src/TwoLevel/Flat.antt =====
-- Segmentation, Paging, IPC/q4.c: `main` against a flat memory.
use os_in_parts.Prelude.{
  ℕ, ◌+◌, ◌%◌, ◌^◌, ◌<◌, ◌≡◌, refl, none, some, List, [], ◌∷◌, arith, ◌∙◌, update, total-zero,
}
use os_in_parts.TwoLevel.Defs.{Machine, init, ◌>>=◌, Command, Line, rounds, main}
use os_in_parts.TwoLevel.Invariant.{IsValid, used, table_count}
use os_in_parts.TwoLevel.Memory.{peek, load-Counts, store-Counts}

-- What a flat memory of 2 ^ 32 bytes, all zero at first, prints for the same loads and stores.
pub flat : List Command → (ℕ → ℕ) → List Line
flat [] memory = []
flat (Command.quit ∷ commands) memory = []
flat (Command.other va ∷ commands) memory = flat commands memory
flat (Command.load_at va ∷ commands) memory =
    Line.loaded (va % 2 ^ 32) (memory (va % 2 ^ 32)) ∷ flat commands memory
flat (Command.store_at va value ∷ commands) memory =
    Line.stored (va % 2 ^ 32) (value % 2 ^ 8)
    ∷ flat commands (update memory (va % 2 ^ 32) (value % 2 ^ 8))

-- The number of loads and stores before the first `q`.
abbrev pub accesses_in : List Command → ℕ
accesses_in [] = 0
accesses_in (Command.quit ∷ commands) = 0
accesses_in (Command.other va ∷ commands) = accesses_in commands
accesses_in (Command.load_at va ∷ commands) = accesses_in commands + 1
accesses_in (Command.store_at va value ∷ commands) = accesses_in commands + 1

-- The bytes of a machine are those of a flat memory.
abbrev Agree : Machine → (ℕ → ℕ) → Type 0
Agree m memory = (va : ℕ) → va < 2 ^ 32 → peek m va ≡ memory va

record Outcome (commands : List Command) (m : Machine) (memory : ℕ → ℕ) : Type 0 where
  last : Machine
  returns : rounds commands m ≡ some (flat commands memory, last)
  valid : IsValid last
  accesses :
      (last.page_faults + last.page_hits) % 2 ^ 32
      ≡ (m.page_faults + m.page_hits + accesses_in commands) % 2 ^ 32
  frames : m.page_faults ≡ m.next_frame → last.page_faults ≡ last.next_frame

rounds-flat :
    (commands : List Command) (m : Machine) (memory : ℕ → ℕ)
    → IsValid m
    → Agree m memory
    → Outcome commands m memory
unfolding rounds flat
rounds-flat [] m memory v agree = record {
  last = m;
  returns = refl;
  valid = v;
  accesses = omega arith;
  frames = λ h. h;
}
rounds-flat (Command.quit ∷ commands) m memory v agree = record {
  last = m;
  returns = refl;
  valid = v;
  accesses = omega arith;
  frames = λ h. h;
}
rounds-flat (Command.other va ∷ commands) m memory v agree =
    let rest = rounds-flat commands m memory v agree in
    record {
      last = rest.last;
      returns = rest.returns;
      valid = rest.valid;
      accesses = rest.accesses;
      frames = rest.frames;
    }
rounds-flat (Command.load_at va ∷ commands) m memory v agree =
    let (m', e, v', same, counts) = load-Counts (va % 2 ^ 32) m v in
    let rest = rounds-flat commands m' memory v' (λ a h. same a ∙ agree a h) in
    record {
      last = rest.last;
      returns = rw (e, rest.returns, agree (va % 2 ^ 32) (omega arith), ◌>>=◌);
      valid = rest.valid;
      accesses = omega (arith, rest.accesses, counts.accesses);
      frames = λ h. rest.frames (counts.frames h);
    }
rounds-flat (Command.store_at va value ∷ commands) m memory v agree =
    let (m', e, v', changes, counts) =
      store-Counts (va % 2 ^ 32) (value % 2 ^ 8) m v (omega arith) in
    let rest =
      rounds-flat commands m' (update memory (va % 2 ^ 32) (value % 2 ^ 8)) v'
        (λ a h. ground (arith, changes a h, agree a h)) in
    record {
      last = rest.last;
      returns = rw (e, rest.returns, ◌>>=◌);
      valid = rest.valid;
      accesses = omega (arith, rest.accesses, counts.accesses);
      frames = λ h. rest.frames (counts.frames h);
    }

pub init-IsValid : IsValid init
unfolding used table_count
init-IsValid = record {
  below = λ a b f h. absurd (cc);
  unique = λ a b c d f h k. absurd (cc);
  counted = total-zero _ 1024 none refl;
  resident = tt;
}

-- For every list of commands the program never reads through a null page table, and the
-- lines that it prints for loads and stores are those of a flat memory of 2 ^ 32 zero bytes. At the end each fault has taken one frame, and hits and
-- faults add up, modulo 2 ^ 32, to the number of loads and stores.
pub main-flat :
    (commands : List Command)
    → (m : Machine) × (main commands ≡ some (flat commands (λ _. 0), m))
      × (m.page_faults ≡ m.next_frame)
      × ((m.page_faults + m.page_hits) % 2 ^ 32 ≡ accesses_in commands % 2 ^ 32)
unfolding main
main-flat commands =
    let out = rounds-flat commands init (λ _. 0) init-IsValid (λ a h. refl) in
    (out.last, out.returns, out.frames refl, omega (arith, out.accesses))
