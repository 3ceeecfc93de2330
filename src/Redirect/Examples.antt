-- ===== src/Redirect/Examples.antt =====
-- Hard Disk and File IO/q4.c: a process with the three standard descriptors.
use os_in_parts.Prelude.{
  ℕ, ◌≡◌, refl, arith, true, none, some, List, [], ◌∷◌, ltb, inl, inr, if◌then◌else◌,
}
use os_in_parts.Prelude.Strings.{Bytes}
use os_in_parts.Redirect.Defs.{Process, Exit, lowest_from, open_file, part1, part2}
use os_in_parts.Redirect.Restored.{Restored, part1-Restored}
use os_in_parts.Redirect.Command.{output}
use os_in_parts.Redirect.Both.{part2-Restored}

-- The terminal is the file 0.
abbrev start : Process
start = record {
  limit = 6;
  descriptors = λ k. if ltb k 3 then some 0 else none;
  written = λ f. [];
  next_file = 1;
  buffer = [];
}

abbrev text : Bytes
text = b'H' ∷ b'i' ∷ b'\n' ∷ []

-- Without a descriptor that is free, the process ends.
full : part1 text true (record start { limit = 3 }) ≡ Exit.exited
unfolding part1 open_file lowest_from
full = refl

part1-Restored_example :
    (p : Process) × (part1 text true start ≡ Exit.returned p) × Restored start p text
part1-Restored_example = part1-Restored text 3 4 start (record {
  stdout = 0;
  stdout_open = refl;
  empty_buffer = refl;
  ordered = (omega arith, omega arith);
  free = (refl, refl);
})

-- A command that writes a line to one output and a byte to the other.
abbrev writes : List (ℕ × Bytes)
writes = (1, text) ∷ (2, b'!' ∷ []) ∷ []

part2-Restored_example :
    (p : Process) × (part2 writes true start ≡ Exit.returned p) × Restored start p (output writes)
part2-Restored_example =
    part2-Restored writes 3 4 5 start
      (record {
        stdout = 0;
        stderr = 0;
        stdout_open = refl;
        stderr_open = refl;
        empty_buffer = refl;
        ordered = (omega arith, omega arith, omega arith);
        free = (refl, refl, refl);
      })
      (inl refl, (inr refl, tt))
