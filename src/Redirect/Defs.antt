-- ===== src/Redirect/Defs.antt =====
-- Hard Disk and File IO/q4.c: output that is redirected to a file, and back.
-- A descriptor is a number below a limit that stands for an open file or nothing. The result -1 of a call
-- is none. A file that is opened is new or truncated; what is written goes behind what is there.
use os_in_parts.Prelude.{
  ℕ, zero, suc, ◌+◌, Bool, Option, none, some, List, [], ◌∷◌, ◌++◌, if◌then◌else◌, update, is_some,
  and_then,
}
use os_in_parts.Prelude.Strings.{Bytes}

-- The descriptors of the process, what was written to each open file, the number of the next one, and
-- the buffer of `stdout`. The standard error has no buffer.
pub record Process : Type 0 where
  pub limit : ℕ
  pub descriptors : ℕ → Option ℕ
  pub written : ℕ → Bytes
  pub next_file : ℕ
  pub buffer : Bytes

abbrev pub stdout_fileno : ℕ
stdout_fileno = 1

abbrev pub stderr_fileno : ℕ
stderr_fileno = 2

-- The lowest descriptor that is free, from `fd` on.
unfoldable pub lowest_from : ℕ → ℕ → (ℕ → Option ℕ) → Option ℕ
lowest_from zero fd descriptors = none
lowest_from (suc rounds) fd descriptors =
    let rest = lowest_from rounds (fd + 1) descriptors in
    if is_some (descriptors fd) then rest else some fd

abbrev pub lowest : Process → Option ℕ
lowest p = lowest_from p.limit 0 p.descriptors

abbrev pub open_at : Process → Option ℕ → Option (ℕ × Process)
open_at p none = none
open_at p (some fd) = some (
  fd,
  record p {
    descriptors = update p.descriptors fd (some p.next_file);
    written = update p.written p.next_file [];
    next_file = p.next_file + 1;
  },
)

-- `open` with O_CREAT and O_TRUNC, of a path that can be written or not.
unfoldable pub open_file : Bool → Process → Option (ℕ × Process)
open_file writable p = if writable then open_at p (lowest p) else none

abbrev pub dup_at : Process → Option ℕ → Option ℕ → Option ℕ × Process
dup_at p none n = (none, p)
dup_at p (some f) none = (none, p)
dup_at p (some f) (some n) = (some n, record p { descriptors = update p.descriptors n (some f) })

unfoldable pub dup : ℕ → Process → Option ℕ × Process
dup fd p = dup_at p (p.descriptors fd) (lowest p)

abbrev pub dup2_at : ℕ → Process → Option ℕ → Option Process
dup2_at new p none = none
dup2_at new p (some f) = some (record p { descriptors = update p.descriptors new (some f) })

unfoldable pub dup2 : Option ℕ → ℕ → Process → Option Process
dup2 none new p = none
dup2 (some old) new p = dup2_at new p (p.descriptors old)

unfoldable pub close : Option ℕ → Process → Process
close none p = p
close (some fd) p = record p { descriptors = update p.descriptors fd none }

abbrev pub write_at : Bytes → Process → Option ℕ → Process
write_at bytes p none = p
write_at bytes p (some f) = record p { written = update p.written f (p.written f ++ bytes) }

unfoldable pub write_to : ℕ → Bytes → Process → Process
write_to fd bytes p = write_at bytes p (p.descriptors fd)

unfoldable pub printf : Bytes → Process → Process
printf text p = record p { buffer = p.buffer ++ text }

unfoldable pub fflush : Process → Process
unfolding write_to
fflush p = record (write_to stdout_fileno p.buffer p) { buffer = [] }

-- A function that has returned, or the end of the process by `exit(1)`.
pub data Exit : Type 0 where
  returned : Process → Exit
  exited : Exit

-- The end of `part1`, once `dup2` has restored the descriptor or not.
abbrev pub part1_restored : Option ℕ → Process → Option Process → Exit
part1_restored saved_stdout p none = Exit.exited
part1_restored saved_stdout p (some p') = Exit.returned (close saved_stdout p')

-- Its middle, once `dup2` has redirected the descriptor or not.
abbrev pub part1_redirected : Bytes → ℕ → Option ℕ → Process → Option Process → Exit
part1_redirected text fd saved_stdout p none = Exit.exited
part1_redirected text fd saved_stdout p (some p') =
    let p'' = close (some fd) (fflush (printf text p')) in
    part1_restored saved_stdout p'' (dup2 saved_stdout stdout_fileno p'')

abbrev pub part1_opened : Bytes → ℕ → Option ℕ × Process → Exit
part1_opened text fd (saved_stdout, p) =
    part1_redirected text fd saved_stdout p (dup2 (some fd) stdout_fileno p)

abbrev pub part1_from : Bytes → Process → Option (ℕ × Process) → Exit
part1_from text p none = Exit.exited
part1_from text p (some (fd, p')) = part1_opened text fd (dup stdout_fileno p')

-- `part1`, with the text that it prints as an argument.
unfoldable pub part1 : Bytes → Bool → Process → Exit
part1 text writable p = part1_from text p (open_file writable p)

-- What `system` does: the command makes writes to the descriptors that it has from the process.
unfoldable pub system : List (ℕ × Bytes) → Process → Process
system [] p = p
system ((fd, bytes) ∷ writes) p = system writes (write_to fd bytes p)

-- The two calls of `dup2` under an `||`, each of which can fail.
unfoldable pub dup2_both : Option ℕ → Option ℕ → Process → Option Process
dup2_both out err p = and_then (dup2 out stdout_fileno p) (dup2 err stderr_fileno)

abbrev pub part2_restored : Option ℕ → Option ℕ → Process → Option Process → Exit
part2_restored saved_stdout saved_stderr p none = Exit.exited
part2_restored saved_stdout saved_stderr p (some p') =
    Exit.returned (close saved_stderr (close saved_stdout p'))

abbrev pub part2_redirected :
    List (ℕ × Bytes) → ℕ → Option ℕ → Option ℕ → Process → Option Process → Exit
part2_redirected writes fd saved_stdout saved_stderr p none = Exit.exited
part2_redirected writes fd saved_stdout saved_stderr p (some p') =
    let p'' = close (some fd) (fflush (system writes p')) in
    part2_restored saved_stdout saved_stderr p'' (dup2_both saved_stdout saved_stderr p'')

abbrev pub part2_saved : List (ℕ × Bytes) → ℕ → Option ℕ → Option ℕ × Process → Exit
part2_saved writes fd saved_stdout (saved_stderr, p) =
    part2_redirected writes fd saved_stdout saved_stderr p (dup2_both (some fd) (some fd) p)

abbrev pub part2_opened : List (ℕ × Bytes) → ℕ → Option ℕ × Process → Exit
part2_opened writes fd (saved_stdout, p) = part2_saved writes fd saved_stdout (dup stderr_fileno p)

abbrev pub part2_from : List (ℕ × Bytes) → Process → Option (ℕ × Process) → Exit
part2_from writes p none = Exit.exited
part2_from writes p (some (fd, p')) = part2_opened writes fd (dup stdout_fileno p')

-- `part2`, with the writes of its command as an argument.
unfoldable pub part2 : List (ℕ × Bytes) → Bool → Process → Exit
part2 writes writable p = part2_from writes p (open_file writable p)
