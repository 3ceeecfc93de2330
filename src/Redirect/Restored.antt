-- ===== src/Redirect/Restored.antt =====
-- Hard Disk and File IO/q4.c: the output goes to the file, and the descriptors are as before.
use os_in_parts.Prelude.{
  ℕ, zero, suc, ◌+◌, ◌≤◌, ◌<◌, ◌≡◌, ◌≢◌, refl, ap, ◌∙◌, arith, true, Option, none, some, [], update,
  inl, inr, ℕ_discrete, Option-cases,
}
use os_in_parts.Prelude.Strings.{Bytes}
use os_in_parts.Redirect.Defs.{
  Process, stdout_fileno, lowest_from, lowest, open_file, dup, dup2, close, write_to, printf,
  fflush, Exit, part1, part1_from, part1_opened, part1_redirected, part1_restored,
}

-- A free descriptor is found, at or below any that is free.
pub lowest_from-some :
    (rounds fd i : ℕ) (descriptors : ℕ → Option ℕ)
    → fd ≤ i
    → i < fd + rounds
    → descriptors i ≡ none
    → (f : ℕ) × (lowest_from rounds fd descriptors ≡ some f) × (descriptors f ≡ none) × (f ≤ i)
unfolding lowest_from
lowest_from-some zero fd i descriptors le lt free = absurd (omega arith)
lowest_from-some (suc rounds) fd i descriptors le lt free = elim (Option-cases (descriptors fd)) [
  | inl here ↦ (fd, ground (arith, here), here, le)
  | inr (x, taken) ↦ elim (ℕ_discrete fd i) [
    | yes same ↦ absurd (ground arith)
    | no ne ↦
        let (f, found, free', le') =
          lowest_from-some rounds (fd + 1) i descriptors (omega arith) (omega arith) free in
        (f, ground (arith, taken, found), free', le')
  ]
]

-- A descriptor that is set.
abbrev pub set_fd : ℕ → Option ℕ → Process → Process
set_fd fd x p = record p { descriptors = update p.descriptors fd x }

-- A process after `open`.
abbrev pub with_file : ℕ → Process → Process
with_file fd p = record p {
  descriptors = update p.descriptors fd (some p.next_file);
  written = update p.written p.next_file [];
  next_file = p.next_file + 1;
}

pub open_file_lem :
    (fd : ℕ) (p : Process) → lowest p ≡ some fd → open_file true p ≡ some (fd, with_file fd p)
unfolding open_file
open_file_lem fd p e = rw e refl

pub dup_lem :
    (fd f n : ℕ) (p : Process)
    → p.descriptors fd ≡ some f
    → lowest p ≡ some n
    → dup fd p ≡ (some n, set_fd n (some f) p)
unfolding dup
dup_lem fd f n p e e' = rw (e, e') refl

pub dup2_lem :
    (old f new : ℕ) (p : Process)
    → p.descriptors old ≡ some f
    → dup2 (some old) new p ≡ some (set_fd new (some f) p)
unfolding dup2
dup2_lem old f new p e = rw e refl

-- A process with its output open, nothing in its buffer, and free descriptors at `i` and `j`.
pub record Ready (i j : ℕ) (p : Process) : Type 0 where
  pub stdout : ℕ
  pub stdout_open : p.descriptors stdout_fileno ≡ some stdout
  pub empty_buffer : p.buffer ≡ []
  pub ordered : (i < j) × (j < p.limit)
  pub free : (p.descriptors i ≡ none) × (p.descriptors j ≡ none)

-- What `part1` and `part2` leave.
pub record Restored (p p' : Process) (text : Bytes) : Type 0 where
  pub descriptors : (k : ℕ) → p'.descriptors k ≡ p.descriptors k
  pub in_file : p'.written p.next_file ≡ text
  pub others : (f : ℕ) → f ≢ p.next_file → p'.written f ≡ p.written f
  pub no_buffer : p'.buffer ≡ []

-- If the file can be written, the standard output is open, the buffer is empty and two descriptors
-- are free, then `part1` returns, with every descriptor as it was, with the text and nothing else in
-- the new file, with every other file as it was, and with an empty buffer.
pub part1-Restored :
    (text : Bytes) (i j : ℕ) (p : Process)
    → Ready i j p
    → (p' : Process) × (part1 text true p ≡ Exit.returned p') × Restored p p' text
unfolding part1 close write_to printf fflush
part1-Restored text i j p v =
    let (fd, found, fd_free, le) =
      lowest_from-some p.limit 0 i p.descriptors (omega arith) (omega (arith, v.ordered))
        v.free.0 in
    let p1 = with_file fd p in
    let (saved, found', saved_free, le') =
      lowest_from-some p.limit 0 j p1.descriptors (omega arith) (omega (arith, v.ordered))
        (ground (arith, v.ordered, v.free)) in
    let fd_ne : fd ≢ 1 = λ e. ground (arith, v.stdout_open) in
    let saved_ne : saved ≢ fd = λ e. ground arith in
    let saved_free' : p.descriptors saved ≡ none = ground (arith, saved_ne) in
    let saved_ne' : saved ≢ 1 = λ e. ground (arith, v.stdout_open) in
    let p2 = set_fd saved (some v.stdout) p1 in
    let p3 = set_fd 1 (some p.next_file) p2 in
    let p4 = close (some fd) (fflush (printf text p3)) in
    let p5 = set_fd 1 (some v.stdout) p4 in
    (
      close (some saved) p5,
      ap (part1_from text p) (open_file_lem fd p found)
          ∙ ap (part1_opened text fd)
              (dup_lem 1 v.stdout saved p1 (ground (arith, v.stdout_open)) found')
          ∙ ap (part1_redirected text fd (some saved) p2)
              (dup2_lem fd p.next_file 1 p2 (ground arith))
          ∙ ap (part1_restored (some saved) p4) (dup2_lem saved v.stdout 1 p4 (ground arith)),
      record {
        descriptors = λ k. ground (arith, v.stdout_open);
        in_file = ground (arith, v.empty_buffer);
        others = λ f ne. ground arith;
        no_buffer = refl;
      },
    )
