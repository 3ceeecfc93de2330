-- ===== src/Redirect/Command.antt =====
-- Hard Disk and File IO/q4.c: the output of a command goes to the file.
use mathlib.Core.List.{append_assoc, append-nil}
use os_in_parts.Prelude.{
  ℕ, ◌<◌, ◌≡◌, ◌≢◌, refl, sym, ap, ◌∙◌, arith, none, some, List, [], ◌∷◌, ◌++◌, All, update,
  and_then, subst, ◌⊎◌, inl, inr,
}
use os_in_parts.Prelude.Strings.{Bytes}
use os_in_parts.Redirect.Defs.{
  Process, stdout_fileno, stderr_fileno, write_to, write_at, fflush, dup2, dup2_both, system,
}
use os_in_parts.Redirect.Restored.{set_fd, dup2_lem}

-- All that a command writes to its two outputs, in the order of the writes.
abbrev pub output : List (ℕ × Bytes) → Bytes
output [] = []
output ((fd, bytes) ∷ writes) = bytes ++ output writes

abbrev pub ToOutput : ℕ × Bytes → Type 0
ToOutput (fd, bytes) = (fd ≡ stdout_fileno) ⊎ (fd ≡ stderr_fileno)

-- What is written behind a file, and nothing else.
pub record Wrote (o : ℕ) (bytes : Bytes) (p p' : Process) : Type 0 where
  pub table : p'.descriptors ≡ p.descriptors
  pub file : p'.written o ≡ p.written o ++ bytes
  pub others : (f : ℕ) → f ≢ o → p'.written f ≡ p.written f
  pub buffer : p'.buffer ≡ p.buffer

write_at-Wrote : (o : ℕ) (bytes : Bytes) (p : Process) → Wrote o bytes p (write_at bytes p (some o))
write_at-Wrote o bytes p = record {
  table = refl;
  file = ground arith;
  others = λ f ne. ground arith;
  buffer = refl;
}

write_to-Wrote :
    (fd o : ℕ) (bytes : Bytes) (p : Process)
    → p.descriptors fd ≡ some o
    → Wrote o bytes p (write_to fd bytes p)
unfolding write_to
write_to-Wrote fd o bytes p e =
    subst (λ x. Wrote o bytes p (write_at bytes p x)) (sym e) (write_at-Wrote o bytes p)

-- Both outputs are the file `o`.
pub system-Wrote :
    (writes : List (ℕ × Bytes)) (o : ℕ) (p : Process)
    → p.descriptors stdout_fileno ≡ some o
    → p.descriptors stderr_fileno ≡ some o
    → All ToOutput writes
    → Wrote o (output writes) p (system writes p)
unfolding system
system-Wrote [] o p out err h = record {
  table = refl;
  file = sym (append-nil (p.written o));
  others = λ f ne. refl;
  buffer = refl;
}
system-Wrote ((fd, bytes) ∷ writes) o p out err h =
    let open_fd : p.descriptors fd ≡ some o = elim h.0 [
      | inl e ↦ ap p.descriptors e ∙ out
      | inr e ↦ ap p.descriptors e ∙ err
    ] in
    let first = write_to-Wrote fd o bytes p open_fd in
    let rest =
      system-Wrote writes o (write_to fd bytes p) (ap (λ t. t 1) first.table ∙ out)
        (ap (λ t. t 2) first.table ∙ err) h.1 in
    record {
      table = rest.table ∙ first.table;
      file =
          rest.file
          ∙ ap (λ x. x ++ output writes) first.file
          ∙ append_assoc (p.written o) bytes (output writes);
      others = λ f ne. rest.others f ne ∙ first.others f ne;
      buffer = rest.buffer ∙ first.buffer;
    }

pub fflush-Wrote :
    (o : ℕ) (p : Process)
    → p.descriptors stdout_fileno ≡ some o
    → p.buffer ≡ []
    → Wrote o [] p (fflush p)
unfolding fflush
fflush-Wrote o p out nothing =
    let w = write_to-Wrote stdout_fileno o p.buffer p out in
    record {
      table = w.table;
      file = w.file ∙ ap (λ x. p.written o ++ x) nothing;
      others = w.others;
      buffer = sym nothing;
    }

pub dup2_both_lem :
    (out err f g : ℕ) (p : Process)
    → p.descriptors out ≡ some f
    → update p.descriptors 1 (some f) err ≡ some g
    → dup2_both (some out) (some err) p ≡ some (set_fd 2 (some g) (set_fd 1 (some f) p))
unfolding dup2_both
dup2_both_lem out err f g p e e' =
    ap (λ o. and_then o (dup2 (some err) stderr_fileno)) (dup2_lem out f 1 p e)
    ∙ dup2_lem err g 2 (set_fd 1 (some f) p) e'

-- A process with both outputs open, nothing in its buffer, and three free descriptors.
pub record ReadyBoth (i j l : ℕ) (p : Process) : Type 0 where
  pub stdout : ℕ
  pub stderr : ℕ
  pub stdout_open : p.descriptors stdout_fileno ≡ some stdout
  pub stderr_open : p.descriptors stderr_fileno ≡ some stderr
  pub empty_buffer : p.buffer ≡ []
  pub ordered : (i < j) × (j < l) × (l < p.limit)
  pub free : (p.descriptors i ≡ none) × (p.descriptors j ≡ none) × (p.descriptors l ≡ none)
