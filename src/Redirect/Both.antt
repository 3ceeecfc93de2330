-- ===== src/Redirect/Both.antt =====
-- Hard Disk and File IO/q4.c: both outputs are redirected, and restored.
use mathlib.Core.List.{append-nil}
use os_in_parts.Prelude.{
  ℕ, ◌≡◌, ◌≢◌, refl, ap, ◌∙◌, arith, true, Option, none, some, List, [], ◌++◌, All, update,
  update_self, update_ne,
}
use os_in_parts.Prelude.Strings.{Bytes}
use os_in_parts.Redirect.Defs.{
  Process, lowest, fflush, close, dup2_both, Exit, system, part2, part2_from, part2_opened,
  part2_saved, part2_redirected, part2_restored,
}
use os_in_parts.Redirect.Command.{
  output, ToOutput, system-Wrote, fflush-Wrote, dup2_both_lem, ReadyBoth,
}
use os_in_parts.Redirect.Restored.{
  lowest_from-some, set_fd, with_file, open_file_lem, dup_lem, Restored,
}

-- A process in which `part2` has opened the file and saved both outputs.
record Saved (fd out err stdout stderr : ℕ) (p p' : Process) : Type 0 where
  is_out : p.descriptors 1 ≡ some stdout
  is_err : p.descriptors 2 ≡ some stderr
  fd_free : p.descriptors fd ≡ none
  out_free : p.descriptors out ≡ none
  err_free : p.descriptors err ≡ none
  apart : (out ≢ fd) × (err ≢ fd) × (err ≢ out)
  table :
      (k : ℕ)
      → p'.descriptors k
        ≡ update
            (update (update p.descriptors fd (some p.next_file)) out (some stdout))
            err
            (some stderr)
            k
  in_file : p'.written p.next_file ≡ []
  others : (f : ℕ) → f ≢ p.next_file → p'.written f ≡ p.written f
  no_buffer : p'.buffer ≡ []

module _ (fd out err stdout stderr : ℕ) (p p' : Process)
    (v : Saved fd out err stdout stderr p p') where
  not_output : (k : ℕ) → p.descriptors k ≡ none → (k ≢ 1) × (k ≢ 2)
  not_output k e = ((λ f. ground (arith, v.is_out)), (λ f. ground (arith, v.is_err)))

  fd_open : p'.descriptors fd ≡ some p.next_file
  fd_open = v.table fd ∙ ground (arith, v.apart)

  out_open : p'.descriptors out ≡ some stdout
  out_open = v.table out ∙ ground (arith, v.apart)

  err_open : p'.descriptors err ≡ some stderr
  err_open = v.table err ∙ ground arith

  -- The process whose outputs are both the file.
  abbrev redirected : Process
  redirected = set_fd 2 (some p.next_file) (set_fd 1 (some p.next_file) p')

  redirected_lem : dup2_both (some fd) (some fd) p' ≡ some redirected
  redirected_lem =
      dup2_both_lem fd fd p.next_file p.next_file p' fd_open
        (update_ne p'.descriptors 1 fd (some p.next_file) (not_output fd v.fd_free).0 ∙ fd_open)

  -- The process when the command has ended, its outputs are flushed and the file is closed.
  module _ (q : Process) (same : (k : ℕ) → q.descriptors k ≡ redirected.descriptors k) where
    abbrev closed : Process
    closed = set_fd fd none q

    kept :
        (k x : ℕ)
        → k ≢ fd
        → (k ≢ 1) × (k ≢ 2)
        → p'.descriptors k ≡ some x
        → closed.descriptors k ≡ some x
    kept k x ne ne' e =
        update_ne q.descriptors fd k none ne
        ∙ same k
        ∙ update_ne (set_fd 1 (some p.next_file) p').descriptors 2 k (some p.next_file) ne'.1
        ∙ update_ne p'.descriptors 1 k (some p.next_file) ne'.0
        ∙ e

    abbrev back : Process
    back = set_fd 2 (some stderr) (set_fd 1 (some stdout) closed)

    back_lem : dup2_both (some out) (some err) closed ≡ some back
    back_lem =
        dup2_both_lem out err stdout stderr closed
          (kept out stdout v.apart.0 (not_output out v.out_free) out_open)
          (update_ne closed.descriptors 1 err (some stdout) (not_output err v.err_free).0
            ∙ kept err stderr v.apart.1 (not_output err v.err_free) err_open)

    -- The descriptors at the end.
    same_table : (k : ℕ) → update (update back.descriptors out none) err none k ≡ p.descriptors k
    same_table k =
        ground (arith, same k, v.table k, v.is_out, v.is_err, v.fd_free, v.out_free, v.err_free)

-- The rest of `part2` once it has opened the file and saved both outputs.
redirected-Restored :
    (writes : List (ℕ × Bytes)) (fd out err stdout stderr : ℕ) (p p' : Process)
    → Saved fd out err stdout stderr p p'
    → All ToOutput writes
    → (p'' : Process) × (part2_redirected writes fd
          (some out)
          (some err)
          p'
          (dup2_both (some fd) (some fd) p')
        ≡ Exit.returned p'')
      × Restored p p'' (output writes)
unfolding close
redirected-Restored writes fd out err stdout stderr p p' v h =
    let start = redirected fd out err stdout stderr p p' v in
    let w = system-Wrote writes p.next_file start refl refl h in
    let f =
      fflush-Wrote p.next_file (system writes start) (ap (λ t. t 1) w.table)
        (w.buffer ∙ v.no_buffer) in
    let q = fflush (system writes start) in
    let same : (k : ℕ) → q.descriptors k ≡ start.descriptors k =
      λ k. ap (λ t. t k) (f.table ∙ w.table) in
    (
      close (some err) (close (some out) (back fd out err stdout stderr p p' v q same)),
      ap (part2_redirected writes fd (some out) (some err) p')
            (redirected_lem fd out err stdout stderr p p' v)
          ∙ ap
              (part2_restored (some out) (some err) (closed fd out err stdout stderr p p' v q same))
              (back_lem fd out err stdout stderr p p' v q same),
      record {
        descriptors = same_table fd out err stdout stderr p p' v q same;
        in_file =
            f.file
            ∙ append-nil ((system writes start).written p.next_file)
            ∙ w.file
            ∙ ap (λ x. x ++ output writes) v.in_file;
        others = λ x ne. f.others x ne ∙ w.others x ne ∙ v.others x ne;
        no_buffer = f.buffer ∙ w.buffer ∙ v.no_buffer;
      },
    )

-- A descriptor that is free once another is taken was free before.
free_before : (t : ℕ → Option ℕ) (i j x : ℕ) → update t i (some x) j ≡ none → (t j ≡ none) × (j ≢ i)
free_before t i j x e = (ground arith, (λ f. ground arith))

-- One that is open stays open when a free one is taken.
open_after :
    (t : ℕ → Option ℕ) (i j x y : ℕ) → t i ≡ none → t j ≡ some y → update t i (some x) j ≡ some y
open_after t i j x y free is_open = ground arith

-- `part2` with the three descriptors that it finds.
part2_found :
    (writes : List (ℕ × Bytes)) (fd out err stdout stderr : ℕ) (p : Process)
    → p.descriptors 1 ≡ some stdout
    → p.descriptors 2 ≡ some stderr
    → p.buffer ≡ []
    → All ToOutput writes
    → lowest p ≡ some fd
    → p.descriptors fd ≡ none
    → lowest (with_file fd p) ≡ some out
    → (with_file fd p).descriptors out ≡ none
    → lowest (set_fd out (some stdout) (with_file fd p)) ≡ some err
    → (set_fd out (some stdout) (with_file fd p)).descriptors err ≡ none
    → (p' : Process) × (part2 writes true p ≡ Exit.returned p') × Restored p p' (output writes)
unfolding part2
part2_found writes fd out err stdout stderr p is_out is_err nothing h found fd_free found' out_free
      found'' err_free =
    let p1 = with_file fd p in
    let p2 = set_fd out (some stdout) p1 in
    let p3 = set_fd err (some stderr) p2 in
    let (out_free', out_fd) = free_before p.descriptors fd out p.next_file out_free in
    let (err_free1, err_out) = free_before p1.descriptors out err stdout err_free in
    let (err_free', err_fd) = free_before p.descriptors fd err p.next_file err_free1 in
    let out1 = open_after p.descriptors fd 1 p.next_file stdout fd_free is_out in
    let err1 = open_after p.descriptors fd 2 p.next_file stderr fd_free is_err in
    let err2 = open_after p1.descriptors out 2 stdout stderr out_free err1 in
    let (p', run, restored) =
      redirected-Restored writes fd out err stdout stderr p p3
        (record {
          is_out = is_out;
          is_err = is_err;
          fd_free = fd_free;
          out_free = out_free';
          err_free = err_free';
          apart = (out_fd, err_fd, err_out);
          table = λ k. refl;
          in_file = update_self p.written p.next_file [];
          others = λ f ne. update_ne p.written p.next_file f [] ne;
          no_buffer = nothing;
        })
        h in
    (
      p',
      ap (part2_from writes p) (open_file_lem fd p found)
          ∙ ap (part2_opened writes fd) (dup_lem 1 stdout out p1 out1 found')
          ∙ ap (part2_saved writes fd (some out)) (dup_lem 2 stderr err p2 err2 found'')
          ∙ run,
      restored,
    )

-- If the file can be written, both outputs are open, the buffer is empty, three descriptors are free,
-- and the command writes to its two outputs only, then `part2` returns, with every descriptor as it
-- was, with all that the command writes, in its order and nothing else, in the new file, with every
-- other file as it was, and with an empty buffer.
pub part2-Restored :
    (writes : List (ℕ × Bytes)) (i j l : ℕ) (p : Process)
    → ReadyBoth i j l p
    → All ToOutput writes
    → (p' : Process) × (part2 writes true p ≡ Exit.returned p') × Restored p p' (output writes)
part2-Restored writes i j l p v h =
    let (fd, found, fd_free, le) =
      lowest_from-some p.limit 0 i p.descriptors (omega arith) (omega (arith, v.ordered))
        v.free.0 in
    let p1 = with_file fd p in
    let (out, found', out_free, le') =
      lowest_from-some p.limit 0 j p1.descriptors (omega arith) (omega (arith, v.ordered))
        (ground (arith, v.ordered, v.free)) in
    let p2 = set_fd out (some v.stdout) p1 in
    let (err, found'', err_free, le'') =
      lowest_from-some p.limit 0 l p2.descriptors (omega arith) (omega (arith, v.ordered))
        (ground (arith, v.ordered, v.free)) in
    part2_found writes fd out err v.stdout v.stderr p v.stdout_open v.stderr_open v.empty_buffer h
      found fd_free found' out_free found'' err_free
