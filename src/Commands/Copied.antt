-- ===== src/Commands/Copied.antt =====
-- Hard Disk and File IO/q5/copy.c: what a copy leaves.
use os_in_parts.Prelude.{
  ℕ, zero, suc, ◌+◌, ◌≤◌, ◌<◌, ◌≡◌, ◌≢◌, refl, sym, ap, ◌∙◌, arith, true, false, some, [], ◌∷◌,
  ◌++◌, length, ◌==◌, if◌then◌else◌, update, inl, inr, ℕ_discrete, Option-cases, if_both,
}
use mathlib.Core.List.{append_assoc, append-nil}
use os_in_parts.Prelude.Strings.{Bytes, take, drop, drop-nil}
use os_in_parts.Prelude.Names.{same_name_refl}
use os_in_parts.Commands.Copy.{
  FileSystem, Message, Outcome, buffer_size, opened, copy_loop, copy_file,
}

drop-add : (a b : ℕ) (bytes : Bytes) → drop (a + b) bytes ≡ drop b (drop a bytes)
drop-add zero b bytes = let e : 0 + b ≡ b = omega arith in rw e refl
drop-add (suc a) b [] = let e : suc a + b ≡ suc (a + b) = omega arith in rw e (sym (drop-nil b))
drop-add (suc a) b (c ∷ cs) =
    let e : suc a + b ≡ suc (a + b) = omega arith in rw e (drop-add a b cs)

-- A chunk and what is behind it.
chunk-rest : (n : ℕ) (bytes : Bytes) → take n bytes ++ drop (length (take n bytes)) bytes ≡ bytes
chunk-rest zero bytes = refl
chunk-rest (suc n) [] = refl
chunk-rest (suc n) (c ∷ cs) = ap (λ zs. c ∷ zs) (chunk-rest n cs)

-- A chunk is empty only at the end.
chunk-nil : (n : ℕ) (bytes : Bytes) → length (take (suc n) bytes) ≡ 0 → bytes ≡ []
chunk-nil n [] e = refl
chunk-nil n (c ∷ cs) e = absurd (omega arith)

drop_end : (at : ℕ) (bytes : Bytes) → length bytes ≤ at → drop at bytes ≡ []
drop_end at [] h = drop-nil at
drop_end zero (c ∷ cs) h = absurd (omega arith)
drop_end (suc at) (c ∷ cs) h = drop_end at cs (omega arith)

-- What is left of the file `i` is behind what was in the file `j`, and the other files are the same.
abbrev Moved : ℕ → ℕ → ℕ → FileSystem → FileSystem → Type 0
Moved i j at fs fs' =
    (fs'.contents j ≡ fs.contents j ++ drop at (fs.contents i))
    × ((k : ℕ) → k ≢ j → fs'.contents k ≡ fs.contents k)
    × (fs'.file ≡ fs.file)

copy_loop-Moved :
    (fuel i j at : ℕ) (fs : FileSystem)
    → i ≢ j
    → length (fs.contents i) < at + fuel
    → Moved i j at fs (copy_loop fuel i j at fs)
unfolding copy_loop
copy_loop-Moved zero i j at fs ne enough =
    let ended = drop_end at (fs.contents i) (omega arith) in
    (rw (ended, append-nil) refl, (λ k h. refl), refl)
copy_loop-Moved (suc fuel) i j at fs ne enough =
    if_both (Moved i j at fs) (length chunk == 0) _ _
      (λ last.
        let ended = chunk-nil 1023 (drop at (fs.contents i)) (ground arith) in
        (rw (ended, append-nil) refl, (λ k h. refl), refl))
      (λ more.
        let own : next.contents j ≡ fs.contents j ++ chunk = ground arith in
        let source : next.contents i ≡ fs.contents i = ground (arith, ne) in
        let moved : next.contents j ++ drop (at + length chunk) (next.contents i)
            ≡ fs.contents j ++ drop at (fs.contents i) =
          rw (own, source, drop-add at (length chunk) (fs.contents i), append_assoc)
            (ap (λ x. fs.contents j ++ x) (chunk-rest buffer_size (drop at (fs.contents i)))) in
        let (here, others, same) =
          copy_loop-Moved fuel i j (at + length chunk) next ne (ground arith) in
        (here ∙ moved, (λ k h. others k h ∙ ground arith), same))
  where
    chunk : Bytes
    chunk = take buffer_size (drop at (fs.contents i))

    next : FileSystem
    next = record fs { contents = update fs.contents j (fs.contents j ++ chunk) }

copy_loop_empty :
    (fuel i j : ℕ) (fs : FileSystem) → fs.contents i ≡ [] → copy_loop fuel i j 0 fs ≡ fs
unfolding copy_loop
copy_loop_empty zero i j fs e = refl
copy_loop_empty (suc fuel) i j fs e =
    let nothing : (length (take buffer_size (fs.contents i)) == 0) ≡ true = rw e refl in
    rw nothing refl

-- Opening a file for writing empties it, and leaves the other files alone.
opened-empty :
    (fs : FileSystem) (path : Bytes)
    → let (j, fs') = opened fs path (fs.file path) in
      (fs'.file path ≡ some j)
      × (fs'.contents j ≡ [])
      × ((k : ℕ) → k ≢ j → fs'.contents k ≡ fs.contents k)
opened-empty fs path = elim (Option-cases (fs.file path)) [
  | inl none_yet ↦
      rw none_yet (ground (arith, same_name_refl path), ground arith, λ k h. ground arith)
  | inr (j, there) ↦ rw there (there, ground arith, λ k h. ground arith)
]

-- If the source names the file `i`, is no directory and can be read, and the destination is no
-- directory and can be written, then `copy_file` reports the copy, the destination names a file afterwards, that file
-- has what `i` had, or is empty if it is `i` itself, and every other file is what it was.
pub copy_file_lem :
    (fs : FileSystem) (src dest : Bytes) (i : ℕ)
    → fs.is_dir src ≡ false
    → fs.file src ≡ some i
    → fs.can_read src ≡ true
    → fs.is_dir dest ≡ false
    → fs.can_write dest ≡ true
    → (j : ℕ) × (fs' : FileSystem) × (copy_file fs src dest
        ≡ Outcome.done (Message.copied dest) fs')
      × (fs'.file dest ≡ some j)
      × (fs'.contents j ≡ (if i == j then [] else fs.contents i))
      × ((k : ℕ) → k ≢ j → fs'.contents k ≡ fs.contents k)
unfolding copy_file
copy_file_lem fs src dest i plain named readable plain' writable =
    let (j, fs1) = opened fs dest (fs.file dest) in
    let (named1, empty, others) = opened-empty fs dest in
    let fs' = copy_loop (length (fs1.contents i) + 1) i j 0 fs1 in
    let run : copy_file fs src dest ≡ Outcome.done (Message.copied dest) fs' =
      ground (arith, plain, named, readable, plain', writable) in
    elim (ℕ_discrete i j) [
      | yes same ↦
          let left : fs' ≡ fs1 =
            copy_loop_empty (length (fs1.contents i) + 1) i j fs1 (ap fs1.contents same ∙ empty) in
          (
            j,
            fs',
            run,
            ap (λ x. x.file dest) left ∙ named1,
            ap (λ x. x.contents j) left ∙ empty ∙ ground (arith, same),
            λ k h. ap (λ x. x.contents k) left ∙ others k h,
          )
      | no ne ↦
          let (here, rest, same) =
            copy_loop-Moved (length (fs1.contents i) + 1) i j 0 fs1 ne (omega arith) in
          (
            j,
            fs',
            run,
            ap (λ f. f dest) same ∙ named1,
            here ∙ ap (λ x. x ++ fs1.contents i) empty ∙ others i ne ∙ ground (arith, ne),
            λ k h. rest k h ∙ others k h,
          )
    ]
