-- ===== src/Stations/Lines.antt =====
-- Hard Disk and File IO/q1.c: both ways of reading give the lines of the file.
use os_in_parts.Prelude.{
  ℕ, zero, suc, ◌+◌, ◌≤◌, ◌<◌, ◌≡◌, refl, arith, List, [], ◌∷◌, length, ◌==◌, if◌then◌else◌, ◌⊎◌,
  inl, inr, Bool-cases,
}
use os_in_parts.Prelude.Strings.{onto_first, Bytes, c_string}
use os_in_parts.Stations.Defs.{max_line}
use os_in_parts.Stations.Files.{next_line, fgets, cut_newline}

-- The lines of a file, without their newlines.
unfoldable pub lines_of : Bytes → List Bytes
lines_of [] = []
lines_of (c ∷ cs) = let rest = lines_of cs in if c == b'\n' then [] ∷ rest else onto_first c rest

abbrev pub IsShort : Bytes → Type 0
IsShort line = length line ≤ max_line

pub lines_of-next_line :
    (c : ℕ) (cs : Bytes)
    → lines_of (c ∷ cs) ≡ (next_line (c ∷ cs)).0 ∷ lines_of (next_line (c ∷ cs)).1
unfolding lines_of next_line
lines_of-next_line c [] = ground arith
lines_of-next_line c (x ∷ xs) = ground (arith, lines_of-next_line x xs)

pub next_line-shorter : (c : ℕ) (cs : Bytes) → length (next_line (c ∷ cs)).1 ≤ length cs
unfolding next_line
next_line-shorter c [] = ground arith
next_line-shorter c (x ∷ xs) = ground (arith, next_line-shorter x xs)

pub next_line-fits :
    (bytes : Bytes) → length (next_line bytes).0 + length (next_line bytes).1 ≤ length bytes
unfolding next_line
next_line-fits [] = omega arith
next_line-fits (c ∷ cs) = ground (arith, next_line-fits cs)

-- `fgets` finds a line that is shorter than what it may read, and all but the newline of one that is
-- as long.
pub fgets_short :
    (n : ℕ) (bytes : Bytes)
    → length (next_line bytes).0 < n
    → (cut_newline (fgets n bytes).0 ≡ c_string (next_line bytes).0)
      × ((fgets n bytes).1 ≡ (next_line bytes).1)
unfolding next_line fgets cut_newline c_string
fgets_short zero bytes h = absurd (omega arith)
fgets_short (suc n) [] h = (refl, refl)
fgets_short (suc n) (c ∷ cs) h = elim (Bool-cases (c == b'\n')) [
  | inl e ↦ ground arith
  | inr e ↦ ground (arith, fgets_short n cs (ground arith))
]

pub fgets_full :
    (n : ℕ) (bytes : Bytes)
    → length (next_line bytes).0 ≡ n
    → (cut_newline (fgets n bytes).0 ≡ c_string (next_line bytes).0)
      × (((fgets n bytes).1 ≡ b'\n' ∷ (next_line bytes).1)
          ⊎ (((fgets n bytes).1 ≡ []) × ((next_line bytes).1 ≡ [])))
unfolding next_line fgets cut_newline c_string
fgets_full zero [] h = (refl, inr (refl, refl))
fgets_full zero (c ∷ cs) h = elim (Bool-cases (c == b'\n')) [
  | inl e ↦ ground arith
  | inr e ↦ absurd (ground arith)
]
fgets_full (suc n) [] h = absurd (omega arith)
fgets_full (suc n) (c ∷ cs) h = elim (Bool-cases (c == b'\n')) [
  | inl e ↦ absurd (ground arith)
  | inr e ↦ ground (arith, fgets_full n cs (ground arith))
]
