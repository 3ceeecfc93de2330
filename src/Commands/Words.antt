-- ===== src/Commands/Words.antt =====
-- Hard Disk and File IO/q5/countw.c: the words of a file.
-- `c` is a `char`, which is signed, so the byte 255 is taken for `EOF`. A byte from 128 on is a negative
-- argument of `isspace`, for which the C library answers that it is no space.
use os_in_parts.Prelude.{
  ℕ, ◌+◌, ◌≤◌, ◌≡◌, refl, arith, Bool, true, false, not, ◌&&◌, ◌||◌, List, [], ◌∷◌, length, leb,
  ◌==◌, if◌then◌else◌, Bool-cases, inl, inr,
}
use os_in_parts.Prelude.Strings.{Bytes, onto_first}

abbrev pub isspace : ℕ → Bool
isspace c = c == b' ' || (leb 9 c && leb c 13)

abbrev pub eof : ℕ
eof = 255

-- The loop of `count_words` with its variables.
unfoldable pub count_from : ℕ → Bool → Bytes → ℕ
count_from count in_word [] = count
count_from count in_word (c ∷ cs) =
    let rest =
      count_from (if not (isspace c) && not in_word then count + 1 else count) (not (isspace c))
        cs in
    if c == eof then count else rest

unfoldable pub count_words : Bytes → ℕ
unfolding count_from
count_words bytes = count_from 0 false bytes

-- What the loop sees of a file.
unfoldable pub before_eof : Bytes → Bytes
before_eof [] = []
before_eof (c ∷ cs) = if c == eof then [] else c ∷ before_eof cs

abbrev pub begins_word : Bytes → Bool
begins_word [] = false
begins_word (c ∷ cs) = not (isspace c)

-- The longest stretches without a space.
unfoldable pub words : Bytes → List Bytes
words [] = []
words (c ∷ cs) =
    let rest = words cs in
    if isspace c then rest else (if begins_word cs then onto_first c rest else (c ∷ []) ∷ rest)

-- A stretch that begins is the first one.
begins_word-words : (bytes : Bytes) → begins_word bytes ≡ true → 1 ≤ length (words bytes)
unfolding words
begins_word-words [] e = absurd (cc)
begins_word-words (c ∷ []) e = ground (arith, e)
begins_word-words (c ∷ d ∷ cs) e = ground (arith, e, begins_word-words (d ∷ cs))

length-onto_first : (c : ℕ) (ws : List Bytes) → 1 ≤ length ws → length (onto_first c ws) ≡ length ws
length-onto_first c [] h = absurd (omega arith)
length-onto_first c (w ∷ ws) h = refl

-- Within a word the stretch that begins is already counted.
abbrev counted : Bool → Bytes → ℕ
counted in_word bytes = if in_word && begins_word bytes then 1 else 0

length-words :
    (c : ℕ) (cs : Bytes)
    → length (words (c ∷ cs)) + (if isspace c then 0 else counted true cs)
      ≡ length (words cs) + (if isspace c then 0 else 1)
unfolding words
length-words c cs = elim (Bool-cases (begins_word cs)) [
  | inl e ↦ ground (arith, e, begins_word-words cs e, length-onto_first c (words cs))
  | inr e ↦ ground (arith, e)
]

count_from_lem :
    (bytes : Bytes) (count : ℕ) (in_word : Bool)
    → count_from count in_word bytes + counted in_word (before_eof bytes)
      ≡ count + length (words (before_eof bytes))
unfolding count_from before_eof
count_from_lem [] count in_word = unfold words in ground arith
count_from_lem (c ∷ cs) count in_word = elim (Bool-cases (c == eof)) [
  | inl e ↦ unfold words in ground (arith, e)
  | inr e ↦ ground (
    arith,
    e,
    length-words c (before_eof cs),
    count_from_lem cs (if not (isspace c) && not in_word then count + 1 else count)
        (not (isspace c)),
  )
]

-- `count_words` gives the number of the longest stretches without a space in a file, up to the first
-- byte 255 if it has one.
pub count_words-words : (bytes : Bytes) → count_words bytes ≡ length (words (before_eof bytes))
unfolding count_words
count_words-words bytes = omega (arith, count_from_lem bytes 0 false)
