-- ===== src/Student/Records.antt =====
-- Hard Disk and File IO/q3.c: the records that are written are read back.
use os_in_parts.Prelude.{
  ℕ, zero, suc, ◌+◌, ◌-◌, ◌*◌, ◌≤◌, ◌<◌, ◌≡◌, refl, sym, ap, ◌∙◌, arith, true, Option, none, some,
  List, [], ◌∷◌, ◌++◌, length, length-append, length-replicate, replicate, get_elem?, All,
  All-get_elem?, Option-cases, inl, inr,
}
use os_in_parts.Prelude.Int.{pos}
use os_in_parts.Prelude.Strings.{
  Bytes, take, drop, take-append, drop-append, drop-nil, c_string-append,
}
use os_in_parts.Student.Defs.{
  Student, name_size, record_size, entry, file_of, Outcome, has_nul, read_record, print_name,
  read_student, student_main,
}

-- A name that fits with its NUL.
abbrev pub Fits : Student → Type 0
Fits student = (length student.name < name_size) × All (λ c. 0 < c) student.name

entry-length : (student : Student) → Fits student → length (entry student) ≡ record_size
unfolding entry
entry-length student fits = omega (
  arith,
  length-append student.name (replicate (name_size - length student.name) 0),
  length-replicate {A = ℕ} (name_size - length student.name) 0,
  fits.0,
)

-- What stands at the place of a record.
abbrev record_of : Option Student → Bytes
record_of none = []
record_of (some student) = entry student

read_record-file_of :
    (students : List Student) (k : ℕ)
    → All Fits students
    → read_record (k * record_size) (file_of students) ≡ record_of (get_elem? students k)
unfolding file_of
read_record-file_of [] k fits = rw (drop-nil (k * record_size)) refl
read_record-file_of (student ∷ students) zero fits =
    let size = entry-length student fits.0 in
    ap (λ n. take n (entry student ++ file_of students)) (sym size)
    ∙ take-append (entry student) (file_of students)
read_record-file_of (student ∷ students) (suc k) fits =
    let size = entry-length student fits.0 in
    let next : suc k * record_size ≡ length (entry student) + k * record_size = omega arith in
    rw (next, drop-append (entry student) (file_of students) (k * record_size))
      (read_record-file_of students k fits.1)

has_nul-append : (s rest : Bytes) → has_nul (s ++ 0 ∷ rest) ≡ true
unfolding has_nul
has_nul-append [] rest = refl
has_nul-append (c ∷ cs) rest = ground (arith, has_nul-append cs rest)

print_name-entry :
    (student : Student)
    → Fits student
    → print_name (drop 4 (entry student)) ≡ Outcome.printed student.name
unfolding entry
print_name-entry student fits =
    let pad : name_size - length student.name ≡ suc (19 - length student.name) =
      omega (arith, fits.0) in
    rw pad (
      ground (
        arith,
        has_nul-append student.name (replicate (19 - length student.name) 0),
        c_string-append student.name (replicate (19 - length student.name) 0) fits.1,
      ))

-- What `main` should print for the record that it looks for.
abbrev pub outcome_of : Option Student → Outcome
outcome_of none = Outcome.read_error
outcome_of (some student) = Outcome.printed student.name

-- If the names of some students have at most 19 bytes and no NUL, then for a number from 1 to 5 and
-- the file of their records, `main` prints the name of the student with that place, or reports an error
-- of reading if the file has fewer records.
pub student_main-file_of :
    (students : List Student) (id : ℕ)
    → All Fits students
    → 1 ≤ id
    → id ≤ 5
    → student_main (pos id) (some (file_of students)) ≡ outcome_of (get_elem? students (id - 1))
unfolding student_main read_student
student_main-file_of students id fits low high = elim (Option-cases (get_elem? students (id - 1))) [
  | inl missing ↦ ground (arith, missing, read_record-file_of students (id - 1) fits)
  | inr (student, there) ↦
      let fit = All-get_elem? Fits students (id - 1) student fits there in
      ground (
        arith,
        there,
        read_record-file_of students (id - 1) fits,
        entry-length student fit,
        print_name-entry student fit,
      )
]
