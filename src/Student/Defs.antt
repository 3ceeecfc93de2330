-- ===== src/Student/Defs.antt =====
-- Hard Disk and File IO/q3.c: the name of a student, read from a file of records.
-- `main` prints what is modelled as its outcome. `lseek` does not fail for a file, also past its end.
use os_in_parts.Prelude.{
  ℕ, ◌-◌, ◌*◌, ◌/◌, ◌%◌, Bool, true, false, ◌||◌, Option, none, some, List, [], ◌∷◌, ◌++◌, length,
  replicate, ltb, ◌==◌, if◌then◌else◌,
}
use os_in_parts.Prelude.Int.{ℤ, pos, negsuc}
use os_in_parts.Prelude.Strings.{Bytes, c_string, take, drop}

pub record Student : Type 0 where
  pub id : ℕ
  pub name : Bytes

abbrev pub name_size : ℕ
name_size = 20

-- `RECORD_SIZE`: four bytes for the `int`, and the name.
abbrev pub record_size : ℕ
record_size = 24

-- A record in the file: the number with its lowest byte first, and the name with NULs behind it.
abbrev pub int_bytes : ℕ → Bytes
int_bytes n = n % 256 ∷ n / 256 % 256 ∷ n / 65536 % 256 ∷ n / 16777216 % 256 ∷ []

unfoldable pub entry : Student → Bytes
entry student =
    int_bytes student.id ++ (student.name ++ replicate (name_size - length student.name) 0)

unfoldable pub file_of : List Student → Bytes
file_of [] = []
file_of (student ∷ students) = entry student ++ file_of students

-- The messages, the name that is printed, and the print of a name that has no end.
pub data Outcome : Type 0 where
  invalid_id : Outcome
  open_error : Outcome
  read_error : Outcome
  printed : Bytes → Outcome
  fault : Outcome

unfoldable pub has_nul : Bytes → Bool
has_nul [] = false
has_nul (c ∷ cs) = if c == 0 then true else has_nul cs

-- What `read` gives of the record at `offset`.
abbrev pub read_record : ℕ → Bytes → Bytes
read_record offset bytes = take record_size (drop offset bytes)

abbrev pub print_name : Bytes → Outcome
print_name name = if has_nul name then Outcome.printed (c_string name) else Outcome.fault

-- The rest of `main` once the number is valid; the argument is none if the file cannot be opened.
unfoldable pub read_student : ℕ → Option Bytes → Outcome
read_student student_id none = Outcome.open_error
read_student student_id (some bytes) =
    let student = read_record ((student_id - 1) * record_size) bytes in
    if length student == record_size then print_name (drop 4 student) else Outcome.read_error

unfoldable pub student_main : ℤ → Option Bytes → Outcome
unfolding read_student
student_main (negsuc n) file = Outcome.invalid_id
student_main (pos id) file =
    if ltb id 1 || ltb 5 id then Outcome.invalid_id else read_student id file
