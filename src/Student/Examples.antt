-- ===== src/Student/Examples.antt =====
-- Hard Disk and File IO/q3.c: a file of two records.
use os_in_parts.Prelude.{◌-◌, ◌≡◌, refl, arith, some, List, [], ◌∷◌, get_elem?}
use os_in_parts.Prelude.Int.{pos, negsuc}
use os_in_parts.Prelude.Strings.{c_string}
use os_in_parts.Student.Defs.{Student, Outcome, entry, file_of, has_nul, read_student, student_main}
use os_in_parts.Student.Records.{outcome_of, student_main-file_of}

abbrev students : List Student
students =
    record { id = 1; name = b'A' ∷ b'n' ∷ b'n' ∷ [] }
    ∷ record { id = 2; name = b'B' ∷ b'o' ∷ [] }
    ∷ []

second : student_main (pos 2) (some (file_of students)) ≡ Outcome.printed (b'B' ∷ b'o' ∷ [])
unfolding student_main read_student file_of entry has_nul c_string
second = refl

invalid : student_main (negsuc 0) (some (file_of students)) ≡ Outcome.invalid_id
unfolding student_main
invalid = refl

student_main-file_of_example :
    student_main (pos 3) (some (file_of students)) ≡ outcome_of (get_elem? students (3 - 1))
student_main-file_of_example =
    student_main-file_of students 3
      (
        (omega arith, (omega arith, (omega arith, (omega arith, tt)))),
        ((omega arith, (omega arith, (omega arith, tt))), tt),
      )
      (omega arith) (omega arith)
