-- ===== src/Segmentation/Defs.antt =====
-- Segmentation, Paging, IPC/q2.c: translation of 16-bit addresses by three segments.
-- An `unsigned int` is a number below 2 ^ 32; masks and shifts are `%` and `/`.
use os_in_parts.Prelude.{ℕ, ◌+◌, ◌-◌, ◌/◌, ◌%◌, ◌^◌, List, [], ◌∷◌, ltb, leb, ◌==◌, if◌then◌else◌}

pub record Segment : Type 0 where
  pub base : ℕ
  pub size : ℕ

abbrev pub code_segment : Segment
code_segment = record { base = 32768; size = 2048 }

abbrev pub heap_segment : Segment
heap_segment = record { base = 34816; size = 3072 }

abbrev pub stack_segment : Segment
stack_segment = record { base = 28672; size = 2048 }

-- Which of the four branches was taken.
pub data Name : Type 0 where
  code heap stack : Name

-- What `translateAddress` prints after the segment number.
pub data Outcome : Type 0 where
  physical : Name → ℕ → Outcome
  segmentation_fault : Name → Outcome
  invalid_segment : Outcome

abbrev pub segment_of : ℕ → ℕ
segment_of address = address / 2 ^ 14 % 4

abbrev pub offset_of : ℕ → ℕ
offset_of address = address % 2 ^ 14

-- `int negativeOffset = offset - 4096`, as the unsigned number to which each of its uses converts
-- it back.
abbrev pub negative_offset : ℕ → ℕ
negative_offset offset = (offset + 2 ^ 32 - 4096) % 2 ^ 32

unfoldable pub translate_code : ℕ → Outcome
translate_code offset =
    if ltb offset code_segment.size
    then physical code ((code_segment.base + offset) % 2 ^ 32)
    else segmentation_fault code

unfoldable pub translate_heap : ℕ → Outcome
translate_heap offset =
    if ltb offset heap_segment.size
    then physical heap ((heap_segment.base + offset) % 2 ^ 32)
    else segmentation_fault heap

unfoldable pub translate_stack : ℕ → Outcome
translate_stack offset =
    if leb (negative_offset offset) stack_segment.size
    then physical stack ((stack_segment.base + negative_offset offset) % 2 ^ 32)
    else segmentation_fault stack

-- The argument is what `strtol` makes of the text, as an `unsigned int`.
unfoldable pub translate_address : ℕ → Outcome
unfolding translate_code translate_heap translate_stack
translate_address address =
    if segment_of address == 0
    then translate_code (offset_of address)
    else if segment_of address == 1
    then translate_heap (offset_of address)
    else if segment_of address == 2
    then translate_stack (offset_of address)
    else invalid_segment

-- One input that `scanf` reads: a word that starts with `q` or `Q`, or one for `strtol`.
pub data Input : Type 0 where
  quit : Input
  hex : ℕ → Input

-- The loop of `main`: the segment number and the outcome for each address.
unfoldable pub main : List Input → List (ℕ × Outcome)
unfolding translate_address
main [] = []
main (Input.quit ∷ inputs) = []
main (Input.hex number ∷ inputs) =
    (segment_of (number % 2 ^ 32), translate_address (number % 2 ^ 32)) ∷ main inputs
