-- ===== src/Segmentation/Bounds.antt =====
-- Segmentation, Paging, IPC/q2.c: which addresses are translated, and to what.
use os_in_parts.Prelude.{ℕ, ◌+◌, ◌-◌, ◌^◌, ◌≤◌, ◌<◌, ◌≡◌, ◌↔◌, ◌≢◌, refl, arith}
use os_in_parts.Segmentation.Defs.{
  Segment, code_segment, heap_segment, stack_segment, Name, code, heap, stack, physical,
  segmentation_fault, segment_of, offset_of, translate_address,
}

-- The address that the README promises for the stack: its base less the distance of the offset
-- from the largest size of a segment, 4096, while that distance is at most the size of the stack.
abbrev pub InStack : ℕ → Type 0
InStack offset = (4096 ≤ offset + stack_segment.size) × (offset < 4096)

abbrev pub number_of : Name → ℕ
number_of code = 0
number_of heap = 1
number_of stack = 2

abbrev pub segment_named : Name → Segment
segment_named code = code_segment
segment_named heap = heap_segment
segment_named stack = stack_segment

-- A code or heap address is translated exactly if its offset is below the size of its segment, and
-- then to the address that is the offset past the base.
pub translate_address_within :
    (s : Name) (a p : ℕ)
    → s ≢ stack
    → (translate_address a ≡ physical s p) ↔ (
        (segment_of a ≡ number_of s)
        × (offset_of a < (segment_named s).size)
        × (p ≡ (segment_named s).base + offset_of a))
unfolding translate_address
translate_address_within code a p ne = (λ h. ground arith, λ h. ground arith)
translate_address_within heap a p ne = (λ h. ground arith, λ h. ground arith)
translate_address_within stack a p ne = absurd (ne refl)

-- A stack address is translated exactly if its offset is 4096 to 6144, and then to an address at
-- or above the base of the stack, the first address past the segment included.
pub translate_stack_above :
    (a p : ℕ)
    → (translate_address a ≡ physical stack p) ↔ (
        (segment_of a ≡ 2)
        × (4096 ≤ offset_of a)
        × (offset_of a ≤ 4096 + stack_segment.size)
        × (p ≡ stack_segment.base + (offset_of a - 4096)))
unfolding translate_address
translate_stack_above a p = (λ h. ground arith, λ h. ground arith)

-- Every stack address that the README describes, with an offset of 2048 to 4095, ends in a
-- segmentation fault.
pub translate_stack_fault :
    (a : ℕ)
    → segment_of a ≡ 2
    → InStack (offset_of a)
    → translate_address a ≡ segmentation_fault stack
unfolding translate_address
translate_stack_fault a s h = ground arith

-- No two 16-bit addresses are translated to the same physical address, whatever their segments.
pub translate_address_injective :
    (a b p : ℕ) (s t : Name)
    → a < 2 ^ 16
    → b < 2 ^ 16
    → translate_address a ≡ physical s p
    → translate_address b ≡ physical t p
    → a ≡ b
unfolding translate_address
translate_address_injective a b p s t ha hb ea eb = ground arith
