-- ===== src/Segmentation/Examples.antt =====
-- Segmentation, Paging, IPC/q2.c: concrete addresses.
use os_in_parts.Prelude.{ℕ, ◌+◌, ◌-◌, ◌≤◌, ◌≡◌, ◌↔◌, refl, arith}
use os_in_parts.Segmentation.Defs.{
  heap, stack, physical, segmentation_fault, segment_of, offset_of, stack_segment,
  translate_address,
}
use os_in_parts.Segmentation.Bounds.{
  translate_stack_above, translate_stack_fault, translate_address_injective,
}

heap_address : translate_address 0x4010 ≡ physical heap 34832
unfolding translate_address
heap_address = refl

translate_stack_above_example : (translate_address 0x9800 ≡ physical stack 30720) ↔ (
    (segment_of 0x9800 ≡ 2)
    × (4096 ≤ offset_of 0x9800)
    × (offset_of 0x9800 ≤ 4096 + stack_segment.size)
    × (30720 ≡ stack_segment.base + (offset_of 0x9800 - 4096)))
translate_stack_above_example = translate_stack_above 0x9800 30720

translate_stack_fault_example : translate_address 0x8C00 ≡ segmentation_fault stack
translate_stack_fault_example = translate_stack_fault 0x8C00 refl (omega arith, omega arith)

translate_address_injective_example : ◌≡◌ {A = ℕ} 0x4010 0x4010
translate_address_injective_example =
    translate_address_injective 0x4010 0x4010 34832 heap heap (omega arith) (omega arith)
      heap_address heap_address
