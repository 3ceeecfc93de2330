-- ===== src/Paging/Examples.antt =====
-- Segmentation, Paging, IPC/q3.c: the first translations of a run.
use os_in_parts.Prelude.{◌≡◌, refl, false, List, [], ◌∷◌, map, arith}
use os_in_parts.Paging.Defs.{
  Mmu, ok, Translation, translate_address, update_tlb, init_tlb, init_page_table,
}
use os_in_parts.Paging.Walk.{walk, address, IsCoherent, translate_address-walk}
use os_in_parts.Paging.Coherence.{translate_address-IsCoherent}
use os_in_parts.Paging.Run.{Input, Line, Session, start, main}
use os_in_parts.Paging.Identity.{addresses, start-IsCoherent, main_identity}

-- What the translation of 0x1004 makes of the start.
abbrev first : Translation × Mmu
first = (
  record { physical_addr = 0x1004; tlb_hit = false },
  update_tlb 1 1 0xFF (record start.mmu { tlb_misses = 1 }),
)

first_translation : translate_address 0x1004 start.mmu ≡ ok first
unfolding translate_address init_tlb init_page_table
first_translation = refl

translate_address-walk_example :
    address (translate_address 0x1004 start.mmu) ≡ walk 0x1004 start.mmu.page_table
translate_address-walk_example = translate_address-walk 0x1004 start.mmu start-IsCoherent

translate_address-IsCoherent_example :
    IsCoherent first.1 × (first.1.page_table ≡ start.mmu.page_table)
translate_address-IsCoherent_example =
    translate_address-IsCoherent 0x1004 start.mmu first start-IsCoherent first_translation

-- A page, the same page again, another page, and `q`.
abbrev inputs : List Input
inputs = Input.hex 0x1004 ∷ Input.hex 0x1FFF ∷ Input.hex 0x2000 ∷ Input.quit ∷ []

main_identity_example :
    (lines : List Line) × (s : Session) × (main inputs ≡ ok (lines, s))
    × (map (λ l. l.logical) lines ≡ addresses inputs)
    × (map (λ l. l.physical) lines ≡ addresses inputs)
main_identity_example = main_identity inputs (omega arith)
