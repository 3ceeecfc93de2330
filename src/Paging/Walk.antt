-- ===== src/Paging/Walk.antt =====
-- Segmentation, Paging, IPC/q3.c: the TLB against the page table alone.
use os_in_parts.Prelude.{
  ℕ, ◌<◌, ◌≡◌, ◌≢◌, true, ◌&&◌, none, some, List, [], ◌∷◌, arith, length, get_elem?, All,
  Option-cases, inl, inr, ◌==◌, if◌then◌else◌, Bool-cases,
}
use os_in_parts.Paging.Defs.{
  PageTableEntry, TlbEntry, Mmu, segmentation_fault, protection_fault_page_table, out_of_bounds,
  Result, ok, fault, ◌>>=◌, find_entry, vpn_of, offset_of, physical, Translation, translate_address,
  tlb_size, num_pages,
}

-- A translation by the page table alone, with no TLB.
unfoldable pub walk : ℕ → List PageTableEntry → Result ℕ
walk logical_addr t = elim (get_elem? t (vpn_of logical_addr)) [
  | none ↦ fault out_of_bounds
  | some pte ↦
      if pte.valid
      then if pte.protect_bits == 0
        then fault protection_fault_page_table
        else ok (physical pte.pfn (offset_of logical_addr))
      else fault segmentation_fault
]

-- The address that a translation gives.
abbrev pub address : Result (Translation × Mmu) → Result ℕ
address r = r >>= λ (t, m). ok t.physical_addr

-- A valid TLB entry is a copy of a page table entry that allows access.
abbrev pub Copies : List PageTableEntry → TlbEntry → Type 0
Copies t e =
    e.valid ≡ true
    → (get_elem? t e.vpn
        ≡ some (record { pfn = e.pfn; valid = true; protect_bits = e.protect_bits }))
      × (e.protect_bits ≢ 0)

pub record IsCoherent (m : Mmu) : Type 0 where
  pub pages : length m.page_table ≡ num_pages
  pub entries : length m.tlb ≡ tlb_size
  pub next_in : m.next_tlb_entry < tlb_size
  pub copies : All (Copies m.page_table) m.tlb

abbrev pub entry_of : TlbEntry → PageTableEntry
entry_of e = record { pfn = e.pfn; valid = true; protect_bits = e.protect_bits }

-- What the scan finds is a copy of the page's entry.
pub find_entry_lem :
    (t : List PageTableEntry) (vpn : ℕ) (es : List TlbEntry) (e : TlbEntry)
    → find_entry vpn es ≡ some e
    → All (Copies t) es
    → (get_elem? t vpn ≡ some (entry_of e)) × (e.protect_bits ≢ 0)
unfolding find_entry
find_entry_lem t vpn [] e h c = absurd (cc)
find_entry_lem t vpn (x ∷ es) e h c = elim (Bool-cases (x.valid && x.vpn == vpn)) [
  | inl found ↦ ground (arith, c.0)
  | inr other ↦ find_entry_lem t vpn es e (rw (other, if◌then◌else◌) at h) c.1
]

-- With a coherent TLB, the translation of an address gives what the page table alone gives.
pub translate_address-walk :
    (logical_addr : ℕ) (m : Mmu)
    → IsCoherent m
    → address (translate_address logical_addr m) ≡ walk logical_addr m.page_table
unfolding walk translate_address
translate_address-walk logical_addr m c =
    elim (Option-cases (find_entry (vpn_of logical_addr) m.tlb)) [
      | inl miss ↦ ground arith
      | inr (e, hit) ↦
          ground (arith, find_entry_lem m.page_table (vpn_of logical_addr) m.tlb e hit c.copies)
    ]
