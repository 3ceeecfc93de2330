-- ===== src/Paging/Defs.antt =====
-- Segmentation, Paging, IPC/q3.c: a 16-entry page table behind a four-entry TLB.
-- `x & mask` and `x >> k` on fields of a word are `%` and `/`; a field is put back by `*` and `+`.
use os_in_parts.Prelude.{
  ℕ, zero, suc, ◌+◌, ◌*◌, ◌/◌, ◌%◌, ◌^◌, Bool, true, false, ◌&&◌, Option, none, some, List, [], ◌∷◌,
  get_elem?, set, replicate, ◌==◌, if◌then◌else◌,
}

abbrev pub page_size : ℕ
page_size = 4096

abbrev pub memory_size : ℕ
memory_size = 65536

abbrev pub num_pages : ℕ
num_pages = memory_size / page_size

abbrev pub tlb_size : ℕ
tlb_size = 4

pub record PageTableEntry : Type 0 where
  pub pfn : ℕ  -- uint8_t
  pub valid : Bool
  pub protect_bits : ℕ  -- uint8_t

pub record TlbEntry : Type 0 where
  pub vpn : ℕ  -- uint8_t
  pub pfn : ℕ  -- uint8_t
  pub valid : Bool
  pub protect_bits : ℕ  -- uint8_t

-- The globals.
pub record Mmu : Type 0 where
  pub page_table : List PageTableEntry
  pub tlb : List TlbEntry
  pub next_tlb_entry : ℕ  -- uint8_t
  pub tlb_hits : ℕ  -- uint32_t
  pub tlb_misses : ℕ  -- uint32_t

-- How a run can end early: the three calls of `exit(1)`, and an access outside an array.
pub data Fault : Type 0 where
  protection_fault_tlb segmentation_fault protection_fault_page_table out_of_bounds : Fault

pub data Result {ℓ} (A : Type ℓ) : Type ℓ where
  ok : A → Result A
  fault : Fault → Result A

infixl 5 ◌>>=◌
abbrev pub ◌>>=◌ {ℓ κ} : {A : Type ℓ} {B : Type κ} → Result A → (A → Result B) → Result B
ok a >>= f = f a
fault e >>= f = fault e

-- The static storage of the program, before `main`.
abbrev pub globals : Mmu
globals = record {
  page_table = replicate num_pages (record { pfn = 0; valid = false; protect_bits = 0 });
  tlb = replicate tlb_size (record { vpn = 0; pfn = 0; valid = false; protect_bits = 0 });
  next_tlb_entry = 0;
  tlb_hits = 0;
  tlb_misses = 0;
}

-- The loop of `init_page_table`, with `n` rounds left from index `i`.
unfoldable pub init_page_table_from : (n i : ℕ) → List PageTableEntry → List PageTableEntry
init_page_table_from zero i t = t
init_page_table_from (suc n) i t =
    init_page_table_from n (i + 1)
      (set t i (record { pfn = i % 2 ^ 8; valid = true; protect_bits = 0xFF }))

unfoldable pub init_page_table : Mmu → Mmu
unfolding init_page_table_from
init_page_table m = record m { page_table = init_page_table_from num_pages 0 m.page_table }

-- The loop of `init_tlb`: it goes through the whole array.
unfoldable pub invalidate : List TlbEntry → List TlbEntry
invalidate [] = []
invalidate (e ∷ es) = record e { valid = false } ∷ invalidate es

unfoldable pub init_tlb : Mmu → Mmu
unfolding invalidate
init_tlb m = record m { tlb = invalidate m.tlb }

-- The scan of `check_tlb`: the first valid entry of the page.
unfoldable pub find_entry : ℕ → List TlbEntry → Option TlbEntry
find_entry vpn [] = none
find_entry vpn (e ∷ es) = if e.valid && e.vpn == vpn then some e else find_entry vpn es

-- `some` is a return of `true`, with what goes through the two pointers.
unfoldable pub check_tlb : ℕ → Mmu → Option (ℕ × ℕ) × Mmu
check_tlb vpn m = elim (find_entry vpn m.tlb) [
  | some e ↦ (some (e.pfn, e.protect_bits), record m { tlb_hits = (m.tlb_hits + 1) % 2 ^ 32 })
  | none ↦ (none, record m { tlb_misses = (m.tlb_misses + 1) % 2 ^ 32 })
]

unfoldable pub update_tlb : (vpn pfn protect_bits : ℕ) → Mmu → Mmu
update_tlb vpn pfn protect_bits m = record m {
  tlb =
      set m.tlb m.next_tlb_entry
        (record { vpn = vpn; pfn = pfn; valid = true; protect_bits = protect_bits });
  next_tlb_entry = (m.next_tlb_entry + 1) % tlb_size;
}

abbrev pub vpn_of : ℕ → ℕ
vpn_of logical_addr = logical_addr / 4096 % 16

abbrev pub offset_of : ℕ → ℕ
offset_of logical_addr = logical_addr % 4096

-- `(uint16_t)((pfn << PFN_SHIFT) | offset)`.
abbrev pub physical : ℕ → ℕ → ℕ
physical pfn offset = (pfn * 4096 + offset) % 2 ^ 16

-- What `translate_address` returns and stores through `tlb_hit`.
pub record Translation : Type 0 where
  pub physical_addr : ℕ
  pub tlb_hit : Bool

-- The branch of a TLB miss that finds an entry in the page table.
unfoldable pub load_entry : ℕ → PageTableEntry → Mmu → Result (Translation × Mmu)
unfolding update_tlb
load_entry logical_addr pte m =
    if pte.valid
    then if pte.protect_bits == 0
      then fault protection_fault_page_table
      else ok (
        record { physical_addr = physical pte.pfn (offset_of logical_addr); tlb_hit = false },
        update_tlb (vpn_of logical_addr) pte.pfn pte.protect_bits m,
      )
    else fault segmentation_fault

-- The two branches of `translate_address`, after `check_tlb`.
unfoldable pub translate_checked : ℕ → Option (ℕ × ℕ) × Mmu → Result (Translation × Mmu)
unfolding load_entry
translate_checked logical_addr (some (pfn, protect_bits), m) =
    if protect_bits == 0
    then fault protection_fault_tlb
    else ok (record { physical_addr = physical pfn (offset_of logical_addr); tlb_hit = true }, m)
translate_checked logical_addr (none, m) = elim (get_elem? m.page_table (vpn_of logical_addr)) [
  | none ↦ fault out_of_bounds
  | some pte ↦ load_entry logical_addr pte m
]

unfoldable pub translate_address : ℕ → Mmu → Result (Translation × Mmu)
unfolding check_tlb find_entry translate_checked
translate_address logical_addr m =
    translate_checked logical_addr (check_tlb (vpn_of logical_addr) m)
