-- ===== src/Paging/Coherence.antt =====
-- Segmentation, Paging, IPC/q3.c: what a translation does to the TLB.
use os_in_parts.Prelude.{
  ℕ, zero, suc, ◌+◌, ◌%◌, ◌^◌, ◌<◌, ◌≡◌, ◌≢◌, refl, true, false, ◌&&◌, none, some, List, [], ◌∷◌,
  arith, length, get_elem?, set, All-set, length-set, Option-cases, inl, inr, ◌==◌, if◌then◌else◌,
  Bool-cases,
}
use os_in_parts.Paging.Defs.{
  PageTableEntry, TlbEntry, Mmu, ok, find_entry, update_tlb, vpn_of, offset_of, physical,
  Translation, translate_address,
}
use os_in_parts.Paging.Walk.{Copies, IsCoherent, find_entry_lem}

-- A new entry, copied from the page table, keeps the TLB coherent.
update_tlb-IsCoherent :
    (vpn : ℕ) (pte : PageTableEntry) (m : Mmu)
    → IsCoherent m
    → get_elem? m.page_table vpn ≡ some pte
    → pte.valid ≡ true
    → pte.protect_bits ≢ 0
    → IsCoherent (update_tlb vpn pte.pfn pte.protect_bits m)
unfolding update_tlb
update_tlb-IsCoherent vpn pte m c e v p = record {
  pages = c.pages;
  entries = omega (arith, length-set m.tlb m.next_tlb_entry new, c.entries);
  next_in = omega arith;
  copies = All-set (Copies m.page_table) m.tlb m.next_tlb_entry new c.copies λ _. (ground arith, p);
}
  where
    new : TlbEntry
    new = record { vpn = vpn; pfn = pte.pfn; valid = true; protect_bits = pte.protect_bits }

-- A translation that succeeds is a hit, which changes the counter alone, or a miss, which
-- copies a page table entry that allows access.
pub data Succeeds (logical_addr : ℕ) (m : Mmu) (r : Translation × Mmu) : Type 0 where
  hit :
      (e : TlbEntry)
      → find_entry (vpn_of logical_addr) m.tlb ≡ some e
      → r ≡ (
        record { physical_addr = physical e.pfn (offset_of logical_addr); tlb_hit = true },
        record m { tlb_hits = (m.tlb_hits + 1) % 2 ^ 32 },
      )
      → Succeeds logical_addr m r
  miss :
      (pte : PageTableEntry)
      → find_entry (vpn_of logical_addr) m.tlb ≡ none
      → get_elem? m.page_table (vpn_of logical_addr) ≡ some pte
      → pte.valid ≡ true
      → pte.protect_bits ≢ 0
      → r ≡ (
        record { physical_addr = physical pte.pfn (offset_of logical_addr); tlb_hit = false },
        update_tlb
            (vpn_of logical_addr)
            pte.pfn
            pte.protect_bits
            (record m { tlb_misses = (m.tlb_misses + 1) % 2 ^ 32 }),
      )
      → Succeeds logical_addr m r

pub translate_address-Succeeds :
    (logical_addr : ℕ) (m : Mmu) (r : Translation × Mmu)
    → translate_address logical_addr m ≡ ok r
    → Succeeds logical_addr m r
unfolding translate_address
translate_address-Succeeds a m r h = elim (Option-cases (find_entry (vpn_of a) m.tlb)) [
  | inr (e, found) ↦ Succeeds.hit e found (ground arith)
  | inl lost ↦ elim (Option-cases (get_elem? m.page_table (vpn_of a))) [
    | inl outside ↦ absurd (ground arith)
    | inr (pte, inside) ↦ Succeeds.miss pte lost inside (ground arith) (ground arith) (ground arith)
  ]
]

abbrev missed : Mmu → Mmu
missed m = record m { tlb_misses = (m.tlb_misses + 1) % 2 ^ 32 }

missed-IsCoherent : {m : Mmu} → IsCoherent m → IsCoherent (missed m)
missed-IsCoherent c = record {
  pages = c.pages;
  entries = c.entries;
  next_in = c.next_in;
  copies = c.copies;
}

-- With a coherent TLB, a translation that returns keeps the TLB coherent, and leaves the page table
-- alone.
pub translate_address-IsCoherent :
    (logical_addr : ℕ) (m : Mmu) (r : Translation × Mmu)
    → IsCoherent m
    → translate_address logical_addr m ≡ ok r
    → IsCoherent r.1 × (r.1.page_table ≡ m.page_table)
unfolding update_tlb
translate_address-IsCoherent a m r c h = go (translate_address-Succeeds a m r h)
  where
    go : Succeeds a m r → IsCoherent r.1 × (r.1.page_table ≡ m.page_table)
    go (Succeeds.hit e found eq) = rw eq (
      record { pages = c.pages; entries = c.entries; next_in = c.next_in; copies = c.copies },
      refl,
    )
    go (Succeeds.miss pte lost inside v p eq) =
        rw eq
          (update_tlb-IsCoherent (vpn_of a) pte (missed m) (missed-IsCoherent c) inside v p, refl)

-- Every translation that returns is counted once, as a hit or as a miss.
pub translate_address-counts :
    (logical_addr : ℕ) (m : Mmu) (r : Translation × Mmu)
    → translate_address logical_addr m ≡ ok r
    → ((r.1.tlb_hits + r.1.tlb_misses) % 2 ^ 32 ≡ (m.tlb_hits + m.tlb_misses + 1) % 2 ^ 32)
unfolding update_tlb
translate_address-counts a m r h = go (translate_address-Succeeds a m r h)
  where
    go :
        Succeeds a m r
        → ((r.1.tlb_hits + r.1.tlb_misses) % 2 ^ 32 ≡ (m.tlb_hits + m.tlb_misses + 1) % 2 ^ 32)
    go (Succeeds.hit e found eq) = rw eq (omega arith)
    go (Succeeds.miss pte lost inside v p eq) = rw eq (omega arith)

-- The entry that was written is found by the next scan for its page.
find_entry-set :
    (vpn : ℕ) (es : List TlbEntry) (i : ℕ) (new : TlbEntry)
    → i < length es
    → new.valid ≡ true
    → new.vpn ≡ vpn
    → (e : TlbEntry) × (find_entry vpn (set es i new) ≡ some e)
unfolding find_entry
find_entry-set vpn [] i new h v w = absurd (omega arith)
find_entry-set vpn (x ∷ es) zero new h v w = (new, ground arith)
find_entry-set vpn (x ∷ es) (suc i) new h v w =
    let (e, later) = find_entry-set vpn es i new (omega arith) v w in
    elim (Bool-cases (x.valid && x.vpn == vpn)) [
      | inl here ↦ (x, rw (here, if◌then◌else◌))
      | inr not_here ↦ (e, rw (not_here, if◌then◌else◌) later)
    ]

-- With a coherent TLB, a scan that finds an entry is a hit and no fault.
translate_address_hit :
    (b : ℕ) (m : Mmu) (e : TlbEntry)
    → IsCoherent m
    → find_entry (vpn_of b) m.tlb ≡ some e
    → (s : Translation × Mmu) × (translate_address b m ≡ ok s) × (s.0.tlb_hit ≡ true)
unfolding translate_address
translate_address_hit b m e c found = (
  (
    record { physical_addr = physical e.pfn (offset_of b); tlb_hit = true },
    record m { tlb_hits = (m.tlb_hits + 1) % 2 ^ 32 },
  ),
  ground (arith, find_entry_lem m.page_table (vpn_of b) m.tlb e found c.copies),
  refl,
)

-- With a coherent TLB, after a translation that returns, translating an address of the same page
-- succeeds, and is a hit.
pub translate_address_again :
    (a b : ℕ) (m : Mmu) (r : Translation × Mmu)
    → IsCoherent m
    → translate_address a m ≡ ok r
    → vpn_of b ≡ vpn_of a
    → (s : Translation × Mmu) × (translate_address b r.1 ≡ ok s) × (s.0.tlb_hit ≡ true)
unfolding update_tlb
translate_address_again a b m r c h same = go (translate_address-Succeeds a m r h)
  where
    coherent : IsCoherent r.1
    coherent = (translate_address-IsCoherent a m r c h).0

    go :
        Succeeds a m r
        → (s : Translation × Mmu) × (translate_address b r.1 ≡ ok s) × (s.0.tlb_hit ≡ true)
    go (Succeeds.hit e found eq) = translate_address_hit b r.1 e coherent (rw (same, eq) found)
    go (Succeeds.miss pte lost inside v p eq) =
        let (e, found) =
          find_entry-set (vpn_of a) m.tlb m.next_tlb_entry (new pte) in_tlb refl refl in
        translate_address_hit b r.1 e coherent (rw (same, eq) found)
      where
        new : PageTableEntry → TlbEntry
        new pte = record {
          vpn = vpn_of a;
          pfn = pte.pfn;
          valid = true;
          protect_bits = pte.protect_bits;
        }

        in_tlb : m.next_tlb_entry < length m.tlb
        in_tlb = rw c.entries c.next_in
