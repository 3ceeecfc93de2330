-- ===== src/Paging/Identity.antt =====
-- Segmentation, Paging, IPC/q3.c: what `main` prints.
use os_in_parts.Prelude.{
  map, leb, ◌&&◌, ◌∙◌, set, length-set, get_elem?-set_self, get_elem?-set_ne, ℕ, zero, suc, ◌+◌,
  ◌%◌, ◌^◌, ◌<◌, ◌≤◌, ◌≡◌, refl, true, some, List, [], ◌∷◌, ◌++◌, arith, length, get_elem?,
  length-append, ltb, if◌then◌else◌, Bool-cases, inl, inr,
}
use mathlib.Core.Path.{ap₂}
use os_in_parts.Paging.Defs.{
  PageTableEntry, Mmu, Result, ok, fault, ◌>>=◌, globals, init_page_table_from, init_page_table,
  init_tlb, vpn_of, Translation, translate_address, num_pages,
}
use os_in_parts.Paging.Walk.{walk, address, IsCoherent, translate_address-walk}
use os_in_parts.Paging.Coherence.{translate_address-IsCoherent}
use os_in_parts.Paging.Run.{
  Input, Line, Session, max_previous, contains, remember, round, rounds, start, main,
}

-- The mapping that `init_page_table` sets up.
abbrev identity_entry : ℕ → PageTableEntry
identity_entry i = record { pfn = i; valid = true; protect_bits = 0xFF }

abbrev pub IsIdentity : List PageTableEntry → Type 0
IsIdentity t = (i : ℕ) → i < num_pages → get_elem? t i ≡ some (identity_entry i)

-- The loop writes the entries from `i` on, and no other.
get_elem?-init_page_table_from :
    (n i : ℕ) (t : List PageTableEntry) (j : ℕ)
    → i + n ≤ length t
    → i + n ≤ 256
    → get_elem? (init_page_table_from n i t) j
      ≡ (if leb i j && ltb j (i + n) then some (identity_entry j) else get_elem? t j)
unfolding init_page_table_from
get_elem?-init_page_table_from zero i t j h k = ground arith
get_elem?-init_page_table_from (suc n) i t j h k = ground (
  arith,
  get_elem?-init_page_table_from n (i + 1) (set t i new) j,
  length-set t i new,
  get_elem?-set_self t i new,
  get_elem?-set_ne t i j new,
)
  where
    new : PageTableEntry
    new = record { pfn = i % 2 ^ 8; valid = true; protect_bits = 0xFF }

-- The page table that `main` sets up maps each page to the frame of the same number.
init_page_table-IsIdentity : IsIdentity (init_page_table globals).page_table
unfolding init_page_table
init_page_table-IsIdentity i h =
    ground (arith, get_elem?-init_page_table_from 16 0 globals.page_table i)

pub start-IsCoherent : IsCoherent start.mmu
unfolding init_tlb init_page_table
start-IsCoherent = record {
  pages = refl;
  entries = refl;
  next_in = omega arith;
  copies = (λ e. cc, (λ e. cc, (λ e. cc, (λ e. cc, tt))));
}

-- With such a table a translation returns the logical address.
walk_identity : (t : List PageTableEntry) (a : ℕ) → IsIdentity t → a < 2 ^ 16 → walk a t ≡ ok a
unfolding walk
walk_identity t a id h = ground (arith, id (vpn_of a))

-- What holds between the rounds of `main`.
record IsSound (s : Session) : Type 0 where
  coherent : IsCoherent s.mmu
  identity : IsIdentity s.mmu.page_table

-- A translation under a sound session succeeds with the address itself.
translate-IsSound :
    (a : ℕ) (s : Session)
    → IsSound s
    → a < 2 ^ 16
    → (r : Translation × Mmu) × (translate_address a s.mmu ≡ ok r) × (r.0.physical_addr ≡ a)
translate-IsSound a s v h =
    go (translate_address a s.mmu) refl
      (translate_address-walk a s.mmu v.coherent ∙ walk_identity s.mmu.page_table a v.identity h)
  where
    go :
        (x : Result (Translation × Mmu))
        → translate_address a s.mmu ≡ x
        → address x ≡ ok a
        → (r : Translation × Mmu) × (translate_address a s.mmu ≡ ok r) × (r.0.physical_addr ≡ a)
    go (ok r) e f = (r, e, ground arith)
    go (fault e') e f = absurd (cc)

-- A round adds at most one address to the array.
remember_lem :
    (a : ℕ) (l : List ℕ)
    → length l < max_previous
    → (l' : List ℕ) × (remember a l ≡ ok l') × (length l' ≤ length l + 1)
unfolding remember
remember_lem a l h = elim (Bool-cases (contains a l)) [
  | inl old ↦ (l, rw old, omega arith)
  | inr new ↦ (l ++ (a ∷ []), ground arith, omega (arith, length-append l (a ∷ [])))
]

round-IsSound :
    (number : ℕ) (s : Session)
    → IsSound s
    → length s.previous_addresses < max_previous
    → (line : Line) × (s' : Session) × (round number s ≡ ok (line, s'))
      × (line.logical ≡ number % 2 ^ 16)
      × (line.physical ≡ number % 2 ^ 16)
      × IsSound s'
      × (length s'.previous_addresses ≤ length s.previous_addresses + 1)
unfolding round
round-IsSound number s v h =
    let a = number % 2 ^ 16 in
    let (r, translated, same) = translate-IsSound a s v (omega arith) in
    let (l, remembered, short) = remember_lem a s.previous_addresses h in
    let (coherent, kept) = translate_address-IsCoherent a s.mmu r v.coherent translated in
    (
      record { logical = a; physical = r.0.physical_addr; hit = r.0.tlb_hit },
      record { mmu = r.1; previous_addresses = l },
      rw (remembered, translated, ◌>>=◌),
      refl,
      same,
      record { coherent = coherent; identity = rw kept v.identity },
      short,
    )

-- The addresses that the user asks for, before the first `q`.
abbrev pub addresses : List Input → List ℕ
addresses [] = []
addresses (Input.quit ∷ inputs) = []
addresses (Input.hex number ∷ inputs) = (number % 2 ^ 16) ∷ addresses inputs

-- From a sound session with room in the array, the loop of `main` prints each address twice.
rounds-IsSound :
    (inputs : List Input) (s : Session)
    → IsSound s
    → length s.previous_addresses + length inputs ≤ max_previous
    → (lines : List Line) × (s' : Session) × (rounds inputs s ≡ ok (lines, s'))
      × (map (λ l. l.logical) lines ≡ addresses inputs)
      × (map (λ l. l.physical) lines ≡ addresses inputs)
unfolding rounds
rounds-IsSound [] s v h = ([], s, refl, refl, refl)
rounds-IsSound (Input.quit ∷ inputs) s v h = ([], s, refl, refl, refl)
rounds-IsSound (Input.hex number ∷ inputs) s v h =
    let (line, s', e, asked, same, v', short) = round-IsSound number s v (omega arith) in
    let (lines, s'', e', all_asked, all_same) = rounds-IsSound inputs s' v' (omega arith) in
    (line ∷ lines, s'', rw (e, e', ◌>>=◌), ap₂ ◌∷◌ asked all_asked, ap₂ ◌∷◌ same all_same)

-- A run of at most 100 inputs ends with no fault. It prints one line for each address that is
-- asked for before the first `q`, in order, and the physical address of each is the address itself.
pub main_identity :
    (inputs : List Input)
    → length inputs ≤ max_previous
    → (lines : List Line) × (s : Session) × (main inputs ≡ ok (lines, s))
      × (map (λ l. l.logical) lines ≡ addresses inputs)
      × (map (λ l. l.physical) lines ≡ addresses inputs)
unfolding main init_tlb
main_identity inputs h =
    rounds-IsSound inputs start
      (record { coherent = start-IsCoherent; identity = init_page_table-IsIdentity }) (omega arith)
