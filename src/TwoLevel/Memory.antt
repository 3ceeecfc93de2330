-- ===== src/TwoLevel/Memory.antt =====
-- Segmentation, Paging, IPC/q4.c: `load` and `store` against a flat memory.
use os_in_parts.Prelude.{
  ℕ, ◌+◌, ◌*◌, ◌%◌, ◌^◌, ◌≤◌, ◌<◌, ◌≡◌, refl, none, some, List, [], ◌∷◌, arith, All, Option-cases,
  Bool-cases, inl, inr, if◌then◌else◌, ◌==◌, subst,
}
use mathlib.Core.Option.{some-injective}
use os_in_parts.TwoLevel.Defs.{
  Machine, PhysicalMemoryNode, pd_index_of, pt_index_of, offset_of, read_byte, overwrite,
  write_byte, load, store,
}
use os_in_parts.TwoLevel.Invariant.{frame_at, IsValid, Mapped}
use os_in_parts.TwoLevel.Translate.{Counts, translate_address-Mapped}

-- A search of the list after a write.
read_byte-write_byte :
    (p q value : ℕ) (nodes : List PhysicalMemoryNode)
    → read_byte q (write_byte p value nodes) ≡ (if p == q then value else read_byte q nodes)
unfolding write_byte read_byte
read_byte-write_byte p q value [] = refl
read_byte-write_byte p q value (node ∷ nodes) =
    ground (arith, Option-cases (overwrite p value nodes), read_byte-write_byte p q value nodes)

-- A byte past the frames in use has never been written.
read_byte-absent :
    (n p : ℕ) (nodes : List PhysicalMemoryNode)
    → All (λ node. node.address < n) nodes
    → n ≤ p
    → read_byte p nodes ≡ 0
unfolding read_byte
read_byte-absent n p [] h k = refl
read_byte-absent n p (node ∷ nodes) h k = ground (arith, read_byte-absent n p nodes h.1 k, h.0)

abbrev Below : ℕ → List PhysicalMemoryNode → Type 0
Below n nodes = All (λ node. node.address < n) nodes

-- A write in place keeps the addresses.
overwrite-Below :
    (n p value : ℕ) (nodes nodes' : List PhysicalMemoryNode)
    → overwrite p value nodes ≡ some nodes'
    → Below n nodes
    → Below n nodes'
unfolding overwrite
overwrite-Below n p value [] nodes' e h = absurd (cc)
overwrite-Below n p value (node ∷ nodes) nodes' e h = elim (Bool-cases (node.address == p)) [
  | inl here ↦ subst (Below n) (some-injective _ _ (rw (here, if◌then◌else◌) at e)) h
  | inr later ↦ elim (Option-cases (overwrite p value nodes)) [
    | inl absent ↦ absurd (ground arith)
    | inr (rest, found) ↦
        subst (Below n) (some-injective _ _ (rw (later, found, if◌then◌else◌) at e))
          (h.0, overwrite-Below n p value nodes rest found h.1)
  ]
]

write_byte-Below :
    (n p value : ℕ) (nodes : List PhysicalMemoryNode)
    → Below n nodes
    → p < n
    → Below n (write_byte p value nodes)
unfolding write_byte
write_byte-Below n p value nodes h k = elim (Option-cases (overwrite p value nodes)) [
  | inl absent ↦ rw (absent, write_byte) (k, h)
  | inr (rest, found) ↦ rw (found, write_byte) (overwrite-Below n p value nodes rest found h)
]

-- The byte at a virtual address, without touching the counters or the tables.
abbrev pub peek : Machine → ℕ → ℕ
peek m va = elim (frame_at m (pd_index_of va) (pt_index_of va)) [
  | none ↦ 0
  | some f ↦ read_byte (f * 4096 + offset_of va) m.physical_memory
]

-- Mapping a page changes no byte.
peek-Mapped :
    (pd pt : ℕ) (m m' : Machine) (va : ℕ) → IsValid m → Mapped pd pt m m' → peek m' va ≡ peek m va
peek-Mapped pd pt m m' va v mapped =
    elim (Option-cases (frame_at m (pd_index_of va) (pt_index_of va))) [
      | inr (f, old) ↦ ground (arith, mapped.kept _ _ f old, mapped.memory)
      | inl absent ↦ elim (Option-cases (frame_at m' (pd_index_of va) (pt_index_of va))) [
        | inl still ↦ ground arith
        | inr (f, new) ↦ ground (
          arith,
          mapped.memory,
          mapped.fresh _ _ f new absent,
          read_byte-absent (m.next_frame * 4096) (f * 4096 + offset_of va) m.physical_memory
              v.resident,
        )
      ]
    ]

-- A load returns the byte at its address, changes none, and is counted.
pub load-Counts :
    (va : ℕ) (m : Machine)
    → IsValid m
    → (m' : Machine) × (load va m ≡ some (peek m va, m'))
      × IsValid m'
      × ((va' : ℕ) → peek m' va' ≡ peek m va')
      × Counts m m'
unfolding load
load-Counts va m v =
    let (f, m', e, there, mapped, counts) = translate_address-Mapped va m v in
    let same = peek-Mapped _ _ m m' va v mapped in
    (
      m',
      ground (arith, e, there, same),
      mapped.valid,
      (λ va'. peek-Mapped _ _ m m' va' v mapped),
      counts,
    )

-- Two addresses below 2 ^ 32 with the same page and offset are one.
same_address :
    (a b : ℕ)
    → a < 2 ^ 32
    → b < 2 ^ 32
    → pd_index_of a ≡ pd_index_of b
    → pt_index_of a ≡ pt_index_of b
    → offset_of a ≡ offset_of b
    → a ≡ b
same_address a b ha hb p q r = omega arith

abbrev written : ℕ → ℕ → Machine → Machine
written pa value m = record m { physical_memory = write_byte pa value m.physical_memory }

-- No two addresses share a byte.
peek-written :
    (va value f : ℕ) (m : Machine) (va' : ℕ)
    → IsValid m
    → va < 2 ^ 32
    → va' < 2 ^ 32
    → frame_at m (pd_index_of va) (pt_index_of va) ≡ some f
    → peek (written (f * 4096 + offset_of va) value m) va'
      ≡ (if va == va' then value else peek m va')
peek-written va value f m va' v h h' there =
    elim (Option-cases (frame_at m (pd_index_of va') (pt_index_of va'))) [
      | inl absent ↦ ground arith
      | inr (g, at_g) ↦ ground (
        arith,
        read_byte-write_byte (f * 4096 + offset_of va) (g * 4096 + offset_of va') value
            m.physical_memory,
        v.unique (pd_index_of va) (pt_index_of va) (pd_index_of va') (pt_index_of va') f,
        same_address va va',
      )
    ]

written-IsValid :
    (pa value : ℕ) (m : Machine)
    → IsValid m
    → pa < m.next_frame * 4096
    → IsValid (written pa value m)
written-IsValid pa value m v h = record {
  below = v.below;
  unique = v.unique;
  counted = v.counted;
  resident = write_byte-Below (m.next_frame * 4096) pa value m.physical_memory v.resident h;
}

-- A store changes the byte at its address and no other, and is counted.
pub store-Counts :
    (va value : ℕ) (m : Machine)
    → IsValid m
    → va < 2 ^ 32
    → (m' : Machine) × (store va value m ≡ some m')
      × IsValid m'
      × ((va' : ℕ) → va' < 2 ^ 32 → peek m' va' ≡ (if va == va' then value else peek m va'))
      × Counts m m'
unfolding store
store-Counts va value m v h =
    let (f, m', e, there, mapped, counts) = translate_address-Mapped va m v in
    let room = mapped.valid.below _ _ f there in
    (
      written (f * 4096 + offset_of va) value m',
      rw e,
      written-IsValid _ value m' mapped.valid (omega arith),
      (λ va' h'.
          rw (← peek-Mapped _ _ m m' va' v mapped)
            (peek-written va value f m' va' mapped.valid h h' there)),
      record { accesses = counts.accesses; frames = counts.frames },
    )

-- In a valid machine a load returns the byte at its address. It changes no byte, and is counted once,
-- as a hit or as a fault.
pub load-peek :
    (va : ℕ) (m : Machine)
    → IsValid m
    → (m' : Machine) × (load va m ≡ some (peek m va, m'))
      × IsValid m'
      × ((va' : ℕ) → peek m' va' ≡ peek m va')
      × ((m'.page_faults + m'.page_hits) % 2 ^ 32 ≡ (m.page_faults + m.page_hits + 1) % 2 ^ 32)
load-peek va m v =
    let (m', e, v', same, counts) = load-Counts va m v in (m', e, v', same, counts.accesses)

-- In a valid machine a store to a 32-bit address returns. It changes the byte at that address and no
-- other, and is counted once, as a hit or as a fault.
pub store-peek :
    (va value : ℕ) (m : Machine)
    → IsValid m
    → va < 2 ^ 32
    → (m' : Machine) × (store va value m ≡ some m')
      × IsValid m'
      × ((va' : ℕ) → va' < 2 ^ 32 → peek m' va' ≡ (if va == va' then value else peek m va'))
      × ((m'.page_faults + m'.page_hits) % 2 ^ 32 ≡ (m.page_faults + m.page_hits + 1) % 2 ^ 32)
store-peek va value m v h =
    let (m', e, v', changes, counts) = store-Counts va value m v h in
    (m', e, v', changes, counts.accesses)
