-- ===== src/TwoLevel/Translate.antt =====
-- Segmentation, Paging, IPC/q4.c: `translate_address` maps the page that it is asked for.
use os_in_parts.Prelude.{
  ℕ, ◌+◌, ◌*◌, ◌%◌, ◌^◌, ◌<◌, ◌≡◌, refl, true, false, Option, none, some, arith, Bool-cases, inl,
  inr, ◌⊎◌, ◌∙◌,
}
use os_in_parts.TwoLevel.Defs.{
  Machine, PageTable, pd_index_of, pt_index_of, offset_of, ensure_table, map_page, ensure_frame,
  handle_page_fault, is_mapped, ensure_mapped, frame_of, translate_address, allocate_frame,
}
use os_in_parts.TwoLevel.Invariant.{
  slot, frame_at, table_of, IsValid, HasTable, ensure_table-HasTable, Mapped, map_page-Mapped,
  next_frame-le,
}

-- What an access does to the counters: it is a hit or a fault, and a fault takes one frame.
pub record Counts (m m' : Machine) : Type 0 where
  pub accesses :
      (m'.page_faults + m'.page_hits) % 2 ^ 32 ≡ (m.page_faults + m.page_hits + 1) % 2 ^ 32
  pub frames : m.page_faults ≡ m.next_frame → m'.page_faults ≡ m'.next_frame

-- The machine once the page fault is counted and the page has a table.
abbrev tabled : ℕ → Machine → Machine
tabled pd m = ensure_table pd (record m { page_faults = (m.page_faults + 1) % 2 ^ 32 })

tabled-IsValid : (pd : ℕ) (m : Machine) → pd < 1024 → IsValid m → IsValid (tabled pd m)
tabled-IsValid pd m h v = record {
  below = λ a b f e. rw same_next (v.below a b f (rw same_frames at e));
  unique = λ a b c d f e e'. v.unique a b c d f (rw same_frames at e) (rw same_frames at e');
  counted = rw (same_used, same_next) v.counted;
  resident = rw (same_next, same_memory) v.resident;
}
  where
    open (ensure_table-HasTable pd
        (record m { page_faults = (m.page_faults + 1) % 2 ^ 32 })
        h) use {same_next, same_frames, same_used, same_memory}

table_of-invalid :
    (t : Option PageTable) (pt : ℕ) → slot t pt ≡ none → (table_of t pt).valid ≡ false
table_of-invalid none pt e = refl
table_of-invalid (some table) pt e = ground arith

map_page-counts :
    (pd pt : ℕ) (table : PageTable) (m : Machine)
    → (table pt).valid ≡ false
    → ((map_page pd pt table m).page_faults ≡ m.page_faults)
      × ((map_page pd pt table m).page_hits ≡ m.page_hits)
      × ((map_page pd pt table m).next_frame ≡ (m.next_frame + 1) % 2 ^ 32)
unfolding map_page allocate_frame
map_page-counts pd pt table m e = ground arith

-- `handle_page_fault` for a page that is not mapped.
module _ (pd pt : ℕ) (m : Machine) (v : IsValid m) (hd : pd < 1024) (ht : pt < 1024)
    (e : frame_at m pd pt ≡ none) where
  fault_table : PageTable
  fault_table = table_of (m.page_directory pd)

  faulted : Machine
  faulted = map_page pd pt fault_table (tabled pd m)

  fault_HasTable :
      HasTable pd (record m { page_faults = (m.page_faults + 1) % 2 ^ 32 }) (tabled pd m)
  fault_HasTable =
      ensure_table-HasTable pd (record m { page_faults = (m.page_faults + 1) % 2 ^ 32 }) hd

  fault_Mapped : Mapped pd pt (tabled pd m) faulted
  unfolding faulted fault_table
  fault_Mapped =
      map_page-Mapped pd pt fault_table (tabled pd m) (tabled-IsValid pd m hd v) hd ht
        fault_HasTable.there (table_of-invalid (m.page_directory pd) pt e)

  faulted-Mapped : Mapped pd pt m faulted
  faulted-Mapped = record {
    valid = valid;
    frame = frame;
    kept = λ a b f h. kept a b f (rw (same_frames a b) h);
    fresh = λ a b f h k. rw same_next at (fresh a b f h (rw (same_frames a b) k));
    memory = memory ∙ same_memory;
    grows = omega (arith, fault_Mapped.grows, fault_HasTable.same_next);
  }
    where
      open fault_HasTable use {same_frames, same_next, same_memory}
      open fault_Mapped use {valid, frame, kept, fresh, memory}

  faulted-Counts : Counts m faulted
  unfolding faulted fault_table
  faulted-Counts = ground (
    arith,
    map_page-counts pd pt fault_table (tabled pd m) (table_of-invalid (m.page_directory pd) pt e),
    fault_HasTable.same_next,
    fault_HasTable.same_faults,
    fault_HasTable.same_hits,
  )

  handle_page_fault-faulted : handle_page_fault pd pt m ≡ some faulted
  unfolding handle_page_fault ensure_frame faulted fault_table
  handle_page_fault-faulted = ground (arith, fault_HasTable.there)

is_mapped-slot :
    (pd pt : ℕ) (m : Machine)
    → ((is_mapped pd pt m ≡ true) × ((f : ℕ) × (frame_at m pd pt ≡ some f)))
      ⊎ ((is_mapped pd pt m ≡ false) × (frame_at m pd pt ≡ none))
unfolding is_mapped
is_mapped-slot pd pt m = go (m.page_directory pd)
  where
    go :
        (t : Option PageTable)
        → ((is_mapped pd pt (record m { page_directory = λ _. t }) ≡ true)
            × ((f : ℕ) × (slot t pt ≡ some f)))
          ⊎ ((is_mapped pd pt (record m { page_directory = λ _. t }) ≡ false) × (slot t pt ≡ none))
    go none = inr (refl, refl)
    go (some table) = elim (Bool-cases (table pt).valid) [
      | inl yes_valid ↦ inl (yes_valid, ((table pt).frame_number, rw yes_valid))
      | inr not_valid ↦ inr (not_valid, rw not_valid)
    ]

-- The `if` of `translate_address` leaves the page mapped, whether it was before or not.
pub ensure_mapped-Mapped :
    (pd pt : ℕ) (m : Machine)
    → IsValid m
    → pd < 1024
    → pt < 1024
    → (m' : Machine) × (ensure_mapped pd pt m ≡ some m') × Mapped pd pt m m' × Counts m m'
unfolding ensure_mapped
ensure_mapped-Mapped pd pt m v hd ht = elim (is_mapped-slot pd pt m) [
  | inl (hit, frame) ↦ (
    record m { page_hits = (m.page_hits + 1) % 2 ^ 32 },
    rw hit,
    record {
      valid = record {
        below = v.below;
        unique = v.unique;
        counted = v.counted;
        resident = v.resident;
      };
      frame = frame;
      kept = λ a b f h. h;
      fresh = λ a b f h k. cc;
      memory = refl;
      grows = omega arith;
    },
    omega arith,
  )
  | inr (miss, none_there) ↦ (
    faulted pd pt m v hd ht none_there,
    rw miss (handle_page_fault-faulted pd pt m v hd ht none_there),
    faulted-Mapped pd pt m v hd ht none_there,
    faulted-Counts pd pt m v hd ht none_there,
  )
]

frame_of-frame_at :
    (pd pt : ℕ) (m : Machine) (f : ℕ) → frame_at m pd pt ≡ some f → frame_of pd pt m ≡ some f
unfolding frame_of
frame_of-frame_at pd pt m f e = ground arith

-- A translation never reads through a null page table. It returns the frame of the page with the
-- offset of the address, and leaves the page mapped.
pub translate_address-Mapped :
    (va : ℕ) (m : Machine)
    → IsValid m
    → (f : ℕ) × (m' : Machine) × (translate_address va m ≡ some (f * 4096 + offset_of va, m'))
      × (frame_at m' (pd_index_of va) (pt_index_of va) ≡ some f)
      × Mapped (pd_index_of va) (pt_index_of va) m m'
      × Counts m m'
unfolding translate_address
translate_address-Mapped va m v =
    let pd = pd_index_of va in
    let pt = pt_index_of va in
    let (m', e, mapped, counts) = ensure_mapped-Mapped pd pt m v (omega arith) (omega arith) in
    let (f, there) = mapped.frame in
    let small = mapped.valid.below pd pt f there in
    let few = next_frame-le mapped.valid in
    (f, m', ground (arith, e, frame_of-frame_at pd pt m' f there), there, mapped, counts)
