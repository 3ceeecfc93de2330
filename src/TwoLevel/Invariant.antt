-- ===== src/TwoLevel/Invariant.antt =====
-- Segmentation, Paging, IPC/q4.c: which frame a page has, and that no two pages share one.
use os_in_parts.Prelude.{
  ℕ, ◌+◌, ◌*◌, ◌%◌, ◌^◌, ◌≤◌, ◌<◌, ◌≡◌, refl, true, false, ◌&&◌, Option, none, some, ◌==◌,
  if◌then◌else◌, update, total, total-update, total-lt, total-le, total-zero, All, All-imp, arith,
}
use os_in_parts.TwoLevel.Defs.{
  PageTableEntry, PageTable, Machine, zeroed, allocate_frame, ensure_table, map_page,
}

-- The frame that a page table, if there is one, gives to a page.
abbrev pub slot : Option PageTable → ℕ → Option ℕ
slot none pt = none
slot (some table) pt = if (table pt).valid then some (table pt).frame_number else none

-- The frame of a page that is mapped.
abbrev pub frame_at : Machine → ℕ → ℕ → Option ℕ
frame_at m pd pt = slot (m.page_directory pd) pt

abbrev pub entry_count : PageTableEntry → ℕ
entry_count e = if e.valid then 1 else 0

-- How many entries of a table are valid.
unfoldable pub table_count : Option PageTable → ℕ
table_count none = 0
table_count (some table) = total entry_count 1024 table

-- How many pages are mapped.
unfoldable pub used : (ℕ → Option PageTable) → ℕ
used directory = total table_count 1024 directory

pub record IsValid (m : Machine) : Type 0 where
  pub below : (pd pt f : ℕ) → frame_at m pd pt ≡ some f → f < m.next_frame
  pub unique :
      (pd pt pd' pt' f : ℕ)
      → frame_at m pd pt ≡ some f
      → frame_at m pd' pt' ≡ some f
      → (pd ≡ pd') × (pt ≡ pt')
  pub counted : used m.page_directory ≡ m.next_frame
  pub resident : All (λ node. node.address < m.next_frame * 4096) m.physical_memory

table_count-le : (t : Option PageTable) → table_count t ≤ 1024
unfolding table_count
table_count-le none = omega arith
table_count-le (some table) = omega (arith, total-le entry_count 1 (λ e. ground arith) 1024 table)

table_count-lt :
    (t : Option PageTable) (pt : ℕ) → pt < 1024 → slot t pt ≡ none → table_count t < 1024
unfolding table_count
table_count-lt none pt h e = omega arith
table_count-lt (some table) pt h e =
    omega (arith, total-lt entry_count 1 (λ e. ground arith) 1024 table pt h (ground arith))

-- A page that is not mapped leaves a frame for it.
used-lt :
    (m : Machine) (pd pt : ℕ)
    → pd < 1024
    → pt < 1024
    → frame_at m pd pt ≡ none
    → used m.page_directory < 2 ^ 20
unfolding used
used-lt m pd pt hd ht e = omega (
  arith,
  total-lt table_count 1024 table_count-le 1024 m.page_directory pd hd
      (table_count-lt (m.page_directory pd) pt ht e),
)

-- There are as many frames as pages, so the 20 bits of a frame number are enough.
pub next_frame-le : {m : Machine} → IsValid m → m.next_frame ≤ 2 ^ 20
unfolding used
next_frame-le {m} v =
    omega (arith, v.counted, total-le table_count 1024 table_count-le 1024 m.page_directory)

-- An entry of page table `pd` is given frame `f`.
abbrev mapped : ℕ → ℕ → PageTable → ℕ → Machine → Machine
mapped pd pt table f m = record m {
  page_directory =
      update m.page_directory pd
        (some (update table pt (record (table pt) { frame_number = f; valid = true })));
}

frame_at-mapped :
    (pd pt : ℕ) (table : PageTable) (f : ℕ) (m : Machine) (pd' pt' : ℕ)
    → m.page_directory pd ≡ some table
    → frame_at (mapped pd pt table f m) pd' pt'
      ≡ (if pd == pd' && pt == pt' then some f else frame_at m pd' pt')
frame_at-mapped pd pt table f m pd' pt' e = ground arith

used-mapped :
    (pd pt : ℕ) (table : PageTable) (f : ℕ) (m : Machine)
    → pd < 1024
    → pt < 1024
    → m.page_directory pd ≡ some table
    → (table pt).valid ≡ false
    → used (mapped pd pt table f m).page_directory ≡ used m.page_directory + 1
unfolding used table_count
used-mapped pd pt table f m hd ht e v = ground (
  arith,
  total-update table_count 1024 m.page_directory pd (some new),
  total-update entry_count 1024 table pt (record (table pt) { frame_number = f; valid = true }),
)
  where
    new : PageTable
    new = update table pt (record (table pt) { frame_number = f; valid = true })

used-ensure_table :
    (pd : ℕ) (m : Machine)
    → pd < 1024
    → used (ensure_table pd m).page_directory ≡ used m.page_directory
unfolding ensure_table used table_count
used-ensure_table pd m h = ground (
  arith,
  total-update table_count 1024 m.page_directory pd (some zeroed),
  total-zero entry_count 1024 (zeroed 0) refl,
)

-- The table of a directory entry once there is one.
abbrev pub table_of : Option PageTable → PageTable
table_of none = zeroed
table_of (some table) = table

-- After the first `if` of `handle_page_fault` the page has a table, and no frame has changed.
pub record HasTable (pd : ℕ) (m m' : Machine) : Type 0 where
  pub there : m'.page_directory pd ≡ some (table_of (m.page_directory pd))
  pub same_frames : (pd' pt' : ℕ) → frame_at m' pd' pt' ≡ frame_at m pd' pt'
  pub same_used : used m'.page_directory ≡ used m.page_directory
  pub same_memory : m'.physical_memory ≡ m.physical_memory
  pub same_next : m'.next_frame ≡ m.next_frame
  pub same_faults : m'.page_faults ≡ m.page_faults
  pub same_hits : m'.page_hits ≡ m.page_hits

pub ensure_table-HasTable : (pd : ℕ) (m : Machine) → pd < 1024 → HasTable pd m (ensure_table pd m)
unfolding ensure_table
ensure_table-HasTable pd m h = record {
  there = ground arith;
  same_frames = λ pd' pt'. ground arith;
  same_used = used-ensure_table pd m h;
  same_memory = ground arith;
  same_next = ground arith;
  same_faults = ground arith;
  same_hits = ground arith;
}

-- What `translate_address` needs of the state in which it reads the frame of page `pd`, `pt`.
pub record Mapped (pd pt : ℕ) (m m' : Machine) : Type 0 where
  pub valid : IsValid m'
  pub frame : (f : ℕ) × (frame_at m' pd pt ≡ some f)
  pub kept : (pd' pt' f : ℕ) → frame_at m pd' pt' ≡ some f → frame_at m' pd' pt' ≡ some f
  pub fresh :
      (pd' pt' f : ℕ) → frame_at m' pd' pt' ≡ some f → frame_at m pd' pt' ≡ none → f ≡ m.next_frame
  pub memory : m'.physical_memory ≡ m.physical_memory
  pub grows : m.next_frame ≤ m'.next_frame

-- A page without a frame, whose table is there, gets the next one.
pub map_page-Mapped :
    (pd pt : ℕ) (table : PageTable) (m : Machine)
    → IsValid m
    → pd < 1024
    → pt < 1024
    → m.page_directory pd ≡ some table
    → (table pt).valid ≡ false
    → Mapped pd pt m (map_page pd pt table m)
unfolding map_page allocate_frame
map_page-Mapped pd pt table m v hd ht e n =
    rw (n, if◌then◌else◌)
      (record {
        valid = record {
          below = λ pd' pt' f h. ground (arith, new pd' pt', v.below pd' pt' f, room);
          unique = λ a b c d f h k.
              ground
                (arith, new a b, new c d, v.unique a b c d f, v.below a b f, v.below c d f, room);
          counted = ground (arith, used-mapped pd pt table frame m, v.counted, room);
          resident =
              All-imp (λ node. node.address < m.next_frame * 4096) _ (λ node h. omega (arith, room))
                m.physical_memory v.resident;
        };
        frame = (frame, ground (arith, new pd pt));
        kept = λ pd' pt' f h. ground (arith, new pd' pt');
        fresh = λ pd' pt' f h k. ground (arith, new pd' pt', room);
        memory = refl;
        grows = omega (arith, room);
      })
  where
    frame : ℕ
    frame = m.next_frame % 2 ^ 20

    room : m.next_frame < 2 ^ 20
    room = rw (← v.counted) (used-lt m pd pt hd ht (ground arith))

    new :
        (pd' pt' : ℕ)
        → frame_at (mapped pd pt table frame m) pd' pt'
          ≡ (if pd == pd' && pt == pt' then some frame else frame_at m pd' pt')
    new pd' pt' = frame_at-mapped pd pt table frame m pd' pt' e
