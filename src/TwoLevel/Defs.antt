-- ===== src/TwoLevel/Defs.antt =====
-- Segmentation, Paging, IPC/q4.c: a two-level page table over a list of physical bytes.
-- Arrays of 1024 elements are functions of the index, which a mask keeps below 1024. `x >> k` and
-- `x & mask` are `/` and `%`. `calloc` and `malloc` are taken to succeed.
use os_in_parts.Prelude.{
  ℕ, ◌+◌, ◌*◌, ◌/◌, ◌%◌, ◌^◌, Bool, true, false, Option, none, some, List, [], ◌∷◌, ◌==◌,
  if◌then◌else◌, update,
}

abbrev pub page_table_entries : ℕ
page_table_entries = 1024

pub record PageTableEntry : Type 0 where
  pub frame_number : ℕ  -- 20 bits
  pub valid : Bool
  pub unused : ℕ  -- 11 bits

abbrev pub PageTable : Type 0
PageTable = ℕ → PageTableEntry

pub record PhysicalMemoryNode : Type 0 where
  pub address : ℕ
  pub value : ℕ

-- The globals, with the static variable of `allocate_frame`.
pub record Machine : Type 0 where
  pub page_directory : ℕ → Option PageTable
  pub physical_memory : List PhysicalMemoryNode
  pub next_frame : ℕ  -- uint32_t
  pub page_faults : ℕ  -- uint32_t
  pub page_hits : ℕ  -- uint32_t

-- What `calloc` fills a page table with.
abbrev pub zeroed : PageTable
zeroed _ = record { frame_number = 0; valid = false; unused = 0 }

abbrev pub init : Machine
init = record {
  page_directory = λ _. none;
  physical_memory = [];
  next_frame = 0;
  page_faults = 0;
  page_hits = 0;
}

unfoldable pub allocate_frame : Machine → ℕ × Machine
allocate_frame m = (m.next_frame, record m { next_frame = (m.next_frame + 1) % 2 ^ 32 })

-- The first `if` of `handle_page_fault`.
unfoldable pub ensure_table : ℕ → Machine → Machine
ensure_table pd_index m = elim (m.page_directory pd_index) [
  | none ↦ record m { page_directory = update m.page_directory pd_index (some zeroed) }
  | some _ ↦ m
]

-- Its second `if`, once the table is known. The frame number is cut to the 20 bits of its field.
unfoldable pub map_page : ℕ → ℕ → PageTable → Machine → Machine
unfolding allocate_frame
map_page pd_index pt_index table m =
    if (table pt_index).valid
    then m
    else let (frame, m') = allocate_frame m in
      let entry = record (table pt_index) { frame_number = frame % 2 ^ 20; valid = true } in
      record m' {
        page_directory = update m'.page_directory pd_index (some (update table pt_index entry));
      }

-- The second `if`; `none` is a read through a null page table.
unfoldable pub ensure_frame : ℕ → ℕ → Machine → Option Machine
ensure_frame pd_index pt_index m = elim (m.page_directory pd_index) [
  | none ↦ none
  | some table ↦ some (map_page pd_index pt_index table m)
]

unfoldable pub handle_page_fault : ℕ → ℕ → Machine → Option Machine
handle_page_fault pd_index pt_index m =
    ensure_frame pd_index pt_index
      (ensure_table pd_index (record m { page_faults = (m.page_faults + 1) % 2 ^ 32 }))

abbrev pub pd_index_of : ℕ → ℕ
pd_index_of virtual_address = virtual_address / 2 ^ 22 % 1024

abbrev pub pt_index_of : ℕ → ℕ
pt_index_of virtual_address = virtual_address / 2 ^ 12 % 1024

abbrev pub offset_of : ℕ → ℕ
offset_of virtual_address = virtual_address % 2 ^ 12

-- The test that no page fault is needed.
unfoldable pub is_mapped : ℕ → ℕ → Machine → Bool
is_mapped pd_index pt_index m = elim (m.page_directory pd_index) [
  | none ↦ false
  | some table ↦ (table pt_index).valid
]

-- The `if` of `translate_address`.
unfoldable pub ensure_mapped : ℕ → ℕ → Machine → Option Machine
ensure_mapped pd_index pt_index m =
    if is_mapped pd_index pt_index m
    then some (record m { page_hits = (m.page_hits + 1) % 2 ^ 32 })
    else handle_page_fault pd_index pt_index m

-- The read of the frame number; `none` is a read through a null page table.
unfoldable pub frame_of : ℕ → ℕ → Machine → Option ℕ
frame_of pd_index pt_index m = elim (m.page_directory pd_index) [
  | none ↦ none
  | some table ↦ some (table pt_index).frame_number
]

infixl 5 ◌>>=◌
abbrev pub ◌>>=◌ {ℓ κ} : {A : Type ℓ} {B : Type κ} → Option A → (A → Option B) → Option B
none >>= f = none
some a >>= f = f a

unfoldable pub translate_address : ℕ → Machine → Option (ℕ × Machine)
translate_address virtual_address m = do
  m' ← ensure_mapped (pd_index_of virtual_address) (pt_index_of virtual_address) m
  frame ← frame_of (pd_index_of virtual_address) (pt_index_of virtual_address) m'
  some ((frame * 2 ^ 12 + offset_of virtual_address) % 2 ^ 32, m')

-- The loop of `load`.
unfoldable pub read_byte : ℕ → List PhysicalMemoryNode → ℕ
read_byte pa [] = 0
read_byte pa (node ∷ nodes) = if node.address == pa then node.value else read_byte pa nodes

unfoldable pub load : ℕ → Machine → Option (ℕ × Machine)
load va m = do (pa, m') ← translate_address va m; some (read_byte pa m'.physical_memory, m')

-- The loop of `store`; `none` is no node with the address.
unfoldable pub overwrite : ℕ → ℕ → List PhysicalMemoryNode → Option (List PhysicalMemoryNode)
overwrite pa value [] = none
overwrite pa value (node ∷ nodes) =
    if node.address == pa
    then some (record node { value = value } ∷ nodes)
    else elim (overwrite pa value nodes) [ none ↦ none | some nodes' ↦ some (node ∷ nodes') ]

-- The loop of `store`, and the new node in front if no node has the address.
unfoldable pub write_byte : ℕ → ℕ → List PhysicalMemoryNode → List PhysicalMemoryNode
unfolding overwrite
write_byte pa value nodes = elim (overwrite pa value nodes) [
  | some nodes' ↦ nodes'
  | none ↦ record { address = pa; value = value } ∷ nodes
]

unfoldable pub store : ℕ → ℕ → Machine → Option Machine
store va value m = do
  (pa, m') ← translate_address va m
  some (record m' { physical_memory = write_byte pa value m'.physical_memory })

-- The sizes that `print_statistics` prints; a directory entry is a pointer of eight bytes.
unfoldable pub page_directory_size : ℕ
page_directory_size = 8 * page_table_entries

unfoldable pub total_page_table_size : Machine → ℕ
total_page_table_size m = 4 * page_table_entries * m.page_faults % 2 ^ 64

-- One round of `main`. Another letter than `l` and `s` reads an address and does nothing.
pub data Command : Type 0 where
  load_at : ℕ → Command
  store_at : ℕ → ℕ → Command
  other : ℕ → Command
  quit : Command

-- The line that `main` prints for a load or a store. The messages of `handle_page_fault` are not kept.
pub data Line : Type 0 where
  loaded : ℕ → ℕ → Line
  stored : ℕ → ℕ → Line

-- The loop of `main`, over the commands to come; `scanf` cuts an address to 32 bits and a value
-- to 8.
unfoldable pub rounds : List Command → Machine → Option (List Line × Machine)
rounds [] m = some ([], m)
rounds (Command.quit ∷ commands) m = some ([], m)
rounds (Command.other va ∷ commands) m = rounds commands m
rounds (Command.load_at va ∷ commands) m = do
  (value, m') ← load (va % 2 ^ 32) m
  (lines, m'') ← rounds commands m'
  some (Line.loaded (va % 2 ^ 32) value ∷ lines, m'')
rounds (Command.store_at va value ∷ commands) m = do
  m' ← store (va % 2 ^ 32) (value % 2 ^ 8) m
  (lines, m'') ← rounds commands m'
  some (Line.stored (va % 2 ^ 32) (value % 2 ^ 8) ∷ lines, m'')

-- `main` up to `print_statistics`: the lines of its loads and stores, and the machine at the end.
unfoldable pub main : List Command → Option (List Line × Machine)
main commands = rounds commands init
