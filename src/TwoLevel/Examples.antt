-- ===== src/TwoLevel/Examples.antt =====
-- Segmentation, Paging, IPC/q4.c: a short run.
use os_in_parts.Prelude.{
  ℕ, ◌+◌, ◌%◌, ◌^◌, ◌<◌, ◌≡◌, some, List, [], ◌∷◌, ◌==◌, if◌then◌else◌, arith,
}
use os_in_parts.TwoLevel.Defs.{Machine, init, store, Command, main}
use os_in_parts.TwoLevel.Invariant.{IsValid}
use os_in_parts.TwoLevel.Memory.{peek, store-peek}
use os_in_parts.TwoLevel.Flat.{flat, accesses_in, init-IsValid, main-flat}

-- Two pages, and a load of a byte that was never stored.
abbrev commands : List Command
commands =
    Command.store_at 0x1000 7
    ∷ Command.store_at 0x400000 300
    ∷ Command.load_at 0x1000
    ∷ Command.load_at 0x1001
    ∷ Command.quit
    ∷ []

store-peek_example :
    (m' : Machine) × (store 0x1000 7 init ≡ some m')
    × IsValid m'
    × ((va' : ℕ) → va' < 2 ^ 32 → peek m' va' ≡ (if 0x1000 == va' then 7 else peek init va'))
    × ((m'.page_faults + m'.page_hits) % 2 ^ 32 ≡ (init.page_faults + init.page_hits + 1) % 2 ^ 32)
store-peek_example = store-peek 0x1000 7 init init-IsValid (omega arith)

main-flat_example :
    (m : Machine) × (main commands ≡ some (flat commands (λ _. 0), m))
    × (m.page_faults ≡ m.next_frame)
    × ((m.page_faults + m.page_hits) % 2 ^ 32 ≡ accesses_in commands % 2 ^ 32)
main-flat_example = main-flat commands
