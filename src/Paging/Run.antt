-- ===== src/Paging/Run.antt =====
-- Segmentation, Paging, IPC/q3.c: `main`.
use os_in_parts.Prelude.{
  ℕ, ◌%◌, ◌^◌, Bool, false, ◌||◌, List, [], ◌∷◌, ◌++◌, length, ltb, ◌==◌, if◌then◌else◌,
}
use os_in_parts.Paging.Defs.{
  Mmu, out_of_bounds, Result, ok, fault, ◌>>=◌, globals, init_page_table, init_tlb,
  translate_address,
}

-- One input that `scanf` reads: a word that starts with `q` or `Q`, or a word with the number
-- that `strtol` makes of it.
pub data Input : Type 0 where
  quit : Input
  hex : ℕ → Input

-- What one round prints.
pub record Line : Type 0 where
  pub logical : ℕ
  pub physical : ℕ
  pub hit : Bool

-- The length of `previous_addresses`.
abbrev pub max_previous : ℕ
max_previous = 100

-- The local variables of `main` with the globals: the first `address_count` elements of
-- `previous_addresses`.
pub record Session : Type 0 where
  pub mmu : Mmu
  pub previous_addresses : List ℕ

unfoldable pub contains : ℕ → List ℕ → Bool
contains a [] = false
contains a (x ∷ xs) = x == a || contains a xs

-- The scan of `previous_addresses`, and the new element if the address is not there.
unfoldable pub remember : ℕ → List ℕ → Result (List ℕ)
unfolding contains
remember a previous =
    if contains a previous
    then ok previous
    else if ltb (length previous) max_previous
    then ok (previous ++ (a ∷ []))
    else fault out_of_bounds

-- One round of the loop. `tlb_hit` is overwritten by `translate_address`.
unfoldable pub round : ℕ → Session → Result (Line × Session)
round number s = do
  let logical_addr = number % 2 ^ 16
  previous ← remember logical_addr s.previous_addresses
  (t, mmu) ← translate_address logical_addr s.mmu
  ok (
    record { logical = logical_addr; physical = t.physical_addr; hit = t.tlb_hit },
    record { mmu = mmu; previous_addresses = previous },
  )

-- The loop of `main`, over the inputs to come.
unfoldable pub rounds : List Input → Session → Result (List Line × Session)
rounds [] s = ok ([], s)
rounds (Input.quit ∷ inputs) s = ok ([], s)
rounds (Input.hex number ∷ inputs) s = do
  (line, s') ← round number s
  (lines, s'') ← rounds inputs s'
  ok (line ∷ lines, s'')

abbrev pub start : Session
start = record { mmu = init_tlb (init_page_table globals); previous_addresses = [] }

unfoldable pub main : List Input → Result (List Line × Session)
main inputs = rounds inputs start
