-- ===== src/Disk/Tour.antt =====
-- Hard Disk and File IO/q2.c: an order of the requests, and what is printed for it.
use mathlib.Core.List.{append_assoc}
use os_in_parts.Prelude.{
  ℕ, ◌+◌, ◌-◌, ◌*◌, ◌/◌, ◌%◌, ◌≤◌, ◌<◌, ◌≡◌, ◌∙◌, refl, Bool, true, false, List, [], ◌∷◌, ◌++◌,
  arith, update,
}
use os_in_parts.Disk.Defs.{DiskRequest, Line, Simulation, serve}

abbrev pub apart : ℕ → ℕ → ℕ
apart a b = (a - b) + (b - a)

-- Two milliseconds for each track between two sectors, and their distance within a track.
abbrev pub line_between : ℕ → ℕ → Line
line_between from to = record {
  seek_time = apart (from / 100) (to / 100) * 2;
  sector_diff = apart (from % 100) (to % 100);
}

-- The lines for requests in an order, from the sector `head`.
abbrev pub lines_from : (ℕ → DiskRequest) → ℕ → List ℕ → List Line
lines_from requests head [] = []
lines_from requests head (i ∷ order) =
    line_between head (requests i).sector ∷ lines_from requests (requests i).sector order

-- Each request of an order is still to do, and no other that is still to do has a nearer track.
abbrev pub NearestFirst : (ℕ → DiskRequest) → ℕ → ℕ → (ℕ → Bool) → List ℕ → Type 0
NearestFirst requests n head used [] = Unit
NearestFirst requests n head used (i ∷ order) =
    (i < n)
    × (used i ≡ false)
    × ((j : ℕ)
        → j < n
        → used j ≡ false
        → apart (head / 100) ((requests i).sector / 100)
          ≤ apart (head / 100) ((requests j).sector / 100))
    × NearestFirst requests n (requests i).sector (update used i true) order

-- The head stands at the sector `head`.
pub record IsAt (head : ℕ) (s : Simulation) : Type 0 where
  pub track : s.current_track ≡ head / 100
  pub sector : s.current_sector ≡ head % 100

-- The lines that are printed between two states are those of a tour.
abbrev pub Tours : (ℕ → DiskRequest) → ℕ → ℕ → (s s' : Simulation) → Type 0
Tours requests n head s s' =
    (order : List ℕ) × (s'.lines ≡ s.lines ++ lines_from requests head order)
    × NearestFirst requests n head s.used_requests order

pub serve-IsAt :
    (requests : ℕ → DiskRequest) (i : ℕ) (s : Simulation)
    → IsAt (requests i).sector (serve requests i s)
unfolding serve
serve-IsAt requests i s = record { track = refl; sector = refl }

-- A request that is served first.
pub serve-Tours :
    (requests : ℕ → DiskRequest) (n head i : ℕ) (s s' : Simulation)
    → IsAt head s
    → i < n
    → s.used_requests i ≡ false
    → ((j : ℕ)
        → j < n
        → s.used_requests j ≡ false
        → apart s.current_track ((requests i).sector / 100)
          ≤ apart s.current_track ((requests j).sector / 100))
    → Tours requests n (requests i).sector (serve requests i s) s'
    → Tours requests n head s s'
unfolding serve
serve-Tours requests n head i s s' at lt free best (order, printed, nearest) = (
  i ∷ order,
  printed
      ∙ append_assoc s.lines _ (lines_from requests (requests i).sector order)
      ∙ rw (at.track, at.sector) refl,
  (lt, free, (λ j h f. omega (arith, best j h f, at.track)), nearest),
)
