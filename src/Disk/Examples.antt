-- ===== src/Disk/Examples.antt =====
-- Hard Disk and File IO/q2.c: three requests.
use os_in_parts.Prelude.{
  ℕ, ◌<◌, ◌≡◌, refl, true, false, Option, none, some, List, [], ◌∷◌, arith, length, sum_by, map,
  if◌then◌else◌, ◌==◌,
}
use os_in_parts.Disk.Defs.{
  DiskRequest, request, find_nearest_request, Simulation, simulate_sstf, simulate_from, serve,
}
use os_in_parts.Disk.Tour.{lines_from, NearestFirst}
use os_in_parts.Disk.Simulation.{simulate_sstf_completes}

-- Sectors 450, 120 and 380.
abbrev requests : ℕ → DiskRequest
requests i = if i == 0 then request 450 else if i == 1 then request 120 else request 380

seek_times : Option Simulation → List ℕ
seek_times none = []
seek_times (some s) = map (λ l. l.seek_time) s.lines

sstf-seek_times : seek_times (simulate_sstf requests 3) ≡ 0 ∷ 4 ∷ 2 ∷ []
unfolding seek_times simulate_sstf simulate_from serve find_nearest_request
sstf-seek_times = refl

simulate_sstf_completes_example :
    (s : Simulation) × (simulate_sstf requests 3 ≡ some s)
    × ((i : ℕ) → i < 3 → s.used_requests i ≡ true)
    × (length s.lines ≡ 3)
    × (s.total_seek_time ≡ sum_by (λ l. l.seek_time) s.lines)
    × (s.total_sector_diff ≡ sum_by (λ l. l.sector_diff) s.lines)
    × ((order : List ℕ) × (s.lines ≡ lines_from requests 100 order)
        × NearestFirst requests 3 100 (λ _. false) order)
simulate_sstf_completes_example = simulate_sstf_completes requests 3 (λ i h. ground arith)
