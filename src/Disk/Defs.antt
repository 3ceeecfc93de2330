-- ===== src/Disk/Defs.antt =====
-- Hard Disk and File IO/q2.c: disk head scheduling by the shortest seek time first.
-- Sectors are taken not to be negative. The array of requests is a function of the index, below
-- `num_requests`. A seek time is a whole number of milliseconds; a rotational latency is a fixed
-- multiple, in floating point, of the difference of two sectors, which is kept in its place.
use os_in_parts.Prelude.{
  ℕ, zero, suc, ◌+◌, ◌-◌, ◌*◌, ◌/◌, ◌%◌, Bool, true, false, Option, none, some, List, [], ◌∷◌, ◌++◌,
  ltb, if◌then◌else◌, update,
}
use os_in_parts.Prelude.Int.{int_max}

abbrev pub sectors_per_track : ℕ
sectors_per_track = 100

abbrev pub seek_time_per_track : ℕ
seek_time_per_track = 2

abbrev pub initial_head_position : ℕ
initial_head_position = 100

pub record DiskRequest : Type 0 where
  pub sector : ℕ
  pub track : ℕ

abbrev pub calculate_track : ℕ → ℕ
calculate_track sector = sector / sectors_per_track

-- `abs` of the difference.
abbrev pub track_distance : ℕ → ℕ → ℕ
track_distance current_track target_track =
    (current_track - target_track) + (target_track - current_track)

unfoldable pub calculate_seek_time : ℕ → ℕ → ℕ
calculate_seek_time current_track target_track =
    track_distance current_track target_track * seek_time_per_track

-- `sector_diff` of `calculate_rotational_latency`.
unfoldable pub calculate_sector_diff : ℕ → ℕ → ℕ
calculate_sector_diff initial_sector target_sector =
    (initial_sector - target_sector) + (target_sector - initial_sector)

-- The local variables of the search; `none` is the index -1.
pub record Nearest : Type 0 where
  pub nearest_index : Option ℕ
  pub min_distance : ℕ

abbrev pub no_nearest : Nearest
no_nearest = record { nearest_index = none; min_distance = int_max }

-- The body of the search at index `i`.
unfoldable pub consider_request : (ℕ → DiskRequest) → ℕ → (ℕ → Bool) → ℕ → Nearest → Nearest
consider_request requests current_track used_requests i b =
    let distance = track_distance current_track (calculate_track (requests i).sector) in
    if used_requests i
    then b
    else if ltb distance b.min_distance
    then record { nearest_index = some i; min_distance = distance }
    else b

-- The loop of the search, with `n` rounds left from index `i`.
unfoldable pub find_nearest_from :
    (ℕ → DiskRequest) → ℕ → (ℕ → Bool) → (n i : ℕ) → Nearest → Nearest
unfolding consider_request
find_nearest_from requests current_track used_requests zero i b = b
find_nearest_from requests current_track used_requests (suc n) i b =
    find_nearest_from requests current_track used_requests n (i + 1)
      (consider_request requests current_track used_requests i b)

unfoldable pub find_nearest_request : (ℕ → DiskRequest) → ℕ → ℕ → (ℕ → Bool) → Option ℕ
unfolding find_nearest_from
find_nearest_request requests num_requests current_track used_requests =
    (find_nearest_from requests current_track used_requests num_requests 0 no_nearest).nearest_index

-- What is printed for a request.
pub record Line : Type 0 where
  pub seek_time : ℕ
  pub sector_diff : ℕ

-- The local variables of `simulate_sstf`, with the lines printed so far.
pub record Simulation : Type 0 where
  pub current_track : ℕ
  pub current_sector : ℕ
  pub used_requests : ℕ → Bool
  pub total_seek_time : ℕ
  pub total_sector_diff : ℕ
  pub lines : List Line

abbrev pub initial : Simulation
initial = record {
  current_track = calculate_track initial_head_position;
  current_sector = initial_head_position % sectors_per_track;
  used_requests = λ _. false;
  total_seek_time = 0;
  total_sector_diff = 0;
  lines = [];
}

-- The body of the loop once the request at `i` is found.
unfoldable pub serve : (ℕ → DiskRequest) → ℕ → Simulation → Simulation
unfolding calculate_seek_time calculate_sector_diff
serve requests i s =
    let target_track = calculate_track (requests i).sector in
    let target_sector = (requests i).sector % sectors_per_track in
    let seek_time = calculate_seek_time s.current_track target_track in
    let sector_diff = calculate_sector_diff s.current_sector target_sector in
    record {
      current_track = target_track;
      current_sector = target_sector;
      used_requests = update s.used_requests i true;
      total_seek_time = s.total_seek_time + seek_time;
      total_sector_diff = s.total_sector_diff + sector_diff;
      lines = s.lines ++ (record { seek_time = seek_time; sector_diff = sector_diff } ∷ []);
    }

-- The loop, with `k` rounds left; `none` is a write at index -1.
unfoldable pub simulate_from : ℕ → (ℕ → DiskRequest) → ℕ → Simulation → Option Simulation
simulate_from zero requests num_requests s = some s
simulate_from (suc k) requests num_requests s =
    elim (find_nearest_request requests num_requests s.current_track s.used_requests) [
      | none ↦ none
      | some i ↦ simulate_from k requests num_requests (serve requests i s)
    ]

unfoldable pub simulate_sstf : (ℕ → DiskRequest) → ℕ → Option Simulation
simulate_sstf requests num_requests = simulate_from num_requests requests num_requests initial

-- The array that `main` fills from the sectors typed in.
abbrev pub request : ℕ → DiskRequest
request sector = record { sector = sector; track = calculate_track sector }
