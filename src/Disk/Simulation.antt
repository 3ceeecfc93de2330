-- ===== src/Disk/Simulation.antt =====
-- Hard Disk and File IO/q2.c: what `simulate_sstf` makes of all requests.
use mathlib.Core.List.{append-nil}
use os_in_parts.Prelude.{
  List, sym, ℕ, zero, suc, ◌+◌, ◌/◌, ◌≤◌, ◌<◌, ◌≡◌, refl, true, false, Option, none, some, [], ◌∷◌,
  arith, length, length-append, sum_by, sum_by-append, weight, total, total-update, count_gap,
  count_all, total-zero,
}
use os_in_parts.Prelude.Int.{int_max}
use os_in_parts.Disk.Defs.{
  DiskRequest, find_nearest_request, Simulation, initial, serve, simulate_from, simulate_sstf,
}
use os_in_parts.Disk.Tour.{IsAt, Tours, lines_from, NearestFirst, serve-IsAt, serve-Tours}
use os_in_parts.Disk.Nearest.{Found, find_nearest_request-Found}

-- What holds with `k` rounds left.
record Inv (n k : ℕ) (s : Simulation) : Type 0 where
  counted : total weight n s.used_requests + k ≡ n
  printed : length s.lines + k ≡ n
  seek : s.total_seek_time ≡ sum_by (λ l. l.seek_time) s.lines
  sectors : s.total_sector_diff ≡ sum_by (λ l. l.sector_diff) s.lines
  on_disk : s.current_track ≤ int_max / 100

serve-Inv :
    (requests : ℕ → DiskRequest) (n k i : ℕ) (s : Simulation)
    → i < n
    → (requests i).sector ≤ int_max
    → s.used_requests i ≡ false
    → Inv n (suc k) s
    → Inv n k (serve requests i s)
unfolding serve
serve-Inv requests n k i s lt small free v = record {
  counted = ground (arith, v.counted, total-update weight n s.used_requests i true);
  printed = omega (arith, v.printed, length-append s.lines (_ ∷ []));
  seek = omega (arith, v.seek, sum_by-append (λ l. l.seek_time) s.lines (_ ∷ []));
  sectors = omega (arith, v.sectors, sum_by-append (λ l. l.sector_diff) s.lines (_ ∷ []));
  on_disk = omega arith;
}

module _ (requests : ℕ → DiskRequest) (n : ℕ)
    (small : (i : ℕ) → i < n → (requests i).sector ≤ int_max) where
  -- How the rounds that are left end.
  Ends : ℕ → Simulation → Option Simulation → Type 0
  Ends head s o = (s' : Simulation) × (o ≡ some s') × Inv n 0 s' × Tours requests n head s s'

  -- While a round is left, a request is unused.
  round-Ends :
      (k head : ℕ) (s : Simulation) (o : Option ℕ)
      → Inv n (suc k) s
      → IsAt head s
      → Found requests s.current_track s.used_requests n o
      → ((head' : ℕ) (s' : Simulation)
          → Inv n k s'
          → IsAt head' s'
          → Ends head' s' (simulate_from k requests n s'))
      → Ends head s
          (elim o [ none ↦ none | some i ↦ simulate_from k requests n (serve requests i s) ])
  unfolding Ends
  round-Ends k head s none v at (Found.all_used used) rest =
      let (j, lt, free) = count_gap n s.used_requests (omega (arith, v.counted)) in
      absurd (let e = used j lt in cc)
  round-Ends k head s (some i) v at (Found.nearest _ lt free best first) rest =
      let (s', e, done, tours) =
        rest (requests i).sector (serve requests i s)
          (serve-Inv requests n k i s lt (small i lt) free v) (serve-IsAt requests i s) in
      (s', e, done, serve-Tours requests n head i s s' at lt free best tours)

  simulate_from-Ends :
      (k head : ℕ) (s : Simulation)
      → Inv n k s
      → IsAt head s
      → Ends head s (simulate_from k requests n s)
  unfolding simulate_from Ends
  simulate_from-Ends zero head s v at = (s, refl, v, ([], sym (append-nil s.lines), tt))
  simulate_from-Ends (suc k) head s v at =
      round-Ends k head s (find_nearest_request requests n s.current_track s.used_requests) v at
        (find_nearest_request-Found requests s.current_track s.used_requests n
          (λ j lt. let h = small j lt in omega (arith, v.on_disk)))
        (λ head' s' v' at'. simulate_from-Ends k head' s' v' at')

  -- With sectors of at most INT_MAX the simulation finds a request in each of its `n` rounds. At the
  -- end every request has been used, one line has been printed for each, and the totals are the sums
  -- of the lines. The lines are those of a tour of the requests from sector 100 on which each is the
  -- nearest in tracks of those still to do: for each, twice the number of tracks from the one before, and
  -- the difference of their sectors within a track.
  pub simulate_sstf_completes :
      (s : Simulation) × (simulate_sstf requests n ≡ some s)
      × ((i : ℕ) → i < n → s.used_requests i ≡ true)
      × (length s.lines ≡ n)
      × (s.total_seek_time ≡ sum_by (λ l. l.seek_time) s.lines)
      × (s.total_sector_diff ≡ sum_by (λ l. l.sector_diff) s.lines)
      × ((order : List ℕ) × (s.lines ≡ lines_from requests 100 order)
          × NearestFirst requests n 100 (λ _. false) order)
  unfolding simulate_sstf Ends
  simulate_sstf_completes =
      let (s, e, v, tour) =
        simulate_from-Ends n 100 initial
          (record {
            counted = omega (arith, total-zero weight n false refl);
            printed = omega arith;
            seek = refl;
            sectors = refl;
            on_disk = omega arith;
          })
          (record { track = refl; sector = refl }) in
      (
        s,
        e,
        count_all n s.used_requests (omega (arith, v.counted)),
        omega (arith, v.printed),
        v.seek,
        v.sectors,
        tour,
      )
