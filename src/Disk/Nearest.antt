-- ===== src/Disk/Nearest.antt =====
-- Hard Disk and File IO/q2.c: what `find_nearest_request` finds.
use os_in_parts.Prelude.{
  ℕ, zero, suc, ◌+◌, ◌≤◌, ◌<◌, ◌≡◌, refl, Bool, true, false, Option, none, some, arith,
  if◌then◌else◌, Bool-cases, subst, dec_lt, inl, inr,
}
use os_in_parts.Prelude.Int.{int_max}
use os_in_parts.Disk.Defs.{
  DiskRequest, calculate_track, track_distance, Nearest, no_nearest, consider_request,
  find_nearest_from, find_nearest_request,
}

module _ (requests : ℕ → DiskRequest) (current_track : ℕ) (used_requests : ℕ → Bool) where
  abbrev pub distance_to : ℕ → ℕ
  distance_to i = track_distance current_track (calculate_track (requests i).sector)

  -- What the search knows once it has seen the requests below `i`.
  data Seen (i : ℕ) (b : Nearest) : Type 0 where
    nothing : b ≡ no_nearest → ((j : ℕ) → j < i → used_requests j ≡ true) → Seen i b
    found :
        (m : ℕ)
        → b ≡ record { nearest_index = some m; min_distance = distance_to m }
        → m < i
        → used_requests m ≡ false
        → ((j : ℕ) → j < i → used_requests j ≡ false → distance_to m ≤ distance_to j)
        → ((j : ℕ) → j < m → used_requests j ≡ false → distance_to m < distance_to j)
        → Seen i b

  Seen-suc :
      (i : ℕ) (b : Nearest)
      → distance_to i < int_max
      → Seen i b
      → Seen (i + 1) (consider_request requests current_track used_requests i b)
  unfolding consider_request
  Seen-suc i b small (Seen.nothing e all_used) = elim (Bool-cases (used_requests i)) [
    | inl used ↦ rw (used, if◌then◌else◌) (Seen.nothing e (λ j h. ground (arith, all_used j)))
    | inr free ↦
        Seen.found i (ground arith) (omega arith) free (λ j h f. ground (arith, all_used j))
          (λ j h f. absurd (ground (arith, all_used j)))
  ]
  Seen-suc i b small (Seen.found m e lt free best first) = elim (Bool-cases (used_requests i)) [
    | inl used ↦
        rw (used, if◌then◌else◌)
          (Seen.found m e (omega arith) free (λ j h f. ground (arith, best j)) first)
    | inr now ↦ elim (dec_lt (distance_to i) (distance_to m)) [
      | yes nearer ↦
          Seen.found i (ground arith) (omega arith) now (λ j h f. ground (arith, best j))
            (λ j h f. omega (arith, best j h f))
      | no not_nearer ↦
          Seen.found m (ground arith) (omega arith) free (λ j h f. ground (arith, best j)) first
    ]
  ]

  Seen-find_nearest_from :
      (n i : ℕ) (b : Nearest)
      → ((j : ℕ) → j < i + n → distance_to j < int_max)
      → Seen i b
      → Seen (i + n) (find_nearest_from requests current_track used_requests n i b)
  unfolding find_nearest_from
  Seen-find_nearest_from zero i b small seen = let e : i ≡ i + 0 = omega arith in rw (← e) seen
  Seen-find_nearest_from (suc n) i b small seen =
      let e : i + 1 + n ≡ i + suc n = omega arith in
      subst (λ k. Seen k (find_nearest_from requests current_track used_requests (suc n) i b)) e
        (Seen-find_nearest_from n (i + 1)
          (consider_request requests current_track used_requests i b) (λ j h. small j (omega arith))
          (Seen-suc i b (small i (omega arith)) seen))

  -- How the search ends.
  pub data Found (n : ℕ) : Option ℕ → Type 0 where
    all_used : ((j : ℕ) → j < n → used_requests j ≡ true) → Found n none
    nearest :
        (m : ℕ)
        → m < n
        → used_requests m ≡ false
        → ((j : ℕ) → j < n → used_requests j ≡ false → distance_to m ≤ distance_to j)
        → ((j : ℕ) → j < m → used_requests j ≡ false → distance_to m < distance_to j)
        → Found n (some m)

  -- If every distance is below INT_MAX, the search finds a request exactly if one is unused. No
  -- unused request is nearer than the one that it finds, and none before it is as near.
  pub find_nearest_request-Found :
      (n : ℕ)
      → ((j : ℕ) → j < n → distance_to j < int_max)
      → Found n (find_nearest_request requests n current_track used_requests)
  unfolding find_nearest_request
  find_nearest_request-Found n small = ends (
      Seen-find_nearest_from n 0 no_nearest (λ j h. small j (omega arith))
        (Seen.nothing refl (λ j h. absurd (omega arith))))
    where
      ends : {b : Nearest} → Seen (0 + n) b → Found n b.nearest_index
      ends (Seen.nothing e used) = rw e (Found.all_used (λ j h. used j (omega arith)))
      ends (Seen.found m e lt free best first) =
          rw e (Found.nearest m (omega arith) free (λ j h. best j (omega arith)) first)
