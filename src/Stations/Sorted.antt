-- ===== src/Stations/Sorted.antt =====
-- Hard Disk and File IO/q1.c: the sort of the stations.
use Prim.Native.Nat.{Ordering}
use os_in_parts.Prelude.{
  ◌≡◌, ◌≢◌, refl, ◌∙◌, subst, arith, false, none, some, List, [], ◌∷◌, All, All-imp, ◌⊎◌, inl, inr,
  if◌then◌else◌, Bool-cases,
}
use os_in_parts.Prelude.Strings.{Bytes}
use os_in_parts.Prelude.Names.{
  strcmp, same_name, strcmp_refl, strcmp-eq, strcmp-gt, strcmp_trans, same_name-true, same_name_sym,
}
use os_in_parts.Stations.Defs.{StationData, insert_station, sort_stations}
use os_in_parts.Stations.Names.{lookup, Distinct}

module _ {W : Type 0} where
  abbrev pub Before : Bytes → StationData W → Type 0
  Before name x = strcmp name x.name ≡ Ordering.lt

  -- Each name is less than those after it.
  unfoldable pub Ascending : List (StationData W) → Type 0
  Ascending [] = Unit
  Ascending (s ∷ stations) = All (Before s.name) stations × Ascending stations

  -- A station with a new name is inserted.
  insert_station-lookup :
      (s : StationData W) (stations : List (StationData W)) (n : Bytes)
      → lookup s.name stations ≡ none
      → lookup n (insert_station s stations)
        ≡ (if same_name s.name n then some s else lookup n stations)
  unfolding lookup insert_station
  insert_station-lookup s [] n e = refl
  insert_station-lookup s (x ∷ stations) n e = elim (Bool-cases (same_name x.name s.name)) [
    | inl same ↦ absurd (ground arith)
    | inr other ↦ elim (Bool-cases (same_name x.name n)) [
      | inl same ↦
          let apart : same_name s.name n ≡ false =
            same_name_sym n s.name
              (subst (λ y. same_name y s.name ≡ false) (same_name-true x.name n same) other) in
          ground (arith, apart)
      | inr other' ↦ ground (arith, insert_station-lookup s stations n)
    ]
  ]

  -- It goes behind a smaller name, or here.
  insert_station-cons :
      (s x : StationData W) (stations : List (StationData W))
      → ((strcmp s.name x.name ≡ Ordering.gt)
          × (insert_station s (x ∷ stations) ≡ x ∷ insert_station s stations))
        ⊎ ((strcmp s.name x.name ≢ Ordering.gt)
            × (insert_station s (x ∷ stations) ≡ s ∷ x ∷ stations))
  unfolding insert_station
  insert_station-cons s x stations = ground arith

  insert_station-All :
      (P : StationData W → Type 0) (s : StationData W) (stations : List (StationData W))
      → P s
      → All P stations
      → All P (insert_station s stations)
  insert_station-All P s [] p h = unfold insert_station in (p, tt)
  insert_station-All P s (x ∷ stations) p h = elim (insert_station-cons s x stations) [
    | inl (gt, e) ↦ rw e (h.0, insert_station-All P s stations p h.1)
    | inr (le, e) ↦ rw e (p, h)
  ]

  -- A name that is not there and not greater than the first is less.
  lookup_less :
      (s x : StationData W) (stations : List (StationData W))
      → lookup s.name (x ∷ stations) ≡ none
      → strcmp s.name x.name ≢ Ordering.gt
      → Before s.name x
  unfolding lookup
  lookup_less s x stations e le = ground (arith, strcmp-eq s.name x.name, strcmp_refl s.name, e, le)

  insert_station-Ascending :
      (s : StationData W) (stations : List (StationData W))
      → lookup s.name stations ≡ none
      → Ascending stations
      → Ascending (insert_station s stations)
  unfolding Ascending
  insert_station-Ascending s [] e v = unfold insert_station in (tt, tt)
  insert_station-Ascending s (x ∷ stations) e v = elim (insert_station-cons s x stations) [
    | inl (gt, same) ↦ rw same (
      insert_station-All (Before x.name) s stations (strcmp-gt s.name x.name gt) v.0,
      insert_station-Ascending s stations (unfold lookup in ground (arith, e, gt)) v.1,
    )
    | inr (le, same) ↦
        let less = lookup_less s x stations e le in
        rw same (
          (
            less,
            All-imp (Before x.name) (Before s.name)
                (λ y h. strcmp_trans s.name x.name y.name less h) stations v.0,
          ),
          v,
        )
  ]

  -- The sorted array has the same stations, with names in ascending order.
  pub sort_stations-lookup :
      (stations : List (StationData W)) (n : Bytes)
      → Distinct stations
      → lookup n (sort_stations stations) ≡ lookup n stations
  unfolding lookup sort_stations Distinct
  sort_stations-lookup [] n v = refl
  sort_stations-lookup (s ∷ stations) n v =
      insert_station-lookup s (sort_stations stations) n
        (sort_stations-lookup stations s.name v.1 ∙ v.0)
      ∙ ground (arith, sort_stations-lookup stations n v.1)

  pub sort_stations-Ascending :
      (stations : List (StationData W)) → Distinct stations → Ascending (sort_stations stations)
  unfolding sort_stations Distinct Ascending
  sort_stations-Ascending [] v = tt
  sort_stations-Ascending (s ∷ stations) v =
      insert_station-Ascending s (sort_stations stations)
        (sort_stations-lookup stations s.name v.1 ∙ v.0) (sort_stations-Ascending stations v.1)
