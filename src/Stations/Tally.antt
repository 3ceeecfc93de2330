-- ===== src/Stations/Tally.antt =====
-- Hard Disk and File IO/q1.c: what the lines of a file leave in the array of stations.
use os_in_parts.Prelude.{
  ◌-◌, ◌≤◌, ◌<◌, ◌≡◌, refl, ◌∙◌, subst, arith, true, Option, none, some, List, [], ◌∷◌, ◌++◌,
  length, set, All, get_elem?-append_last, set-append_last, inl, inr, if◌then◌else◌, Bool-cases,
  Option-cases,
}
use os_in_parts.Prelude.Names.{same_name, same_name-true}
use os_in_parts.Stations.Double.{Double}
use os_in_parts.Prelude.Strings.{Bytes, c_string}
use os_in_parts.Stations.Defs.{
  max_stations, max_name_length, StationData, split_at_semicolon, find_station, new_station,
  find_or_add_station, add_temperature, tally, process_line,
}
use os_in_parts.Stations.Names.{
  lookup, lookup-name, Distinct, find_station-none, find_station-some, lookup-append,
  append-Distinct, set-Distinct,
}
use os_in_parts.Stations.Known.{is_in, Known, length-Known}
use os_in_parts.Stations.Same.{tally_lines}

-- The name and the temperature of a line, if it has a `;`.
abbrev pub reading : Bytes → Option (Bytes × Bytes)
reading line = split_at_semicolon (c_string line)

-- A name that fits into a station, and is among the known ones.
abbrev pub NameFits : List Bytes → Bytes → Type 0
NameFits known name = (length name < max_name_length - 1) × (is_in name known ≡ true)

abbrev pub LineFits : List Bytes → Bytes → Type 0
LineFits known line = (name value : Bytes) → reading line ≡ some (name, value) → NameFits known name

module _ {W : Type 0} ⦃d : Double W⦄ where
  -- The temperatures of a name, in the order of the lines.
  unfoldable pub temperatures : Bytes → List Bytes → List W
  temperatures name [] = []
  temperatures name (line ∷ lines) =
      let rest = temperatures name lines in
      elim (reading line) [
        | none ↦ rest
        | some (n, value) ↦ if same_name n name then d.atof value ∷ rest else rest
      ]

  abbrev pub or_new : Bytes → Option (StationData W) → StationData W
  or_new name none = new_station name
  or_new name (some s) = s

  or_new-name :
      (name : Bytes) (stations : List (StationData W))
      → (or_new name (lookup name stations)).name ≡ name
  or_new-name name stations = elim (Option-cases (lookup name stations)) [
    | inl e ↦ ground (arith, e)
    | inr (s, e) ↦ ground (arith, e, lookup-name name stations s e)
  ]

  -- A new name finds room.
  has_room :
      (known : List Bytes) (name : Bytes) (stations : List (StationData W))
      → length known ≤ max_stations
      → is_in name known ≡ true
      → Distinct stations
      → Known known stations
      → lookup name stations ≡ none
      → length stations < max_stations
  unfolding lookup Distinct
  has_room known name stations few here v among new =
      let rest =
        length-Known (new_station name ∷ stations) known (new, v)
          (λ n s e. elim (Bool-cases (same_name name n)) [
            | inl same ↦ subst (λ y. is_in y known ≡ true) (same_name-true name n same) here
            | inr other ↦ among n s (ground (arith, e))
          ]) in
      omega arith

  -- One reading changes the station of its name, and no other.
  tally_lem :
      (known : List Bytes) (name : Bytes) (t : W) (stations : List (StationData W))
      → length known ≤ max_stations
      → NameFits known name
      → Distinct stations
      → Known known stations
      → (stations' : List (StationData W)) × (tally name t stations ≡ some stations')
        × Distinct stations'
        × ((n : Bytes)
            → lookup n stations' ≡ (
                if same_name name n
                then some (add_temperature t (or_new name (lookup name stations)))
                else lookup n stations))
  unfolding find_or_add_station
  tally_lem known name t stations few fits v among =
      elim (Option-cases (find_station stations name)) [
        | inr (i, found) ↦
            let (s, at, seen, written) = find_station-some stations name i found in
            let same = lookup-name name stations s seen in
            (
              set stations i (add_temperature t s),
              ground (arith, found, at),
              set-Distinct stations name i (add_temperature t s) found same v,
              λ n. rw seen (written (add_temperature t s) same n),
            )
        | inl missing ↦
            let new = find_station-none stations name missing in
            let room : length stations < max_stations =
              has_room known name stations few fits.1 v among new in
            let s = add_temperature t (new_station name) in
            (
              stations ++ s ∷ [],
              ground (
                arith,
                missing,
                room,
                fits.0,
                get_elem?-append_last stations (new_station name),
                set-append_last stations (new_station name) s,
              ),
              append-Distinct stations s new v,
              λ n. rw new (lookup-append stations s n new),
            )
      ]

  abbrev pub add_all : List W → StationData W → StationData W
  add_all [] s = s
  add_all (t ∷ ts) s = add_all ts (add_temperature t s)

  -- The station of a name after more temperatures of it.
  abbrev pub extended : Bytes → Option (StationData W) → List W → Option (StationData W)
  extended name o [] = o
  extended name o (t ∷ ts) = some (add_all (t ∷ ts) (or_new name o))

  extended-some :
      (n : Bytes) (ts : List W) (s : StationData W) → extended n (some s) ts ≡ some (add_all ts s)
  extended-some n [] s = refl
  extended-some n (t ∷ ts) s = refl

  next-Known :
      (known : List Bytes) (name : Bytes) (s : StationData W) (stations next : List (StationData W))
      → is_in name known ≡ true
      → Known known stations
      → ((n : Bytes) → lookup n next ≡ (if same_name name n then some s else lookup n stations))
      → Known known next
  next-Known known name s stations next here among seen n x f =
      elim (Bool-cases (same_name name n)) [
        | inl same ↦ subst (λ y. is_in y known ≡ true) (same_name-true name n same) here
        | inr other ↦ among n x (ground (arith, seen n, f))
      ]

  pub tally_lines_lem :
      (known lines : List Bytes) (stations : List (StationData W))
      → length known ≤ max_stations
      → All (LineFits known) lines
      → Distinct stations
      → Known known stations
      → (stations' : List (StationData W)) × (tally_lines lines stations ≡ some stations')
        × Distinct stations'
        × ((n : Bytes) → lookup n stations' ≡ extended n (lookup n stations) (temperatures n lines))
  unfolding tally_lines temperatures process_line
  tally_lines_lem known [] stations few fits v among = (stations, refl, v, λ n. refl)
  tally_lines_lem known (line ∷ lines) stations few fits v among =
      elim (Option-cases (reading line)) [
        | inl skipped ↦
            let (stations', run, v', seen) =
              tally_lines_lem known lines stations few fits.1 v among in
            (stations', ground (arith, skipped, run), v', λ n. ground (arith, skipped, seen n))
        | inr (found, e) ↦
            let fit = fits.0 found.0 found.1 e in
            let (next, first, v1, seen1) =
              tally_lem known found.0 (d.atof found.1) stations few fit v among in
            let (stations', run, v', seen) =
              tally_lines_lem known lines next few fits.1 v1
                (next-Known known found.0 _ stations next fit.1 among seen1) in
            (
              stations',
              ground (arith, e, first, run),
              v',
              λ n. seen n ∙ elim (Bool-cases (same_name found.0 n)) [
                | inl same ↦
                    let at = same_name-true found.0 n same in
                    ground (arith, e, same, seen1 n, at, extended-some n (temperatures n lines) _)
                | inr other ↦ ground (arith, e, other, seen1 n)
              ],
            )
      ]
