-- ===== src/Stations/Names.antt =====
-- Hard Disk and File IO/q1.c: the order of names, and stations found by their names.
use os_in_parts.Prelude.{
  ℕ, suc, ◌≡◌, refl, ◌∙◌, subst, arith, false, Option, none, some, List, [], ◌∷◌, ◌++◌, get_elem?,
  set, inl, inr, if◌then◌else◌, Bool-cases, Option-cases,
}
use os_in_parts.Prelude.Strings.{Bytes}
use os_in_parts.Prelude.Names.{same_name, same_name-true, same_name_sym}
use os_in_parts.Stations.Defs.{StationData, find_station}

module _ {W : Type 0} where
  -- The first station with a name.
  unfoldable pub lookup : Bytes → List (StationData W) → Option (StationData W)
  lookup name [] = none
  lookup name (s ∷ stations) =
      let rest = lookup name stations in if same_name s.name name then some s else rest

  pub lookup-name :
      (name : Bytes) (stations : List (StationData W)) (s : StationData W)
      → lookup name stations ≡ some s
      → s.name ≡ name
  unfolding lookup
  lookup-name name [] s e = absurd (cc)
  lookup-name name (x ∷ stations) s e = elim (Bool-cases (same_name x.name name)) [
    | inl same ↦ ground (arith, same_name-true x.name name same)
    | inr other ↦ lookup-name name stations s (ground arith)
  ]

  -- No two stations have one name.
  unfoldable pub Distinct : List (StationData W) → Type 0
  Distinct [] = Unit
  Distinct (s ∷ stations) = (lookup s.name stations ≡ none) × Distinct stations

  pub find_station-none :
      (stations : List (StationData W)) (name : Bytes)
      → find_station stations name ≡ none
      → lookup name stations ≡ none
  unfolding find_station lookup
  find_station-none [] name e = refl
  find_station-none (s ∷ stations) name e = ground (arith, find_station-none stations name)

  -- After a write of a station with the name at the index that is found, the name has that station,
  -- and the other names have the stations that they had.
  pub find_station-some :
      (stations : List (StationData W)) (name : Bytes) (i : ℕ)
      → find_station stations name ≡ some i
      → (s : StationData W) × (get_elem? stations i ≡ some s)
        × (lookup name stations ≡ some s)
        × ((s' : StationData W)
            → s'.name ≡ name
            → (n : Bytes)
            → lookup n (set stations i s')
              ≡ (if same_name name n then some s' else lookup n stations))
  unfolding find_station lookup
  find_station-some [] name i e = absurd (cc)
  find_station-some (s ∷ stations) name i e = elim (Bool-cases (same_name s.name name)) [
    | inl same ↦
        let zeroth : i ≡ 0 = ground (arith, e) in
        let at = same_name-true s.name name same in
        (s, ground (arith, zeroth), ground arith, λ s' f n. ground (arith, zeroth, at, f))
    | inr other ↦ elim (Option-cases (find_station stations name)) [
      | inl missing ↦ absurd (ground arith)
      | inr (j, found) ↦
          let (s0, at, seen, written) = find_station-some stations name j found in
          let next : i ≡ suc j = ground arith in
          (
            s0,
            rw next at,
            ground (arith, seen),
            λ s' f n. rw next (elim (Bool-cases (same_name s.name n)) [
              | inl same ↦
                  let apart : same_name name n ≡ false =
                    same_name_sym n name (
                      subst (λ x. same_name x name ≡ false) (same_name-true s.name n same) other) in
                  ground (arith, apart)
              | inr other' ↦ ground (arith, written s' f n)
            ]),
          )
    ]
  ]

  pub lookup-append :
      (stations : List (StationData W)) (s : StationData W) (n : Bytes)
      → lookup s.name stations ≡ none
      → lookup n (stations ++ s ∷ []) ≡ (if same_name s.name n then some s else lookup n stations)
  unfolding lookup
  lookup-append [] s n e = refl
  lookup-append (x ∷ stations) s n e = elim (Bool-cases (same_name x.name s.name)) [
    | inl same ↦ absurd (ground arith)
    | inr other ↦ elim (Bool-cases (same_name x.name n)) [
      | inl same ↦
          let apart : same_name s.name n ≡ false =
            same_name_sym n s.name
              (subst (λ y. same_name y s.name ≡ false) (same_name-true x.name n same) other) in
          ground (arith, apart)
      | inr other' ↦ ground (arith, lookup-append stations s n)
    ]
  ]

  pub append-Distinct :
      (stations : List (StationData W)) (s : StationData W)
      → lookup s.name stations ≡ none
      → Distinct stations
      → Distinct (stations ++ s ∷ [])
  unfolding lookup Distinct
  append-Distinct [] s e v = (refl, tt)
  append-Distinct (x ∷ stations) s e v = elim (Bool-cases (same_name x.name s.name)) [
    | inl same ↦ absurd (ground arith)
    | inr other ↦
        let other' = same_name_sym x.name s.name other in
        let e' : lookup s.name stations ≡ none = ground arith in
        (
          lookup-append stations s x.name e' ∙ ground (arith, other', v.0),
          append-Distinct stations s e' v.1,
        )
  ]

  pub set-Distinct :
      (stations : List (StationData W)) (name : Bytes) (i : ℕ) (s : StationData W)
      → find_station stations name ≡ some i
      → s.name ≡ name
      → Distinct stations
      → Distinct (set stations i s)
  unfolding find_station Distinct
  set-Distinct [] name i s e f v = absurd (cc)
  set-Distinct (x ∷ stations) name i s e f v = elim (Bool-cases (same_name x.name name)) [
    | inl same ↦
        let zeroth : i ≡ 0 = ground (arith, e) in
        let at = same_name-true x.name name same in
        rw (zeroth, f) (subst (λ n. lookup n stations ≡ none) at v.0, v.1)
    | inr other ↦ elim (Option-cases (find_station stations name)) [
      | inl missing ↦ absurd (ground arith)
      | inr (j, found) ↦
          let (s0, at, seen, written) = find_station-some stations name j found in
          let next : i ≡ suc j = ground arith in
          let other' = same_name_sym x.name name other in
          rw next (
            written s f x.name ∙ ground (arith, other', v.0),
            set-Distinct stations name j s found f v.1,
          )
    ]
  ]
