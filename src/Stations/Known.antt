-- ===== src/Stations/Known.antt =====
-- Hard Disk and File IO/q1.c: the stations are no more than the names that the lines use.
use os_in_parts.Prelude.{
  suc, ◌≤◌, ◌≡◌, sym, subst, arith, Bool, true, false, none, some, List, [], ◌∷◌, length, inl, inr,
  if◌then◌else◌, Bool-cases,
}
use os_in_parts.Prelude.Strings.{Bytes}
use os_in_parts.Prelude.Names.{same_name, same_name_refl, same_name-true}
use os_in_parts.Stations.Defs.{StationData}
use os_in_parts.Stations.Names.{lookup, Distinct}

unfoldable pub is_in : Bytes → List Bytes → Bool
is_in name [] = false
is_in name (x ∷ known) = if same_name x name then true else is_in name known

remove : Bytes → List Bytes → List Bytes
remove name [] = []
remove name (x ∷ known) = if same_name x name then known else x ∷ remove name known

length-remove :
    (name : Bytes) (known : List Bytes)
    → is_in name known ≡ true
    → suc (length (remove name known)) ≡ length known
unfolding is_in remove
length-remove name [] e = absurd (cc)
length-remove name (x ∷ known) e = ground (arith, length-remove name known)

is_in-remove :
    (name n : Bytes) (known : List Bytes)
    → same_name name n ≡ false
    → is_in n known ≡ true
    → is_in n (remove name known) ≡ true
unfolding is_in remove
is_in-remove name n [] other e = absurd (cc)
is_in-remove name n (x ∷ known) other e = elim (Bool-cases (same_name x name)) [
  | inl same ↦
      let apart : same_name x n ≡ false =
        subst (λ y. same_name y n ≡ false) (sym (same_name-true x name same)) other in
      ground (arith, apart)
  | inr other' ↦ ground (arith, is_in-remove name n known other)
]

module _ {W : Type 0} where
  -- The names of the stations are among the known ones.
  abbrev pub Known : List Bytes → List (StationData W) → Type 0
  Known known stations =
      (n : Bytes) (s : StationData W) → lookup n stations ≡ some s → is_in n known ≡ true

  pub length-Known :
      (stations : List (StationData W)) (known : List Bytes)
      → Distinct stations
      → Known known stations
      → length stations ≤ length known
  unfolding lookup Distinct
  length-Known [] known v among = omega arith
  length-Known (s ∷ stations) known v among =
      let here : is_in s.name known ≡ true =
        among s.name s (ground (arith, same_name_refl s.name)) in
      let rest = length-Known stations (remove s.name known) v.1 (λ n x e.
        elim (Bool-cases (same_name s.name n)) [
          | inl same ↦
              let missing : lookup n stations ≡ none =
                subst (λ y. lookup y stations ≡ none) (same_name-true s.name n same) v.0 in
              absurd (cc)
          | inr other ↦ is_in-remove s.name n known other (among n x (ground arith))
        ]) in
      omega (arith, rest, length-remove s.name known here)
