-- ===== src/Prelude/Names.antt =====
-- The order of strings, and their equality.
use Prim.Native.Nat.{compare, Ordering}
use mathlib.Core.Path.{◌≡◌, refl, sym}
use mathlib.Core.Logic.{◌≢◌, inl, inr}
use mathlib.Core.Bool.{Bool, true, false}
use mathlib.Core.List.{[], ◌∷◌}
use native.Mathlib.Omega.{arith}
use os_in_parts.Prelude.Tests.{Bool-cases}
use os_in_parts.Prelude.Strings.{Bytes}

abbrev pub then_by : Ordering → Ordering → Ordering
then_by Ordering.eq o = o
then_by Ordering.lt o = Ordering.lt
then_by Ordering.gt o = Ordering.gt

unfoldable pub strcmp : Bytes → Bytes → Ordering
strcmp [] [] = Ordering.eq
strcmp [] (y ∷ ys) = Ordering.lt
strcmp (x ∷ xs) [] = Ordering.gt
strcmp (x ∷ xs) (y ∷ ys) = then_by (compare x y) (strcmp xs ys)

abbrev pub same_name : Bytes → Bytes → Bool
same_name a b = elim (strcmp a b) [ Ordering.eq ↦ true | _ ↦ false ]

pub strcmp_refl : (a : Bytes) → strcmp a a ≡ Ordering.eq
unfolding strcmp
strcmp_refl [] = refl
strcmp_refl (x ∷ xs) = ground (arith, strcmp_refl xs)

pub strcmp-eq : (a b : Bytes) → strcmp a b ≡ Ordering.eq → a ≡ b
unfolding strcmp
strcmp-eq [] [] e = refl
strcmp-eq [] (y ∷ ys) e = absurd (cc)
strcmp-eq (x ∷ xs) [] e = absurd (cc)
strcmp-eq (x ∷ xs) (y ∷ ys) e = ground (arith, strcmp-eq xs ys)

pub strcmp-gt : (a b : Bytes) → strcmp a b ≡ Ordering.gt → strcmp b a ≡ Ordering.lt
unfolding strcmp
strcmp-gt [] [] e = absurd (cc)
strcmp-gt [] (y ∷ ys) e = absurd (cc)
strcmp-gt (x ∷ xs) [] e = refl
strcmp-gt (x ∷ xs) (y ∷ ys) e = ground (arith, strcmp-gt xs ys)

pub strcmp_trans :
    (a b c : Bytes) → strcmp a b ≡ Ordering.lt → strcmp b c ≡ Ordering.lt → strcmp a c ≡ Ordering.lt
unfolding strcmp
strcmp_trans [] [] c e f = absurd (cc)
strcmp_trans (x ∷ xs) [] c e f = absurd (cc)
strcmp_trans [] (y ∷ ys) [] e f = absurd (cc)
strcmp_trans [] (y ∷ ys) (z ∷ zs) e f = refl
strcmp_trans (x ∷ xs) (y ∷ ys) [] e f = absurd (cc)
strcmp_trans (x ∷ xs) (y ∷ ys) (z ∷ zs) e f = ground (arith, strcmp_trans xs ys zs)

pub same_name_refl : (a : Bytes) → same_name a a ≡ true
same_name_refl a = ground (arith, strcmp_refl a)

pub same_name-true : (a b : Bytes) → same_name a b ≡ true → a ≡ b
same_name-true a b e = strcmp-eq a b (ground arith)

pub same_name-false : (a b : Bytes) → same_name a b ≡ false → a ≢ b
same_name-false a b e f = absurd (ground (arith, strcmp_refl b))

pub same_name_sym : (a b : Bytes) → same_name a b ≡ false → same_name b a ≡ false
same_name_sym a b e = elim (Bool-cases (same_name b a)) [
  | inl same ↦ absurd (same_name-false a b e (sym (same_name-true b a same)))
  | inr other ↦ other
]
