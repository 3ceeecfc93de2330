-- ===== src/Storage/Ring.antt =====
-- Multithreading/q3.c: the buffer as a ring of products.
use native.Mathlib.Nat.{mod-add-mod}
use os_in_parts.Prelude.{
  ℕ, zero, suc, ◌+◌, ◌-◌, ◌%◌, ◌≤◌, ◌<◌, ◌≡◌, ◌≢◌, refl, sym, ap, ◌∙◌, arith, ltb, ◌==◌,
  if◌then◌else◌, true, update, ℕ_discrete,
}
use os_in_parts.Prelude.Circle.{place-suc, place_full, place_value, place_injective}
use os_in_parts.Storage.Defs.{buffer_size, Store, empty_store, put, take_products}

-- The `count` slots from `out` on hold a product, the others none, and `in` is the next one.
pub record IsRing (s : Store) : Type 0 where
  pub out_in : s.out_index < buffer_size
  pub fits : s.count ≤ buffer_size
  pub in_at : s.in_index ≡ (s.out_index + s.count) % buffer_size
  pub slots :
      (k : ℕ)
      → k < buffer_size
      → s.buffer ((s.out_index + k) % buffer_size) ≡ (if ltb k s.count then 1 else 0)

pub IsRing-empty : IsRing empty_store
IsRing-empty = record {
  out_in = omega arith;
  fits = omega arith;
  in_at = refl;
  slots = λ k h. ground arith;
}

pub put-IsRing : (s : Store) → IsRing s → s.count < buffer_size → IsRing (put s)
unfolding put
put-IsRing s v room = record {
  out_in = v.out_in;
  fits = omega arith;
  in_at =
      ap (λ x. (x + 1) % buffer_size) v.in_at ∙ place-suc buffer_size s.out_index v.out_in s.count;
  slots = λ k h. elim (ℕ_discrete k s.count) [
    | yes last ↦ rw last (ground (arith, v.in_at))
    | no ne ↦
        let other : (s.out_index + k) % buffer_size ≢ s.in_index = λ e.
          ne (place_injective buffer_size s.out_index v.out_in k s.count h room (e ∙ v.in_at)) in
        ground (arith, other, v.slots k h)
  ];
}

-- A store after one turn of the removal loop.
abbrev take_one : Store → Store
take_one s = record {
  buffer = update s.buffer s.out_index 0;
  count = s.count - 1;
  out_index = (s.out_index + 1) % buffer_size;
  in_index = s.in_index;
}

place_next : (s k : ℕ) → ((s + 1) % buffer_size + k) % buffer_size ≡ (s + suc k) % buffer_size
place_next s k = mod-add-mod (s + 1) buffer_size k ∙ ap (λ x. x % buffer_size) (omega arith)

take_one-IsRing : (s : Store) → IsRing s → s.count ≢ 0 → IsRing (take_one s)
take_one-IsRing s v some_left = record {
  out_in = omega arith;
  fits = omega (arith, v.fits);
  in_at =
      v.in_at
      ∙ ap (λ x. (s.out_index + x) % buffer_size) (omega arith)
      ∙ sym (place_next s.out_index (s.count - 1));
  slots = λ k h.
      ap (λ x. update s.buffer s.out_index 0 x) (place_next s.out_index k)
      ∙ elim (ℕ_discrete k 24) [
        | yes last ↦
            let home : (s.out_index + suc k) % buffer_size ≡ s.out_index =
              ap (λ x. (s.out_index + suc x) % buffer_size) last
              ∙ place_full buffer_size s.out_index v.out_in in
            ground (arith, home, v.fits)
        | no ne ↦
            let other : (s.out_index + suc k) % buffer_size ≢ s.out_index = λ e.
              omega (arith, place_value buffer_size s.out_index v.out_in (suc k) (omega arith)) in
            ground (arith, other, v.slots (suc k) (omega arith))
      ];
}

pub take_products-IsRing : (products : ℕ) (s : Store) → IsRing s → IsRing (take_products products s)
unfolding take_products
take_products-IsRing zero s v = v
take_products-IsRing (suc products) s v = elim (ℕ_discrete s.count 0) [
  | yes none_left ↦ let ended : (s.count == 0) ≡ true = ground arith in rw ended v
  | no some_left ↦
      ground (arith, take_products-IsRing products (take_one s) (take_one-IsRing s v some_left))
]

-- The loop takes as many as there are, up to the number that is asked for.
pub take_products-count :
    (products : ℕ) (s : Store) → (take_products products s).count ≡ s.count - products
unfolding take_products
take_products-count zero s = omega arith
take_products-count (suc products) s = ground (arith, take_products-count products (take_one s))
