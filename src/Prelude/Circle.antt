-- ===== src/Prelude/Circle.antt =====
-- Indices that go round an array of `n` elements: `(s + k) % n`.
use native.Mathlib.Nat.{mod-add-mod, mod-eq_of_lt, mod-eq-sub-mod}
use os_in_parts.Prelude.{ℕ, ◌+◌, ◌-◌, ◌%◌, ◌≤◌, ◌<◌, ◌≡◌, ◌⊎◌, inl, inr, arith, dec_lt, ◌∙◌, ap}

-- Places on the circle of `n` frames, counted from `s`.
module _ (n s : ℕ) (start : s < n) where
  abbrev pub place : ℕ → ℕ
  place k = (s + k) % n

  pub place-lt : (k : ℕ) → place k < n
  place-lt k = omega arith

  pub place-suc : (k : ℕ) → (place k + 1) % n ≡ place (k + 1)
  place-suc k = mod-add-mod (s + k) n 1 ∙ ap (λ x. x % n) (omega arith)

  pub place_full : place n ≡ s
  place_full =
      mod-eq-sub-mod {n = s + n} {m = n} (omega arith)
      ∙ ap (λ x. x % n) (omega arith)
      ∙ mod-eq_of_lt start

  pub place_value :
      (k : ℕ) → k < n → ((place k ≡ s + k) × (s + k < n)) ⊎ ((place k + n ≡ s + k) × (n ≤ s + k))
  place_value k h = elim (dec_lt (s + k) n) [
    | yes p ↦ inl (mod-eq_of_lt p, p)
    | no p ↦ inr (
      omega (
        arith,
        mod-eq-sub-mod {n = s + k} {m = n} (omega arith),
        mod-eq_of_lt {n = s + k - n} {m = n} (omega arith),
      ),
      omega arith,
    )
  ]

  pub place_injective : (j k : ℕ) → j < n → k < n → place j ≡ place k → j ≡ k
  place_injective j k hj hk e = omega (arith, place_value j hj, place_value k hk)

  -- Every index is on the way round.
  pub place_onto : (i : ℕ) → i < n → (j : ℕ) × (j < n) × (place j ≡ i)
  place_onto i h = elim (dec_lt i s) [
    | yes p ↦ (i + n - s, omega arith, omega (arith, place_value (i + n - s) (omega arith)))
    | no p ↦ (i - s, omega arith, omega (arith, place_value (i - s) (omega arith)))
  ]
