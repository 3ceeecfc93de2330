-- ===== src/Scheduler/Float.antt =====
-- Fork, Wait, Exec, Process Scheduling/q4.c: the totals of `fifo`, which are of type `float`.
-- A `float` that holds a whole number has 24 significant bits; a sum is rounded to the nearest such
-- number, and to an even last bit between two. A number here is below 2 ^ 64.
use os_in_parts.Prelude.{
  ℕ, zero, suc, ◌+◌, ◌*◌, ◌/◌, ◌%◌, ◌^◌, ◌<◌, ◌≡◌, refl, List, [], ◌∷◌, arith, Bool, ◌&&◌, ◌||◌,
  ltb, ◌==◌, if◌then◌else◌, sum_by,
}

-- The value of the last bit of a number, doubled up to `k` times.
unfoldable last_bit : ℕ → ℕ → ℕ
last_bit zero x = 1
last_bit (suc k) x = let u = last_bit k x in if ltb x (2 ^ 24 * u) then u else 2 * u

-- Whether `q` last bits `u` and a rest of `r` are rounded up.
abbrev rounds_up : ℕ → ℕ → ℕ → Bool
rounds_up q r u = ltb u (2 * r) || (2 * r == u && q % 2 == 1)

unfoldable to_multiple : ℕ → ℕ → ℕ
to_multiple x u = if rounds_up (x / u) (x % u) u then (x / u + 1) * u else x / u * u

-- The `float` that is nearest to a whole number.
unfoldable pub to_float : ℕ → ℕ
unfolding last_bit to_multiple
to_float x = to_multiple x (last_bit 40 x)

-- `total += x` for an `int` x.
unfoldable pub add_float : ℕ → ℕ → ℕ
unfolding to_float
add_float total x = to_float (total + to_float x)

-- The additions one after the other, onto a total.
unfoldable pub sum_float : ℕ → List ℕ → ℕ
unfolding add_float
sum_float total [] = total
sum_float total (x ∷ xs) = sum_float (add_float total x) xs

last_bit_small : (k x : ℕ) → x < 2 ^ 24 → last_bit k x ≡ 1
unfolding last_bit
last_bit_small zero x h = refl
last_bit_small (suc k) x h = rw (last_bit_small k x h) (ground arith)

to_float_small : (x : ℕ) → x < 2 ^ 24 → to_float x ≡ x
unfolding to_float to_multiple
to_float_small x h = rw (last_bit_small 40 x h) (ground arith)

-- A sum below 2 ^ 24 is exact.
pub sum_float-sum_by :
    (total : ℕ) (xs : List ℕ)
    → total + sum_by (λ x. x) xs < 2 ^ 24
    → sum_float total xs ≡ total + sum_by (λ x. x) xs
unfolding sum_float add_float
sum_float-sum_by total [] h = omega arith
sum_float-sum_by total (x ∷ xs) h =
    rw (to_float_small x (omega arith), to_float_small (total + x) (omega arith))
      (omega (arith, sum_float-sum_by (total + x) xs (omega arith)))
