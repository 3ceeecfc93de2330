-- ===== src/Storage/Steps.antt =====
-- Multithreading/q3.c: each step is one less to go.
use os_in_parts.Prelude.{
  ℕ, zero, suc, ◌+◌, ◌*◌, ◌≤◌, ◌<◌, ◌≡◌, refl, arith, ◌==◌, if_both, subst, length-set, get_elem?,
  get_elem?-set_ne, get_elem?-set_self, get_elem?-some, set, Option, none, some,
}
use os_in_parts.Storage.Defs.{
  Truck, Manager, Storage, Outcome, delivered, truck_step, manager_step, Thread, step, Created,
  Reached,
}
use os_in_parts.Storage.Rounds.{
  delivery_of, left, Round, Rounds, Rounds-initial, left-initial, truck_moves, truck_stays,
  manager_moves,
}

Counts : ℕ → ℕ → Storage → Outcome → Type 0
Counts n m s (Outcome.moved s') = Rounds n s' × (left n m s' < left n m s)
Counts n m s Outcome.blocked = Unit
Counts n m s Outcome.fault = Unit

module _ (n m i r : ℕ) (s : Storage) (lt : i < n) (v : Rounds n s) where
  round_of : (p : Truck) → s.trucks i ≡ p → Round p (delivery_of s i)
  round_of p f = subst (λ q. Round q (delivery_of s i)) f (v.rounds i lt)

  delivered-Counts :
      s.trucks i ≡ Truck.unloading 0
      → (d : Option ℕ) → delivery_of s i ≡ d
      → Counts n m s (delivered i s d)
  unfolding Counts
  delivered-Counts f none e = tt
  delivered-Counts f (some d) e =
      let written : get_elem? (set s.deliveries (i + 1) (d + 1)) (i + 1) ≡ some (d + 1) =
        get_elem?-set_self s.deliveries (i + 1) (d + 1) (get_elem?-some s.deliveries (i + 1) d e) in
      let more = (round_of (Truck.unloading 0) f).1 in
      truck_moves n m i s lt v _ _ refl refl (length-set s.deliveries (i + 1) (d + 1))
        (λ j ne. get_elem?-set_ne s.deliveries (i + 1) (j + 1) (d + 1) (λ x. ne (omega arith)))
        (ground (arith, written, more, e)) (ground (arith, written, more, e, f))

  truck_step-Counts : (p : Truck) → s.trucks i ≡ p → Counts n m s (truck_step p r i s)
  unfolding Counts truck_step
  truck_step-Counts Truck.deciding f =
      truck_stays n m i s lt v _ _ refl refl refl (round_of _ f) (ground (arith, round_of _ f))
  truck_step-Counts (Truck.unloading zero) f = delivered-Counts f (delivery_of s i) refl
  truck_step-Counts (Truck.unloading (suc p)) f =
      if_both (Counts n m s) (s.empty == 0) _ _ (λ _. tt)
        (λ some_left.
          truck_stays n m i s lt v _ _ refl refl refl (omega arith, (round_of _ f).1)
            (ground arith))
  truck_step-Counts (Truck.entering p) f =
      if_both (Counts n m s) s.mutex _ _ (λ _. tt)
        (λ free.
          truck_stays n m i s lt v _ _ refl refl refl (round_of _ f) (ground (arith, round_of _ f)))
  truck_step-Counts (Truck.inside p) f =
      truck_stays n m i s lt v _ _ refl refl refl (tt, (round_of _ f).1)
        (ground (arith, round_of _ f))
  truck_step-Counts (Truck.posting p) f =
      truck_stays n m i s lt v _ _ refl refl refl (round_of _ f) (ground arith)
  truck_step-Counts Truck.finished f = tt

manager_step-Counts :
    (n m i r : ℕ) (s : Storage) (p : Manager)
    → i < m
    → Rounds n s
    → s.managers i ≡ p
    → Counts n m s (manager_step p r i s)
unfolding Counts manager_step
manager_step-Counts n m i r s Manager.deciding lt v f =
    manager_moves n m i s _ _ lt v refl refl refl (ground arith)
manager_step-Counts n m i r s (Manager.waiting p) lt v f =
    if_both (Counts n m s) (s.full == 0) _ _ (λ _. tt)
      (λ some_left. manager_moves n m i s _ _ lt v refl refl refl (ground arith))
manager_step-Counts n m i r s (Manager.entering p) lt v f =
    if_both (Counts n m s) s.mutex _ _ (λ _. tt)
      (λ free. manager_moves n m i s _ _ lt v refl refl refl (ground arith))
manager_step-Counts n m i r s (Manager.inside p) lt v f =
    manager_moves n m i s _ _ lt v refl refl refl (ground arith)
manager_step-Counts n m i r s Manager.posting lt v f =
    manager_moves n m i s _ _ lt v refl refl refl (ground arith)

step-Counts :
    (n m : ℕ) (t : Thread) (r : ℕ) (s s' : Storage)
    → Created n m t
    → Rounds n s
    → step t r s ≡ Outcome.moved s'
    → Rounds n s' × (left n m s' < left n m s)
unfolding Counts step
step-Counts n m (Thread.truck i) r s s' lt v e =
    subst (Counts n m s) e (truck_step-Counts n m i r s lt v (s.trucks i) refl)
step-Counts n m (Thread.manager i) r s s' lt v e =
    subst (Counts n m s) e (manager_step-Counts n m i r s (s.managers i) lt v refl)

-- `k` steps and what is left are at most 112 for each truck and 1 for each manager.
pub Reached-Rounds :
    (n m : ℕ) {k : ℕ} {s : Storage} → Reached n m k s → Rounds n s × (k + left n m s ≤ 112 * n + m)
Reached-Rounds n m Reached.start = (Rounds-initial n, omega (arith, left-initial n m))
Reached-Rounds n m (Reached.next {k} {s} {s'} t r reached created e) =
    let (v, le) = Reached-Rounds n m reached in
    let (v', lt) = step-Counts n m t r s s' created v e in (v', omega arith)
