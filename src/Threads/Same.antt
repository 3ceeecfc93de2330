-- ===== src/Threads/Same.antt =====
-- Multithreading/q4p1.c: the threads give what the sequential loops give.
use os_in_parts.Prelude.{
  ℕ, zero, suc, ◌+◌, ◌*◌, ◌≤◌, ◌<◌, ◌≡◌, ◌&&◌, refl, sym, ap, ◌∙◌, arith, some, List, [], ◌∷◌,
  length, length-append, get_elem?, get_elem?-append_lt, get_elem?-append_ge, get_elem?-some, All,
  All-append, All-imp, All-get_elem?, leb, ltb, ◌==◌, if◌then◌else◌, ◌⊎◌, inl, inr, dec_lt,
}
use os_in_parts.ThreadPool.Product.{Matrix, write, sum_from}
use os_in_parts.Threads.Run.{Run, Move, step, Reached, work_all}
use os_in_parts.Threads.Order.{Reached-order}
use os_in_parts.Threads.Product.{
  ThreadData, compute_element, create_row, create_rows, threads_of, sequential_row, sequential_rows,
}

module _ (a b : Matrix) (n : ℕ) where
  -- The element at `i` and `j` of the product.
  abbrev pub element : ℕ → ℕ → ℕ
  element i j = sum_from a b i j n 0 0

  sequential_row_lem :
      (i rounds j : ℕ) (c : Matrix) (i' j' : ℕ)
      → sequential_row a b n i rounds j c i' j'
        ≡ (if i' == i && (leb j j' && ltb j' (j + rounds)) then element i' j' else c i' j')
  unfolding sequential_row
  sequential_row_lem i zero j c i' j' = ground arith
  sequential_row_lem i (suc rounds) j c i' j' =
      ground (arith, sequential_row_lem i rounds (j + 1) (write c i j (element i j)) i' j')

  pub sequential_rows_lem :
      (p rounds i : ℕ) (c : Matrix) (i' j' : ℕ)
      → sequential_rows a b n p rounds i c i' j'
        ≡ (if leb i i' && (ltb i' (i + rounds) && ltb j' p) then element i' j' else c i' j')
  unfolding sequential_rows
  sequential_rows_lem p zero i c i' j' = ground arith
  sequential_rows_lem p (suc rounds) i c i' j' = ground (
    arith,
    sequential_rows_lem p rounds (i + 1) (sequential_row a b n i p 0 c) i' j',
    sequential_row_lem i p 0 c i' j',
  )

  -- Threads of length `n` store an element of the product or leave it alone.
  work_all-keeps :
      (order : List ThreadData) (c : Matrix) (i j : ℕ)
      → All (λ t. t.n ≡ n) order
      → c i j ≡ element i j
      → work_all (compute_element a b) order c i j ≡ element i j
  unfolding compute_element
  work_all-keeps [] c i j h e = e
  work_all-keeps (t ∷ order) c i j h e =
      work_all-keeps order (compute_element a b t c) i j h.1 (ground (arith, e, h.0))

  work_all-element :
      (order : List ThreadData) (c : Matrix) (k : ℕ) (t : ThreadData)
      → All (λ t'. t'.n ≡ n) order
      → get_elem? order k ≡ some t
      → work_all (compute_element a b) order c t.row t.col ≡ element t.row t.col
  unfolding compute_element
  work_all-element [] c k t h e = absurd (cc)
  work_all-element (t' ∷ order) c zero t h e =
      work_all-keeps order (compute_element a b t' c) t.row t.col h.1 (ground (arith, h.0))
  work_all-element (t' ∷ order) c (suc k) t h e =
      work_all-element order (compute_element a b t' c) k t h.1 e

create_row-length : (n i rounds j : ℕ) → length (create_row n i rounds j) ≡ rounds
unfolding create_row
create_row-length n i zero j = refl
create_row-length n i (suc rounds) j = ap suc (create_row-length n i rounds (j + 1))

pub create_rows-length : (n p rounds i : ℕ) → length (create_rows n p rounds i) ≡ rounds * p
unfolding create_rows
create_rows-length n p zero i = ground arith
create_rows-length n p (suc rounds) i =
    length-append (create_row n i p 0) (create_rows n p rounds (i + 1))
    ∙ ground (arith, create_row-length n i p 0, create_rows-length n p rounds (i + 1))

create_row-All : (n i rounds j : ℕ) → All (λ t. t.n ≡ n) (create_row n i rounds j)
unfolding create_row
create_row-All n i zero j = tt
create_row-All n i (suc rounds) j = (refl, create_row-All n i rounds (j + 1))

pub create_rows-All : (n p rounds i : ℕ) → All (λ t. t.n ≡ n) (create_rows n p rounds i)
unfolding create_rows
create_rows-All n p zero i = tt
create_rows-All n p (suc rounds) i =
    All-append _ (create_row n i p 0) _ (create_row-All n i p 0)
      (create_rows-All n p rounds (i + 1))

-- Each element has its thread.
create_row-has :
    (n i rounds j j' : ℕ)
    → j ≤ j'
    → j' < j + rounds
    → (k : ℕ) × (get_elem? (create_row n i rounds j) k ≡ some (record { row = i; col = j'; n = n }))
unfolding create_row
create_row-has n i zero j j' le lt = absurd (omega arith)
create_row-has n i (suc rounds) j j' le lt = elim (dec_lt j j') [
  | no here ↦ let same : j ≡ j' = omega arith in (0, rw same refl)
  | yes beyond ↦
      let (k, at) = create_row-has n i rounds (j + 1) j' (omega arith) (omega arith) in (suc k, at)
]

pub create_rows-has :
    (n p rounds i i' j : ℕ)
    → i ≤ i'
    → i' < i + rounds
    → j < p
    → (k : ℕ) × (get_elem? (create_rows n p rounds i) k
        ≡ some (record { row = i'; col = j; n = n }))
unfolding create_rows
create_rows-has n p zero i i' j le lt lt' = absurd (omega arith)
create_rows-has n p (suc rounds) i i' j le lt lt' = elim (dec_lt i i') [
  | no here ↦
      let same : i' ≡ i = omega arith in
      let (k, at) = create_row-has n i p 0 j (omega arith) (omega arith) in
      (k, rw same (get_elem?-append_lt _ _ k (get_elem?-some _ k _ at) ∙ at))
  | yes beyond ↦
      let (k, at) = create_rows-has n p rounds (i + 1) i' j (omega arith) (omega arith) lt' in
      (length (create_row n i p 0) + k, get_elem?-append_ge (create_row n i p 0) _ k ∙ at)
]

-- After `k` steps of `main` and of the threads that it creates for an m-by-n and an n-by-p matrix, in
-- any order, `k` is at most three for each element, and something can happen next, or `main` has joined
-- them all, and each element of the result is the one that the sequential loops store, whatever the
-- two result matrices held before.
pub Reached-sequential_rows :
    (a b c c' : Matrix) (m n p k : ℕ) (s : Run Matrix)
    → Reached (compute_element a b) (threads_of m n p) c k s
    → (k ≤ 3 * (m * p))
      × (((move : Move) × (s' : Run Matrix) × (step (compute_element a b) (threads_of m n p) move s
              ≡ some s'))
          ⊎ ((s.joined ≡ m * p)
              × ((i j : ℕ) → i < m → j < p → s.state i j ≡ sequential_rows a b n p m 0 c' i j)))
Reached-sequential_rows a b c c' m n p k s reached =
    let (bound, outcome) = Reached-order (compute_element a b) (threads_of m n p) c k s reached in
    let size = create_rows-length n p m 0 in
    (
      omega arith,
      elim outcome [
        | inl move ↦ inl move
        | inr (joined, (order, worked, theirs, done)) ↦ inr (
          joined ∙ size,
          (λ i j hi hj.
              let (l, at) = create_rows-has n p m 0 i j (omega arith) (omega arith) hj in
              let (l', at') = done l (record { row = i; col = j; n = n }) at in
              let same_n =
                All-imp _ (λ t. t.n ≡ n)
                  (λ t (x, e). All-get_elem? (λ t'. t'.n ≡ n) _ x t (create_rows-All n p m 0) e)
                  order theirs in
              ap (λ x. x i j) worked
              ∙ work_all-element a b n order c l' (record { row = i; col = j; n = n }) same_n at'
              ∙ sym (sequential_rows_lem a b n p m 0 c' i j ∙ ground arith)),
        )
      ],
    )
