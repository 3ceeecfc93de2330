-- ===== src/Clock/Numbers.antt =====
-- Segmentation, Paging, IPC/q5.c: which page is in which frame.
use os_in_parts.Prelude.{
  ℕ, zero, suc, ◌<◌, ◌≡◌, inl, inr, refl, true, ◌||◌, Option, none, some, List, [], ◌∷◌, arith,
  ◌==◌, length, get_elem?, Bool-cases, dec_lt, ◌∙◌, ap, sym, subst,
}
use os_in_parts.Clock.Defs.{Page, Clock, holds_page, touch}
use os_in_parts.Prelude.Circle.{place_onto}
use os_in_parts.Clock.Passed.{OneLess-number, IsValid}
use os_in_parts.Clock.Sweep.{Swept}

abbrev pub number_of : Option Page → Option ℕ
number_of none = none
number_of (some p) = some p.page_number

-- The number in frame `i`.
abbrev pub number_at : Clock → ℕ → Option ℕ
number_at c i = number_of (get_elem? c.memory i)

-- A sweep moves no page.
pub Swept-number :
    (c : Clock) (r : ℕ × Clock) → IsValid c → Swept c r → (i : ℕ) → number_at r.1 i ≡ number_at c i
Swept-number c r v swept i = elim (dec_lt i c.num_frames) [
  | no outside ↦ ap number_of (swept.passed.outside i (omega arith))
  | yes inside ↦
      let (j, h, e) = place_onto c.num_frames c.clock_hand v.hand_in i inside in
      subst (λ x. number_at r.1 x ≡ number_at c x) e
        (elim (dec_lt j swept.steps) [
          | yes passed ↦
              let (p, p', before, visited, after) = swept.passed.cleared j passed in
              ap number_of after ∙ ap some (OneLess-number p p' visited) ∙ ap number_of (sym before)
          | no ahead ↦ ap number_of (swept.passed.ahead j (omega arith) h)
        ])
]

pub holds_page-number :
    (q n : ℕ) (ps : List Page)
    → holds_page q n ps ≡ true
    → (i : ℕ) × (i < n) × (number_of (get_elem? ps i) ≡ some q)
unfolding holds_page
holds_page-number q zero ps h = absurd (cc)
holds_page-number q (suc n) [] h = absurd (cc)
holds_page-number q (suc n) (p ∷ ps) h = elim (Bool-cases (p.page_number == q)) [
  | inl here ↦ (0, omega arith, ground arith)
  | inr later ↦
      let (i, lt, e) = holds_page-number q n ps (rw (later, ◌||◌) at h) in (suc i, omega arith, e)
]

pub number-holds_page :
    (q n : ℕ) (ps : List Page) (i : ℕ)
    → i < n
    → number_of (get_elem? ps i) ≡ some q
    → holds_page q n ps ≡ true
unfolding holds_page
number-holds_page q zero ps i lt e = absurd (omega arith)
number-holds_page q (suc n) [] i lt e = absurd (cc)
number-holds_page q (suc n) (p ∷ ps) zero lt e = ground arith
number-holds_page q (suc n) (p ∷ ps) (suc i) lt e =
    ground (arith, number-holds_page q n ps i (omega arith) e)

pub touch-number :
    (q n : ℕ) (ps : List Page) (i : ℕ)
    → number_of (get_elem? (touch q n ps) i) ≡ number_of (get_elem? ps i)
unfolding touch
touch-number q zero ps i = refl
touch-number q (suc n) [] i = refl
touch-number q (suc n) (p ∷ ps) zero = ground arith
touch-number q (suc n) (p ∷ ps) (suc i) = ground (arith, touch-number q n ps i)

pub length-touch : (q n : ℕ) (ps : List Page) → length (touch q n ps) ≡ length ps
unfolding touch
length-touch q zero ps = refl
length-touch q (suc n) [] = refl
length-touch q (suc n) (p ∷ ps) = ground (arith, length-touch q n ps)
