-- ===== src/Clock/Run.antt =====
-- Segmentation, Paging, IPC/q5.c: what holds at the end of `main`.
use os_in_parts.Prelude.{
  ℕ, zero, suc, ◌+◌, ◌≤◌, ◌<◌, ◌≡◌, refl, Bool, true, false, some, List, [], ◌∷◌, arith, length,
  get_elem?, ap,
}
use os_in_parts.Prelude.Int.{ℤ, to_uint8}
use os_in_parts.Clock.Defs.{
  Page, Clock, max_frames, globals, clear_frames, initialize_memory, is_page_in_memory, requests,
  main,
}
use os_in_parts.Clock.Passed.{IsValid}
use os_in_parts.Clock.Numbers.{number_of}
use os_in_parts.Clock.Handled.{Distinct, Handled, handle_page_request-Handled}
use os_in_parts.Clock.Request.{handle_page_request-Distinct}

length-clear_frames : (n : ℕ) (ps : List Page) → length (clear_frames n ps) ≡ length ps
unfolding clear_frames
length-clear_frames zero ps = refl
length-clear_frames (suc n) [] = refl
length-clear_frames (suc n) (p ∷ ps) = ap suc (length-clear_frames n ps)

clear_frames-number :
    (n : ℕ) (ps : List Page) (i q : ℕ)
    → i < n
    → number_of (get_elem? (clear_frames n ps) i) ≡ some q
    → q ≡ 255
unfolding clear_frames
clear_frames-number zero ps i q h e = absurd (omega arith)
clear_frames-number (suc n) [] i q h e = absurd (cc)
clear_frames-number (suc n) (p ∷ ps) zero q h e = ground arith
clear_frames-number (suc n) (p ∷ ps) (suc i) q h e = clear_frames-number n ps i q (omega arith) e

abbrev pub ready : ℕ → Clock
ready n = initialize_memory (globals n)

pub ready-IsValid : (n : ℕ) → 0 < n → n ≤ max_frames → IsValid (ready n)
unfolding initialize_memory
ready-IsValid n pos_n few = record {
  some_frame = pos_n;
  few = few;
  size = length-clear_frames n (globals n).memory;
  hand_in = pos_n;
}

ready-Distinct : (n : ℕ) → Distinct (ready n)
unfolding initialize_memory
ready-Distinct n q i j hi hj ne ei ej =
    absurd (ne (clear_frames-number n (globals n).memory i q hi ei))

record Served (tokens : List ℤ) (c : Clock) : Type 0 where
  last : Clock
  returns : requests tokens c ≡ some last
  valid : IsValid last
  distinct : Distinct last
  counted : last.total_hits + last.total_faults ≡ c.total_hits + c.total_faults + length tokens

-- A request is counted once, as a hit or as a fault.
Handled-counted :
    (q : ℕ) (c c' : Clock)
    → Handled q c c'
    → c'.total_hits + c'.total_faults ≡ c.total_hits + c.total_faults + 1
Handled-counted q c c' h = go (is_page_in_memory q c) refl
  where
    go :
        (b : Bool)
        → is_page_in_memory q c ≡ b
        → c'.total_hits + c'.total_faults ≡ c.total_hits + c.total_faults + 1
    go true e = omega (arith, (h.hit e).0, (h.hit e).1)
    go false e = omega (arith, (h.miss e).0, (h.miss e).1)

requests-Served : (tokens : List ℤ) (c : Clock) → IsValid c → Distinct c → Served tokens c
unfolding requests
requests-Served [] c v d = record {
  last = c;
  returns = refl;
  valid = v;
  distinct = d;
  counted = omega arith;
}
requests-Served (token ∷ tokens) c v d =
    let (c', e, handled) = handle_page_request-Handled (to_uint8 token) c v in
    let rest =
      requests-Served tokens c' handled.valid
        (handle_page_request-Distinct (to_uint8 token) c c' d handled) in
    record {
      last = rest.last;
      returns = ground (arith, e, rest.returns);
      valid = rest.valid;
      distinct = rest.distinct;
      counted = omega (arith, rest.counted, Handled-counted (to_uint8 token) c c' handled);
    }

-- With one to a hundred frames every sequence of requests is served. The hits and faults add up to
-- the number of requests, and at the end no page but the placeholder 255 is in two frames.
pub main-Distinct :
    (n : ℕ) (tokens : List ℤ)
    → 0 < n
    → n ≤ max_frames
    → (c : Clock) × (main n tokens ≡ some c)
      × (c.total_hits + c.total_faults ≡ length tokens)
      × Distinct c
unfolding main initialize_memory
main-Distinct n tokens pos_n few =
    let served = requests-Served tokens (ready n) (ready-IsValid n pos_n few) (ready-Distinct n) in
    (served.last, served.returns, omega (arith, served.counted), served.distinct)
