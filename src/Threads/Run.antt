-- ===== src/Threads/Run.antt =====
-- Multithreading/q4p1.c: threads that are created, run and joined by `main`.
-- The threads share a state, which each changes once, at its end: here by a function of the data that
-- it is given. What it does before touches nothing that another thread writes.
use os_in_parts.Prelude.{
  ℕ, suc, ◌+◌, ◌≡◌, Bool, true, false, not, ◌&&◌, Option, none, some, List, [], ◌∷◌, length,
  get_elem?, ltb, ◌==◌, if◌then◌else◌, update,
}

-- `created` is `thread_index`, and `joined` the index of the loop of joins.
pub record Run (S : Type 0) : Type 0 where
  pub created : ℕ
  pub joined : ℕ
  pub finished : ℕ → Bool
  pub state : S

-- What happens next: `main` creates a thread or joins one, or a thread does its work.
pub data Move : Type 0 where
  create : Move
  join : Move
  run : ℕ → Move

abbrev pub fresh : {S : Type 0} → S → Run S
fresh state = record { created = 0; joined = 0; finished = λ _. false; state = state }

module _ {D S : Type 0} (act : D → S → S) (threads : List D) where
  abbrev pub work : ℕ → Run S → Option D → Option (Run S)
  work k s none = none
  work k s (some d) =
      if ltb k s.created && not (s.finished k)
      then some (record s { finished = update s.finished k true; state = act d s.state })
      else none

  -- The joins begin when all are created, and wait for their thread.
  unfoldable pub step : Move → Run S → Option (Run S)
  step Move.create s =
      if ltb s.created (length threads) then some (record s { created = s.created + 1 }) else none
  step Move.join s =
      if s.created == length threads && (ltb s.joined (length threads) && s.finished s.joined)
      then some (record s { joined = s.joined + 1 })
      else none
  step (Move.run k) s = work k s (get_elem? threads k)

  pub data Reached (initial : S) : ℕ → Run S → Type 0 where
    start : Reached initial 0 (fresh initial)
    next :
        {k : ℕ} {s s' : Run S} (move : Move)
        → Reached initial k s
        → step move s ≡ some s'
        → Reached initial (suc k) s'

module _ {D S : Type 0} (act : D → S → S) where
  -- The work of threads, one after the other.
  abbrev pub work_all : List D → S → S
  work_all [] state = state
  work_all (d ∷ order) state = work_all order (act d state)
