-- ===== src/Sockets/Rows.antt =====
-- Rows of calls that a limiter counts or not, each limiter keeping its times in its own way.
use relay_chatapp.Base.{
  ℕ, ◌≤◌, ◌<◌, ◌≡◌, refl, sym, subst, Bool, true, false, List, [], ◌∷◌, ◌++◌, length, arith,
  if◌then◌else◌, keep,
}
use mathlib.Core.List.{append-nil, append_assoc}
use relay_chatapp.Sockets.Limits.{prune}
use relay_chatapp.Sockets.Sliding.{in_window, Tracks, Tracks-prune, Tracks-push, Tracks-later}

-- A row of calls at a clock that does not go back, over a list of recorded times: a call that
-- passes finds room and adds its time, any other only moves the window on.
pub data Row (limit window : ℕ) : ℕ → List ℕ → List ℕ → Type 0 where
  over : {now : ℕ} {times : List ℕ} → Row limit window now times []
  passes :
      {now n : ℕ} {times passed : List ℕ}
      → now ≤ n
      → length (prune window n times) < limit
      → Row limit window n (prune window n times ++ n ∷ []) passed
      → Row limit window now times (n ∷ passed)
  waits :
      {now n : ℕ} {times passed : List ℕ}
      → now ≤ n
      → Row limit window n (prune window n times) passed
      → Row limit window now times passed

Row-Tracks :
    (limit window now : ℕ) (times passed history : List ℕ)
    → Row limit window now times passed
    → Tracks limit window now times history
    → (t : ℕ) → length (in_window window t (history ++ passed)) ≤ limit
Row-Tracks limit window now times passed history over tr t =
    subst (λ (l : List ℕ). length (in_window window t l) ≤ limit) (sym (append-nil history))
      (tr.bounded t)
Row-Tracks limit window now times passed history (passes {n = n} {passed = rest} h room row) tr t =
    subst (λ (l : List ℕ). length (in_window window t l) ≤ limit)
      (append_assoc history (n ∷ []) rest)
      (Row-Tracks limit window n (prune window n times ++ n ∷ []) rest (history ++ n ∷ []) row
        (Tracks-push limit window n n times history (omega arith) room
          (Tracks-later limit window now n times history h tr))
        t)
Row-Tracks limit window now times passed history (waits {n = n} h row) tr t =
    Row-Tracks limit window n (prune window n times) passed history row
      (Tracks-prune limit window now n times history h tr) t

pub Row-bounded :
    (limit window : ℕ) (passed : List ℕ) (t : ℕ)
    → Row limit window 0 [] passed
    → length (in_window window t passed) ≤ limit
unfolding in_window keep
Row-bounded limit window passed t row =
    Row-Tracks limit window 0 [] passed [] row
      (record { holds = λ n k. refl; bounded = λ u. omega arith }) t

pub Row-later :
    (limit window now later : ℕ) (times passed : List ℕ)
    → now ≤ later
    → Row limit window later times passed
    → Row limit window now times passed
Row-later limit window now later times passed h over = over
Row-later limit window now later times passed h (passes k room row) = passes (omega arith) room row
Row-later limit window now later times passed h (waits k row) = waits (omega arith) row

-- what a call that is counted or not does to the recorded times
abbrev pub Counted : ℕ → ℕ → List ℕ → Bool → List ℕ → Type 0
Counted limit now recent true times = (times ≡ recent ++ now ∷ []) × (length recent < limit)
Counted limit now recent false times = times ≡ recent

pub Row-step :
    (limit window now n : ℕ) (times times' passed : List ℕ) (counted : Bool)
    → now ≤ n
    → Counted limit n (prune window n times) counted times'
    → Row limit window n times' passed
    → Row limit window now times (if counted then n ∷ passed else passed)
Row-step limit window now n times times' passed true h (grown, room) row =
    passes h room (subst (λ (l : List ℕ). Row limit window n l passed) grown row)
Row-step limit window now n times times' passed false h same row =
    waits h (subst (λ (l : List ℕ). Row limit window n l passed) same row)
