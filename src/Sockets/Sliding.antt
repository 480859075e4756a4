-- ===== src/Sockets/Sliding.antt =====
-- What a limiter over a window bounds: the calls that it lets through in any window.
use relay_chatapp.Base.{
  ℕ, ◌+◌, ◌≤◌, ◌<◌, ◌≡◌, refl, sym, ap, ◌∙◌, inl, inr, Bool-cases, ◌&&◌, List, [], ◌∷◌, ◌++◌,
  length, length-append, keep, keep-append, ltb, leb, arith, if◌then◌else◌, subst,
}
use mathlib.Core.List.{append-nil, append_assoc}
use native.Mathlib.Decide.{dec_le}
use relay_chatapp.Sockets.Limits.{prune, admit}

-- the times of a history that stand in the window that ends at `t`
unfoldable pub in_window : ℕ → ℕ → List ℕ → List ℕ
unfolding keep
in_window window t times = keep (λ x. ltb t (x + window) && leb x t) times

-- `times` is what the limiter still holds at `now` of the `history` of calls let through, and no
-- window of the history holds more than `limit`.
pub record Tracks (limit window now : ℕ) (times history : List ℕ) : Type 0 where
  pub holds : (later : ℕ) → now ≤ later → prune window later times ≡ prune window later history
  pub bounded : (t : ℕ) → length (in_window window t history) ≤ limit

prune-prune :
    (window now later : ℕ) (times : List ℕ)
    → now ≤ later
    → prune window later (prune window now times) ≡ prune window later times
unfolding prune keep
prune-prune window now later [] h = refl
prune-prune window now later (x ∷ times) h = ground (arith, prune-prune window now later times)

-- A window that ends at or after `stamp` and starts no earlier than the one of `now`.
in_window-le-prune :
    (window now stamp t : ℕ) (history : List ℕ)
    → now ≤ stamp
    → stamp ≤ t
    → length (in_window window t history) ≤ length (prune window now history)
unfolding in_window prune keep
in_window-le-prune window now stamp t [] h k = omega arith
in_window-le-prune window now stamp t (x ∷ history) h k =
    ground (arith, in_window-le-prune window now stamp t history)

pub Tracks-prune :
    (limit window now later : ℕ) (times history : List ℕ)
    → now ≤ later
    → Tracks limit window now times history
    → Tracks limit window later (prune window later times) history
Tracks-prune limit window now later times history h tr = record {
  holds = λ n k. prune-prune window later n times k ∙ tr.holds n (omega arith);
  bounded = tr.bounded;
}

-- Time passes, with no call.
pub Tracks-later :
    (limit window now later : ℕ) (times history : List ℕ)
    → now ≤ later
    → Tracks limit window now times history
    → Tracks limit window later times history
Tracks-later limit window now later times history h tr = record {
  holds = λ n k. tr.holds n (omega arith);
  bounded = tr.bounded;
}

prune-append :
    (window now : ℕ) (times : List ℕ) (x : ℕ)
    → prune window now (times ++ x ∷ []) ≡ prune window now times ++ prune window now (x ∷ [])
unfolding prune
prune-append window now times x = keep-append _ times (x ∷ [])

length-in_window-append :
    (window t : ℕ) (history : List ℕ) (x : ℕ)
    → length (in_window window t (history ++ x ∷ []))
      ≡ length (in_window window t history) + length (in_window window t (x ∷ []))
unfolding in_window
length-in_window-append window t history x =
    ap length (keep-append _ history (x ∷ [])) ∙ length-append _ _

length-in_window-one : (window t x : ℕ) → length (in_window window t (x ∷ [])) ≤ 1
unfolding in_window keep
length-in_window-one window t x = ground arith

length-in_window-early : (window t x : ℕ) → ¬ (x ≤ t) → length (in_window window t (x ∷ [])) ≡ 0
unfolding in_window keep
length-in_window-early window t x h = ground arith

pub Tracks-push :
    (limit window now stamp : ℕ) (times history : List ℕ)
    → now ≤ stamp
    → length (prune window now times) < limit
    → Tracks limit window now times history
    → Tracks limit window stamp (prune window now times ++ stamp ∷ []) (history ++ stamp ∷ [])
Tracks-push limit window now stamp times history h room tr = record {
  holds = λ n k.
      prune-append window n (prune window now times) stamp
      ∙ ap (λ (l : List ℕ). l ++ prune window n (stamp ∷ []))
          (prune-prune window now n times (omega arith) ∙ tr.holds n (omega arith))
      ∙ sym (prune-append window n history stamp);
  bounded = λ t. elim (dec_le stamp t) [
    | yes p ↦ omega (
      arith,
      length-in_window-append window t history stamp,
      length-in_window-one window t stamp,
      in_window-le-prune window now stamp t history h p,
      ap length (tr.holds now (omega arith)),
    )
    | no p ↦ omega (
      arith,
      length-in_window-append window t history stamp,
      length-in_window-early window t stamp p,
      tr.bounded t,
    )
  ];
}

-- The clock's readings of a row of calls: each call reads it for the window and for its stamp.
abbrev pub IsClocked : ℕ → List (ℕ × ℕ) → Type 0
IsClocked now [] = Unit
IsClocked now ((n, stamp) ∷ calls) = (now ≤ n) × (n ≤ stamp) × IsClocked stamp calls

-- the stamps of the calls that the limiter lets through
unfoldable pub let_through : ℕ → ℕ → List (ℕ × ℕ) → List ℕ → List ℕ
unfolding admit
let_through limit window [] times = []
let_through limit window ((n, stamp) ∷ calls) times =
    let rest = let_through limit window calls (admit limit window n stamp times).0 in
    if (admit limit window n stamp times).1 then stamp ∷ rest else rest

let_through-Tracks :
    (limit window now : ℕ) (calls : List (ℕ × ℕ)) (times history : List ℕ)
    → IsClocked now calls
    → Tracks limit window now times history
    → (t : ℕ)
    → length (in_window window t (history ++ let_through limit window calls times)) ≤ limit
unfolding let_through admit
let_through-Tracks limit window now [] times history c tr t =
    subst (λ (l : List ℕ). length (in_window window t l) ≤ limit) (sym (append-nil history))
      (tr.bounded t)
let_through-Tracks limit window now ((n, stamp) ∷ calls) times history c tr t =
    elim (Bool-cases (leb limit (length (prune window n times)))) [
      | inl full ↦ rw full (
          let_through-Tracks limit window stamp calls (prune window n times) history c.2
            (Tracks-later limit window n stamp (prune window n times) history c.1
              (Tracks-prune limit window now n times history c.0 tr))
            t)
      | inr room ↦ rw room (
          subst (λ (l : List ℕ). length (in_window window t l) ≤ limit)
            (append_assoc history (stamp ∷ [])
              (let_through limit window calls (prune window n times ++ stamp ∷ [])))
            (let_through-Tracks limit window stamp calls (prune window n times ++ stamp ∷ [])
              (history ++ stamp ∷ []) c.2
              (Tracks-push limit window n stamp times history c.1 (ground arith)
                (Tracks-later limit window now n times history c.0 tr))
              t))
    ]

-- Over any row of calls at a clock that does not go back, a limiter lets through at most `limit`
-- of them in any stretch of time as long as its window.
pub let_through-bounded :
    (limit window : ℕ) (calls : List (ℕ × ℕ)) (t : ℕ)
    → IsClocked 0 calls
    → length (in_window window t (let_through limit window calls [])) ≤ limit
unfolding in_window keep
let_through-bounded limit window calls t c =
    let_through-Tracks limit window 0 calls [] [] c
      (record { holds = λ n k. refl; bounded = λ u. omega arith }) t
