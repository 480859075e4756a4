-- ===== src/Sockets/Floods.antt =====
-- The limiters of the safety layer at work: how many calls each lets through.
use relay_chatapp.Base.{
  ℕ, ◌≤◌, ◌≡◌, refl, sym, subst, inl, inr, Option-cases, true, List, [], ◌∷◌, ◌++◌, map, Text,
  text_dec, get, get-put, get-drop_key, length, keep, arith, if◌then◌else◌,
}
use relay_chatapp.Sockets.State.{RateState, fresh_limits}
use relay_chatapp.Sockets.Limits.{
  prune, is_nil, admit, max_send_rate, send_window, check_send_rate_limit,
}
use relay_chatapp.Sockets.Users.{
  typing_window, max_typing, Buckets, prune_bucket, times_of, bucket_key, check_typing,
}
use relay_chatapp.Sockets.Sliding.{in_window, IsClocked, let_through, let_through-bounded}

-- the times of the sends that `checkSendRateLimit` allows
unfoldable pub sends_allowed : List ℕ → RateState → List ℕ
unfolding check_send_rate_limit
sends_allowed [] s = []
sends_allowed (now ∷ times) s =
    let rest = sends_allowed times (check_send_rate_limit now s).0 in
    if (check_send_rate_limit now s).1 then now ∷ rest else rest

twice : List ℕ → List (ℕ × ℕ)
twice = map (λ n. (n, n))

-- The times do not go back.
abbrev pub IsOrdered : ℕ → List ℕ → Type 0
IsOrdered now [] = Unit
IsOrdered now (n ∷ times) = (now ≤ n) × IsOrdered n times

sends_allowed-let_through :
    (times : List ℕ) (s : RateState)
    → sends_allowed times s ≡ let_through max_send_rate send_window (twice times) s.send_timestamps
unfolding sends_allowed let_through twice check_send_rate_limit
sends_allowed-let_through [] s = refl
sends_allowed-let_through (now ∷ times) s =
    simp (sends_allowed-let_through times (check_send_rate_limit now s).0)

twice-IsClocked : (now : ℕ) (times : List ℕ) → IsOrdered now times → IsClocked now (twice times)
unfolding twice
twice-IsClocked now [] h = tt
twice-IsClocked now (n ∷ times) h = (h.0, omega arith, twice-IsClocked n times h.1)

-- However a new socket sends, at most 60 of its messages pass the send limiter in any 5000
-- milliseconds, while the clock does not go back.
pub sends_allowed-bounded :
    (times : List ℕ) (t : ℕ)
    → IsOrdered 0 times
    → length (in_window send_window t (sends_allowed times fresh_limits)) ≤ max_send_rate
sends_allowed-bounded times t h =
    subst (λ (l : List ℕ). length (in_window send_window t l) ≤ max_send_rate)
      (sym (sends_allowed-let_through times fresh_limits))
      (let_through-bounded max_send_rate send_window (twice times) t (twice-IsClocked 0 times h))

is_nil-eq : (l : List ℕ) → is_nil l ≡ true → l ≡ []
is_nil-eq [] h = refl
is_nil-eq (x ∷ l) h = cc

prune_bucket-times :
    (now : ℕ) (key : Text) (buckets : Buckets)
    → times_of (get text_dec key (prune_bucket now key buckets))
      ≡ prune typing_window now (times_of (get text_dec key buckets))
unfolding prune_bucket prune keep
prune_bucket-times now key buckets = elim (Option-cases (get text_dec key buckets)) [
  | inl e ↦ rw (e, prune_bucket) (rw e)
  | inr (times, e) ↦ ground (
    arith,
    e,
    is_nil-eq times,
    is_nil-eq (prune typing_window now times),
    get-put text_dec key key (prune typing_window now times) buckets,
    get-drop_key text_dec key key buckets,
  )
]

-- the stamps of the typing events of one user in one room that `check` allows
unfoldable pub typing_allowed : Text → Text → List (ℕ × ℕ) → Buckets → List ℕ
unfolding check_typing
typing_allowed user room [] buckets = []
typing_allowed user room ((now, stamp) ∷ calls) buckets =
    let rest = typing_allowed user room calls (check_typing now stamp user room buckets).0 in
    if (check_typing now stamp user room buckets).1 then stamp ∷ rest else rest

check_typing-admit :
    (now stamp c : ℕ) (w room : Text) (buckets : Buckets)
    → let o = check_typing now stamp (c ∷ w) room buckets in
      let times = times_of (get text_dec (bucket_key (c ∷ w) room) buckets) in
      (o.1 ≡ (admit max_typing typing_window now stamp times).1)
      × (times_of (get text_dec (bucket_key (c ∷ w) room) o.0)
          ≡ (admit max_typing typing_window now stamp times).0)
unfolding check_typing admit
check_typing-admit now stamp c w room buckets =
    let key = bucket_key (c ∷ w) room in
    let pruned = prune_bucket now key buckets in
    ground (
      arith,
      prune_bucket-times now key buckets,
      get-put text_dec key key (times_of (get text_dec key pruned) ++ stamp ∷ []) pruned,
    )

typing_allowed-let_through :
    (c : ℕ) (w room : Text) (calls : List (ℕ × ℕ)) (buckets : Buckets)
    → typing_allowed (c ∷ w) room calls buckets
      ≡ let_through max_typing typing_window calls
          (times_of (get text_dec (bucket_key (c ∷ w) room) buckets))
unfolding typing_allowed let_through
typing_allowed-let_through c w room [] buckets = refl
typing_allowed-let_through c w room ((now, stamp) ∷ calls) buckets =
    let (same, kept) = check_typing-admit now stamp c w room buckets in
    simp (
      same,
      ← kept,
      typing_allowed-let_through c w room calls (check_typing now stamp (c ∷ w) room buckets).0,
    )

-- From a start with no bucket, however fast a user with an id that is not empty types in a room, at
-- most 4 of the events pass in any 2000 milliseconds, while the clock does not go back.
pub typing_allowed-bounded :
    (c : ℕ) (w room : Text) (calls : List (ℕ × ℕ)) (t : ℕ)
    → IsClocked 0 calls
    → length (in_window typing_window t (typing_allowed (c ∷ w) room calls [])) ≤ max_typing
unfolding get
typing_allowed-bounded c w room calls t h =
    subst (λ (l : List ℕ). length (in_window typing_window t l) ≤ max_typing)
      (sym (typing_allowed-let_through c w room calls []))
      (let_through-bounded max_typing typing_window calls t h)
