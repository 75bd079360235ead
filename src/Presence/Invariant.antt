-- ===== src/Presence/Invariant.antt =====
-- The indexes of the presence service agree, whatever the operations and timers.
use live_ops_backend.Prelude.{
  ℕ, suc, ◌<◌, String, ◌==◌, ◌≡◌, refl, Bool, true, false, List, [], ◌∷◌, ◌++◌, Option, none, some,
  arith, eq_iff, any, Option-cases, inl, inr, In, here, there, eqb,
}
use live_ops_backend.Prelude.Map.{Map, get, set, get-set, get-delete, has, delete}
use live_ops_backend.Presence.{
  Presence, UserPresence, Pending, Timer, truthy, sockets_in, clear_timeout, clear_pending,
  is_empty,
}

-- the pending entry of a user holds the timer
abbrev pub holds : Option Pending → ℕ → Bool
holds none n = false
holds (some p) n = eqb p.timer n

-- Every timer that can still fire is the one of its user's entry in `reconnecting`.
abbrev pub Owned : Map Pending → List Timer → Type 0
Owned rec [] = Unit
Owned rec (t ∷ ts) = (holds (get rec t.user) t.tid ≡ true) × Owned rec ts

abbrev pub Below : ℕ → List Timer → Type 0
Below n [] = Unit
Below n (t ∷ ts) = (t.tid < n) × Below n ts

pub record Inv (s : Presence) : Type 0 where
  -- a socket with a user is in the user's set
  pub indexed :
      (c : String) (d : UserPresence)
      → get s.active_sockets c ≡ some d
      → truthy d.user_id ≡ true
      → has (sockets_in s.user_to_sockets d.user_id) c ≡ true
  pub owned : Owned s.reconnecting s.timers
  pub fresh : Below s.next_timer s.timers

pub Owned-cleared :
    (rec : Map Pending) (u : String) (n : ℕ) (ts : List Timer)
    → Owned rec ts
    → holds (get rec u) n ≡ true
    → Owned (delete rec u) (clear_timeout n ts)
unfolding clear_timeout
Owned-cleared rec u n [] h k = tt
Owned-cleared rec u n (t ∷ ts) h k =
    ground (arith, get-delete rec u t.user, eq_iff u t.user, Owned-cleared rec u n ts h.1 k)

pub Owned-replaced :
    (rec : Map Pending) (u : String) (p : Pending) (ts : List Timer)
    → Owned rec ts
    → Owned (set rec u p) (clear_pending (get rec u) ts)
unfolding clear_timeout
Owned-replaced rec u p [] h = elim (Option-cases (get rec u)) [
  | inl e ↦ rw e tt
  | inr (q, e) ↦ rw e tt
]
Owned-replaced rec u p (t ∷ ts) h =
    ground (arith, get-set rec u p t.user, eq_iff u t.user, Owned-replaced rec u p ts h.1)

pub Owned-append :
    (rec : Map Pending) (ts : List Timer) (t : Timer)
    → Owned rec ts
    → holds (get rec t.user) t.tid ≡ true
    → Owned rec (ts ++ t ∷ [])
Owned-append rec [] t h k = (k, tt)
Owned-append rec (x ∷ ts) t h k = (h.0, Owned-append rec ts t h.1 k)

pub Owned-In :
    (rec : Map Pending) (ts : List Timer) (t : Timer)
    → Owned rec ts
    → In t ts
    → holds (get rec t.user) t.tid ≡ true
Owned-In rec [] t h m = elim m [ ]
Owned-In rec (x ∷ ts) t h here = h.0
Owned-In rec (x ∷ ts) t h (there m) = Owned-In rec ts t h.1 m

pub Below-cleared : (n k : ℕ) (ts : List Timer) → Below n ts → Below n (clear_timeout k ts)
unfolding clear_timeout
Below-cleared n k [] h = tt
Below-cleared n k (t ∷ ts) h = ground (arith, Below-cleared n k ts h.1)

pub Below-pending :
    (n : ℕ) (o : Option Pending) (ts : List Timer) → Below n ts → Below n (clear_pending o ts)
Below-pending n none ts h = h
Below-pending n (some p) ts h = Below-cleared n p.timer ts h

pub Below-append :
    (n : ℕ) (ts : List Timer) (t : Timer) → Below n ts → t.tid ≡ n → Below (suc n) (ts ++ t ∷ [])
Below-append n [] t h k = omega arith
Below-append n (x ∷ ts) t h k = (omega arith, Below-append n ts t h.1 k)

-- A user with no entry in `reconnecting` has no timer that can fire.
pub Owned-none :
    (rec : Map Pending) (u : String) (ts : List Timer)
    → Owned rec ts
    → get rec u ≡ none
    → any (λ (t : Timer). t.user == u) ts ≡ false
Owned-none rec u [] h e = refl
Owned-none rec u (t ∷ ts) h e = ground (arith, eq_iff t.user u, Owned-none rec u ts h.1 e)

pub has-is_empty : (xs : List String) (c : String) → is_empty xs ≡ true → has xs c ≡ false
has-is_empty [] c h = refl
has-is_empty (x ∷ xs) c h = cc
