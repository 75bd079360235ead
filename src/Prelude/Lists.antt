-- ===== src/Prelude/Lists.antt =====
-- Lists measured and indexed by native numbers, Boolean searches, and predicates over lists.
use Prim.Native.Nat.{ℕ, suc}
use Prim.Native.String.{String}
use mathlib.Core.Path.{◌≡◌, refl, subst}
use mathlib.Core.Logic.{◌↔◌, inl, inr}
use mathlib.Core.Bool.{Bool, true, false, ◌&&◌, ◌||◌}
use mathlib.Core.Option.{Option, none, some}
use mathlib.Core.List.{List, [], ◌∷◌, ◌++◌, map}
use native.Mathlib.Omega.{arith}
use text.Mathlib.Text.{◌==◌}
use text.Mathlib.TextEquality.{eq_iff}
use text.Mathlib.TextPositions.{eq_refl}
use live_ops_backend.Prelude.Tests.{if◌then◌else◌, eqb, Bool-cases, Option-cases}

module _ {ℓ} {A : Type ℓ} where
  abbrev pub length : List A → ℕ
  length [] = 0
  length (x ∷ xs) = suc (length xs)

  -- `xs.some(p)`
  abbrev pub any : (A → Bool) → List A → Bool
  any p [] = false
  any p (x ∷ xs) = p x || any p xs

  -- `xs.every(p)`
  abbrev pub all : (A → Bool) → List A → Bool
  all p [] = true
  all p (x ∷ xs) = p x && all p xs

  -- `xs.filter(p)`
  abbrev pub filter : (A → Bool) → List A → List A
  filter p [] = []
  filter p (x ∷ xs) = let rest = filter p xs in if p x then x ∷ rest else rest

  -- `xs.find(p)`
  abbrev pub find : (A → Bool) → List A → Option A
  find p [] = none
  find p (x ∷ xs) = let rest = find p xs in if p x then some x else rest

  -- rows that satisfy `p` are changed by `f`
  abbrev pub update_where : (A → Bool) → (A → A) → List A → List A
  update_where p f [] = []
  update_where p f (x ∷ xs) = (if p x then f x else x) ∷ update_where p f xs

  abbrev pub count : (A → Bool) → List A → ℕ
  count p [] = 0
  count p (x ∷ xs) = let rest = count p xs in if p x then suc rest else rest

-- `xs.includes(x)`
abbrev pub includes : String → List String → Bool
includes x xs = any (λ y. y == x) xs

-- `text.startsWith(word)`, both as codes
abbrev pub is_prefix : List ℕ → List ℕ → Bool
is_prefix [] cs = true
is_prefix (b ∷ bs) (c ∷ cs) = eqb b c && is_prefix bs cs
is_prefix (b ∷ bs) [] = false

-- A predicate by recursion computes to tuples, which the tactics read and build.
module _ {ℓ κ} {A : Type ℓ} (P : A → Type κ) where
  abbrev pub All : List A → Type κ
  All [] = Unit
  All (x ∷ xs) = P x × All xs

-- Membership as an inductive family.
pub data In {ℓ} {A : Type ℓ} (a : A) : List A → Type ℓ where
  here : {xs : List A} → In a (a ∷ xs)
  there : {x : A} {xs : List A} → In a xs → In a (x ∷ xs)

module _ {ℓ} {A : Type ℓ} where
  pub all→In : (p : A → Bool) (xs : List A) (a : A) → all p xs ≡ true → In a xs → p a ≡ true
  all→In p [] a h m = elim m [ ]
  all→In p (x ∷ xs) a h here = ground arith
  all→In p (x ∷ xs) a h (there m) = all→In p xs a (ground arith) m

  pub In→all : (p : A → Bool) (xs : List A) → ((a : A) → In a xs → p a ≡ true) → all p xs ≡ true
  In→all p [] h = refl
  In→all p (x ∷ xs) h = ground (arith, h x here, In→all p xs (λ a m. h a (there m)))

  pub In→any : (p : A → Bool) (xs : List A) (a : A) → In a xs → p a ≡ true → any p xs ≡ true
  In→any p [] a m h = elim m [ ]
  In→any p (x ∷ xs) a here h = ground arith
  In→any p (x ∷ xs) a (there m) h = ground (arith, In→any p xs a m h)

  pub any→In : (p : A → Bool) (xs : List A) → any p xs ≡ true → (a : A) × In a xs × (p a ≡ true)
  any→In p [] h = cc
  any→In p (x ∷ xs) h = elim (Bool-cases (p x)) [
    | inl e ↦ (x, here, e)
    | inr e ↦ let (a, m, q) = any→In p xs (ground arith) in (a, there m, q)
  ]

pub includes_iff : (x : String) (xs : List String) → (includes x xs ≡ true) ↔ In x xs
includes_iff x xs = (
  λ h. let (y, m, e) = any→In (λ y. y == x) xs h in subst (λ z. In z xs) ((eq_iff y x).0 e) m,
  λ m. In→any (λ y. y == x) xs x m (eq_refl x),
)

module _ {ℓ} {A : Type ℓ} where
  pub find-satisfies :
      (p : A → Bool) (xs : List A) {a : A} → find p xs ≡ some a → In a xs × (p a ≡ true)
  find-satisfies p [] h = cc
  find-satisfies p (x ∷ xs) {a} h = elim (Bool-cases (p x)) [
    | inl e ↦
        let same : x ≡ a = ground arith in (subst (λ z. In z (x ∷ xs)) same here, rw (← same) e)
    | inr e ↦ let (m, q) = find-satisfies p xs (ground arith) in (there m, q)
  ]

  pub find-none : (p : A → Bool) (xs : List A) → find p xs ≡ none → any p xs ≡ false
  find-none p [] h = refl
  find-none p (x ∷ xs) h = ground (arith, find-none p xs)

  -- a search by a stronger test finds nothing where the weaker one does not
  pub find-weaken :
      (p q : A → Bool) (xs : List A) {a : A}
      → ((x : A) → p x ≡ true → q x ≡ true)
      → find p xs ≡ some a
      → (b : A) × (find q xs ≡ some b)
  find-weaken p q xs {a} h e = elim (Option-cases (find q xs)) [
    | inl missed ↦
        let (m, good) = find-satisfies p xs e in
        absurd (clash (find-none q xs missed) (In→any q xs a m (h a good)))
    | inr found ↦ found
  ]
    where
      clash : any q xs ≡ false → any q xs ≡ true → ⊥
      clash f t = cc

  pub map-update_where {κ} :
      {B : Type κ} (g : A → B) (p : A → Bool) (f : A → A) (xs : List A)
      → ((x : A) → g (f x) ≡ g x)
      → map g (update_where p f xs) ≡ map g xs
  map-update_where g p f [] h = refl
  map-update_where g p f (x ∷ xs) h = elim (Bool-cases (p x)) [
    | inl e ↦ rw (e, h x, map-update_where g p f xs h)
    | inr e ↦ rw (e, map-update_where g p f xs h)
  ]

  pub In→find :
      (p : A → Bool) (xs : List A) (a : A) → In a xs → p a ≡ true → (b : A) × (find p xs ≡ some b)
  In→find p xs a m h = elim (Option-cases (find p xs)) [
    | inl missed ↦ absurd (cc (find-none p xs missed, In→any p xs a m h))
    | inr found ↦ found
  ]

  -- a search by what `f` leaves alone, after the rows that satisfy `q` were changed by `f`
  pub find-update_where :
      (p q : A → Bool) (f : A → A) (xs : List A) {a : A}
      → ((x : A) → p (f x) ≡ p x)
      → find p xs ≡ some a
      → find p (update_where q f xs) ≡ some (if q a then f a else a)
  find-update_where p q f [] keep h = cc
  find-update_where p q f (x ∷ xs) {a} keep h = elim (Bool-cases (p x)) [
    | inl e ↦
        let same : x ≡ a = ground arith in
        elim (Bool-cases (q x)) [
          | inl g ↦ rw (g, keep x, e, ← same, g)
          | inr g ↦ rw (g, e, ← same, g)
        ]
    | inr e ↦
        let ih = find-update_where p q f xs {a = a} keep (ground arith) in
        elim (Bool-cases (q x)) [ inl g ↦ rw (g, keep x, e) ih | inr g ↦ rw (g, e) ih ]
  ]

  -- what a search finds at the end, where it found nothing before
  pub find-appended :
      (p : A → Bool) (xs : List A) (a : A)
      → find p xs ≡ none
      → p a ≡ true
      → find p (xs ++ a ∷ []) ≡ some a
  find-appended p [] a missed h = rw h refl
  find-appended p (x ∷ xs) a missed h = ground (arith, missed, find-appended p xs a)

pub is_prefix→++ : (t s : List ℕ) → is_prefix t s ≡ true → (v : List ℕ) × (s ≡ t ++ v)
is_prefix→++ [] s h = (s, refl)
is_prefix→++ (b ∷ t) [] h = cc h
is_prefix→++ (b ∷ t) (c ∷ s) h =
    let (v, e) = is_prefix→++ t s (ground (arith, h)) in (v, ground (arith, h, e))
