-- ===== src/Prelude/Effect.antt =====
-- Methods that throw: a state, and an outcome that is a value or an exception. What a method wrote
-- before it threw stays written.
use Prim.Native.Nat.{ℕ}
use Prim.Native.String.{String}
use mathlib.Core.Bool.{Bool, true, false}
use mathlib.Core.Option.{Option, none, some}
use mathlib.Core.List.{List, [], ◌∷◌, ◌++◌}

-- Nest's HTTP exceptions, with their messages; `record_missing` is what Prisma's `update` and
-- `delete` throw for an absent row, and `locked_out n` the 403 whose message names n minutes.
pub data Exception : Type 0 where
  bad_request unauthorized forbidden not_found conflict internal : String → Exception
  locked_out : ℕ → Exception
  record_missing : Exception

pub data Outcome {ℓ} (A : Type ℓ) : Type ℓ where
  ok : A → Outcome A
  throw : Exception → Outcome A

abbrev pub M : Type 0 → Type 0 → Type 0
M S A = S → Outcome A × S

abbrev pub and_then {ℓ} : {S A B : Type ℓ} → Outcome A × S → (A → S → Outcome B × S) → Outcome B × S
and_then (ok a, s) k = k a s
and_then (throw e, s) k = (throw e, s)

infixl 5 ◌>>=◌ ◌>>◌
abbrev pub ◌>>=◌ : {S A B : Type 0} → M S A → (A → M S B) → M S B
◌>>=◌ m f s = and_then (m s) f

abbrev pub ◌>>◌ : {S A B : Type 0} → M S A → M S B → M S B
◌>>◌ m k s = and_then (m s) (λ _. k)

abbrev pub return : {S A : Type 0} → A → M S A
return a s = (ok a, s)

abbrev pub raise : {S A : Type 0} → Exception → M S A
raise e s = (throw e, s)

-- `if (bad) throw e`
abbrev pub throw_if : {S : Type 0} → Bool → Exception → M S (Unit {0})
throw_if true e s = (throw e, s)
throw_if false e s = (ok tt, s)

-- `if (!x) throw e`, with what `x` then is
abbrev pub require : {S A : Type 0} → Option A → Exception → M S A
require none e s = (throw e, s)
require (some a) e s = (ok a, s)

abbrev pub reads : {S A : Type 0} → (S → A) → M S A
reads f s = (ok (f s), s)

abbrev pub writes : {S : Type 0} → (S → S) → M S (Unit {0})
writes f s = (ok tt, f s)

-- What a service's methods read and write: the database, and the events, audit entries and calls of
-- other services that were sent, oldest first.
pub record World (D E : Type 0) : Type 0 where
  pub db : D
  pub events : List E

abbrev pub emit : {D E : Type 0} → E → M (World D E) (Unit {0})
emit e w = (ok tt, record w { events = w.events ++ e ∷ [] })
