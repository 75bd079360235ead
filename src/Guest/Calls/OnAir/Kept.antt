-- ===== src/Guest/Calls/OnAir/Kept.antt =====
-- Methods that leave at most one slot of a production on air, and how
-- they are put together.
use live_ops_backend.Prelude.{
  String, Bool, true, false, Option, none, some, Outcome, ok, throw, Exception, M, World, and_then,
  ◌>>=◌, throw_if, require, return, raise, reads, emit,
}
use live_ops_backend.Guest.{GuestDb, Event, slots_of}
use live_ops_backend.Guest.Calls.OnAir.{OneOnAir}

abbrev pub S : Type 0 → Type 0
S I = World (GuestDb I) Event

module _ {I : Type 0} where
  pub record AllOneOnAir (w : S I) : Type 0 where
    pub one : (p : String) → OneOnAir (slots_of p w.db.configs)

  -- A method that keeps it, however it ends.
  pub record IsSafe {A : Type 0} (m : M (S I) A) : Type 0 where
    pub keeps : (w : S I) → AllOneOnAir w → AllOneOnAir (m w).1

  and_then-AllOneOnAir :
      {A B : Type 0} (r : Outcome A × S I) (k : A → M (S I) B)
      → AllOneOnAir r.1
      → ((a : A) → IsSafe (k a))
      → AllOneOnAir (and_then r k).1
  and_then-AllOneOnAir (ok a, w) k one safe = (safe a).keeps w one
  and_then-AllOneOnAir (throw e, w) k one safe = one

  pub bind-IsSafe :
      {A B : Type 0} (m : M (S I) A) (k : A → M (S I) B)
      → IsSafe m
      → ((a : A) → IsSafe (k a))
      → IsSafe (m >>= k)
  bind-IsSafe m k first rest = record {
    keeps = λ w one. and_then-AllOneOnAir (m w) k (first.keeps w one) rest;
  }

  pub reads-IsSafe : {A : Type 0} (f : S I → A) → IsSafe (reads f)
  reads-IsSafe f = record { keeps = λ w one. one }

  pub require-IsSafe : {A : Type 0} (o : Option A) (e : Exception) → IsSafe (require o e)
  require-IsSafe none e = record { keeps = λ w one. one }
  require-IsSafe (some a) e = record { keeps = λ w one. one }

  pub throw_if-IsSafe : (b : Bool) (e : Exception) → IsSafe (throw_if b e)
  throw_if-IsSafe true e = record { keeps = λ w one. one }
  throw_if-IsSafe false e = record { keeps = λ w one. one }

  pub return-IsSafe : {A : Type 0} (a : A) → IsSafe (return a)
  return-IsSafe a = record { keeps = λ w one. one }

  pub raise-IsSafe : {A : Type 0} (e : Exception) → IsSafe {A = A} (raise e)
  raise-IsSafe e = record { keeps = λ w one. one }

  pub emit-IsSafe : (e : Event) → IsSafe (emit e)
  emit-IsSafe e = record { keeps = λ w one. record { one = one.one } }
