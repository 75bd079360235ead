-- ===== src/Prelude/Table.antt =====
-- A database table as the services reach it through Prisma, which is not part of the repository:
-- the operations are parameters, and the laws state Prisma's documented behaviour. `rows` is the
-- table's content; an `id` is the primary key.
use mathlib.Core.Path.{◌≡◌, refl, sym, ap, ◌∙◌}
use mathlib.Core.Bool.{Bool, not}
use mathlib.Core.Option
use mathlib.Core.Option.{Option, none, some}
use mathlib.Core.List.{List, [], ◌∷◌, ◌++◌}
use Prim.Native.String.{String}
use text.Mathlib.Text.{◌==◌}
use live_ops_backend.Prelude.Lists.{find, filter, update_where}
use live_ops_backend.Prelude.Effect.{M, World, ok, throw, record_missing}

pub record Table (Row : Type 0) : Type 1 where
  pub Store : Type 0
  pub id_of : Row → String
  pub rows : Store → List Row
  -- `findFirst`, `findUnique`: the first row that satisfies the `where`, or null
  pub find_first : (Row → Bool) → Store → Option Row
  -- `findMany`, without an order
  pub find_many : (Row → Bool) → Store → List Row
  pub create : Row → Store → Store
  -- `updateMany`
  pub update_many : (Row → Bool) → (Row → Row) → Store → Store
  -- `update({ where: { id } })`: the new row, or null where Prisma throws for an absent row
  pub update : String → (Row → Row) → Store → Option (Row × Store)
  -- `delete({ where: { id } })`
  pub delete : String → Store → Option Store
  pub find_first-rows : (p : Row → Bool) (s : Store) → find_first p s ≡ find p (rows s)
  pub find_many-rows : (p : Row → Bool) (s : Store) → find_many p s ≡ filter p (rows s)
  pub rows-create : (r : Row) (s : Store) → rows (create r s) ≡ rows s ++ r ∷ []
  pub rows-update_many :
      (p : Row → Bool) (f : Row → Row) (s : Store)
      → rows (update_many p f s) ≡ update_where p f (rows s)
  pub rows-update :
      (id : String) (f : Row → Row) (s : Store)
      → Option.map {B = Row × List Row} (λ (u : Row × Store). (u.0, rows u.1)) (update id f s)
        ≡ Option.map {B = Row × List Row}
            (λ (r : Row). (f r, update_where (λ x. id_of x == id) f (rows s)))
            (find (λ r. id_of r == id) (rows s))
  pub rows-delete :
      (id : String) (s : Store)
      → Option.map rows (delete id s)
        ≡ Option.map
            (λ (r : Row). filter (λ x. not (id_of x == id)) (rows s))
            (find (λ r. id_of r == id) (rows s))

module _ {Row : Type 0} (t : Table Row) where
  -- An update by id of a row that is there succeeds.
  pub update-found :
      (id : String) (f : Row → Row) (s : t.Store) {r : Row}
      → find (λ x. t.id_of x == id) (t.rows s) ≡ some r
      → (s' : t.Store) × (t.update id f s ≡ some (f r, s'))
        × (t.rows s' ≡ update_where (λ x. t.id_of x == id) f (t.rows s))
  update-found id f s {r} found =
      let ((r', s'), done, same) =
        (Option.map-eq-some_iff (λ (u : Row × t.Store). (u.0, t.rows u.1)) (t.update id f s)).0 (
          t.rows-update id f s
          ∙ ap
              (Option.map {B = Row × List Row}
                (λ (r : Row). (f r, update_where (λ x. t.id_of x == id) f (t.rows s))))
              found) in
      (
        s',
        done ∙ ap (λ v. some (v, s')) (ap (λ (u : Row × List Row). u.0) same),
        ap (λ (u : Row × List Row). u.1) same,
      )

  -- What a successful update by id wrote.
  pub update-rows :
      (id : String) (f : Row → Row) (s : t.Store) {r : Row} {s' : t.Store}
      → t.update id f s ≡ some (r, s')
      → t.rows s' ≡ update_where (λ x. t.id_of x == id) f (t.rows s)
  update-rows id f s {r} {s'} done =
      let updated : Row → Row × List Row =
        λ r. (f r, update_where (λ x. t.id_of x == id) f (t.rows s)) in
      let (r₀, found, same) =
        (Option.map-eq-some_iff {B = Row × List Row} updated
            (find (λ x. t.id_of x == id) (t.rows s))).0
          (sym (t.rows-update id f s)
            ∙ ap (Option.map {B = Row × List Row} (λ (u : Row × t.Store). (u.0, t.rows u.1)))
                done) in
      sym (ap (λ (u : Row × List Row). u.1) same)

  -- The row that a successful update by id returns.
  pub update-row :
      (id : String) (f : Row → Row) (s : t.Store) {r : Row} {s' : t.Store}
      → t.update id f s ≡ some (r, s')
      → (r₀ : Row) × (find (λ x. t.id_of x == id) (t.rows s) ≡ some r₀) × (r ≡ f r₀)
  update-row id f s {r} {s'} done =
      let updated : Row → Row × List Row =
        λ r. (f r, update_where (λ x. t.id_of x == id) f (t.rows s)) in
      let (r₀, found, same) =
        (Option.map-eq-some_iff {B = Row × List Row} updated
            (find (λ x. t.id_of x == id) (t.rows s))).0
          (sym (t.rows-update id f s)
            ∙ ap (Option.map {B = Row × List Row} (λ (u : Row × t.Store). (u.0, t.rows u.1)))
                done) in
      (r₀, found, sym (ap (λ (u : Row × List Row). u.0) same))

  pub delete-found :
      (id : String) (s : t.Store) {r : Row}
      → find (λ x. t.id_of x == id) (t.rows s) ≡ some r
      → (s' : t.Store) × (t.delete id s ≡ some s')
        × (t.rows s' ≡ filter (λ x. not (t.id_of x == id)) (t.rows s))
  delete-found id s {r} found = (Option.map-eq-some_iff t.rows (t.delete id s)).0 (
      t.rows-delete id s
      ∙ ap (Option.map (λ (r : Row). filter (λ x. not (t.id_of x == id)) (t.rows s))) found)

  -- What a successful deletion by id left.
  pub delete-rows :
      (id : String) (s : t.Store) {s' : t.Store}
      → t.delete id s ≡ some s'
      → t.rows s' ≡ filter (λ x. not (t.id_of x == id)) (t.rows s)
  delete-rows id s {s'} done =
      let kept : Row → List Row = λ r. filter (λ x. not (t.id_of x == id)) (t.rows s) in
      let (r, found, same) =
        (Option.map-eq-some_iff kept (find (λ x. t.id_of x == id) (t.rows s))).0
          (sym (t.rows-delete id s) ∙ ap (Option.map t.rows) done) in
      sym same

  -- `await prisma.x.update(…)` inside a method
  abbrev pub update_row : {E : Type 0} → String → (Row → Row) → M (World t.Store E) Row
  update_row id f w = elim (t.update id f w.db) [
    | none ↦ (throw record_missing, w)
    | some (r, db) ↦ (ok r, record w { db = db })
  ]

  abbrev pub delete_row : {E : Type 0} → String → M (World t.Store E) (Unit {0})
  delete_row id w = elim (t.delete id w.db) [
    | none ↦ (throw record_missing, w)
    | some db ↦ (ok tt, record w { db = db })
  ]

abbrev pub map_id {ℓ} : {A : Type ℓ} (o : Option A) → Option.map (λ x. x) o ≡ o
map_id none = refl
map_id (some a) = refl

-- A table held as a list: the laws can be met.
module _ {Row : Type 0} (key : Row → String) where
  abbrev pub list_table : Table Row
  list_table = record {
    Store = List Row;
    id_of = key;
    rows = λ s. s;
    find_first = find;
    find_many = filter;
    create = λ r s. s ++ r ∷ [];
    update_many = update_where;
    update = λ id f s.
        Option.map {B = Row × List Row} (λ (r : Row). (f r, update_where (λ x. key x == id) f s))
          (find (λ x. key x == id) s);
    delete = λ id s.
        Option.map (λ (r : Row). filter (λ x. not (key x == id)) s) (find (λ x. key x == id) s);
    find_first-rows = λ p s. refl;
    find_many-rows = λ p s. refl;
    rows-create = λ r s. refl;
    rows-update_many = λ p f s. refl;
    rows-update = λ id f s. map_id _;
    rows-delete = λ id s. map_id _;
  }
