-- ===== src/Base/Repository.antt =====
-- src/common/base/repositories/base.repository.ts. A table is a list of rows inside the state `S`.
use nestjs_template.Common.{
  ℕ, Bool, not, Option, none, some, List, [], ◌∷◌, ◌++◌, map, Action, http, duplicate_record,
  foreign_key_violation, find, select, update_where, update_first, remove_first, any, length, pure,
  gets, modify, throw_if, ◌>>=◌, ◌>>◌,
}

-- `clashes` is the table's unique columns: two rows that cannot both be there. `refers` is its foreign
-- keys: the rows that a row refers to are there. The migrations of src/infrastructure/db/migrations
-- say what a deletion does to rows that refer to it: `restricted` is `ON DELETE RESTRICT`, `cascade`
-- is `ON DELETE CASCADE`.
pub record Repository (S T : Type 0) : Type 0 where
  pub rows : S → List T
  pub save : List T → S → S
  pub take_id : Action S ℕ
  pub clashes : T → T → Bool
  pub refers : T → S → Bool
  pub restricted : T → S → Bool
  pub cascade : T → S → S

module _ {S T : Type 0} (repo : Repository S T) where
  abbrev pub find_one : (T → Bool) → Action S (Option T)
  find_one where_ = gets (λ s. find where_ (repo.rows s))

  abbrev pub find_many : (T → Bool) → Action S (List T)
  find_many where_ = gets (λ s. select where_ (repo.rows s))

  abbrev pub exists : (T → Bool) → Action S Bool
  exists where_ = gets (λ s. any where_ (repo.rows s))

  abbrev pub count : (T → Bool) → Action S ℕ
  count where_ = gets (λ s. length (select where_ (repo.rows s)))

  abbrev pub set_rows : (List T → List T) → Action S (Unit {0})
  set_rows f = modify (λ s. repo.save (f (repo.rows s)) s)

  -- `create`: a violated unique column or foreign key is answered by `handle` with a conflict.
  abbrev pub create : (ℕ → T) → Action S T
  create make = do
    id ← repo.take_id
    rows ← gets repo.rows
    throw_if (any (repo.clashes (make id)) rows) (http 409 duplicate_record)
    linked ← gets (repo.refers (make id))
    throw_if (not linked) (http 409 foreign_key_violation)
    set_rows (λ rows. rows ++ make id ∷ [])
    pure (make id)

  -- `createMany`: one row after the other.
  unfoldable pub create_many : List (ℕ → T) → Action S (List T)
  create_many [] = pure []
  create_many (make ∷ rest) = do row ← create make; more ← create_many rest; pure (row ∷ more)

  -- `update`: the first row that fits is merged with the data and saved; `null` without one.
  abbrev pub update : (T → Bool) → (T → T) → Action S (Option T)
  update where_ merge = do
    found ← find_one where_
    elim found [
      | none ↦ pure none
      | some row ↦ do set_rows (update_first where_ merge); pure (some (merge row))
    ]

  -- `updateMany`: all rows that fit.
  abbrev pub update_many : (T → Bool) → (T → T) → Action S (List T)
  update_many where_ merge = do
    found ← find_many where_
    set_rows (update_where where_ merge)
    pure (map merge found)

  -- `remove`
  abbrev pub remove : (T → Bool) → Action S (Option T)
  remove where_ = do
    found ← find_one where_
    elim found [
      | none ↦ pure none
      | some row ↦ do
        held ← gets (repo.restricted row)
        throw_if held (http 409 foreign_key_violation)
        set_rows (remove_first where_)
        modify (repo.cascade row)
        pure (some row)
    ]

  unfoldable pub cascade_all : List T → S → S
  cascade_all [] s = s
  cascade_all (row ∷ rest) s = cascade_all rest (repo.cascade row s)

  -- `removeMany`; no table of which rows are restricted is given to it.
  unfoldable pub remove_many : (T → Bool) → Action S (List T)
  unfolding cascade_all
  remove_many where_ = do
    found ← find_many where_
    set_rows (select (λ row. not (where_ row)))
    modify (cascade_all found)
    pure found
