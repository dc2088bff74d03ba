-- ===== src/Base/Providers.antt =====
-- The template methods of src/common/base/providers: each `execute` with its hooks as arguments. The
-- hooks of a provider that does not override them are `skip`.
use nestjs_template.Common.{
  ℕ, Bool, not, List, any, ◌==◌, Action, http, Key, pure, throw_if, non_null, or_throw, ◌>>=◌, ◌>>◌,
  length, if◌then◌else◌,
}
use nestjs_template.Base.Repository.{
  Repository, find_one, find_many, create, update, update_many, remove,
}

module _ {S : Type 0} {A : Type 0} where
  abbrev pub skip : A → Action S (Unit {0})
  skip _ = pure tt

-- A request's row and its payload.
module _ {S T : Type 0} (repo : Repository S T) (not_found : Key) where
  -- `BaseProvider.findOne` with `throwError` left at its default
  abbrev pub find_one_or_throw : (T → Bool) → Action S T
  find_one_or_throw where_ = do entity ← find_one repo where_; or_throw entity (http 404 not_found)

  -- `BaseCreateProvider.execute`
  unfoldable pub create_provider :
      {D : Type 0}
      → (D → Action S (Unit {0}))
      → (D → ℕ → T)
      → (T → Action S (Unit {0}))
      → D
      → Action S T
  create_provider before build after dto = do
    before dto
    entity ← create repo (build dto)
    after entity
    pure entity

  -- `BaseUpdateProvider.execute`. `is_deleted` is constantly `false` for an entity without the column.
  unfoldable pub update_provider :
      {D : Type 0}
      → (T → Bool)
      → (T → D → Action S (Unit {0}))
      → (D → T → T)
      → (T → D → Action S (Unit {0}))
      → (T → Bool)
      → D
      → Action S T
  update_provider is_deleted before build after where_ dto = do
    entity ← find_one_or_throw where_
    throw_if (is_deleted entity) (http 404 not_found)
    before entity dto
    updated ← update repo where_ (build dto)
    row ← non_null updated
    after row dto
    pure row

  -- `BaseDeleteProvider.execute`: `soft` is `softRemove` of the entity at this time and user.
  unfoldable pub delete_provider :
      (T → Action S (Unit {0}))
      → (T → T)
      → (T → Bool → Action S (Unit {0}))
      → (T → Bool)
      → Bool
      → Action S (Unit {0})
  delete_provider before soft after where_ force = do
    entity ← find_one_or_throw where_
    before entity
    (if force then remove repo where_ else update repo where_ soft)
    after entity force

  -- `BaseRestoreProvider.execute`
  unfoldable pub restore_provider :
      Key
      → (T → Bool)
      → (T → Action S (Unit {0}))
      → (T → T)
      → (T → Action S (Unit {0}))
      → (T → Bool)
      → Action S T
  restore_provider not_archived is_deleted before undelete after where_ = do
    entity ← find_one_or_throw where_
    throw_if (not (is_deleted entity)) (http 400 not_archived)
    before entity
    restored ← update repo where_ undelete
    row ← non_null restored
    after row
    pure row

  -- `BaseUpdateManyProvider.execute` with one payload, as the code calls it.
  unfoldable pub update_many_provider : (T → Bool) → (T → T) → (T → Bool) → Action S (List T)
  update_many_provider is_deleted build where_ = do
    entities ← find_many repo where_
    throw_if (length entities == 0) (http 404 not_found)
    throw_if (any is_deleted entities) (http 404 not_found)
    update_many repo where_ build
