-- ===== src/Base/Listing.antt =====
-- The queries of src/common/base/repositories/base.repository.ts that answer with lists: `list` and
-- `paginatedList`. What `buildListQuery` selects and how it sorts are arguments.
use mathlib.Core.List.{Permᴰ, Pairwise}
use nestjs_template.Common.{
  ℕ, suc, zero, ◌+◌, ◌-◌, ◌*◌, ◌/◌, ◌≡◌, Bool, true, Option, none, some, or_else, List, [], ◌∷◌,
  select, take, length, Action, gets,
}
use nestjs_template.Base.Repository.{Repository}

abbrev pub drop {ℓ} : {A : Type ℓ} → ℕ → List A → List A
drop zero xs = xs
drop (suc n) [] = []
drop (suc n) (x ∷ xs) = drop n xs

pub record Meta : Type 0 where
  pub total : ℕ
  pub pages : ℕ
  pub current_page : ℕ

pub record PaginatedResult (T : Type 0) : Type 0 where
  pub items : List T
  pub meta : Meta

-- `Math.ceil(total / limit)` for a positive limit
abbrev pub ceil_div : ℕ → ℕ → ℕ
ceil_div total limit = (total + (limit - 1)) / limit

-- The sort of a query, `before x y` where x may come before y. PostgreSQL documents that a query answers
-- with its rows in an order that the sort allows: rows that tie may come in another order with another
-- `OFFSET` and `LIMIT`, which `order` therefore has (`none` for a query without them).
pub record Sorting (T : Type 0) : Type 0 where
  pub before : T → T → Bool
  pub order : Option (ℕ × ℕ) → List T → List T
  pub reflexive : (x : T) → before x x ≡ true
  pub permutes : (q : Option (ℕ × ℕ)) (rows : List T) → Permᴰ (order q rows) rows
  pub sorts :
      (q : Option (ℕ × ℕ)) (rows : List T) → Pairwise (λ x y. before x y ≡ true) (order q rows)

-- `qb.skip((page - 1) * limit).take(limit)`, pages counted from 1, and the metadata; the rows are counted
-- by a query of their own.
abbrev pub paginate : {T : Type 0} → Sorting T → List T → ℕ → ℕ → PaginatedResult T
paginate sort rows page limit = record {
  items =
      take limit (drop ((page - 1) * limit) (sort.order (some ((page - 1) * limit, limit)) rows));
  meta = record { total = length rows; pages = ceil_div (length rows) limit; current_page = page };
}

module _ {S T : Type 0} (repo : Repository S T) (where_ : T → Bool) (sort : Sorting T) where
  unfoldable pub list : Action S (List T)
  list = gets (λ s. sort.order none (select where_ (repo.rows s)))

  -- `page` and `limit` are 1 and 10 where they are not given.
  unfoldable pub paginated_list : Option ℕ → Option ℕ → Action S (PaginatedResult T)
  paginated_list page limit =
      gets (λ s. paginate sort (select where_ (repo.rows s)) (or_else page 1) (or_else limit 10))
