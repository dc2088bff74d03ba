-- ===== src/Base/Pages.antt =====
-- The pages of a list together.
use nestjs_template.Common.{ℕ, zero, suc, Bool, some, List, [], ◌++◌, ok, err, Result}
use nestjs_template.Base.Repository.{Repository}
use nestjs_template.Base.Listing.{PaginatedResult, Sorting, paginated_list}

unfoldable pub items_of : {T : Type 0} → Result (PaginatedResult T) → List T
items_of (ok p) = p.items
items_of (err e) = []

module _ {S T : Type 0} (repo : Repository S T) (where_ : T → Bool) (sort : Sorting T) (limit : ℕ)
    (s : S) where
  -- The answers to the requests of the pages up to this one, one after the other.
  unfoldable pub pages_up_to : ℕ → List T
  pages_up_to zero = []
  pages_up_to (suc n) =
      pages_up_to n ++ items_of (paginated_list repo where_ sort (some (suc n)) (some limit) s).0
