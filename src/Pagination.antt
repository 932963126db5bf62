-- ===== src/Pagination.antt =====
-- `paginated` of src/common/interceptors/transform.interceptor.ts, and the code that the list
-- methods of the services share: count the rows of the query, skip, take, and the page's meta data.
-- The queries' DTOs admit `page` and `limit` from 1 only; `Math.ceil(total / limit)` is written for
-- a positive limit.
pub mod Pages
mod Tests
use job_application_api.Prelude.{ℕ, ◌+◌, ◌-◌, ◌*◌, ◌/◌, Bool, Option, none, some, List}
use job_application_api.Repository.{Repository}

-- `const { page = 1 } = query`
abbrev pub default {ℓ} : {A : Type ℓ} → A → Option A → A
default d none = d
default d (some n) = n

pub record Paginated (A : Type 0) : Type 0 where
  pub rows : List A
  pub page : ℕ
  pub limit : ℕ
  pub total : ℕ
  pub total_pages : ℕ

unfoldable pub ceil_div : ℕ → ℕ → ℕ
ceil_div total limit = (total + limit - 1) / limit

module _ {A : Type 0} {clash : A → A → Bool} (repo : Repository A clash) where
  unfoldable pub paginate : (A → ℕ) → (A → Bool) → ℕ → ℕ → repo.State → Paginated A
  paginate key p page limit s =
      let total = repo.count p s in
      record {
        rows = repo.get_many key p ((page - 1) * limit) limit s;
        page = page;
        limit = limit;
        total = total;
        total_pages = ceil_div total limit;
      }
