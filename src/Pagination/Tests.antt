-- ===== src/Pagination/Tests.antt =====
-- The theorems on pages at concrete inputs.
use job_application_api.Prelude.{ℕ, ◌≡◌, refl, Bool, false, List, [], ◌∷◌, leb, arith}
use job_application_api.Repository.{Repository}
use job_application_api.Repository.Memory.{memory}
use job_application_api.Pagination.{paginate}
use job_application_api.Pagination.Pages.{pages, pages-total_pages}

abbrev never : ℕ → ℕ → Bool
never n m = false

abbrev table : Repository ℕ never
table = memory never (λ ns. "new") (λ ns. 0)

abbrev small : ℕ → Bool
small n = leb n 6

abbrev numbers : List ℕ
numbers = 4 ∷ 9 ∷ 2 ∷ 6 ∷ []

second_page : (paginate table (λ n. n) small 2 2 numbers).rows ≡ 2 ∷ []
unfolding paginate
second_page = refl

pages-total_pages_example :
    pages table (λ n. n) small 2 (paginate table (λ n. n) small 1 2 numbers).total_pages numbers
    ≡ 6 ∷ 4 ∷ 2 ∷ []
pages-total_pages_example = pages-total_pages table (λ n. n) small numbers 1 2 (omega arith)
