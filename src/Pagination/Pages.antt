-- ===== src/Pagination/Pages.antt =====
-- The pages of a query put together are the query's rows.
use job_application_api.Prelude.{
  ℕ, zero, suc, ◌+◌, ◌-◌, ◌*◌, ◌≤◌, ◌<◌, ◌≡◌, refl, ◌↔◌, Bool, true, List, [], ◌∷◌, ◌++◌, take,
  drop, length, tally, inl, inr, length-take, length-drop, arith, ◌∙◌, ap, sym,
}
use job_application_api.Repository.{Repository}
use job_application_api.Repository.Queries.{tally-and-true, ordered_passes}
use job_application_api.Repository.Rows.{In}
use Prim.Native.Nat.{min}
use job_application_api.Pagination.{ceil_div, paginate}

module _ {A : Type 0} where
  take_nil : (m : ℕ) → [] ≡ take {A = A} m []
  take_nil zero = refl
  take_nil (suc m) = refl

  take-add : (n m : ℕ) (xs : List A) → take (n + m) xs ≡ take n xs ++ take m (drop n xs)
  take-add zero m xs = let e : 0 + m ≡ m = omega arith in rw e refl
  take-add (suc n) m [] = let e : suc n + m ≡ suc (n + m) = omega arith in rw e (take_nil m)
  take-add (suc n) m (x ∷ xs) =
      let e : suc n + m ≡ suc (n + m) = omega arith in rw e (ap (◌∷◌ x) (take-add n m xs))

  -- a list is taken whole
  take_whole : (rows : List A) (bound : ℕ) → length rows ≤ bound → take bound rows ≡ rows
  take_whole [] zero fits = refl
  take_whole [] (suc bound) fits = refl
  take_whole (r ∷ rows) zero fits = absurd (omega (arith, fits))
  take_whole (r ∷ rows) (suc bound) fits =
      let rest : length rows ≤ bound = omega (arith, fits) in
      ap (◌∷◌ r) (take_whole rows bound rest)

  tally-true : (xs : List A) → tally (λ _. true) xs ≡ length xs
  tally-true [] = refl
  tally-true (x ∷ xs) = ap suc (tally-true xs)

ceil_div_covers : (total limit : ℕ) → 1 ≤ limit → total ≤ ceil_div total limit * limit
unfolding ceil_div
ceil_div_covers total limit h = grind arith

ceil_div_iff :
    (total limit page : ℕ)
    → 1 ≤ limit
    → 1 ≤ page
    → ((page - 1) * limit < total) ↔ (page ≤ ceil_div total limit)
unfolding ceil_div
ceil_div_iff total limit page h k = (λ e. grind arith, λ e. grind arith)

module _ {A : Type 0} where
  In-drop : (n : ℕ) (r : A) (xs : List A) → In r (drop n xs) → In r xs
  In-drop zero r xs m = m
  In-drop (suc n) r [] m = m
  In-drop (suc n) r (x ∷ xs) m = inr (In-drop n r xs m)

  In-take : (n : ℕ) (r : A) (xs : List A) → In r (take n xs) → In r xs
  In-take zero r xs m = absurd m
  In-take (suc n) r [] m = m
  In-take (suc n) r (x ∷ xs) (inl e) = inl e
  In-take (suc n) r (x ∷ xs) (inr m) = inr (In-take n r xs m)

module _ {A : Type 0} {clash : A → A → Bool} (repo : Repository A clash) where
  -- the rows of the pages 1 to n of a query, put together
  pub pages : (A → ℕ) → (A → Bool) → ℕ → ℕ → repo.State → List A
  pages key p limit zero s = []
  pages key p limit (suc n) s = pages key p limit n s ++ (paginate repo key p (suc n) limit s).rows

  module _ (key : A → ℕ) (p : A → Bool) (s : repo.State) where
    count-ordered : repo.count p s ≡ length (repo.ordered key p s)
    count-ordered =
        repo.count_tally p s
        ∙ sym (tally-and-true p (repo.rows s))
        ∙ sym (repo.tally-ordered key p (λ _. true) s)
        ∙ tally-true (repo.ordered key p s)

    pages-take : (limit n : ℕ) → pages key p limit n s ≡ take (n * limit) (repo.ordered key p s)
    unfolding pages paginate
    pages-take limit zero = let e : 0 * limit ≡ 0 = omega arith in rw e refl
    pages-take limit (suc n) =
        let e : suc n * limit ≡ n * limit + limit = grind arith in
        let d : (suc n - 1) * limit ≡ n * limit = grind arith in
        rw
          (
            pages-take limit n,
            repo.get_many_lem,
            d,
            e,
            take-add (n * limit) limit (repo.ordered key p s),
          )
          refl

    -- Where a page may hold a row, the pages from the first to the last, as `totalPages` counts
    -- them, hold every row that passes once, in the order of the query.
    pub pages-total_pages :
        (page limit : ℕ)
        → 1 ≤ limit
        → pages key p limit (paginate repo key p page limit s).total_pages s ≡ repo.ordered key p s
    unfolding paginate
    pages-total_pages page limit h =
        pages-take limit (ceil_div (repo.count p s) limit)
        ∙ take_whole _ _
            (rw count-ordered (ceil_div_covers (length (repo.ordered key p s)) limit h))

    -- For a page and a limit from 1 on: a page has at most `limit` rows, and it has one exactly
    -- when its number is at most `totalPages`.
    pub length-paginate :
        (page limit : ℕ)
        → 1 ≤ page
        → 1 ≤ limit
        → (length (paginate repo key p page limit s).rows ≤ limit)
          × ((1 ≤ length (paginate repo key p page limit s).rows)
              ↔ (page ≤ (paginate repo key p page limit s).total_pages))
    unfolding paginate
    length-paginate page limit h k =
        let all : List A = repo.ordered key p s in
        let size : length (repo.get_many key p ((page - 1) * limit) limit s)
            ≡ min limit (length all - (page - 1) * limit) =
          ap length (repo.get_many_lem key p ((page - 1) * limit) limit s)
          ∙ length-take limit (drop ((page - 1) * limit) all)
          ∙ ap (min limit) (length-drop ((page - 1) * limit) all) in
        let total : repo.count p s ≡ length all = count-ordered in
        (
          omega arith,
          (
            λ e. (ceil_div_iff (repo.count p s) limit page k h).0 (omega arith),
            λ e.
                let i : (page - 1) * limit < repo.count p s =
                  (ceil_div_iff (repo.count p s) limit page k h).1 e in
                omega arith,
          ),
        )

    -- Every row of a page passes the query's test.
    pub In-paginate :
        (page limit : ℕ) (r : A) → In r (paginate repo key p page limit s).rows → p r ≡ true
    unfolding paginate
    In-paginate page limit r m =
        let all : List A = repo.ordered key p s in
        let there : In r all =
          In-drop ((page - 1) * limit) r all
            (In-take limit r _ (rw (repo.get_many_lem key p ((page - 1) * limit) limit s) at m)) in
        ordered_passes repo key p s r there
