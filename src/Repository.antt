-- ===== src/Repository.antt =====
-- The TypeORM repository of one entity over its PostgreSQL table, which the source calls and does
-- not contain: the operations that the services use, and what TypeORM and PostgreSQL document of
-- them. `rows` is the table's contents, in the order of insertion. A `where` clause is a test on
-- rows, and a save of a loaded entity writes its columns to the row with its id.
pub mod Rows
pub mod Saves
pub mod Queries
pub mod Keys
pub mod Refs
pub mod Memory
use job_application_api.Prelude.{
  ℕ, String, ◌≡◌, ◌≢◌, Bool, true, not, Option, none, some, List, [], ◌∷◌, ◌++◌, map, select, take,
  drop, ◌&&◌, tally, if◌then◌else◌,
}
use job_application_api.Repository.Rows.{In, IsFalling, rewrite, head?}

-- `clash r q`: a unique constraint forbids the rows `r` and `q` side by side.
pub record Repository (A : Type 0) (clash : A → A → Bool) : Type 1 where
  pub State : Type 0
  pub rows : State → List A
  -- `findOne({ where })`: some row that passes, or null
  pub find_one : (A → Bool) → State → Option A
  pub In-find_one : (p : A → Bool) (s : State) (r : A) → find_one p s ≡ some r → In r (rows s)
  pub find_one_passes : (p : A → Bool) (s : State) (r : A) → find_one p s ≡ some r → p r ≡ true
  pub find_one_misses : (p : A → Bool) (s : State) → find_one p s ≡ none → tally p (rows s) ≡ 0
  -- `count({ where })`
  pub count : (A → Bool) → State → ℕ
  pub count_tally : (p : A → Bool) (s : State) → count p s ≡ tally p (rows s)
  -- the rows that pass, by falling key: what a query with `orderBy(key, 'DESC')` ranges over
  pub ordered : (A → ℕ) → (A → Bool) → State → List A
  pub tally-ordered :
      (key : A → ℕ) (p q : A → Bool) (s : State)
      → tally q (ordered key p s) ≡ tally (λ r. p r && q r) (rows s)
  pub In-ordered :
      (key : A → ℕ) (p : A → Bool) (s : State) (r : A) → In r (ordered key p s) → In r (rows s)
  pub ordered-IsFalling : (key : A → ℕ) (p : A → Bool) (s : State) → IsFalling key (ordered key p s)
  -- `findOne({ where, order: { key: 'DESC' } })`
  pub find_first : (A → ℕ) → (A → Bool) → State → Option A
  pub find_first_lem :
      (key : A → ℕ) (p : A → Bool) (s : State) → find_first key p s ≡ head? (ordered key p s)
  -- `orderBy(key, 'DESC').skip(k).take(n).getMany()`
  pub get_many : (A → ℕ) → (A → Bool) → ℕ → ℕ → State → List A
  pub get_many_lem :
      (key : A → ℕ) (p : A → Bool) (k n : ℕ) (s : State)
      → get_many key p k n s ≡ take n (drop k (ordered key p s))
  -- `update(where, columns)`, and `save` of a loaded entity
  pub update : (A → Bool) → (A → A) → State → State
  pub rows-update :
      (p : A → Bool) (f : A → A) (s : State) → rows (update p f s) ≡ rewrite p f (rows s)
  -- `remove` of a loaded entity
  pub remove : (A → Bool) → State → State
  pub rows-remove :
      (p : A → Bool) (s : State) → rows (remove p s) ≡ select (λ r. not (p r)) (rows s)
  -- the primary key and the creation time that the database gives to the next row
  pub next_id : State → String
  pub now : State → ℕ
  -- `save` of a new entity: `none` where the insertion breaks a unique constraint
  pub insert : A → State → Option State
  pub rows-insert : (r : A) (s t : State) → insert r s ≡ some t → rows t ≡ rows s ++ r ∷ []
  pub insert_clashes : (r : A) (s : State) → insert r s ≡ none → tally (clash r) (rows s) ≢ 0
  pub insert_fits : (r : A) (s t : State) → insert r s ≡ some t → tally (clash r) (rows s) ≡ 0
