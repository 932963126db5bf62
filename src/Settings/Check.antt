-- ===== src/Settings/Check.antt =====
-- What settings that pass the check connect to.
use job_application_api.Prelude.{
  ℕ, String, Bool, true, false, not, ◌&&◌, ◌≡◌, ◌≢◌, refl, ◌⊎◌, inl, inr, ap, eq_iff, if◌then◌else◌,
  Option, none, some, eqb, ◌==◌, arith, Bool-cases,
}
use job_application_api.Settings.{
  Env, given, text_or, number_or, default, check, Connection, by_url, by_parts, by_individual,
  get_database_config, app_data_source, RedisConnection, redis_by_url, redis_by_parts, redis_client,
}

given_text :
    (t : Option String) → given t ≡ true → (x : String) × (t ≡ some x) × ((x == "") ≡ false)
given_text none h = absurd (ground arith)
given_text (some x) h = (x, refl, ground arith)

-- a connection by a nonempty address, or with a nonempty host, user, password and database
abbrev pub IsComplete : Connection → Type 0
IsComplete (by_url url s) = (url == "") ≡ false
IsComplete (by_parts host port username password database) =
    (given host ≡ true)
    × (given username ≡ true)
    × (given password ≡ true)
    × (given database ≡ true)

abbrev pub HasHost : RedisConnection → Type 0
HasHost (redis_by_url url tls) = (url == "") ≡ false
HasHost (redis_by_parts host port password) = (host == "") ≡ false

port_same : (p : Option ℕ) → p ≢ some 0 → number_or 5432 p ≡ default 5432 p
port_same none h = refl
port_same (some n) h = elim (Bool-cases (eqb n 0)) [
  | inl e ↦ let zero : n ≡ 0 = ground arith in absurd (h (rw zero refl))
  | inr e ↦ rw e refl
]

no_url : (u : Option String) → given u ≡ false → (u ≡ none) ⊎ (u ≡ some "")
no_url none h = inl refl
no_url (some u) h = inr (ap some ((eq_iff u "").0 (ground arith)))

text_same : (d : String) (t : Option String) → given t ≡ true → some (text_or d t) ≡ t
text_same d none h = absurd (ground arith)
text_same d (some x) h = let filled : (x == "") ≡ false = ground arith in rw filled refl

module _ (env : Env) where
  IsGood : Type 0
  IsGood = IsComplete (get_database_config env) × (app_data_source env ≡ get_database_config env)

  by_address : given env.database_url ≡ true → IsGood
  unfolding get_database_config app_data_source IsGood
  by_address h =
      let (url, e, filled) = given_text env.database_url h in rw (e, filled) (filled, refl)

  by_pieces :
      given env.database_url ≡ false
      → given env.db_host ≡ true
      → given env.db_username ≡ true
      → given env.db_password ≡ true
      → given env.db_name ≡ true
      → env.db_port ≢ some 0
      → IsGood
  unfolding get_database_config app_data_source IsGood
  by_pieces unset host user password name port = elim (no_url env.database_url unset) [
    | inl e ↦ rw e ((host, user, password, name), same)
    | inr e ↦ rw e ((host, user, password, name), same)
  ]
    where
      same :
          by_parts
            (some (text_or "localhost" env.db_host))
            (number_or 5432 env.db_port)
            (some (text_or "jobapi" env.db_username))
            (some (text_or "jobapi_pass" env.db_password))
            (some (text_or "job_applications" env.db_name))
          ≡ by_individual env
      same =
          rw
            (
              text_same "localhost" env.db_host host,
              text_same "jobapi" env.db_username user,
              text_same "jobapi_pass" env.db_password password,
              text_same "job_applications" env.db_name name,
              port_same env.db_port port,
            )
            refl

  by_redis :
      (given env.redis_url ≡ true) ⊎ ((given env.redis_url ≡ false) × (given env.redis_host ≡ true))
      → HasHost (redis_client env)
  unfolding redis_client
  by_redis (inl h) = let (url, e, filled) = given_text env.redis_url h in rw (e, filled) filled
  by_redis (inr (unset, h)) =
      let (host, e, filled) = given_text env.redis_host h in
      elim (no_url env.redis_url unset) [ inl u ↦ rw (u, e) filled | inr u ↦ rw (u, e) filled ]

  -- what the check lets pass
  checked :
      check env ≡ none
      → ((given env.database_url ≡ true)
          ⊎ ((given env.database_url ≡ false)
              × (given env.db_host ≡ true)
              × (given env.db_username ≡ true)
              × (given env.db_password ≡ true)
              × (given env.db_name ≡ true)))
        × ((given env.redis_url ≡ true)
            ⊎ ((given env.redis_url ≡ false) × (given env.redis_host ≡ true)))
  unfolding check
  checked h =
      passes (given env.database_url) (given env.db_host) (given env.db_username)
        (given env.db_password) (given env.db_name) (given env.redis_url) (given env.redis_host) h
    where
      passes :
          (u a b c d r k : Bool)
          → (if◌then◌else◌ {A = Option String}
              (not u && not (a && (b && (c && d))))
              (some
                "Provide either DATABASE_URL or all of DB_HOST, DB_USERNAME, DB_PASSWORD, DB_NAME")
              (if not r && not k then some "Provide either REDIS_URL or REDIS_HOST" else none))
            ≡ none
          → ((u ≡ true) ⊎ ((u ≡ false) × (a ≡ true) × (b ≡ true) × (c ≡ true) × (d ≡ true)))
            × ((r ≡ true) ⊎ ((r ≡ false) × (k ≡ true)))
      passes u a b c d r k h = ground arith

  -- Settings that pass the check, with a database port other than 0, give the server a database
  -- address, or a host, user, password and database, none of them empty, and a Redis address or
  -- host that is not empty; and the command line connects to the same database.
  pub check_passes :
      check env ≡ none
      → env.db_port ≢ some 0
      → IsComplete (get_database_config env)
        × (app_data_source env ≡ get_database_config env)
        × HasHost (redis_client env)
  unfolding IsGood
  check_passes h port =
      let (database, redis) = checked h in
      let good : IsGood = elim database [
        | inl url ↦ by_address url
        | inr (unset, host, user, password, name) ↦ by_pieces unset host user password name port
      ] in
      (good.0, good.1, by_redis redis)
