-- ===== src/Lib.antt =====
-- The job application API, a NestJS service over PostgreSQL and Redis: its rules for accounts,
-- sessions, job postings, applications and webhook addresses, and what they guarantee.
--
-- The parts, by file, with the code that each models:
--   Users         src/users/user.entity.ts, users.service.ts: `find_by_email`, `find_by_id`,
--                 `find_all`, `update_role`, `update_webhook_url`
--   Jobs          src/jobs/job.entity.ts, jobs.service.ts and dto: `create`, `find_all`, `find_one`,
--                 `update`, `remove`
--   Applications  src/applications/application.entity.ts, applications.service.ts and dto: `apply`,
--                 `update_status` with the event that it emits, `find_all`, `find_mine`
--   Pagination    the end of the services' list methods, with `paginated` of
--                 src/common/interceptors/transform.interceptor.ts
--   LoginAttempt  src/auth/login-attempt.service.ts
--   Tokens, Auth  src/auth/refresh-token.entity.ts, auth.service.ts, jwt.strategy.ts,
--                 jwt-auth.guard.ts: `register`, `login`, `refresh`, `logout`, `generate_tokens`,
--                 `validate`, `authenticate`
--   Ssrf          src/common/validators/ssrf.validator.ts, is-not-private-url.validator.ts
--   Webhooks      src/webhooks/webhook-log.entity.ts, webhooks.service.ts: `handle_status_changed`,
--                 `deliver`, `log_delivery`, `find_logs_for_employer`
--   Http          src/common/guards/roles.guard.ts, filters/http-exception.filter.ts,
--                 interceptors/transform.interceptor.ts: `can_activate`, `catch`, `intercept`
--   Dtos          the decorators of the DTOs in src/auth/dto, jobs/dto, applications/dto, admin/dto
--                 and webhooks/dto
--   Api           the controllers of src/auth, src/jobs, src/applications, src/admin and
--                 src/webhooks, with the pipe, the interceptor and the filter of src/main.ts:
--                 `required_roles`, a `_route` for every method, `serve`, `deliver_event`, `run`
--   Races         `apply` and `updateRole` as processes that give way at every query
--   Migrations    migrations/: the statements of each `up` and `down`
--   Naming        src/config/snake-naming.strategy.ts
--   Seed          src/seed.ts: `seed`, on the store of Api
--   Settings      src/config/config.module.ts, database.config.ts, data-source.ts and
--                 src/redis/redis.module.ts: `check`, `get_database_config`, `app_data_source`,
--                 `redis_client`
--
-- What the code calls and does not contain is an interface or a parameter. Repository is TypeORM's
-- repository of one entity over its table, and Redis the server: a record of operations, with what
-- their documentation says of them as laws. Repository/Memory and Redis/Memory are models of both
-- over lists, so that the laws can be met, and the tests run on them. bcrypt, the JWT library,
-- random identifiers, `new URL`, `net.isIP`, SQL's LIKE, `new Date`, HMAC and the answers to
-- posted requests are functions that the definitions take, and so are PostgreSQL's reading of a UUID
-- and what it makes of a page or limit that is no number from 1 (`is_uuid` and `odd_page` of Api);
-- the services themselves take ids that are UUIDs. Auth/Reuse says what bcrypt's 72 bytes mean for
-- refresh tokens. Js writes out the functions of the
-- language that the code uses: `parseInt`, `split`, the shifts on 32 bits, and `toLowerCase` for
-- ASCII; Prelude
-- holds the shared names, tests and lists.
--
-- A service method is a function from a state to a result and a state (Exec): what was written
-- before an exception stays written. An exception is a value with its status, code and message; any
-- other error is `fault`. A relation of an entity is the id of its row, and the rows that a query joins are
-- looked up by it. Calls run one after
-- another, but in Races; a call reads the clock once, in seconds. Numbers that the database or the clock gives are
-- natural numbers, and the numbers of Js are integers or NaN, with shifts taken modulo 2 ^ 32. The
-- recursion is over lists and texts, but for `digits` of Js/Decimal, which takes one more than the number as
-- fuel to print it: `parse_int-decimal` there shows that the print is read back as the number. The
-- source's `deliver` calls itself once at most, and is two definitions.
--
-- The components meet in Auth, which calls Users and LoginAttempt on its parts of one store, and in
-- Applications, which reads the table of Jobs; Jobs, Applications and Webhooks share Pagination. Api
-- holds one store of all tables: `serve` takes a request through JwtAuthGuard, RolesGuard, the
-- validation, the method of its controller and the answer of Http, and events that Applications emits
-- wait in the store until `deliver_event` hands the first to Webhooks. A removed job takes its
-- applications and their logs with it, as the migrations declare. Each service's file Tables, or
-- History, says what its operations leave of the keys and foreign keys, by the lemmas of
-- Repository/Refs; Auth/Blacklist and Api/Marked say what every call leaves of a blacklisted
-- identifier. In Api one request runs after another; in Races the two services whose check and
-- write are not one query run in steps, in any order, and each step is one query. The processes there
-- have no fuel: a step is a relation, and `work` counts the queries that are left.
--
-- Not modelled: the SQL of the queries beyond their conditions and order, the limits on the rate of
-- requests, logs, metrics, health checks, the audit log, which no service writes, and
-- start-up. A request has values of the declared types, and null too in the body of PATCH
-- /jobs/:id, where `@IsOptional` lets it through. What a list of pages selects of a row is the
-- whole row. PostgreSQL's answers to the statements of the migrations are written out in Migrations
-- from its documentation, and rows are not followed there.
pub mod Prelude
pub mod Js
pub mod Ssrf
pub mod Exec
pub mod Repository
pub mod Users
pub mod Pagination
pub mod Jobs
pub mod Applications
pub mod Redis
pub mod LoginAttempt
pub mod Tokens
pub mod Auth
pub mod Webhooks
pub mod Http
pub mod Dtos
pub mod Api
pub mod Races
pub mod Migrations
pub mod Naming
pub mod Seed
pub mod Settings
