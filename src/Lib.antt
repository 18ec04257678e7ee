-- ===== src/Lib.antt =====
-- A hotel recommendation server: accounts, adaptive onboarding, user preferences, trips, ranking and
-- recommendations.
--
-- The program is a FastAPI server over PostgreSQL. A route of app/api/v1 opens one database session and
-- calls one method of a service (app/services); services read and write through repositories
-- (app/repositories) and raise the errors of app/exceptions.py. This library models these services
-- and the rules they stand on.
--
-- Base.antt            shared names: tests on native numbers and texts, list functions, dicts,
--                      fractions, and Base/Exec.antt, a service method over a database session
-- Errors.antt          app/exceptions.py
-- Auth.antt            app/services/auth.py (register, login, refresh, logout),
--                      app/repositories/users.py, app/common/security.py, and the tables users and
--                      refresh_tokens of app/models/account.py
-- Preferences.antt     app/services/preferences.py and app/repositories/preferences.py
-- Trips.antt           app/services/trips.py, app/repositories/trips.py, `replace_trip` of
--                      app/repositories/preferences.py (Overrides), and `validate_hierarchy` of
--                      app/repositories/locations.py
-- Ranking.antt         app/domain/ranking.py: Groups the table of hotels, Collect one hotel, Order the
--                      order of the result, Outcome the result against the rows
-- Recommendations.antt app/services/recommendations.py over app/repositories/recommendations.py, the
--                      tables of app/models it reads, and app/common/cache.py:
--   Tables             the rows
--   Candidates, Runs   the queries and `save`
--   Service            `generate`, `get`, `detail`, `_rank_without_preferences`
--   Server             the requests over the tables and the cache, and their sequences
-- Profile.antt         app/services/adaptive_preferences.py: Effects its tables, Answers the reading of
--                      an answered question, Build the profile, Summary its text
-- Sentiment.antt       app/domain/sentiment.py: Keys, Payload, Aggregate
-- Scoring.antt         app/domain/scoring.py; Aggregates app/services/aggregate_scoring.py and
--                      its write in app/repositories/catalog.py
-- RateLimit.antt       app/common/rate_limit.py
-- Pagination.antt      app/common/pagination.py
-- Onboarding.antt      app/services/onboarding.py and app/repositories/onboarding.py, with the rows of
--                      app/models/account.py and the shapes of app/dto/onboarding.py:
--   Types, Store       the rows, and the queries and updates on them
--   Keys, Branches     `_canonical_question_key`, `_answer_value`, `_group_branch_key` and their tables
--   Readiness          `_branch_state`, `_completion_readiness`, `_unanswered_dimensions`
--   Answers, Questions `_validate_answer`, `_validate_question`, `_question_values`
--   Service            `start`, `submit_answers` (Submit up to its commit, Ask from there),
--                      `skip`, `status`, `adaptive_complete`, `_mark_generation_failed`
--
-- A method is a function from a pair of databases, what the open transaction reads and what has been
-- committed, to a result and such a pair; `request` runs one HTTP request and rolls back what it did
-- not commit. The onboarding service commits before it waits for the language model or builds a
-- profile; what other requests commit in between is the function `meanwhile` of the record `Env`, and
-- the provider's answers are its function `reply`. An attribute that the code sets on a session object
-- and that a locked select with `populate_existing` refreshes before a commit is dropped, as
-- app/database.py builds its sessions with autoflush off.
--
-- Parameters: PyJWT, Argon2 and SHA-256 (Crypto, Texts), the clock and random identifiers (Draw),
-- Unicode's tables (Unicode, Texts), `str` of a number or an identifier (Rendering, show_id), `float`
-- of a stored number (to_float), the language model, the location resolver, the attribute taxonomy and
-- the profile builder as the onboarding service calls it (Env), IEEE arithmetic and rounding (Floats),
-- `math` and `statistics` (Statistics), JSON and base64 (Codec), and Redis (RateLimit.Redis, whose documented counting is
-- IsRedis). Base/Floats/Fixed.antt and Signed.antt are fixed-point instances of the floats for the tests.
-- Identifiers and times are numbers; JSON numbers and stored weights are exact fractions, which become
-- floats where the program converts them. What a column of type NUMERIC keeps of a weight
-- of a preference is the parameter Numeric; other floats that the program writes to a column are read
-- back as they were written. A cached run is read back as it was written; whether a cache call succeeds, and
-- whether an entry has expired, is a parameter of each request. Every function is structurally
-- recursive, so there is no fuel.
--
-- Not modelled: logging and metrics, the prompt context that `_context` builds beyond its completion
-- gate, the read-only question history, database failures other than the indexes and keys that are
-- named, and the rest of the server (catalog, imports, the review scoring service, chat, scraping,
-- administration, the HTTP layer).
pub mod Base
pub mod Errors
pub mod Auth
pub mod Onboarding
pub mod Pagination
pub mod Preferences
pub mod Profile
pub mod Scoring
pub mod Sentiment
pub mod Trips
pub mod Ranking
pub mod RateLimit
pub mod Recommendations
