-- ===== src/Recommendations/Server.antt =====
-- The recommendation requests over the stored data and the cache: `get` and `_store_run` of
-- services/recommendations.py with common/cache.py. The cache is a list of entries, the last
-- written first. Whether a read or a write of it succeeds is a parameter of the request: it fails
-- where there is no cache, where it raises and, for a read, where the entry has expired.
use hotel_server_v.Base.{
  ℕ, String, Bool, true, false, Option, none, some, List, [], ◌∷◌, find, nat_eq, ◌==◌, ◌&&◌,
  if◌then◌else◌,
}
use hotel_server_v.Base.Exec.{Exec, Result, ok, err, request}
use hotel_server_v.Base.Floats.{Floats}
use hotel_server_v.Base.Rational.{Rational}
use hotel_server_v.Recommendations.Tables.{Tables}
use hotel_server_v.Recommendations.Runs.{IsFresh}
use hotel_server_v.Recommendations.Service.{
  RecommendationRequest, RecommendationRunRead, generate, get,
}

-- An entry under `_run_cache_key`.
pub record Entry (F : Type 0) : Type 0 where
  pub user_id : ℕ
  pub run_id : ℕ
  pub value : RecommendationRunRead F

pub record Server (F : Type 0) : Type 0 where
  pub tables : Tables F
  pub cache : List (Entry F)

module _ {F : Type 0} where
  unfoldable pub cached : ℕ → ℕ → List (Entry F) → Option (Entry F)
  cached user run entries = find (λ e. e.user_id == user && e.run_id == run) entries

  -- `_run_cache_key` read with `get_json`
  abbrev pub read_cache : Bool → ℕ → ℕ → Server F → Option (Entry F)
  read_cache reads user run s = if reads then cached user run s.cache else none

  -- `_store_run`
  abbrev pub store_run :
      Bool → ℕ → Result (RecommendationRunRead F) → List (Entry F) → List (Entry F)
  store_run false user r entries = entries
  store_run true user (err e) entries = entries
  store_run true user (ok r) entries =
      record { user_id = user; run_id = r.recommendation_run_id; value = r } ∷ entries

module _ (f : Floats) (show_id : ℕ → String) (to_float : Rational → f.F) where
  open f use {F}

  abbrev pub Response : Type 0
  Response = Result (RecommendationRunRead F) × Server F

  -- A method that stores its result in the cache.
  abbrev pub respond : Bool → ℕ → Exec (Tables F) (RecommendationRunRead F) → Server F → Response
  respond writes user m s =
      let (r, d) = request m s.tables in
      (r, record { tables = d; cache = store_run writes user r s.cache })

  unfoldable pub generate_request : Bool → ℕ → ℕ → ℕ → RecommendationRequest F → Server F → Response
  unfolding generate
  generate_request writes now new_id user payload s =
      respond writes user (generate f show_id to_float now new_id user payload) s

  abbrev pub answer : Option (Entry F) → Response → Server F → Response
  answer none response s = response
  answer (some e) response s = (ok e.value, s)

  unfoldable pub get_request : Bool → Bool → ℕ → ℕ → Server F → Response
  unfolding get cached
  get_request reads writes user run s =
      answer (read_cache reads user run s) (respond writes user (get f show_id to_float user run) s)
        s

  -- The steps of a server, each with a new identifier that nothing stored has.
  pub data IsStep : Server F → Server F → Type 0 where
    generated :
        (writes : Bool) (now new_id user : ℕ) (payload : RecommendationRequest F) (s : Server F)
        → IsFresh new_id s.tables
        → IsStep s (generate_request writes now new_id user payload s).1
    got :
        (reads writes : Bool) (user run : ℕ) (s : Server F)
        → IsStep s (get_request reads writes user run s).1

  -- The states after any sequence of requests on stored data with an empty cache.
  pub data IsReachable (start : Tables F) : Server F → Type 0 where
    empty : IsReachable start (record { tables = start; cache = [] })
    step : {s t : Server F} → IsReachable start s → IsStep s t → IsReachable start t
