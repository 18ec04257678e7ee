-- ===== src/Recommendations/Service.antt =====
-- `RecommendationService` of services/recommendations.py. The cache is in Recommendations/Server.antt.
use hotel_server_v.Base.{
  ℕ, suc, String, Bool, true, not, ◌&&◌, Option, none, some, List, [], ◌∷◌, map, keep, take, head?,
  is_some, length, dedup, contains, ltb, nat_eq, if◌then◌else◌,
}
use hotel_server_v.Base.Rational.{Rational}
use hotel_server_v.Base.Floats.{Floats, whole}
use hotel_server_v.Base.Sort.{sort_by}
use hotel_server_v.Base.Exec.{
  Exec, Result, ok, pure, raise_if, or_raise, gets, modify, commit, lift, ◌>>=◌, ◌>>◌,
}
use hotel_server_v.Errors.{
  onboarding_not_completed, trip_not_found, scoring, recommendation_run_not_found,
}
use hotel_server_v.Auth.Store.{User, get_by_id}
use hotel_server_v.Trips as TripRows
use hotel_server_v.Preferences.Store.{Effective, resolve_for_trip}
use hotel_server_v.Ranking.{
  Candidate, EffectivePreference, RankedHotel, Explanation, Matched, rank_hotels,
}
use hotel_server_v.Recommendations.Tables.{
  AlgorithmVersion, Snapshot, Filters, RecommendationRun, HotelRecommendation, Tables,
}
use hotel_server_v.Recommendations.Candidates.{candidates}
use hotel_server_v.Recommendations.Runs.{ResultRow, save, get_owned, result_rows, result}

pub record RecommendationRequest (F : Type 0) : Type 0 where
  pub trip_id : ℕ
  pub filters : Filters F

pub record RecommendationResult (F : Type 0) : Type 0 where
  pub rank : ℕ
  pub hotel_id : ℕ
  pub name : String
  pub personalized_rating : F
  pub match_score : F
  pub coverage_score : F
  pub source_rating : Option F
  pub source_review_count : Option ℕ
  pub source_rank : Option ℕ
  pub matched_attributes : List (Matched F)
  pub reasons : List String
  pub explanation : Explanation F

pub record RecommendationRunRead (F : Type 0) : Type 0 where
  pub recommendation_run_id : ℕ
  pub trip_id : ℕ
  pub results : List (RecommendationResult F)

pub record RecommendationDetail (F : Type 0) : Type 0 where
  pub recommendation_run_id : ℕ
  pub hotel_id : ℕ
  pub personalized_rating : F
  pub match_score : F
  pub coverage_score : F
  pub source_rating : Option F
  pub source_review_count : Option ℕ
  pub source_rank : Option ℕ
  pub matched_attributes : List (Matched F)
  pub explanation : Explanation F

-- `AttributeRepository.active_algorithm`
unfoldable pub active_algorithm : List AlgorithmVersion → Option AlgorithmVersion
active_algorithm versions =
    head? (sort_by (λ a b. ltb b.version a.version) (keep (λ a. a.is_active) versions))

abbrev pub not_onboarded : Option User → Bool
not_onboarded none = true
not_onboarded (some u) = not u.onboarding_completed && not (is_some u.onboarding_skipped_at)

-- `to_float` is `float` of a numeric column.
module _ (f : Floats) (show_id : ℕ → String) (to_float : Rational → f.F) where
  open f use {F, lt}

  abbrev float_of : Option Rational → Option F
  float_of none = none
  float_of (some q) = some (to_float q)

  abbrev preference_of : Effective → EffectivePreference F
  preference_of e = record {
    attribute_id = e.attribute_id;
    weight = to_float e.importance_weight;
    minimum_required_score = float_of e.minimum_required_score;
    is_mandatory = e.is_mandatory;
  }

  unfoldable pub preferences_for : ℕ → ℕ → Tables F → List (EffectivePreference F)
  unfolding resolve_for_trip
  preferences_for user trip d =
      keep (λ p. lt (whole f 0) p.weight)
        (map (λ entry. preference_of entry.1)
          (resolve_for_trip user trip d.preferences d.attributes d.trip_preferences))

  abbrev unranked_explanation : Candidate F → Explanation F
  unranked_explanation row = record {
    matched_attributes = [];
    strengths = [];
    weaknesses = [];
    reasons = "No onboarding preferences available; showing catalog matches" ∷ [];
    coverage_score = whole f 0;
    coverage_weight = whole f 0;
    requested_weight = whole f 0;
    source_rating = row.source_rating;
    source_review_count = row.source_review_count;
    source_rank = row.source_rank;
  }

  abbrev pub unranked : Candidate F → RankedHotel F
  unranked row = record {
    hotel_id = row.hotel_id;
    name = row.name;
    personalized_rating = whole f 0;
    match_score = whole f 0;
    coverage_score = whole f 0;
    source_rating = row.source_rating;
    source_review_count = row.source_review_count;
    source_rank = row.source_rank;
    explanation = unranked_explanation row;
  }

  unfoldable pub rank_without_preferences : List ℕ → List (Candidate F) → List (RankedHotel F)
  rank_without_preferences seen [] = []
  rank_without_preferences seen (row ∷ rows) =
      let others = rank_without_preferences (row.hotel_id ∷ seen) rows in
      if contains row.hotel_id seen
      then rank_without_preferences seen rows
      else unranked row ∷ others

  unfoldable pub ranking :
      List (Candidate F) → List (EffectivePreference F) → Result (List (RankedHotel F))
  unfolding rank_hotels rank_without_preferences
  ranking rows [] = ok (rank_without_preferences [] rows)
  ranking rows (p ∷ ps) = rank_hotels f show_id rows (p ∷ ps)

  abbrev pub snapshot_of : EffectivePreference F → Snapshot F
  snapshot_of p = record {
    attribute_id = p.attribute_id;
    weight = p.weight;
    minimum_required_score = p.minimum_required_score;
    is_mandatory = p.is_mandatory;
  }

  -- The models of `enumerate(ranked, start=...)`.
  unfoldable pub models_from : ℕ → ℕ → List (RankedHotel F) → List (HotelRecommendation F)
  models_from run index [] = []
  models_from run index (item ∷ items) =
      record {
        recommendation_run_id = run;
        hotel_id = item.hotel_id;
        rank = index;
        personalized_rating = item.personalized_rating;
        match_score = item.match_score;
        coverage_score = item.coverage_score;
        explanation = item.explanation;
      }
      ∷ models_from run (suc index) items

  unfoldable pub results_from : ℕ → List (RankedHotel F) → List (RecommendationResult F)
  results_from index [] = []
  results_from index (item ∷ items) =
      record {
        rank = index;
        hotel_id = item.hotel_id;
        name = item.name;
        personalized_rating = item.personalized_rating;
        match_score = item.match_score;
        coverage_score = item.coverage_score;
        source_rating = item.source_rating;
        source_review_count = item.source_review_count;
        source_rank = item.source_rank;
        matched_attributes = item.explanation.matched_attributes;
        reasons = item.explanation.reasons;
        explanation = item.explanation;
      }
      ∷ results_from (suc index) items

  -- `_to_run`
  abbrev pub to_run : ℕ → ℕ → List (RankedHotel F) → RecommendationRunRead F
  to_run run trip ranked = record {
    recommendation_run_id = run;
    trip_id = trip;
    results = results_from 1 ranked;
  }

  abbrev pub run_of :
      ℕ
      → ℕ
      → ℕ
      → RecommendationRequest F
      → ℕ
      → ℕ
      → List (EffectivePreference F)
      → List (Candidate F)
      → List (RankedHotel F)
      → RecommendationRun F
  run_of now new_id user payload trip algorithm preferences rows ranked = record {
    id = new_id;
    user_id = user;
    trip_id = trip;
    algorithm_version_id = algorithm;
    preference_snapshot = map snapshot_of preferences;
    filters = payload.filters;
    candidate_count = length (dedup (map (λ row. row.hotel_id) rows));
    result_count = length ranked;
    created_at = now;
  }

  -- `generate` up to the cache. `now` and `new_id` are the clock and the fresh identifier.
  unfoldable pub generate :
      ℕ → ℕ → ℕ → RecommendationRequest F → Exec (Tables F) (RecommendationRunRead F)
  unfolding get_by_id TripRows.get_owned active_algorithm preferences_for candidates ranking
      models_from save results_from
  generate now new_id user payload = do
    found ← gets (λ d. get_by_id user d.users)
    raise_if (not_onboarded found) onboarding_not_completed
    owned ← gets (λ d. TripRows.get_owned payload.trip_id user d.trips)
    trip ← or_raise owned trip_not_found
    active ← gets (λ d. active_algorithm d.algorithms)
    algorithm ← or_raise active (scoring "No active algorithm version")
    preferences ← gets (preferences_for user trip.id)
    rows ← gets (candidates f trip.content algorithm.id payload.filters)
    all_ranked ← lift (ranking rows preferences)
    let ranked = take payload.filters.limit all_ranked
    let run = run_of now new_id user payload trip.id algorithm.id preferences rows ranked
    modify (save run (models_from new_id 1 ranked))
    commit
    pure (to_run new_id trip.id ranked)

  abbrev pub result_of : ResultRow F → RecommendationResult F
  result_of row = record {
    rank = row.stored.rank;
    hotel_id = row.stored.hotel_id;
    name = row.name;
    personalized_rating = row.stored.personalized_rating;
    match_score = row.stored.match_score;
    coverage_score = row.stored.coverage_score;
    source_rating = row.stored.explanation.source_rating;
    source_review_count = row.stored.explanation.source_review_count;
    source_rank = row.stored.explanation.source_rank;
    matched_attributes = row.stored.explanation.matched_attributes;
    reasons = row.stored.explanation.reasons;
    explanation = row.stored.explanation;
  }

  -- `get` where the cache has nothing.
  unfoldable pub get : ℕ → ℕ → Exec (Tables F) (RecommendationRunRead F)
  unfolding get_owned result_rows
  get user run_id = do
    found ← gets (λ d. get_owned run_id user d.runs)
    run ← or_raise found (recommendation_run_not_found "Recommendation run not found")
    rows ← gets (result_rows run_id)
    pure (record {
      recommendation_run_id = run.id;
      trip_id = run.trip_id;
      results = map result_of rows;
    })

  unfoldable pub detail : ℕ → ℕ → ℕ → Exec (Tables F) (RecommendationDetail F)
  unfolding get_owned result
  detail user run_id hotel_id = do
    found ← gets (λ d. get_owned run_id user d.runs)
    run ← or_raise found (recommendation_run_not_found "Recommendation run not found")
    stored ← gets (λ d. result run_id hotel_id d.recommendations)
    r ←
        or_raise stored
          (recommendation_run_not_found "Hotel is not part of this recommendation run")
    pure (record {
      recommendation_run_id = run_id;
      hotel_id = hotel_id;
      personalized_rating = r.personalized_rating;
      match_score = r.match_score;
      coverage_score = r.coverage_score;
      source_rating = r.explanation.source_rating;
      source_review_count = r.explanation.source_review_count;
      source_rank = r.explanation.source_rank;
      matched_attributes = r.explanation.matched_attributes;
      explanation = r.explanation;
    })
