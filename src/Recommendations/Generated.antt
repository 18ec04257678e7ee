-- ===== src/Recommendations/Generated.antt =====
-- About a successful call of `generate`: what it stores and returns.
use hotel_server_v.Base.{
  ℕ, String, false, some, List, take, ◌≡◌, refl, inl, inr, Bool-cases, Option-cases, arith, nat_eq,
}
use hotel_server_v.Base.Exec.{ok, err, Result-cases, request}
use hotel_server_v.Base.Floats.{Floats}
use hotel_server_v.Base.Rational.{Rational}
use hotel_server_v.Errors.{Error}
use hotel_server_v.Auth.Store.{get_by_id}
use hotel_server_v.Trips as TripRows
use hotel_server_v.Trips.{Trip}
use hotel_server_v.Ranking.{RankedHotel}
use hotel_server_v.Recommendations.Tables.{RecommendationRun, Tables, AlgorithmVersion}
use hotel_server_v.Recommendations.Candidates.{candidates}
use hotel_server_v.Recommendations.Runs.{save}
use hotel_server_v.Recommendations.Service.{
  RecommendationRequest, RecommendationRunRead, generate, ranking, preferences_for, models_from,
  to_run, run_of, not_onboarded, active_algorithm,
}

module _ (f : Floats) (show_id : ℕ → String) (to_float : Rational → f.F) where
  -- What a call leaves behind: the ranked hotels `hs` and the row of the run.
  pub record Generated (new_id user : ℕ) (payload : RecommendationRequest f.F)
      (before after : Tables f.F) (r : RecommendationRunRead f.F) : Type 0 where
    pub trip : Trip
    pub algorithm : AlgorithmVersion
    pub ranked : List (RankedHotel f.F)
    pub run : RecommendationRun f.F
    pub onboarded : not_onboarded (get_by_id user before.users) ≡ false
    pub owned : TripRows.get_owned payload.trip_id user before.trips ≡ some trip
    pub active : active_algorithm before.algorithms ≡ some algorithm
    pub ranks :
        ranking f show_id to_float
          (candidates f trip.content algorithm.id payload.filters before)
          (preferences_for f show_id to_float user trip.id before)
        ≡ ok ranked
    pub run_id : run.id ≡ new_id
    pub run_user : run.user_id ≡ user
    pub run_trip : run.trip_id ≡ trip.id
    pub stored :
        after
        ≡ save run
            (models_from f show_id to_float new_id 1 (take payload.filters.limit ranked))
            before
    pub returned : r ≡ to_run f show_id to_float new_id trip.id (take payload.filters.limit ranked)

  pub generate-Generated :
      (now new_id user : ℕ) (payload : RecommendationRequest f.F) (before after : Tables f.F)
      (r : RecommendationRunRead f.F)
      → request (generate f show_id to_float now new_id user payload) before ≡ (ok r, after)
      → Generated new_id user payload before after r
  unfolding generate
  generate-Generated now new_id user payload before after r q =
      elim (Bool-cases (not_onboarded (get_by_id user before.users))) [
        | inl e ↦ ground (arith, e, q)
        | inr e ↦ elim (Option-cases (TripRows.get_owned payload.trip_id user before.trips)) [
          | inl e1 ↦ ground (arith, e, e1, q)
          | inr (trip, e1) ↦ elim (Option-cases (active_algorithm before.algorithms)) [
            | inl e2 ↦ ground (arith, e, e1, e2, q)
            | inr (algorithm, e2) ↦
                elim (Result-cases (
                  ranking f show_id to_float
                    (candidates f trip.content algorithm.id payload.filters before)
                    (preferences_for f show_id to_float user trip.id before))) [
                      | inl (ranked, e3) ↦
                          let rows =
                            candidates f trip.content algorithm.id payload.filters before in
                          let preferences =
                            preferences_for f show_id to_float user trip.id before in
                          let results = take payload.filters.limit ranked in
                          let new_run =
                            run_of f show_id to_float now new_id user payload trip.id algorithm.id
                              preferences rows results in
                          record {
                            trip = trip;
                            algorithm = algorithm;
                            ranked = ranked;
                            run = new_run;
                            onboarded = e;
                            owned = e1;
                            active = e2;
                            ranks = e3;
                            run_id = refl;
                            run_user = refl;
                            run_trip = refl;
                            stored = ground (arith, e, e1, e2, e3, q);
                            returned = ground (arith, e, e1, e2, e3, q);
                          }
                      | inr (x, e3) ↦ ground (arith, e, e1, e2, e3, q)
                    ]
          ]
        ]
      ]

  -- A call that fails stores nothing.
  pub generate-err :
      (now new_id user : ℕ) (payload : RecommendationRequest f.F) (before after : Tables f.F)
      (x : Error)
      → request (generate f show_id to_float now new_id user payload) before ≡ (err x, after)
      → after ≡ before
  unfolding generate
  generate-err now new_id user payload before after x q =
      elim (Bool-cases (not_onboarded (get_by_id user before.users))) [
        | inl e ↦ ground (arith, e, q)
        | inr e ↦ elim (Option-cases (TripRows.get_owned payload.trip_id user before.trips)) [
          | inl e1 ↦ ground (arith, e, e1, q)
          | inr (trip, e1) ↦ elim (Option-cases (active_algorithm before.algorithms)) [
            | inl e2 ↦ ground (arith, e, e1, e2, q)
            | inr (algorithm, e2) ↦
                elim (Result-cases (
                  ranking f show_id to_float
                    (candidates f trip.content algorithm.id payload.filters before)
                    (preferences_for f show_id to_float user trip.id before))) [
                      | inl (ranked, e3) ↦ ground (arith, e, e1, e2, e3, q)
                      | inr (y, e3) ↦ ground (arith, e, e1, e2, e3, q)
                    ]
          ]
        ]
      ]
