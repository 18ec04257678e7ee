-- ===== src/Recommendations/Owner.antt =====
-- About the requests of other users for a run.
use hotel_server_v.Base.{
  ℕ, String, false, none, List, [], ◌∷◌, ◌++◌, any, ◌≡◌, ◌≢◌, ◌∙◌, refl, sym, subst, arith, take,
  nat_eq, ◌==◌,
}
use hotel_server_v.Base.Exec.{ok, err, request}
use hotel_server_v.Base.Floats.{Floats}
use hotel_server_v.Base.Rational.{Rational}
use hotel_server_v.Errors.{recommendation_run_not_found}
use hotel_server_v.Recommendations.Tables.{RecommendationRun, HotelRecommendation, Tables}
use hotel_server_v.Recommendations.Runs.{IsFresh, save, get_owned}
use hotel_server_v.Recommendations.Generated.{generate-Generated}
use hotel_server_v.Recommendations.Service.{
  RecommendationRequest, RecommendationRunRead, generate, get, detail, models_from,
}

module _ (f : Floats) (show_id : ℕ → String) (to_float : Rational → f.F) where
  open f use {F}

  not_owned-append :
      (new_id other : ℕ) (run : RecommendationRun F) (runs : List (RecommendationRun F))
      → any (λ r. r.id == new_id) runs ≡ false
      → run.user_id ≢ other
      → get_owned new_id other (runs ++ run ∷ []) ≡ none
  unfolding get_owned
  not_owned-append new_id other run [] h u = ground (arith, u)
  not_owned-append new_id other run (r ∷ rs) h u =
      ground (arith, h, not_owned-append new_id other run rs (ground (arith, h)) u)

  saved-runs :
      (run : RecommendationRun F) (models : List (HotelRecommendation F)) (d : Tables F)
      → (save run models d).runs ≡ d.runs ++ run ∷ []
  unfolding save
  saved-runs run models d = refl

  -- After a successful `generate` under a new identifier, every other user's `get` of the run and `detail` of any hotel in it answer that the run is not found, and store nothing.
  pub generate-others :
      (now new_id user other hotel : ℕ) (payload : RecommendationRequest F)
      (before after : Tables F) (r : RecommendationRunRead F)
      → IsFresh new_id before
      → user ≢ other
      → request (generate f show_id to_float now new_id user payload) before ≡ (ok r, after)
      → (request (get f show_id to_float other new_id) after
          ≡ (err (recommendation_run_not_found "Recommendation run not found"), after))
        × (request (detail f show_id to_float other new_id hotel) after
            ≡ (err (recommendation_run_not_found "Recommendation run not found"), after))
  unfolding get detail
  generate-others now new_id user other hotel payload before after r fresh u q =
      let g = generate-Generated f show_id to_float now new_id user payload before after r q in
      let models = models_from f show_id to_float new_id 1 (take payload.filters.limit g.ranked) in
      let unowned : get_owned new_id other after.runs ≡ none =
        subst (λ (d : Tables F). get_owned new_id other d.runs ≡ none) (sym g.stored)
          (subst (λ (rs : List (RecommendationRun F)). get_owned new_id other rs ≡ none)
            (sym (saved-runs g.run models before))
            (not_owned-append new_id other g.run before.runs fresh.0
              (λ e. u (sym g.run_user ∙ e)))) in
      (ground (arith, unowned), ground (arith, unowned))
