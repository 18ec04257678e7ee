-- ===== src/Recommendations/RoundTrip.antt =====
-- About `get` of a run that `generate` has stored.
use hotel_server_v.Base.{
  ℕ, suc, String, Bool, false, Option, none, some, List, [], ◌∷◌, ◌++◌, map, take, keep, any, find,
  ltb, ◌≤◌, ◌≡◌, refl, sym, subst, inl, inr, Option-cases, arith, All, take-All, keep-append,
  keep-none, nat_eq, ◌==◌,
}
use hotel_server_v.Base.Exec.{ok, request}
use hotel_server_v.Base.Floats.{Floats}
use hotel_server_v.Base.Rational.{Rational}
use hotel_server_v.Base.Sort.{sort_by-id, IsSorted}
use hotel_server_v.Ranking.{RankedHotel}
use hotel_server_v.Recommendations.Tables.{
  CatalogHotel, RecommendationRun, HotelRecommendation, Tables,
}
use hotel_server_v.Recommendations.Candidates.{candidates, selected}
use hotel_server_v.Recommendations.Names.{
  IsKeyed, IsNamed, keep-IsNamed, IsReadable, candidates-HasName, ranking-IsReadable,
}
use hotel_server_v.Recommendations.Runs.{
  ResultRow, IsFresh, save, get_owned, with_name, with_names, result_rows,
}
use hotel_server_v.Recommendations.Generated.{generate-Generated}
use hotel_server_v.Recommendations.Service.{
  RecommendationRequest, RecommendationRunRead, generate, get, preferences_for, models_from,
  results_from, result_of,
}

module _ (f : Floats) (show_id : ℕ → String) (to_float : Rational → f.F) where
  module _ (run : ℕ) where
    abbrev models : ℕ → List (RankedHotel f.F) → List (HotelRecommendation f.F)
    models = models_from f show_id to_float run

    keep-models :
        (n : ℕ) (hs : List (RankedHotel f.F))
        → keep (λ r. r.recommendation_run_id == run) (models n hs) ≡ models n hs
    unfolding models_from
    keep-models n [] = refl
    keep-models n (h ∷ hs) = ground (arith, keep-models (suc n) hs)

    module _ (hotels : List CatalogHotel) where
      abbrev rows_from : ℕ → List (RankedHotel f.F) → List (ResultRow f.F)
      rows_from n hs = with_names hotels (models n hs)

      abbrev by_rank : ResultRow f.F → ResultRow f.F → Bool
      by_rank a b = ltb a.stored.rank b.stored.rank

      with_name-All :
          (P : ResultRow f.F → Type 0) (o : Option CatalogHotel) (r : HotelRecommendation f.F)
          (rows : List (ResultRow f.F))
          → ((name : String) → P (record { name = name; stored = r }))
          → All P rows
          → All P (with_name o r rows)
      with_name-All P none r rows p h = h
      with_name-All P (some x) r rows p h = (p x.name, h)

      with_name-IsSorted :
          (o : Option CatalogHotel) (r : HotelRecommendation f.F) (rows : List (ResultRow f.F))
          → All (λ y. ltb y.stored.rank r.rank ≡ false) rows
          → IsSorted by_rank rows
          → IsSorted by_rank (with_name o r rows)
      with_name-IsSorted none r rows a s = s
      with_name-IsSorted (some x) r rows a s = (a, s)

      rows_from-All :
          (rank n : ℕ) (hs : List (RankedHotel f.F))
          → rank ≤ n
          → All (λ y. ltb y.stored.rank rank ≡ false) (rows_from n hs)
      unfolding models_from with_names
      rows_from-All rank n [] h = tt
      rows_from-All rank n (r ∷ rs) h =
          with_name-All (λ y. ltb y.stored.rank rank ≡ false)
            (find (λ h. h.id == r.hotel_id) hotels) _ (rows_from (suc n) rs)
            (λ name. ground (arith, h)) (rows_from-All rank (suc n) rs (omega (arith, h)))

      rows_from-IsSorted : (n : ℕ) (hs : List (RankedHotel f.F)) → IsSorted by_rank (rows_from n hs)
      unfolding models_from with_names
      rows_from-IsSorted n [] = tt
      rows_from-IsSorted n (r ∷ rs) =
          with_name-IsSorted (find (λ h. h.id == r.hotel_id) hotels) _ (rows_from (suc n) rs)
            (rows_from-All n (suc n) rs (omega arith)) (rows_from-IsSorted (suc n) rs)

      result_of-rows_from :
          (n : ℕ) (hs : List (RankedHotel f.F))
          → All (IsReadable f show_id to_float (IsNamed hotels)) hs
          → map (result_of f show_id to_float) (rows_from n hs)
            ≡ results_from f show_id to_float n hs
      unfolding models_from with_names results_from
      result_of-rows_from n [] h = refl
      result_of-rows_from n (r ∷ rs) h =
          elim (Option-cases (find (λ h. h.id == r.hotel_id) hotels)) [
            | inl e ↦ ground (arith, e, h.0)
            | inr (y, e) ↦ ground (arith, e, h.0, result_of-rows_from (suc n) rs h.1)
          ]

  result_rows-save :
      (run : RecommendationRun f.F) (n new_id : ℕ) (hs : List (RankedHotel f.F)) (d : Tables f.F)
      → any (λ r. r.recommendation_run_id == new_id) d.recommendations ≡ false
      → result_rows new_id (save run (models_from f show_id to_float new_id n hs) d)
        ≡ with_names d.hotels (models_from f show_id to_float new_id n hs)
  unfolding result_rows save
  result_rows-save run n new_id hs d fresh =
      let new = models_from f show_id to_float new_id n hs in
      let chosen = keep-append (λ r. r.recommendation_run_id == new_id) d.recommendations new in
      rw
        (
          chosen,
          keep-none (λ r. r.recommendation_run_id == new_id) d.recommendations fresh,
          keep-models new_id n hs,
        )
        (sort_by-id (by_rank new_id d.hotels) (with_names d.hotels new)
          (rows_from-IsSorted new_id d.hotels n hs))

  get_owned-append :
      (run : RecommendationRun f.F) (runs : List (RecommendationRun f.F))
      → any (λ r. r.id == run.id) runs ≡ false
      → get_owned run.id run.user_id (runs ++ run ∷ []) ≡ some run
  unfolding get_owned
  get_owned-append run [] h = ground arith
  get_owned-append run (r ∷ rs) h = ground (arith, h, get_owned-append run rs)

  get_owned-save :
      (run : RecommendationRun f.F) (new_id user : ℕ) (models : List (HotelRecommendation f.F))
      (d : Tables f.F)
      → any (λ r. r.id == new_id) d.runs ≡ false
      → run.id ≡ new_id
      → run.user_id ≡ user
      → get_owned new_id user (save run models d).runs ≡ some run
  unfolding save
  get_owned-save run new_id user models d fresh i u =
      subst (λ x. get_owned x user (d.runs ++ run ∷ []) ≡ some run) i
        (subst (λ x. get_owned run.id x (d.runs ++ run ∷ []) ≡ some run) u
          (get_owned-append run d.runs
            (subst (λ x. any (λ r. r.id == x) d.runs ≡ false) (sym i) fresh)))

  -- Where the identifiers of the hotels are unique and the new identifier is that of no stored run or result, the run that `generate` returns is what `get` then returns to the same user, and `get` leaves the stored data as it is.
  pub get-generate :
      (now new_id user : ℕ) (payload : RecommendationRequest f.F) (before after : Tables f.F)
      (r : RecommendationRunRead f.F)
      → IsKeyed before.hotels
      → IsFresh new_id before
      → request (generate f show_id to_float now new_id user payload) before ≡ (ok r, after)
      → request (get f show_id to_float user new_id) after ≡ (ok r, after)
  unfolding get
  get-generate now new_id user payload before after r keyed fresh q =
      let g = generate-Generated f show_id to_float now new_id user payload before after r q in
      let rows = candidates f g.trip.content g.algorithm.id payload.filters before in
      let ps = preferences_for f show_id to_float user g.trip.id before in
      let hs = take payload.filters.limit g.ranked in
      let named =
        candidates-HasName f show_id to_float (IsNamed before.hotels) g.trip.content g.algorithm.id
          payload.filters before
          (keep-IsNamed (selected f g.trip.content payload.filters before.mappings) before.hotels
            keyed) in
      let readable =
        take-All (IsReadable f show_id to_float (IsNamed before.hotels)) payload.filters.limit
          g.ranked
          (ranking-IsReadable f show_id to_float (IsNamed before.hotels) rows ps g.ranked named
            g.ranks) in
      let new = models_from f show_id to_float new_id 1 hs in
      ground (
        arith,
        g.stored,
        g.returned,
        g.run_id,
        g.run_trip,
        get_owned-save g.run new_id user new before fresh.0 g.run_id g.run_user,
        result_rows-save g.run 1 new_id hs before fresh.1,
        result_of-rows_from new_id before.hotels 1 hs readable,
      )
