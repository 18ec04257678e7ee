-- ===== src/Recommendations/Runs.antt =====
-- The rest of repositories/recommendations.py: the stored runs and their results.
use hotel_server_v.Base.{
  ℕ, String, ◌&&◌, Option, none, some, List, [], ◌∷◌, ◌++◌, keep, any, find, ◌≡◌, false, ltb, ◌==◌,
  nat_eq,
}
use hotel_server_v.Base.Sort.{sort_by}
use hotel_server_v.Recommendations.Tables.{
  CatalogHotel, RecommendationRun, HotelRecommendation, Tables,
}

-- A row of `result_rows`: a recommendation with the name of its hotel.
pub record ResultRow (F : Type 0) : Type 0 where
  pub name : String
  pub stored : HotelRecommendation F

-- No stored run or result has the identifier.
abbrev pub IsFresh : {F : Type 0} → ℕ → Tables F → Type 0
IsFresh new_id d =
    (any (λ r. r.id == new_id) d.runs ≡ false)
    × (any (λ r. r.recommendation_run_id == new_id) d.recommendations ≡ false)

module _ {F : Type 0} where
  unfoldable pub save : RecommendationRun F → List (HotelRecommendation F) → Tables F → Tables F
  save run results d = record d {
    runs = d.runs ++ run ∷ [];
    recommendations = d.recommendations ++ results;
  }

  unfoldable pub get_owned : ℕ → ℕ → List (RecommendationRun F) → Option (RecommendationRun F)
  get_owned run user runs = find (λ r. r.id == run && r.user_id == user) runs

  abbrev pub with_name :
      Option CatalogHotel → HotelRecommendation F → List (ResultRow F) → List (ResultRow F)
  with_name none r rows = rows
  with_name (some h) r rows = record { name = h.name; stored = r } ∷ rows

  -- The inner join with the hotels, by their primary key.
  unfoldable pub with_names : List CatalogHotel → List (HotelRecommendation F) → List (ResultRow F)
  with_names hotels [] = []
  with_names hotels (r ∷ rs) =
      with_name (find (λ h. h.id == r.hotel_id) hotels) r (with_names hotels rs)

  unfoldable pub result_rows : ℕ → Tables F → List (ResultRow F)
  unfolding with_names
  result_rows run d =
      sort_by (λ a b. ltb a.stored.rank b.stored.rank)
        (with_names d.hotels (keep (λ r. r.recommendation_run_id == run) d.recommendations))

  unfoldable pub result : ℕ → ℕ → List (HotelRecommendation F) → Option (HotelRecommendation F)
  result run hotel rs = find (λ r. r.recommendation_run_id == run && r.hotel_id == hotel) rs
