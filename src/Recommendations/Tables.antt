-- ===== src/Recommendations/Tables.antt =====
-- The tables that recommendations read and write: models/hotel.py, models/scoring.py and
-- models/experience.py, with the columns that the queries name.
use hotel_server_v.Base.{ℕ, String, Bool, Option, List}
use hotel_server_v.Auth.Store.{User}
use hotel_server_v.Preferences.Store.{UserPreference, Attribute, TripPreference}
use hotel_server_v.Trips.{Trip}
use hotel_server_v.Ranking.{Evidence, Explanation}

-- `Hotel` of models/hotel.py
pub record CatalogHotel : Type 0 where
  pub id : ℕ
  pub name : String
  pub country_id : ℕ
  pub region_id : ℕ
  pub city_id : ℕ
  pub hotel_type : Option String
  pub is_active : Bool
  pub deleted_at : Option ℕ

pub record HotelSourceMapping (F : Type 0) : Type 0 where
  pub id : ℕ
  pub hotel_id : ℕ
  pub source_rating : Option F
  pub source_review_count : Option ℕ
  pub source_rank : Option ℕ
  pub is_active : Bool

pub record HotelAttributeScore (F : Type 0) : Type 0 where
  pub hotel_id : ℕ
  pub attribute_id : ℕ
  pub algorithm_version_id : ℕ
  pub evidence : Evidence F

pub record AlgorithmVersion : Type 0 where
  pub id : ℕ
  pub version : ℕ
  pub is_active : Bool

-- One element of `preference_snapshot`.
pub record Snapshot (F : Type 0) : Type 0 where
  pub attribute_id : ℕ
  pub weight : F
  pub minimum_required_score : Option F
  pub is_mandatory : Bool

-- `RecommendationRequest` without its trip
pub record Filters (F : Type 0) : Type 0 where
  pub limit : ℕ
  pub hotel_type : Option String
  pub min_source_rating : Option F

pub record RecommendationRun (F : Type 0) : Type 0 where
  pub id : ℕ
  pub user_id : ℕ
  pub trip_id : ℕ
  pub algorithm_version_id : ℕ
  pub preference_snapshot : List (Snapshot F)
  pub filters : Filters F
  pub candidate_count : ℕ
  pub result_count : ℕ
  pub created_at : ℕ

pub record HotelRecommendation (F : Type 0) : Type 0 where
  pub recommendation_run_id : ℕ
  pub hotel_id : ℕ
  pub rank : ℕ
  pub personalized_rating : F
  pub match_score : F
  pub coverage_score : F
  pub explanation : Explanation F

pub record Tables (F : Type 0) : Type 0 where
  pub users : List User
  pub trips : List Trip
  pub preferences : List UserPreference
  pub attributes : List Attribute
  pub trip_preferences : List TripPreference
  pub algorithms : List AlgorithmVersion
  pub hotels : List CatalogHotel
  pub mappings : List (HotelSourceMapping F)
  pub scores : List (HotelAttributeScore F)
  pub runs : List (RecommendationRun F)
  pub recommendations : List (HotelRecommendation F)
