-- ===== src/Recommendations/Tests.antt =====
-- About a concrete traveller, a trip and two hotels.
use hotel_server_v.Base.{
  ℕ, String, Bool, true, false, Option, none, some, List, [], ◌∷◌, ◌≡◌, ◌≤◌, refl, arith, All,
  length, map,
}
use hotel_server_v.Base.Exec.{Result, ok, err, request}
use hotel_server_v.Base.Rational.{Rational}
use hotel_server_v.Base.Floats.Fixed.{fixed}
use hotel_server_v.Errors.{recommendation_run_not_found}
use hotel_server_v.Auth.Store.{User, UserStatus, UserRole}
use hotel_server_v.Trips as TripRows
use hotel_server_v.Trips.{Trip, TripWrite}
use hotel_server_v.Preferences.Store.{Source}
use hotel_server_v.Recommendations.Tables.{
  CatalogHotel, HotelSourceMapping, HotelAttributeScore, Filters, Tables,
}
use hotel_server_v.Recommendations.Service.{
  RecommendationRequest, RecommendationRunRead, generate, get, detail,
}
use hotel_server_v.Recommendations.Server.{
  Server, generate_request, get_request, generated, empty, step,
}
use hotel_server_v.Recommendations.RoundTrip.{get-generate}
use hotel_server_v.Recommendations.Choice.{IsChosen, generate-IsChosen}
use hotel_server_v.Recommendations.Owner.{generate-others}
use hotel_server_v.Recommendations.Coherence.{get_request-transparent}

abbrev fixed_decimal : ℕ → ℕ → ℕ
fixed_decimal = fixed.decimal

abbrev shown : ℕ → String
shown n = "attribute"

-- A weight in tenths.
abbrev to_fixed : Rational → ℕ
to_fixed q = fixed_decimal q.up 1

abbrev traveller : User
traveller = record {
  id = 1;
  email = "t@example.org";
  phone = none;
  first_name = "T";
  last_name = "R";
  password_hash = "hash";
  status = UserStatus.active;
  role = UserRole.user;
  onboarding_completed = true;
  onboarding_skipped_at = none;
  last_login_at = none;
  deleted_at = none;
}

abbrev goa : TripWrite
goa = record {
  destination_country_id = 1;
  destination_region_id = some 2;
  destination_city_id = none;
  check_in_date = none;
  check_out_date = none;
  trip_purpose = "LEISURE";
  party_type = none;
  adult_count = 2;
  child_count = 0;
  room_count = 1;
  budget_min = none;
  budget_max = none;
  currency = "INR";
  status = "DRAFT";
}

abbrev goa_trip : Trip
goa_trip = record { id = 5; user_id = 1; created_at = 3; content = goa; deleted_at = none }

abbrev hotel : ℕ → String → ℕ → CatalogHotel
hotel id name region = record {
  id = id;
  name = name;
  country_id = 1;
  region_id = region;
  city_id = 4;
  hotel_type = some "resort";
  is_active = true;
  deleted_at = none;
}

abbrev score : ℕ → ℕ → ℕ → HotelAttributeScore ℕ
score hotel_id attribute tenths = record {
  hotel_id = hotel_id;
  attribute_id = attribute;
  algorithm_version_id = 9;
  evidence = record {
    score_5 = some (fixed_decimal tenths 1);
    score_100 = none;
    relative_score_5 = some (fixed_decimal tenths 1);
    confidence_score = some (fixed_decimal 9 1);
    mention_count = some 12;
    positive_mentions = some 10;
    negative_mentions = some 1;
    neutral_mentions = some 1;
    scoring_source = some "review_based";
  };
}

abbrev mapping : HotelSourceMapping ℕ
mapping = record {
  id = 1;
  hotel_id = 11;
  source_rating = some (fixed_decimal 45 1);
  source_review_count = some 300;
  source_rank = none;
  is_active = true;
}

abbrev start : Tables ℕ
start = record {
  users = traveller ∷ [];
  trips = goa_trip ∷ [];
  preferences =
      record {
        user_id = 1;
        attribute_id = 7;
        importance_weight = record { up = 8; down = 0; below = 9 };
        preferred_value = none;
        source = Source.user_manual;
      }
      ∷ [];
  attributes =
      record {
        id = 7;
        name = "Pool";
        slug = "pool";
        display_order = 1;
        is_active = true;
        category_is_active = true;
      }
      ∷ [];
  trip_preferences = [];
  algorithms = record { id = 9; version = 1; is_active = true } ∷ [];
  hotels = hotel 10 "Sea View" 2 ∷ hotel 11 "Palm Beach" 2 ∷ hotel 12 "Hill Top" 3 ∷ [];
  mappings = mapping ∷ [];
  scores = score 10 7 31 ∷ score 11 7 44 ∷ score 12 7 50 ∷ [];
  runs = [];
  recommendations = [];
}

abbrev filters : Filters ℕ
filters = record { limit = 20; hotel_type = some "resort"; min_source_rating = none }

abbrev ask : RecommendationRequest ℕ
ask = record { trip_id = 5; filters = filters }

abbrev outcome : Result (RecommendationRunRead ℕ) × Tables ℕ
outcome = request (generate fixed shown to_fixed 50 100 1 ask) start

abbrev value_or :
    RecommendationRunRead ℕ → Result (RecommendationRunRead ℕ) → RecommendationRunRead ℕ
value_or d (ok r) = r
value_or d (err e) = d

abbrev returned : RecommendationRunRead ℕ
returned = value_or (record { recommendation_run_id = 0; trip_id = 0; results = [] }) outcome.0

outcome-ok : outcome ≡ (ok returned, outcome.1)
unfolding generate hotel_server_v.Base.Sort.sort_by hotel_server_v.Base.Dict.lookup
    hotel_server_v.Base.Dict.insert
outcome-ok = refl

-- Palm Beach before Sea View; Hill Top is in another region.
returned-ids : map (λ x. x.hotel_id) returned.results ≡ 11 ∷ 10 ∷ []
unfolding generate hotel_server_v.Base.Sort.sort_by hotel_server_v.Base.Dict.lookup
    hotel_server_v.Base.Dict.insert
returned-ids = refl

get-generate_example : request (get fixed shown to_fixed 1 100) outcome.1 ≡ (ok returned, outcome.1)
get-generate_example =
    get-generate fixed shown to_fixed 50 100 1 ask start outcome.1 returned
      (refl, (refl, (refl, tt))) (refl, refl) outcome-ok

generate-IsChosen_example :
    (trip : Trip) × (TripRows.get_owned 5 1 start.trips ≡ some trip)
    × (length returned.results ≤ 20)
    × All (λ x. IsChosen fixed shown to_fixed trip filters start x.hotel_id) returned.results
generate-IsChosen_example =
    generate-IsChosen fixed shown to_fixed 50 100 1 ask start outcome.1 returned outcome-ok

generate-others_example :
    (request (get fixed shown to_fixed 2 100) outcome.1
      ≡ (err (recommendation_run_not_found "Recommendation run not found"), outcome.1))
    × (request (detail fixed shown to_fixed 2 100 11) outcome.1
        ≡ (err (recommendation_run_not_found "Recommendation run not found"), outcome.1))
generate-others_example =
    generate-others fixed shown to_fixed 50 100 1 2 11 ask start outcome.1 returned (refl, refl)
      (λ e. ground (arith, e)) outcome-ok

abbrev served : Server ℕ
served =
    (generate_request fixed shown to_fixed true 50 100 1 ask
      (record { tables = start; cache = [] })).1

get_request-transparent_example :
    (get_request fixed shown to_fixed true true 1 100 served).0
    ≡ (request (get fixed shown to_fixed 1 100) served.tables).0
get_request-transparent_example =
    get_request-transparent fixed shown to_fixed start served true true 1 100
      (refl, (refl, (refl, tt)))
      (step empty
        (generated true 50 100 1 ask (record { tables = start; cache = [] }) (refl, refl)))
