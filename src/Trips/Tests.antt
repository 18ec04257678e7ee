-- ===== src/Trips/Tests.antt =====
-- Runs of services/trips.py on a small table.
use hotel_server_v.Base.{nat_eq, ◌≡◌, arith, refl, true, none, some, [], ◌∷◌}
use hotel_server_v.Base.Exec.{ok, request}
use hotel_server_v.Trips.{Trip, World, TripWrite, get_owned}
use hotel_server_v.Base.Rational.{of_ℕ, round_half_up}
use hotel_server_v.Preferences.Store.{Numeric, trip_preferences}
use hotel_server_v.Trips.Overrides.{
  TripPreferenceWrite, row, preferences, replace_preferences, replace_preferences-stored,
}
use hotel_server_v.Trips.Isolation.{updates, after, after-isolated}

abbrev payload : TripWrite
payload = record {
  destination_country_id = 1;
  destination_region_id = none;
  destination_city_id = none;
  check_in_date = none;
  check_out_date = none;
  trip_purpose = "LEISURE";
  party_type = none;
  adult_count = 2;
  child_count = 0;
  room_count = 1;
  budget_min = none;
  budget_max = none;
  currency = "INR";
  status = "DRAFT";
}

abbrev mine : Trip
mine = record { id = 4; user_id = 1; created_at = 1; content = payload; deleted_at = none }

abbrev theirs : Trip
theirs = record { id = 5; user_id = 2; created_at = 2; content = payload; deleted_at = none }

abbrev world : World
world = record {
  countries = record { id = 1; is_active = true } ∷ [];
  regions = [];
  cities = [];
  trips = mine ∷ theirs ∷ [];
  attributes = 7 ∷ 8 ∷ [];
  preferences = [];
}

abbrev planned : TripWrite
planned = record payload { adult_count = 3; status = "PLANNED" }

after-isolated_example : get_owned 5 2 (after 1 (updates 4 planned) world).trips ≡ some theirs
unfolding get_owned
after-isolated_example = after-isolated 1 2 5 (updates 4 planned) world (refl, (refl, tt)) (λ e. cc)

abbrev wanted : TripPreferenceWrite
wanted = record {
  attribute_id = 7;
  weight = record { up = 33333; down = 0; below = 99999 };
  minimum_required_score = some (of_ℕ 3);
  is_mandatory = true;
}

abbrev rounded : Numeric
rounded precision scale r = round_half_up scale r

replace_preferences-stored_example :
    ((request (replace_preferences rounded 1 4 (wanted ∷ [])) world).0
      ≡ ok (row 4 wanted wanted.weight (some (of_ℕ 3)) ∷ []))
    × ((request
          (preferences 1 4)
          (request (replace_preferences rounded 1 4 (wanted ∷ [])) world).1).0
        ≡ ok (
            row 4 wanted
              (record { up = 3333; down = 0; below = 9999 })
              (some (record { up = 3000; down = 0; below = 999 }))
            ∷ []))
    × (trip_preferences 5
          (request (replace_preferences rounded 1 4 (wanted ∷ [])) world).1.preferences
        ≡ [])
unfolding get_owned
replace_preferences-stored_example =
    replace_preferences-stored rounded 1 4 5 (wanted ∷ []) mine world refl refl
      (λ e. ground (arith, e))
