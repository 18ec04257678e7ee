-- ===== src/Preferences/Tests.antt =====
-- Runs of repositories/preferences.py and services/preferences.py on small tables.
use hotel_server_v.Base.{nat_eq, ◌≡◌, true, none, some, List, [], ◌∷◌}
use hotel_server_v.Base.Dict.{lookup}
use hotel_server_v.Base.Rational.{of_ℕ, round_half_up}
use hotel_server_v.Base.Exec.{err, is_ok, request}
use hotel_server_v.Errors.{preference_not_found}
use hotel_server_v.Preferences.Store.{
  Source, same_source, delete_manual, UserPreference, Attribute, TripPreference, PreferenceWrite,
  Numeric, override, select_rows, replace_manual, resolve_for_trip,
}
use hotel_server_v.Preferences.Service.{
  Tables, replace_manual_preferences, upsert_manual, delete_manual_preference,
}
use hotel_server_v.Preferences.Precedence.{select_rows-precedence, resolve_for_trip-precedence}
use hotel_server_v.Preferences.Updates.{
  stored, row, replace_manual-keeps_onboarding, replace_manual-stored,
}
use hotel_server_v.Preferences.Requests.{
  replace_manual_preferences-atomic, upsert_manual-stored, delete_manual_preference-stored,
}

abbrev spa : Attribute
spa = record {
  id = 5;
  name = "Spa";
  slug = "spa";
  display_order = 1;
  is_active = true;
  category_is_active = true;
}

abbrev rounded : Numeric
rounded precision scale r = round_half_up scale r

abbrev from_onboarding : UserPreference
from_onboarding = row 1 5 (of_ℕ 2) none Source.onboarding_deterministic

abbrev by_hand : UserPreference
by_hand = row 1 5 (of_ℕ 4) (some "quiet") Source.user_manual

abbrev write : PreferenceWrite
write = record {
  attribute_id = 5;
  importance_weight = record { up = 33333; down = 0; below = 99999 };
  preferred_value = none;
}

abbrev unknown : PreferenceWrite
unknown = record { attribute_id = 6; importance_weight = of_ℕ 1; preferred_value = none }

abbrev both : List UserPreference
both = by_hand ∷ from_onboarding ∷ []

abbrev tables : Tables
tables = record { preferences = both; attributes = spa ∷ [] }

abbrev trip_row : TripPreference
trip_row = record {
  trip_id = 9;
  attribute_id = 5;
  weight = of_ℕ 5;
  minimum_required_score = none;
  is_mandatory = true;
}

select_rows-precedence_example :
    lookup 5 (select_rows [] ((by_hand, spa) ∷ (from_onboarding, spa) ∷ [])) ≡ some (by_hand, spa)
unfolding lookup same_source
select_rows-precedence_example =
    select_rows-precedence 5 ((by_hand, spa) ∷ (from_onboarding, spa) ∷ [])

resolve_for_trip-precedence_example :
    lookup 5 (resolve_for_trip 1 9 both (spa ∷ []) (trip_row ∷ []))
    ≡ some (override (lookup 5 (resolve_for_trip 1 9 both (spa ∷ []) [])) trip_row)
unfolding resolve_for_trip
resolve_for_trip-precedence_example =
    resolve_for_trip-precedence 1 9 5 both (spa ∷ []) (trip_row ∷ [])

replace_manual-keeps_onboarding_example :
    stored 1 5 Source.onboarding_deterministic (replace_manual rounded 1 (write ∷ []) both)
    ≡ some from_onboarding
unfolding same_source
replace_manual-keeps_onboarding_example =
    replace_manual-keeps_onboarding rounded 1 (write ∷ []) both 1 5 Source.onboarding_deterministic
      (λ e. cc)

replace_manual-stored_example :
    stored 1 5 Source.user_manual (replace_manual rounded 1 (write ∷ []) both)
    ≡ some (row 1 5 (record { up = 3333; down = 0; below = 9999 }) none Source.user_manual)
replace_manual-stored_example = replace_manual-stored rounded 1 (write ∷ []) both 5

replace_manual_preferences-atomic_example :
    request (replace_manual_preferences rounded 1 (write ∷ unknown ∷ [])) tables
    ≡ (err (preference_not_found "Attribute not found"), tables)
replace_manual_preferences-atomic_example =
    replace_manual_preferences-atomic rounded 1 (write ∷ unknown ∷ []) tables

upsert_manual-stored_example :
    let (r, d') = request (upsert_manual rounded 1 5 write) tables in
    (is_ok r ≡ true)
    × (stored 1 5 Source.user_manual d'.preferences
        ≡ some (row 1 5 (record { up = 3333; down = 0; below = 9999 }) none Source.user_manual))
unfolding upsert_manual same_source
upsert_manual-stored_example = upsert_manual-stored rounded 1 5 write tables 1 5 Source.user_manual

delete_manual_preference-stored_example :
    let (r, d') = request (delete_manual_preference 1 5) tables in
    (is_ok r ≡ true) × (stored 1 5 Source.user_manual d'.preferences ≡ none)
unfolding delete_manual_preference same_source delete_manual
delete_manual_preference-stored_example =
    delete_manual_preference-stored 1 5 tables 1 5 Source.user_manual
