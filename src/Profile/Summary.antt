-- ===== src/Profile/Summary.antt =====
-- `_profile_context`, `_profile_summary` and `_display` of services/adaptive_preferences.py.
use hotel_server_v.Base.{
  ℕ, String, Bool, Option, none, some, List, [], ◌∷◌, ◌++◌, is_empty, head?, ◌==◌, string_eq,
  if◌then◌else◌,
}
use hotel_server_v.Base.Dict.{lookup}
use hotel_server_v.Base.Rational.{Rational}
use hotel_server_v.Base.Text.{text_append, text_take, join_texts}
use hotel_server_v.Onboarding.Types.{Location}
use hotel_server_v.Profile.Answers.{get_list}

pub record Context : Type 0 where
  pub destination_raw : Option String
  pub destination_normalized_text : Option String
  pub destination_country_id : Option ℕ
  pub destination_region_id : Option ℕ
  pub destination_city_id : Option ℕ
  pub destination_display_name : Option String
  pub destination_resolved : Option Bool
  pub destination_resolution_confidence : Option Rational
  pub destination_type : Option String
  pub group_type : Option String
  pub travel_pace : Option String
  pub budget_style : Option String

abbrev text_present : Option String → Option String
text_present none = none
text_present (some s) = if s == "" then none else some s

-- `_display`
unfoldable pub display : List String → List (String × String) → Option String
display [] labels = none
display (v ∷ vs) labels = elim (lookup v labels) [ none ↦ display vs labels | some l ↦ some l ]

-- `_profile_context`, with the three keys that are set after it.
unfoldable pub profile_context : Option Location → List (String × List String) → Context
profile_context location values =
    let first = λ (key : String). head? (get_list key values) in
    elim location [
      | none ↦ record {
        destination_raw = none;
        destination_normalized_text = none;
        destination_country_id = none;
        destination_region_id = none;
        destination_city_id = none;
        destination_display_name = none;
        destination_resolved = none;
        destination_resolution_confidence = none;
        destination_type = none;
        group_type = first "travel_group";
        travel_pace = first "travel_pace";
        budget_style = first "price_value";
      }
      | some l ↦ record {
        destination_raw = some l.raw_input;
        destination_normalized_text = some l.normalized_location_text;
        destination_country_id = l.country_id;
        destination_region_id = l.region_id;
        destination_city_id = l.city_id;
        destination_display_name = l.display_name;
        destination_resolved = some l.resolved;
        destination_resolution_confidence = some l.resolution_confidence;
        destination_type = none;
        group_type = first "travel_group";
        travel_pace = first "travel_pace";
        budget_style = first "price_value";
      }
    ]

abbrev or_else : Option String → String → String
or_else none d = d
or_else (some s) d = s

abbrev place_of : Context → String
place_of c = elim (text_present c.destination_raw) [
  | none ↦ or_else (text_present c.destination_display_name) "your destination"
  | some s ↦ s
]

abbrev part : String → String → Option String → List String
part before after none = []
part before after (some s) = text_append before (text_append s after) ∷ []

group_labels : List (String × String)
group_labels =
    ("couple", "Couple") ∷ ("family", "Family") ∷ ("friends", "Friends") ∷ ("solo", "Solo") ∷ []

price_labels : List (String × String)
price_labels =
    ("budget_conscious", "budget-conscious")
    ∷ ("balanced_value", "balanced value")
    ∷ ("premium_quality", "premium quality")
    ∷ ("luxury_experience", "luxury experience")
    ∷ []

pace_labels : List (String × String)
pace_labels =
    ("active_packed", "active")
    ∷ ("mixed_pace", "mixed")
    ∷ ("mixed", "mixed")
    ∷ ("restful", "restful")
    ∷ ("restful_relaxed", "restful")
    ∷ ("relaxed", "relaxed")
    ∷ []

food_labels : List (String × String)
food_labels =
    ("eating_out", "eating out") ∷ ("hotel_dining", "hotel dining") ∷ ("mix", "mixed") ∷ []

couple_labels : List (String × String)
couple_labels =
    ("romance", "romance")
    ∷ ("adventure", "adventure")
    ∷ ("decompression", "decompression")
    ∷ ("relaxation", "relaxation")
    ∷ []

destination_labels : List (String × String)
destination_labels =
    ("peaceful_isolation", "peaceful surroundings")
    ∷ ("peaceful_retreat", "peaceful surroundings")
    ∷ ("scenery", "scenery")
    ∷ ("outdoors", "outdoor activities")
    ∷ []

-- The parts of the summary after the first.
abbrev summary_parts : List (String × List String) → List String
summary_parts values =
    part "with " " preference" (display (get_list "price_value" values) price_labels)
    ++ part "" " travel pace" (display (get_list "travel_pace" values) pace_labels)
    ++ part "" " dining style" (display (get_list "food_preference" values) food_labels)
    ++ part "" " focus" (display (get_list "couple_style" values) couple_labels)
    ++ part "preference for " "" (
        display
          (get_list "destination_detail" values
            ++ get_list "rural_isolation" values
            ++ get_list "city_focus" values)
          destination_labels)

-- `_profile_summary`
unfoldable pub profile_summary : Context → List (String × List String) → String
unfolding display group_labels price_labels pace_labels food_labels couple_labels destination_labels
    text_take join_texts
profile_summary context values =
    let group = or_else (display (get_list "travel_group" values) group_labels) "Traveler" in
    let parts = summary_parts values in
    text_take 1000 (
      text_append group (
        text_append " trip to " (
          text_append (place_of context) (
            text_append (if is_empty parts then "" else " with ")
              (text_append (join_texts ", " parts) ".")))))
