-- ===== src/Onboarding/Keys.antt =====
-- The canonical question keys (dto/onboarding.py:95-115) and the tables of services/onboarding.py.
use hotel_server_v.Base.{ℕ, String, Option, List, [], ◌∷◌, Bool, string_eq, contains}
use hotel_server_v.Base.Dict.{lookup}

abbrev pub canonical_adaptive_question_keys : List String
canonical_adaptive_question_keys =
    "adaptive_location" ∷ "travel_group" ∷ "price_value" ∷ "travel_pace" ∷ "food_preference"
    ∷ "destination_branch" ∷ "beach_activity" ∷ "beach_proximity" ∷ "mountain_outdoors"
    ∷ "mountain_scenery" ∷ "mountain_recovery" ∷ "city_focus" ∷ "city_location" ∷ "rural_isolation"
    ∷ "rural_stay_style" ∷ "destination_detail" ∷ "couple_style" ∷ "family_needs" ∷ "friends_vibe"
    ∷ []

abbrev pub min_questions : ℕ
min_questions = 5

abbrev pub max_questions : ℕ
max_questions = 8

abbrev pub max_clarification_questions : ℕ
max_clarification_questions = 1

pub destination_branch_by_key : List (String × String)
destination_branch_by_key =
    ("beach_activity", "beach_coast")
    ∷ ("beach_proximity", "beach_coast")
    ∷ ("mountain_outdoors", "mountains_hills")
    ∷ ("mountain_scenery", "mountains_hills")
    ∷ ("mountain_recovery", "mountains_hills")
    ∷ ("city_focus", "city_town")
    ∷ ("city_location", "city_town")
    ∷ ("rural_isolation", "countryside_rural")
    ∷ ("rural_stay_style", "countryside_rural")
    ∷ []

unfoldable pub destination_matching_keys : List String
destination_matching_keys =
    "destination_detail" ∷ "destination_preference" ∷ "destination_matching" ∷ "beach_activity"
    ∷ "beach_proximity" ∷ "mountain_outdoors" ∷ "mountain_scenery" ∷ "mountain_recovery"
    ∷ "city_focus" ∷ "city_location" ∷ "rural_isolation" ∷ "rural_stay_style" ∷ []

pub group_branch_keys : List String
group_branch_keys = "family_needs" ∷ "couple_style" ∷ "friends_vibe" ∷ []

pub couple_signal_values : List String
couple_signal_values = "romance" ∷ "adventure" ∷ "decompression" ∷ "relaxation" ∷ []

destination_aliases : List (String × String)
destination_aliases =
    ("beach", "beach_coast")
    ∷ ("coast", "beach_coast")
    ∷ ("beach_coast", "beach_coast")
    ∷ ("hills", "mountains_hills")
    ∷ ("mountains", "mountains_hills")
    ∷ ("mountains_hills", "mountains_hills")
    ∷ ("city", "city_town")
    ∷ ("town", "city_town")
    ∷ ("city_town", "city_town")
    ∷ ("rural", "countryside_rural")
    ∷ ("countryside", "countryside_rural")
    ∷ ("countryside_rural", "countryside_rural")
    ∷ []

unfoldable pub is_canonical_key : String → Bool
is_canonical_key key = contains key canonical_adaptive_question_keys

unfoldable pub branch_of_key : String → Option String
unfolding destination_branch_by_key
branch_of_key key = lookup key destination_branch_by_key

unfoldable pub is_matching_key : String → Bool
unfolding destination_matching_keys
is_matching_key key = contains key destination_matching_keys

unfoldable pub is_group_branch_key : String → Bool
unfolding group_branch_keys
is_group_branch_key key = contains key group_branch_keys

unfoldable pub is_couple_signal : String → Bool
unfolding couple_signal_values
is_couple_signal value = contains value couple_signal_values

unfoldable pub branch_alias : String → Option String
unfolding destination_aliases
branch_alias normalized = lookup normalized destination_aliases
