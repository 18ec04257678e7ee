-- ===== src/Profile/Effects.antt =====
-- The tables of services/adaptive_preferences.py. Points are in hundredths.
use hotel_server_v.Base.{ℕ, String, List, [], ◌∷◌}

abbrev pub Effects : Type 0
Effects = List (String × ℕ)

unfoldable pub supported_attribute_slugs : List String
supported_attribute_slugs =
    "bathroom" ∷ "beach-access" ∷ "bed-comfort" ∷ "breakfast" ∷ "city-center-access" ∷ "cleanliness"
    ∷ "gym" ∷ "nearby-restaurants" ∷ "nightlife" ∷ "parking" ∷ "pool" ∷ "public-transport"
    ∷ "quietness" ∷ "restaurant" ∷ "room-comfort" ∷ "room-condition" ∷ "room-service" ∷ "room-size"
    ∷ "room-view" ∷ "spa" ∷ "tourist-attractions" ∷ "wifi" ∷ []

unfoldable pub dimension_effects_table : List (String × Effects)
dimension_effects_table =
    (
      "location",
      ("city-center-access", 45) ∷ ("public-transport", 35) ∷ ("tourist-attractions", 45) ∷ [],
    )
    ∷ ("room_quality", ("room-comfort", 55) ∷ ("room-condition", 45) ∷ ("cleanliness", 35) ∷ [])
    ∷ ("food", ("restaurant", 50) ∷ ("breakfast", 35) ∷ ("nearby-restaurants", 45) ∷ [])
    ∷ ("amenities", ("spa", 40) ∷ ("pool", 35) ∷ ("wifi", 25) ∷ [])
    ∷ ("hospitality", ("room-service", 50) ∷ ("restaurant", 30) ∷ [])
    ∷ ("activities", ("tourist-attractions", 55) ∷ ("public-transport", 25) ∷ [])
    ∷ ("privacy", ("quietness", 65) ∷ [])
    ∷ ("social", ("nightlife", 60) ∷ ("nearby-restaurants", 35) ∷ [])
    ∷ []

price_value_effects : List (String × Effects)
price_value_effects =
    ("budget_conscious", [])
    ∷ ("best_value", ("room-comfort", 35) ∷ [])
    ∷ ("balanced_value", ("room-comfort", 55) ∷ ("room-condition", 35) ∷ [])
    ∷ ("premium_quality", ("room-comfort", 80) ∷ ("room-condition", 70) ∷ ("spa", 40) ∷ [])
    ∷ (
      "luxury_experience",
      ("room-comfort", 85) ∷ ("room-condition", 75) ∷ ("spa", 70) ∷ ("room-service", 55) ∷ [],
    )
    ∷ []

travel_pace_effects : List (String × Effects)
travel_pace_effects =
    (
      "active_packed",
      ("tourist-attractions", 90) ∷ ("city-center-access", 45) ∷ ("public-transport", 35) ∷ [],
    )
    ∷ (
      "mixed_pace",
      ("tourist-attractions", 50) ∷ ("city-center-access", 30) ∷ ("room-comfort", 30) ∷ [],
    )
    ∷ (
      "mixed",
      ("tourist-attractions", 50) ∷ ("city-center-access", 30) ∷ ("room-comfort", 30) ∷ [],
    )
    ∷ (
      "restful_relaxed",
      ("quietness", 90) ∷ ("room-comfort", 65) ∷ ("spa", 50) ∷ ("room-view", 35) ∷ [],
    )
    ∷ ("restful", ("quietness", 90) ∷ ("room-comfort", 65) ∷ ("spa", 50) ∷ ("room-view", 35) ∷ [])
    ∷ ("relaxed", ("quietness", 90) ∷ ("room-comfort", 65) ∷ ("spa", 50) ∷ ("room-view", 35) ∷ [])
    ∷ []

food_preference_effects : List (String × Effects)
food_preference_effects =
    ("eating_out", ("nearby-restaurants", 90) ∷ ("restaurant", 45) ∷ [])
    ∷ ("hotel_dining", ("restaurant", 85) ∷ ("room-service", 75) ∷ ("breakfast", 45) ∷ [])
    ∷ ("mix", ("nearby-restaurants", 60) ∷ ("restaurant", 60) ∷ ("breakfast", 45) ∷ [])
    ∷ []

travel_group_effects : List (String × Effects)
travel_group_effects = []

couple_style_effects : List (String × Effects)
couple_style_effects =
    ("romance", ("quietness", 80) ∷ ("spa", 65) ∷ ("room-service", 55) ∷ ("room-comfort", 55) ∷ [])
    ∷ (
      "adventure",
      ("tourist-attractions", 90) ∷ ("beach-access", 55) ∷ ("public-transport", 35) ∷ [],
    )
    ∷ (
      "decompression",
      ("quietness", 100) ∷ ("room-comfort", 80) ∷ ("spa", 65) ∷ ("room-service", 45) ∷ [],
    )
    ∷ (
      "relaxation",
      ("quietness", 100) ∷ ("room-comfort", 80) ∷ ("spa", 65) ∷ ("room-service", 45) ∷ [],
    )
    ∷ []

family_needs_effects : List (String × Effects)
family_needs_effects =
    ("kids", ("room-size", 80) ∷ ("pool", 60) ∷ ("parking", 35) ∷ ("bathroom", 30) ∷ [])
    ∷ (
      "family_friendly",
      ("room-size", 80) ∷ ("pool", 60) ∷ ("parking", 35) ∷ ("bathroom", 30) ∷ [],
    )
    ∷ ("convenience", ("room-size", 55) ∷ ("parking", 45) ∷ ("room-service", 35) ∷ [])
    ∷ []

friends_vibe_effects : List (String × Effects)
friends_vibe_effects =
    ("social", ("nightlife", 85) ∷ ("tourist-attractions", 65) ∷ ("city-center-access", 45) ∷ [])
    ∷ (
      "adventure",
      ("tourist-attractions", 85) ∷ ("public-transport", 40) ∷ ("beach-access", 35) ∷ [],
    )
    ∷ ("relaxed", ("quietness", 45) ∷ ("room-comfort", 45) ∷ ("room-size", 35) ∷ [])
    ∷ []

beach_activity_effects : List (String × Effects)
beach_activity_effects =
    ("water_sports", ("beach-access", 100) ∷ ("tourist-attractions", 50) ∷ [])
    ∷ ("swimming", ("beach-access", 90) ∷ [])
    ∷ ("relaxation", ("beach-access", 80) ∷ ("quietness", 45) ∷ [])
    ∷ []

beach_proximity_effects : List (String × Effects)
beach_proximity_effects = ("near_beach", ("beach-access", 100) ∷ []) ∷ []

mountain_outdoors_effects : List (String × Effects)
mountain_outdoors_effects =
    ("outdoors", ("tourist-attractions", 90) ∷ ("public-transport", 35) ∷ [])
    ∷ ("adventure", ("tourist-attractions", 90) ∷ ("public-transport", 35) ∷ [])
    ∷ []

mountain_scenery_effects : List (String × Effects)
mountain_scenery_effects =
    ("scenery", ("room-view", 90) ∷ ("quietness", 45) ∷ [])
    ∷ ("views", ("room-view", 90) ∷ ("quietness", 45) ∷ [])
    ∷ []

mountain_recovery_effects : List (String × Effects)
mountain_recovery_effects =
    ("recovery", ("quietness", 90) ∷ ("spa", 60) ∷ ("room-comfort", 50) ∷ [])
    ∷ ("rest", ("quietness", 90) ∷ ("spa", 60) ∷ ("room-comfort", 50) ∷ [])
    ∷ []

city_focus_effects : List (String × Effects)
city_focus_effects =
    ("culture", ("tourist-attractions", 80) ∷ ("city-center-access", 55) ∷ [])
    ∷ ("food", ("nearby-restaurants", 75) ∷ ("restaurant", 55) ∷ [])
    ∷ ("nightlife", ("nightlife", 85) ∷ ("city-center-access", 55) ∷ [])
    ∷ ("peaceful_retreat", ("quietness", 90) ∷ ("room-view", 45) ∷ [])
    ∷ []

city_location_effects : List (String × Effects)
city_location_effects =
    ("central", ("city-center-access", 90) ∷ ("public-transport", 65) ∷ [])
    ∷ ("convenient", ("city-center-access", 80) ∷ ("public-transport", 60) ∷ [])
    ∷ ("peaceful", ("quietness", 80) ∷ ("room-view", 35) ∷ [])
    ∷ []

rural_isolation_effects : List (String × Effects)
rural_isolation_effects =
    ("peaceful_isolation", ("quietness", 100) ∷ ("room-view", 60) ∷ ("room-comfort", 40) ∷ [])
    ∷ ("isolation", ("quietness", 100) ∷ ("room-view", 60) ∷ ("room-comfort", 40) ∷ [])
    ∷ ("peaceful_retreat", ("quietness", 100) ∷ ("room-view", 60) ∷ ("room-comfort", 40) ∷ [])
    ∷ []

rural_stay_style_effects : List (String × Effects)
rural_stay_style_effects =
    ("nature", ("quietness", 70) ∷ ("room-view", 55) ∷ [])
    ∷ ("cozy", ("quietness", 65) ∷ ("room-comfort", 60) ∷ [])
    ∷ ("resort", ("quietness", 55) ∷ ("spa", 55) ∷ ("room-comfort", 50) ∷ [])
    ∷ []

destination_detail_effects : List (String × Effects)
destination_detail_effects =
    ("peaceful_isolation", ("quietness", 100) ∷ ("room-view", 60) ∷ ("room-comfort", 45) ∷ [])
    ∷ ("peaceful_retreat", ("quietness", 100) ∷ ("room-view", 60) ∷ ("room-comfort", 45) ∷ [])
    ∷ ("scenery", ("room-view", 90) ∷ ("quietness", 40) ∷ [])
    ∷ ("outdoors", ("tourist-attractions", 90) ∷ ("public-transport", 35) ∷ [])
    ∷ ("culture", ("tourist-attractions", 75) ∷ ("city-center-access", 40) ∷ [])
    ∷ ("food", ("nearby-restaurants", 75) ∷ ("restaurant", 50) ∷ [])
    ∷ ("nightlife", ("nightlife", 80) ∷ ("city-center-access", 45) ∷ [])
    ∷ []

unfoldable pub value_effects : List (String × List (String × Effects))
unfolding price_value_effects travel_pace_effects food_preference_effects travel_group_effects
    couple_style_effects family_needs_effects friends_vibe_effects beach_activity_effects
    beach_proximity_effects mountain_outdoors_effects mountain_scenery_effects
    mountain_recovery_effects city_focus_effects city_location_effects rural_isolation_effects
    rural_stay_style_effects destination_detail_effects
value_effects =
    ("price_value", price_value_effects)
    ∷ ("travel_pace", travel_pace_effects)
    ∷ ("food_preference", food_preference_effects)
    ∷ ("travel_group", travel_group_effects)
    ∷ ("couple_style", couple_style_effects)
    ∷ ("family_needs", family_needs_effects)
    ∷ ("friends_vibe", friends_vibe_effects)
    ∷ ("beach_activity", beach_activity_effects)
    ∷ ("beach_proximity", beach_proximity_effects)
    ∷ ("mountain_outdoors", mountain_outdoors_effects)
    ∷ ("mountain_scenery", mountain_scenery_effects)
    ∷ ("mountain_recovery", mountain_recovery_effects)
    ∷ ("city_focus", city_focus_effects)
    ∷ ("city_location", city_location_effects)
    ∷ ("rural_isolation", rural_isolation_effects)
    ∷ ("rural_stay_style", rural_stay_style_effects)
    ∷ ("destination_detail", destination_detail_effects)
    ∷ []

unfoldable pub group_effects : List (String × Effects)
group_effects =
    ("family", ("room-size", 80) ∷ ("pool", 60) ∷ ("parking", 35) ∷ ("bathroom", 30) ∷ [])
    ∷ (
      "family_with_kids",
      ("room-size", 80) ∷ ("pool", 60) ∷ ("parking", 35) ∷ ("bathroom", 30) ∷ [],
    )
    ∷ ("friends", ("nightlife", 85) ∷ ("tourist-attractions", 65) ∷ ("city-center-access", 45) ∷ [])
    ∷ (
      "couple",
      ("quietness", 100) ∷ ("room-comfort", 80) ∷ ("spa", 65) ∷ ("room-service", 45) ∷ [],
    )
    ∷ []

unfoldable pub canonical_dimensions : List String
canonical_dimensions =
    "activities" ∷ "family_needs" ∷ "food" ∷ "friends_vibe" ∷ "hospitality" ∷ "kids" ∷ "location"
    ∷ "price" ∷ "privacy" ∷ "room_quality" ∷ "social" ∷ []

unfoldable pub key_dimensions : List (String × List String)
key_dimensions =
    ("price_value", "price" ∷ [])
    ∷ ("travel_pace", "activities" ∷ [])
    ∷ ("food_preference", "food" ∷ [])
    ∷ ("couple_style", "privacy" ∷ "hospitality" ∷ [])
    ∷ ("family_needs", "kids" ∷ "room_quality" ∷ [])
    ∷ ("friends_vibe", "social" ∷ "activities" ∷ [])
    ∷ ("beach_activity", "location" ∷ "activities" ∷ [])
    ∷ ("beach_proximity", "location" ∷ [])
    ∷ ("mountain_outdoors", "location" ∷ "activities" ∷ [])
    ∷ ("mountain_scenery", "location" ∷ [])
    ∷ ("mountain_recovery", "location" ∷ "privacy" ∷ [])
    ∷ ("city_focus", "location" ∷ [])
    ∷ ("city_location", "location" ∷ [])
    ∷ ("rural_isolation", "location" ∷ "privacy" ∷ [])
    ∷ ("rural_stay_style", "location" ∷ "privacy" ∷ [])
    ∷ ("destination_detail", "location" ∷ [])
    ∷ []

unfoldable pub dimension_aliases : List (String × String)
dimension_aliases =
    ("budget_sensitivity", "price")
    ∷ ("value_expectation", "price")
    ∷ ("travel_pace", "activities")
    ∷ ("activity_level", "activities")
    ∷ ("dining_preference", "food")
    ∷ ("urban_location", "location")
    ∷ ("room", "room_quality")
    ∷ []
