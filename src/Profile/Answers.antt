-- ===== src/Profile/Answers.antt =====
-- `_answer_values`, `_dimensions_for`, `_canonical_question_key` and `_effects_for` of
-- services/adaptive_preferences.py.
use hotel_server_v.Base.{
  String, Bool, not, ◌&&◌, ◌||◌, Option, none, some, List, [], ◌∷◌, ◌++◌, map, keep, all, dedup,
  contains, is_empty, ◌==◌, string_eq, if◌then◌else◌,
}
use hotel_server_v.Base.Dict.{lookup}
use hotel_server_v.Base.Sort.{sort_by}
use hotel_server_v.Base.Text.{strip, is_blank, text_less}
use hotel_server_v.Onboarding.Types.{Value, null, Choice, one, many, Answer, Question}
use hotel_server_v.Onboarding.Keys.{is_canonical_key}
use hotel_server_v.Onboarding.Branches.{Rendering, str, normalize_branch}
use hotel_server_v.Profile.Effects.{
  Effects, dimension_effects_table, value_effects, canonical_dimensions, dimension_aliases,
}

abbrev list_or_empty : {A : Type 0} → Option (List A) → List A
list_or_empty none = []
list_or_empty (some xs) = xs

-- `d.get(key, ())`
abbrev pub get_list : {A : Type 0} → String → List (String × List A) → List A
get_list key d = list_or_empty (lookup key d)

-- A set of texts, in the order of `sorted`.
abbrev pub sorted_set : List String → List String
sorted_set xs = sort_by text_less (dedup xs)

-- `dimensions == {x}`
abbrev is_only : String → List String → Bool
is_only x xs = not (is_empty xs) && all (λ y. y == x) xs

module _ (r : Rendering) where
  -- `_normalize` is the normalization of branches.
  abbrev normalized_all : List Value → List String
  normalized_all [] = []
  normalized_all (null ∷ vs) = normalized_all vs
  normalized_all (v ∷ vs) =
      let rest = normalized_all vs in
      if is_blank (strip (str r v)) then rest else normalize_branch r (str r v) ∷ rest

  abbrev one_value : Option Value → List Value
  one_value none = []
  one_value (some v) = v ∷ []

  abbrev values_of : Option Choice → Option Value → List Value
  values_of none v = one_value v
  values_of (some (one null)) v = one_value v
  values_of (some (one x)) v = x ∷ []
  values_of (some (many xs)) v = xs

  unfoldable pub answer_values : Answer → List String
  unfolding normalize_branch strip
  answer_values answer = normalized_all (values_of answer.selected answer.value)

  abbrev alias : String → Option String
  alias item = elim (lookup item dimension_aliases) [
    | none ↦ if contains item canonical_dimensions then some item else none
    | some d ↦ some d
  ]

  abbrev aliased_all : List String → List String
  aliased_all [] = []
  aliased_all (x ∷ xs) = elim (alias x) [ none ↦ aliased_all xs | some d ↦ d ∷ aliased_all xs ]

  unfoldable pub dimensions_for : Question → List String
  unfolding dimension_aliases canonical_dimensions normalize_branch strip
  dimensions_for q = sorted_set (
      aliased_all
        (map (normalize_branch r) (keep (λ s. not (is_blank (strip s))) q.semantic_dimensions)))

  abbrev key_by_dimensions : List String → List String → Option String
  key_by_dimensions dimensions value =
      if is_only "price" dimensions
      then some "price_value"
      else (if is_only "activities" dimensions
          then some "travel_pace"
          else (if is_only "food" dimensions
              then some "food_preference"
              else (if is_only "location" dimensions && not (is_empty value)
                  then some "destination_detail"
                  else (if is_only "couple_style" dimensions && not (is_empty value)
                      then some "couple_style"
                      else (if is_only "family_needs" dimensions
                          then some "family_needs"
                          else (if is_only "friends_vibe" dimensions
                              then some "friends_vibe"
                              else none))))))

  abbrev raw_key : Option String → String
  raw_key none = ""
  raw_key (some k) = k

  -- `_canonical_question_key` of this module
  unfoldable pub profile_question_key : Question → Answer → Option String
  unfolding is_canonical_key dimensions_for answer_values
  profile_question_key q answer =
      let raw = raw_key q.question_key in
      if is_canonical_key raw
      then some raw
      else (if raw == "group_type" || raw == "travel_group"
          then some "travel_group"
          else (if raw == "destination_type"
              then some "destination_branch"
              else key_by_dimensions (dimensions_for q) (answer_values answer)))

  unfoldable pub effects_for : String → String → Effects
  unfolding value_effects normalize_branch
  effects_for key value =
      if key == "travel_group" || key == "destination_branch"
      then []
      else get_list (normalize_branch r value) (get_list key value_effects)

  unfoldable pub dimension_effects : List String → Effects
  unfolding dimension_effects_table
  dimension_effects [] = []
  dimension_effects (d ∷ ds) = get_list d dimension_effects_table ++ dimension_effects ds
