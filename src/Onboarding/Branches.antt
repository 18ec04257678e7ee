-- ===== src/Onboarding/Branches.antt =====
-- `_canonical_question_key`, `_branch_state` and the helpers of services/onboarding.py that read the
-- answered questions.
use hotel_server_v.Base.{
  String, Bool, true, false, not, ◌&&◌, Option, none, some, List, [], ◌∷◌, ◌==◌, string_eq,
  if◌then◌else◌, contains, all, is_some, is_empty, keep, map, dedup, head?,
}
use hotel_server_v.Base.Rational.{Rational}
use hotel_server_v.Base.Text.{Unicode, strip, casefold, replace}
use hotel_server_v.Onboarding.Types.{
  Value, null, text, num, flag, other, Choice, one, many, Answer, Question, AnswerRow,
}
use hotel_server_v.Onboarding.Keys.{
  is_canonical_key, branch_of_key, is_matching_key, is_couple_signal, branch_alias,
}

-- Unicode's tables, and `str` of a number.
pub record Rendering : Type 0 where
  pub unicode : Unicode
  pub show_num : Rational → String

-- An answered question, as `adaptive_answer_rows` pairs them.
abbrev pub Row : Type 0
Row = Question × AnswerRow

module _ (r : Rendering) where
  abbrev pub str : Value → String
  str null = "None"
  str (text s) = s
  str (num q) = r.show_num q
  str (flag true) = "True"
  str (flag false) = "False"
  str (other s) = s

  abbrev pub fold_case : String → String
  fold_case s = casefold r.unicode s

  -- `value.casefold().replace(" ", "_")`
  unfoldable pub normalize_group : String → String
  normalize_group value = replace 32 "_" (fold_case value)

  -- `value.strip().casefold().replace("-", "_").replace(" ", "_")`
  unfoldable pub normalize_branch : String → String
  normalize_branch value = replace 32 "_" (replace 45 "_" (fold_case (strip value)))

  -- A value that is not `None`.
  abbrev present : Option Value → Option Value
  present none = none
  present (some null) = none
  present (some v) = some v

  abbrev selected_value : Option Choice → Option Value
  selected_value none = none
  selected_value (some (one v)) = present (some v)
  selected_value (some (many vs)) = present (head? vs)

  abbrev or_value : Option Value → Option Value → Option String
  or_value (some v) w = some (str v)
  or_value none none = none
  or_value none (some w) = some (str w)

  -- `_answer_value`
  unfoldable pub answer_value : Answer → Option String
  answer_value answer = or_value (selected_value answer.selected) (present answer.value)

  -- `_canonical_destination_branch`
  unfoldable pub canonical_destination_branch : Option String → Option String
  unfolding branch_alias normalize_branch
  canonical_destination_branch none = none
  canonical_destination_branch (some value) = branch_alias (normalize_branch value)

  abbrev group_key_of : String → Option String
  group_key_of normalized =
      if normalized == "couple"
      then some "couple_style"
      else if contains normalized
          ("family" ∷ "family_with_kids" ∷ "family_with_children" ∷ "family_kids" ∷ [])
      then some "family_needs"
      else if contains normalized ("friends" ∷ "friends_group" ∷ [])
      then some "friends_vibe"
      else if contains normalized ("solo" ∷ "solo_traveller" ∷ "solo_traveler" ∷ [])
      then none
      else some "group_type_unknown"

  -- `_group_branch_key`
  unfoldable pub group_branch_key : Option String → Option String
  unfolding normalize_group
  group_branch_key none = group_key_of (normalize_group "")
  group_branch_key (some t) = group_key_of (normalize_group t)

  -- The set `{str(item).strip().casefold() for item in ... if str(item).strip()}`, once each.
  abbrev dimensions_of : List String → List String
  dimensions_of ds = dedup (map (λ d. fold_case (strip d)) (keep (λ d. not (strip d == "")) ds))

  abbrev within : List String → List String → Bool
  within xs ys = all (λ x. contains x ys) xs

  -- `xs == {y}` for a set
  abbrev is_just : String → List String → Bool
  is_just y (x ∷ []) = x == y
  is_just y _ = false

  -- `if value and ...`
  abbrev truthy : Option String → Bool
  truthy none = false
  truthy (some v) = not (v == "")

  abbrev or_empty : Option String → String
  or_empty none = ""
  or_empty (some v) = v

  abbrev only : List String → Option String
  only (x ∷ []) = some x
  only _ = none

  abbrev known_group : Option String → Bool
  known_group k = elim k [ none ↦ true | some g ↦ not (g == "group_type_unknown") ]

  abbrev last_rule : Option String → Option String
  last_rule none = none
  last_rule (some d) =
      if is_matching_key d then some d else if is_some (branch_of_key d) then some d else none

  -- The compatibility rules for older questions, in the order of the code.
  unfoldable pub key_of_dimensions : List String → Option String → Option String
  unfolding group_branch_key is_couple_signal is_matching_key branch_of_key
  key_of_dimensions dimensions value =
      if is_just "couple_style" dimensions
        && truthy value
        && is_couple_signal (normalize_group (or_empty value))
      then some "couple_style"
      else if not (is_empty dimensions)
          && within dimensions ("group_type" ∷ "travel_group" ∷ "travel_context" ∷ [])
          && truthy value
          && known_group (group_branch_key value)
      then some "travel_group"
      else if is_just "travel_group" dimensions
      then some "travel_group"
      else if not (is_empty dimensions)
          && within dimensions
              ("price" ∷ "price_value" ∷ "budget_sensitivity" ∷ "value_expectation" ∷ [])
      then some "price_value"
      else if not (is_empty dimensions)
          && within dimensions ("activities" ∷ "travel_pace" ∷ "activity_level" ∷ [])
      then some "travel_pace"
      else if not (is_empty dimensions)
          && within dimensions ("food" ∷ "food_preference" ∷ "dining_preference" ∷ [])
      then some "food_preference"
      else if is_just "price" dimensions
      then some "price_value"
      else if is_just "activities" dimensions
      then some "travel_pace"
      else if is_just "food" dimensions
      then some "food_preference"
      else if is_just "urban_location" dimensions
      then some "city_location"
      else last_rule (only dimensions)

  -- `_canonical_question_key`
  unfoldable pub canonical_question_key : Question → Answer → Option String
  unfolding is_canonical_key key_of_dimensions answer_value
  canonical_question_key question answer =
      let raw_key = or_empty question.question_key in
      if is_canonical_key raw_key
      then some raw_key
      else if contains raw_key ("group_type" ∷ "travel_group" ∷ [])
      then some "travel_group"
      else if raw_key == "destination_type"
      then some "destination_branch"
      else key_of_dimensions (dimensions_of question.semantic_dimensions) (answer_value answer)
