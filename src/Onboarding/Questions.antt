-- ===== src/Onboarding/Questions.antt =====
-- `_location_question`, `_question_values`, `_answered_canonical_topics` and `_validate_question` of
-- services/onboarding.py.
use hotel_server_v.Base.{
  ℕ, String, Bool, true, false, ◌||◌, Option, none, some, List, [], ◌∷◌, ◌==◌, string_eq,
  if◌then◌else◌, any,
}
use hotel_server_v.Base.Text.{strip}
use hotel_server_v.Onboarding.Types.{AdaptiveQuestion, Question, free_text, standard}
use hotel_server_v.Onboarding.Branches.{Rendering, Row, fold_case}
use hotel_server_v.Onboarding.Readiness.{has_key}

-- The attributes of a provider object.
pub record Provider : Type 0 where
  pub provider_name : String
  pub model : String
  pub prompt_version : String

abbrev pub location_question : AdaptiveQuestion
location_question = record {
  prompt = "Where are you travelling to?";
  helper_text = some "Enter a city, region, or destination.";
  answer_type = free_text;
  options = [];
  scale_min = none;
  scale_max = none;
  scale_labels = [];
  required = true;
  question_kind = standard;
  question_key = "adaptive_location";
  semantic_dimensions = "location" ∷ [];
}

abbrev pub is_location_question : Question → Bool
is_location_question q = elim q.code [ none ↦ false | some c ↦ c == "adaptive_location" ]

abbrev name_of : Option String → Option Provider → String
name_of (some n) p = n
name_of none none = "adaptive"
name_of none (some p) = p.provider_name

abbrev model_of : Option String → Option Provider → Option String
model_of (some m) p = some m
model_of none none = none
model_of none (some p) = some p.model

abbrev version_of : Option Provider → Option String
version_of none = none
version_of (some p) = some p.prompt_version

-- `_question_values`, as the row that `add_session_question` builds of it.
unfoldable pub question_row :
    Option Provider → Option String → Option String → ℕ → ℕ → ℕ → AdaptiveQuestion → Question
question_row provider provider_name ai_model qid sid position q = record {
  id = qid;
  session_id = sid;
  position = position;
  prompt = q.prompt;
  helper_text = q.helper_text;
  answer_type = q.answer_type;
  options = q.options;
  scale_min = q.scale_min;
  scale_max = q.scale_max;
  scale_labels = q.scale_labels;
  is_required = q.required;
  question_kind = q.question_kind;
  semantic_dimensions = q.semantic_dimensions;
  provider = name_of provider_name provider;
  ai_model = model_of ai_model provider;
  prompt_version = version_of provider;
  question_key = some q.question_key;
  code = if q.question_key == "adaptive_location" then some "adaptive_location" else none;
}

-- `AdaptiveProviderError` and `DuplicateAdaptiveQuestionError` of `_validate_question`.
pub data Verdict : Type 0 where
  accepted rejected duplicate : Verdict

module _ (r : Rendering) where
  abbrev pub plain : String → String
  plain s = fold_case r (strip s)

  -- `question.question_key in _answered_canonical_topics(previous, answered_rows)`
  unfoldable pub is_answered_topic : String → List Row → Bool
  unfolding has_key
  is_answered_topic key rows = if key == "" then false else has_key r key rows

  unfoldable pub validate_question : AdaptiveQuestion → List Question → List Row → Verdict
  unfolding is_answered_topic
  validate_question q previous rows =
      if q.question_key == "adaptive_location" || plain q.prompt == "where are you travelling to?"
      then rejected
      else if any (λ p. plain p.prompt == plain q.prompt) previous
      then duplicate
      else if is_answered_topic q.question_key rows
      then duplicate
      else accepted
