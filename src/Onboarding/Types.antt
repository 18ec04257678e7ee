-- ===== src/Onboarding/Types.antt =====
-- The rows and JSON values of the questionnaire (models/account.py, dto/onboarding.py). Identifiers
-- and times are only compared, so they are numbers.
use hotel_server_v.Base.{ℕ, String, Bool, Option, List}
use hotel_server_v.Base.Rational.{Rational}

-- A JSON value inside an answer; a list or object that the code never looks into is its text.
pub data Value : Type 0 where
  null : Value
  text : String → Value
  num : Rational → Value
  flag : Bool → Value
  other : String → Value

-- The key `selected` of an answer: one value, or a list of them.
pub data Choice : Type 0 where
  one : Value → Choice
  many : List Value → Choice

-- An answer object: the two keys that the code reads, and the text of the rest, which it compares.
pub record Answer : Type 0 where
  pub selected : Option Choice
  pub value : Option Value
  pub rest : String

pub data AnswerType : Type 0 where
  single_choice multi_choice scale free_text : AnswerType
  unsupported : String → AnswerType

pub data QuestionKind : Type 0 where
  standard clarification : QuestionKind

pub record ChoiceOption : Type 0 where
  pub value : String
  pub label : String
  pub description : Option String

-- `AdaptiveQuestion`: what the provider proposes.
pub record AdaptiveQuestion : Type 0 where
  pub prompt : String
  pub helper_text : Option String
  pub answer_type : AnswerType
  pub options : List ChoiceOption
  pub scale_min : Option Rational
  pub scale_max : Option Rational
  pub scale_labels : List String
  pub required : Bool
  pub question_kind : QuestionKind
  pub question_key : String
  pub semantic_dimensions : List String

-- `OnboardingSessionQuestion`; `question_key` and `code` are the keys of `generation_metadata`.
pub record Question : Type 0 where
  pub id : ℕ
  pub session_id : ℕ
  pub position : ℕ
  pub prompt : String
  pub helper_text : Option String
  pub answer_type : AnswerType
  pub options : List ChoiceOption
  pub scale_min : Option Rational
  pub scale_max : Option Rational
  pub scale_labels : List String
  pub is_required : Bool
  pub question_kind : QuestionKind
  pub semantic_dimensions : List String
  pub provider : String
  pub ai_model : Option String
  pub prompt_version : Option String
  pub question_key : Option String
  pub code : Option String

-- One element of `interpreted_preferences`, or of `inferred_signals`. A confidence that `float`
-- refuses is `none`.
pub record Signal : Type 0 where
  pub routing_key : String
  pub value : String
  pub confidence : Option Rational

-- `OnboardingAnswer` of a generated question.
pub record AnswerRow : Type 0 where
  pub session_id : ℕ
  pub question_id : ℕ
  pub answer : Answer
  pub interpreted : List Signal

pub data Status : Type 0 where
  in_progress ready_to_complete completed skipped restart_required : Status

pub data Generation : Type 0 where
  idle generating failed profile_generating : Generation

pub data Mode : Type 0 where
  static adaptive : Mode

-- `location_context`, with the keys that `LocationRepository.resolve_text` may fill.
pub record Location : Type 0 where
  pub raw_input : String
  pub normalized_location_text : String
  pub country_id : Option ℕ
  pub region_id : Option ℕ
  pub city_id : Option ℕ
  pub display_name : Option String
  pub resolved : Bool
  pub resolution_confidence : Rational

-- The keys of `profile_payload` that the service reads back; `profile` is the generated profile.
pub record Payload (Profile : Type 0) : Type 0 where
  pub routing_state : Option (List (String × Signal))
  pub location_context : Option Location
  pub profile : Option Profile
  pub resolved_preference_count : ℕ
  pub unresolved_attributes : List String

pub record Session (Profile : Type 0) : Type 0 where
  pub id : ℕ
  pub user_id : ℕ
  pub created_at : ℕ
  pub status : Status
  pub mode : Mode
  pub generation_state : Generation
  pub completion_reason : Option String
  pub completed_at : Option ℕ
  pub ai_model : Option String
  pub prompt_version : Option String
  pub profile_summary : Option String
  pub profile_payload : Payload Profile
