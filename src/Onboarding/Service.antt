-- ===== src/Onboarding/Service.antt =====
-- services/onboarding.py: what every method of `OnboardingService` shares. The methods are in the
-- modules below. A method re-reads its session row where the code selects it `for_update` with
-- `populate_existing`; the sessions are built with `autoflush=False` (database.py), so an attribute
-- that was set and not yet committed is lost there, and is not carried over here either.
pub mod Start
pub mod Submit
pub mod Ask
pub mod Skip
pub mod Complete
use hotel_server_v.Base.{
  ℕ, String, Bool, true, false, not, ◌&&◌, ◌||◌, Option, none, some, List, [], ◌∷◌, ◌==◌, nat_eq,
  string_eq, if◌then◌else◌, find, any, get_last?,
}
use hotel_server_v.Base.Exec.{
  Exec, Tx, Result, ok, err, pure, raise, raise_if, or_raise, modify, gets, commit, ◌>>=◌, ◌>>◌,
}
use hotel_server_v.Errors.{
  Error, onboarding_session_not_found, dependency_unavailable, import_validation,
}
use hotel_server_v.Base.Rational.{Rational}
use hotel_server_v.Preferences.Store.{Numeric}
use hotel_server_v.Onboarding.Types.{
  Session, Question, AnswerRow, Answer, Status, skipped, Generation, Mode, static, adaptive,
  Location, Signal, AdaptiveQuestion,
}
use hotel_server_v.Onboarding.Branches.{Rendering, Row}
use hotel_server_v.Onboarding.Questions.{Provider}
use hotel_server_v.Onboarding.Store.{
  Db, get_session, put_session, session_questions, answers_of, counts,
}

-- `NextQuestionDecision`
pub record Decision : Type 0 where
  pub questionnaire_complete : Bool
  pub completion_reason : Option String
  pub inferred_signals : List Signal
  pub question : Option AdaptiveQuestion

-- How a call of the provider ends: a decision, an `AdaptiveProviderError` with its public message, or
-- another exception.
pub data Reply : Type 0 where
  decided : Decision → Reply
  provider_error : String → Reply
  crashed : Reply

-- One preference of a generated profile.
pub record ProfilePreference : Type 0 where
  pub attribute_slug : String
  pub importance_weight : Rational
  pub preferred_value : Option String

-- What the service calls: the renderer, the provider, the location resolver, the taxonomy and the
-- profile builder. `reply n` and `meanwhile n` are the answer to the n-th provider call of a request
-- and what the other requests have committed by the time it comes.
pub record Env : Type 1 where
  pub Profile : Type 0
  pub rendering : Rendering
  pub provider : Option Provider
  pub reply : ℕ → Reply
  pub meanwhile : ℕ → Db Profile → Db Profile
  pub resolve_text : String → Option Location
  pub resolve_attribute : String → Option ℕ
  -- `none` where the construction raises
  pub build_profile : List Row → Option Location → Option (List (String × Signal)) → Option Profile
  pub preferences_of : Profile → List ProfilePreference
  pub unresolved_of : Profile → List String
  pub summary_of : Profile → String
  pub numeric : Numeric

-- The clock and the fresh identifiers of a request.
pub record Draw : Type 0 where
  pub now : ℕ
  pub session_id : ℕ
  pub question_id : ℕ

pub record SessionRead : Type 0 where
  pub id : ℕ
  pub status : Status
  pub answered_count : ℕ
  pub question_count : ℕ
  pub mode : Mode
  pub generation_state : Generation
  pub completion_reason : Option String
  pub current_question : Option (Question × Option Answer)

abbrev pub is_adaptive : Mode → Bool
is_adaptive adaptive = true
is_adaptive static = false

abbrev answered_by : List AnswerRow → Question → Bool
answered_by rows q = any (λ a. a.question_id == q.id) rows

abbrev first_or : Option Question → Option Question → Option Question
first_or none o = o
first_or (some q) o = some q

abbrev answer_of : List AnswerRow → Question → Option Answer
answer_of rows q = elim (find (λ a. a.question_id == q.id) rows) [
  | none ↦ none
  | some a ↦ some a.answer
]

-- The first generated question without an answer, or else the last one.
abbrev current : List Question → List AnswerRow → Option (Question × Option Answer)
current generated rows =
    elim (first_or (find (λ q. not (answered_by rows q)) generated) (get_last? generated)) [
      | none ↦ none
      | some q ↦ some (q, answer_of rows q)
    ]

module _ {Profile : Type 0} where
  -- `_owned`
  unfoldable pub owned : ℕ → ℕ → Exec (Db Profile) (Session Profile)
  owned user sid = do
    found ← gets (λ d. find (λ s. s.id == sid && s.user_id == user) d.sessions)
    or_raise found onboarding_session_not_found

  -- `_session_read`
  unfoldable pub session_read : Session Profile → Db Profile → SessionRead
  unfolding counts session_questions answers_of
  session_read s d = record {
    id = s.id;
    status = s.status;
    answered_count = (counts s.id d).0;
    question_count = (counts s.id d).1;
    mode = s.mode;
    generation_state = s.generation_state;
    completion_reason = s.completion_reason;
    current_question =
        if is_adaptive s.mode then current (session_questions s.id d) (answers_of s.id d) else none;
  }

  -- Attributes set on the locked row, as the next commit writes them.
  abbrev pub save : Session Profile → Exec (Db Profile) Unit
  save s = modify (λ d. record d { sessions = put_session s d.sessions })

  abbrev pub require_adaptive_session : Session Profile → Exec (Db Profile) Unit
  require_adaptive_session s =
      raise_if (not (is_adaptive s.mode))
        (import_validation "This legacy STATIC onboarding session must be restarted")

  -- `_mark_generation_failed`
  abbrev failed_unless_skipped : Session Profile → Session Profile
  failed_unless_skipped s = elim s.status [
    | skipped ↦ s
    | _ ↦ record s { generation_state = Generation.failed }
  ]

  abbrev mark_found : ℕ → Option (Session Profile) → Exec (Db Profile) Unit
  mark_found sid none = pure tt
  mark_found sid (some s) = do
    locked ← owned s.user_id sid
    save (failed_unless_skipped locked)
    commit

  unfoldable pub mark_generation_failed : ℕ → Exec (Db Profile) Unit
  unfolding owned get_session put_session
  mark_generation_failed sid = do
    found ← gets (λ d. get_session sid d.sessions)
    mark_found sid found

abbrev pub is_anthropic : Option Provider → Bool
is_anthropic none = false
is_anthropic (some p) = p.provider_name == "anthropic"

-- `_require_claude`
abbrev pub require_claude : (env : Env) → Exec (Db env.Profile) Unit
require_claude env =
    raise_if (not (is_anthropic env.provider))
      (dependency_unavailable "Claude is required for adaptive onboarding question generation")
