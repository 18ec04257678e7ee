-- ===== src/Onboarding/Service/Submit.antt =====
-- `submit_answers` and the first half of `_submit_adaptive` of services/onboarding.py: everything up
-- to the commit that hands the session to the provider. Onboarding/Service/Ask.antt is the rest.
pub mod Begins
use hotel_server_v.Base.{
  ℕ, String, Bool, true, false, not, ◌&&◌, ◌||◌, Option, none, some, List, [], ◌∷◌, ◌==◌, nat_eq,
  string_eq, find, if◌then◌else◌,
}
use hotel_server_v.Base.Exec.{
  Exec, pure, raise, raise_if, or_raise, lift, modify, gets, commit, ◌>>=◌, ◌>>◌,
}
use hotel_server_v.Base.Rational.{of_ℕ, rat_eq}
use hotel_server_v.Base.Text.{collapse}
use hotel_server_v.Errors.{import_validation, dependency_unavailable}
use hotel_server_v.Onboarding.Types.{
  Value, null, text, num, flag, other, Choice, one, many, Answer, AnswerRow, Question, Session,
  Status, in_progress, ready_to_complete, completed, skipped, restart_required, Generation,
  generating, failed, Location, Payload,
}
use hotel_server_v.Onboarding.Branches.{Rendering, fold_case, str}
use hotel_server_v.Onboarding.Answers.{validate_answer}
use hotel_server_v.Onboarding.Questions.{is_location_question}
use hotel_server_v.Onboarding.Store.{
  Db, session_question, answers_of, delete_questions_after, upsert_answer, upsert_row, put_session,
}
use hotel_server_v.Onboarding.Service.{
  Env, SessionRead, owned, session_read, save, require_adaptive_session, require_claude,
}
use hotel_server_v.Onboarding.Service.Start.{is_generating}

-- `OnboardingAnswerWrite`
pub record Item : Type 0 where
  pub question_id : ℕ
  pub answer : Answer

abbrev as_number : Bool → ℕ
as_number b = if b then 1 else 0

-- `==` of two JSON values; Python's `True` is equal to 1.
unfoldable pub value_eq : Value → Value → Bool
value_eq null null = true
value_eq (text s) (text t) = s == t
value_eq (num p) (num q) = rat_eq p q
value_eq (flag a) (flag b) = as_number a == as_number b
value_eq (flag a) (num q) = rat_eq (of_ℕ (as_number a)) q
value_eq (num p) (flag b) = rat_eq p (of_ℕ (as_number b))
value_eq (other s) (other t) = s == t
value_eq _ _ = false

unfoldable pub values_eq : List Value → List Value → Bool
unfolding value_eq
values_eq [] [] = true
values_eq (v ∷ vs) (w ∷ ws) = value_eq v w && values_eq vs ws
values_eq _ _ = false

abbrev choice_eq : Option Choice → Option Choice → Bool
choice_eq none none = true
choice_eq (some (one v)) (some (one w)) = value_eq v w
choice_eq (some (many vs)) (some (many ws)) = values_eq vs ws
choice_eq _ _ = false

abbrev option_eq : Option Value → Option Value → Bool
option_eq none none = true
option_eq (some v) (some w) = value_eq v w
option_eq _ _ = false

unfoldable pub answer_eq : Answer → Answer → Bool
unfolding values_eq
answer_eq a b = choice_eq a.selected b.selected && option_eq a.value b.value && a.rest == b.rest

abbrev pub is_failed : Generation → Bool
is_failed failed = true
is_failed _ = false

-- The first of the four states that takes no answer.
abbrev pub closed : Status → Generation → Option Bool
closed skipped g = some true
closed completed g = some true
closed ready_to_complete g = some true
closed _ generating = some false
closed _ _ = none

abbrev pub raise_closed : {Profile : Type 0} → Session Profile → Exec (Db Profile) Unit
raise_closed s = elim s.status [
  | skipped ↦ raise (import_validation "Skipped onboarding sessions cannot accept answers")
  | completed ↦ raise (import_validation "Completed onboarding sessions are immutable")
  | ready_to_complete ↦ raise (import_validation "Onboarding is ready to complete")
  | _ ↦
      raise_if (is_generating s.generation_state)
        (dependency_unavailable "Adaptive question generation is already in progress")
]

-- What the first half does: it returns early, or leaves the session to the provider.
pub data Begun (Profile : Type 0) : Type 0 where
  replayed : SessionRead → Begun Profile
  begun : Session Profile → Begun Profile

abbrev pub same_answer : Option AnswerRow → Answer → Bool
same_answer none answer = false
same_answer (some row) answer = answer_eq row.answer answer

abbrev pub is_edit : Option AnswerRow → Answer → Bool
is_edit none answer = false
is_edit (some row) answer = not (answer_eq row.answer answer)

-- `payload.pop("routing_state", None)`
abbrev pub forget_routing : {Profile : Type 0} → Session Profile → Session Profile
forget_routing s = record s { profile_payload = record s.profile_payload { routing_state = none } }

module _ (env : Env) where
  open env use {Profile, rendering, resolve_text}

  abbrev pub location_text : Answer → String
  location_text answer = elim answer.value [ none ↦ "None" | some v ↦ str rendering v ]

  unresolved : String → Location
  unresolved raw = record {
    raw_input = raw;
    normalized_location_text = fold_case rendering (collapse raw);
    country_id = none;
    region_id = none;
    city_id = none;
    display_name = none;
    resolved = false;
    resolution_confidence = of_ℕ 0;
  }

  -- The columns that a resolution replaces.
  abbrev resolved_as : Location → Option Location → Location
  resolved_as base none = base
  resolved_as base (some l) = record l {
    raw_input = base.raw_input;
    normalized_location_text = base.normalized_location_text;
  }

  -- `_persist_location_context`
  unfoldable pub with_location : Session Profile → String → Session Profile
  unfolding unresolved
  with_location s raw = record s {
    profile_payload = record s.profile_payload {
      location_context = some (resolved_as (unresolved raw) (resolve_text raw));
    };
  }

  abbrev pub edited : Bool → Question → Session Profile → Exec (Db Profile) (Session Profile)
  edited false q s = pure s
  edited true q s = do modify (delete_questions_after s.id q.position); pure (forget_routing s)

  abbrev pub located : Question → Answer → Session Profile → Session Profile
  located q answer s = if is_location_question q then with_location s (location_text answer) else s

  unfoldable pub store_answer :
      Question → Answer → Option AnswerRow → Session Profile → Exec (Db Profile) (Begun Profile)
  unfolding delete_questions_after upsert_row put_session
  store_answer q answer existing session = do
    session' ← edited (is_edit existing answer) q session
    modify (upsert_answer session.id q.id answer)
    let handed : Session Profile = record (located q answer session') {
      generation_state = generating;
    }
    save handed
    commit
    pure (begun handed)

  abbrev pub take_answer : Session Profile → Question → Answer → Exec (Db Profile) (Begun Profile)
  take_answer session q answer = do
    lift (validate_answer q answer)
    existing ← gets (λ d. find (λ a. a.question_id == q.id) (answers_of session.id d))
    if same_answer existing answer && not (is_failed session.generation_state)
        then gets (λ d. replayed (session_read session d))
        else store_answer q answer existing session

  abbrev pub take_item : ℕ → ℕ → List Item → Exec (Db Profile) (Begun Profile)
  take_item user sid (item ∷ []) = do
    session ← owned user sid
    raise_closed session
    found ← gets (session_question session.id item.question_id)
    q ← or_raise found (import_validation "Generated question does not belong to this session")
    take_answer session q item.answer
  take_item user sid _ =
      raise (import_validation "Adaptive onboarding accepts one answer at a time")

  unfoldable pub submit_begin : ℕ → ℕ → List Item → Exec (Db Profile) (Begun Profile)
  unfolding owned store_answer
  submit_begin user sid items = do
    session ← owned user sid
    require_adaptive_session session
    require_claude env
    take_item user sid items
