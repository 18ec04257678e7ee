-- ===== src/Onboarding/Tests.antt =====
-- Runs of services/onboarding.py on a small store, with a provider that always answers the same.
use hotel_server_v.Base.{
  ℕ, nat_eq, String, ◌≡◌, refl, ◌↔◌, true, false, none, some, List, [], ◌∷◌, find, ◌==◌, ◌&&◌,
}
use hotel_server_v.Base.Rational.{of_ℕ}
use hotel_server_v.Base.Text.{replace, casefold, strip}
use hotel_server_v.Base.Dict.{lookup}
use hotel_server_v.Base.Exec.{Tx, ok, is_ok, request}
use hotel_server_v.Auth.Store.{User, UserStatus, UserRole}
use hotel_server_v.Onboarding.Types.{
  Session, Question, Answer, AnswerRow, AnswerType, QuestionKind, Status, Generation, Mode, Payload,
  Value,
}
use hotel_server_v.Onboarding.Branches.{Rendering, Row, canonical_question_key}
use hotel_server_v.Onboarding.Store.{
  active_session, Db, get_session, adaptive_answer_rows, session_question, answers_of, counts,
}
use hotel_server_v.Auth.Store.{get_by_id}
use hotel_server_v.Onboarding.Service.{Env, Draw, Reply, Decision, SessionRead, owned}
use hotel_server_v.Onboarding.Answers.{validate_answer, validate_answer_iff, Fits}
use hotel_server_v.Onboarding.Readiness.{
  completion_readiness, has_key, location_answered, with_inferred, branch_state,
}
use hotel_server_v.Onboarding.Readiness.Laws.{IsComplete, ready_iff, ready-core_answers}
use hotel_server_v.Onboarding.Service.Submit.{Item, submit_begin, answer_eq}
use hotel_server_v.Onboarding.Service.Submit.Begins.{Taken, submit_begin-keeps, submit_begin-Taken}
use hotel_server_v.Onboarding.Service.Ask.{Asked, ask_provider, submit_answers}
use hotel_server_v.Onboarding.Service.Ask.Skipped.{ask_provider-keeps_skip}
use hotel_server_v.Onboarding.Service.Ask.Payload.{stored_payload, ask_provider-keeps_payload}
use hotel_server_v.Onboarding.Service.Skip.{skip, status, StatusRead}
use hotel_server_v.Onboarding.Service.Skip.Reported.{skip-status}
use hotel_server_v.Onboarding.Service.Start.{start}
use hotel_server_v.Onboarding.Service.Start.Fresh.{start-first_question, first}
use hotel_server_v.Onboarding.Service.Skip.Closed.{skip-closed}
use hotel_server_v.Onboarding.Service.Complete.{adaptive_complete, done}
use hotel_server_v.Onboarding.Service.Complete.Stored.{
  adaptive_complete-core_answers, adaptive_complete-stored,
}

abbrev rendering : Rendering
rendering = record {
  unicode = record { fold = λ c. String.◌∷◌ c String.[]; alnum = λ c. true; lower = λ s. s };
  show_num = λ q. "";
}

-- The provider has inferred the group, and asks about the price.
abbrev decision : Decision
decision = record {
  questionnaire_complete = false;
  completion_reason = none;
  inferred_signals =
      record { routing_key = "travel_group"; value = "solo"; confidence = some (of_ℕ 1) } ∷ [];
  question = some (record {
    prompt = "What does value mean to you?";
    helper_text = none;
    answer_type = AnswerType.free_text;
    options = [];
    scale_min = none;
    scale_max = none;
    scale_labels = [];
    required = true;
    question_kind = QuestionKind.standard;
    question_key = "price_value";
    semantic_dimensions = [];
  });
}

abbrev env : Env
env = record {
  Profile = ℕ;
  rendering = rendering;
  provider = some (record { provider_name = "anthropic"; model = "m"; prompt_version = "1" });
  reply = λ n. Reply.decided decision;
  meanwhile = λ n d. d;
  resolve_text = λ s. none;
  resolve_attribute = λ s. none;
  build_profile = λ rows place state. some 1;
  preferences_of = λ p. [];
  unresolved_of = λ p. [];
  summary_of = λ p. "";
  numeric = λ precision scale r. r;
}

abbrev draw : Draw
draw = record { now = 9; session_id = 30; question_id = 40 }

abbrev nothing : Payload ℕ
nothing = record {
  routing_state = none;
  location_context = none;
  profile = none;
  resolved_preference_count = 0;
  unresolved_attributes = [];
}

abbrev session : Status → Generation → Session ℕ
session status generation = record {
  id = 3;
  user_id = 1;
  created_at = 1;
  status = status;
  mode = Mode.adaptive;
  generation_state = generation;
  completion_reason = none;
  completed_at = none;
  ai_model = none;
  prompt_version = none;
  profile_summary = none;
  profile_payload = nothing;
}

abbrev question : ℕ → String → Question
question n key = record {
  id = n;
  session_id = 3;
  position = n;
  prompt = key;
  helper_text = none;
  answer_type = AnswerType.free_text;
  options = [];
  scale_min = none;
  scale_max = none;
  scale_labels = [];
  is_required = true;
  question_kind = QuestionKind.standard;
  semantic_dimensions = [];
  provider = "anthropic";
  ai_model = none;
  prompt_version = none;
  question_key = some key;
  code = some key;
}

abbrev says : String → Answer
says s = record { selected = none; value = some (Value.text s); rest = "" }

abbrev answered : ℕ → String → AnswerRow
answered n s = record { session_id = 3; question_id = n; answer = says s; interpreted = [] }

abbrev member : User
member = record {
  id = 1;
  email = "a@b.c";
  phone = none;
  first_name = "A";
  last_name = "B";
  password_hash = "secret";
  status = UserStatus.active;
  role = UserRole.user;
  onboarding_completed = false;
  onboarding_skipped_at = none;
  last_login_at = none;
  deleted_at = none;
}

abbrev db : List (Session ℕ) → List Question → List AnswerRow → Db ℕ
db ss qs rows = record {
  users = member ∷ [];
  sessions = ss;
  questions = qs;
  answers = rows;
  preferences = [];
}

abbrev tx : Db ℕ → Tx (Db ℕ)
tx d = record { db = d; saved = d }

validate_answer_iff_example :
    (validate_answer (question 1 "k") (says "Rome") ≡ ok tt)
    ↔ Fits AnswerType.free_text (question 1 "k") (says "Rome")
validate_answer_iff_example = validate_answer_iff (question 1 "k") (says "Rome")

-- A session that another request has skipped.
abbrev gone : Session ℕ
gone = session Status.skipped Generation.idle

abbrev asked : Asked
asked = record { sid = 3; answered = 1; existing = []; rows = [] }

ask_provider-keeps_skip_example :
    get_session 3 (ask_provider env draw asked [] (tx (db (gone ∷ []) [] []))).1.saved.sessions
    ≡ some gone
ask_provider-keeps_skip_example =
    ask_provider-keeps_skip env draw asked [] gone (tx (db (gone ∷ []) [] [])) refl (λ n d h. h)
      (unfold get_session in refl)

ask_provider-keeps_payload_example :
    stored_payload 3
      (ask_provider env draw asked []
        (tx (db (session Status.in_progress Generation.generating ∷ []) [] []))).1.saved
    ≡ some nothing
ask_provider-keeps_payload_example =
    ask_provider-keeps_payload env draw asked [] nothing
      (tx (db (session Status.in_progress Generation.generating ∷ []) [] [])) (λ n d h. h)
      (unfold get_session in refl)

-- Answers that open the gate, for a solo traveller to a beach.
abbrev questions : List Question
questions =
    question 1 "adaptive_location"
    ∷ question 2 "travel_group"
    ∷ question 3 "price_value"
    ∷ question 4 "travel_pace"
    ∷ question 5 "food_preference"
    ∷ question 6 "beach_activity"
    ∷ []

abbrev answers : List AnswerRow
answers =
    answered 1 "Goa"
    ∷ answered 2 "solo"
    ∷ answered 3 "cheap"
    ∷ answered 4 "slow"
    ∷ answered 5 "local"
    ∷ answered 6 "surf"
    ∷ []

abbrev rows : List Row
rows =
    (question 1 "adaptive_location", answered 1 "Goa")
    ∷ (question 2 "travel_group", answered 2 "solo")
    ∷ (question 3 "price_value", answered 3 "cheap")
    ∷ (question 4 "travel_pace", answered 4 "slow")
    ∷ (question 5 "food_preference", answered 5 "local")
    ∷ (question 6 "beach_activity", answered 6 "surf")
    ∷ []

abbrev ready : Session ℕ
ready = session Status.ready_to_complete Generation.idle

ready-core_answers_example :
    (location_answered rendering rows ≡ true)
    × (has_key rendering "travel_group" rows ≡ true)
    × (has_key rendering "price_value" rows ≡ true)
    × (has_key rendering "travel_pace" rows ≡ true)
    × (has_key rendering "food_preference" rows ≡ true)
unfolding completion_readiness canonical_question_key replace casefold lookup
ready-core_answers_example = ready-core_answers rendering [] rows 6 refl

ready_iff_example :
    ((completion_readiness rendering [] rows 6).ready ≡ true)
    ↔ IsComplete rendering (with_inferred rendering [] (branch_state rendering rows)) rows 6
ready_iff_example = ready_iff rendering [] rows 6

-- The user answers the second question of a session that has one answer.
abbrev halfway : Tx (Db ℕ)
halfway = tx (
    db (session Status.in_progress Generation.idle ∷ [])
      (question 1 "adaptive_location" ∷ question 2 "travel_group" ∷ []) (answered 1 "Goa" ∷ []))

submit_begin-keeps_example :
    (submit_begin env 1 3 (record { question_id = 1; answer = says "Goa" } ∷ []) halfway).1
    ≡ halfway
unfolding submit_begin owned session_question validate_answer strip answers_of answer_eq
submit_begin-keeps_example =
    submit_begin-keeps env 1 3 (record { question_id = 1; answer = says "Goa" } ∷ []) halfway refl

abbrev second : Item
second = record { question_id = 2; answer = says "solo" }

submit_begin-Taken_example :
    (item : Item) × (f : Session ℕ) × (q : Question) × ((second ∷ [] ≡ item ∷ [])
      × (owned 1 3 halfway ≡ (ok f, halfway))
      × Taken env f q item
          (session Status.in_progress Generation.generating)
          halfway
          (submit_begin env 1 3 (second ∷ []) halfway).1)
unfolding submit_begin session_question validate_answer strip answers_of
submit_begin-Taken_example =
    submit_begin-Taken env 1 3 (second ∷ []) (session Status.in_progress Generation.generating)
      halfway (submit_begin env 1 3 (second ∷ []) halfway).1 refl

skip-closed_example :
    let s' = (skip 8 1 halfway).1 in
    (is_ok (adaptive_complete env 9 1 3 s').0 ≡ false)
    × ((adaptive_complete env 9 1 3 s').1 ≡ s')
    × (is_ok (submit_answers env draw 1 3 (second ∷ []) s').0 ≡ false)
    × ((submit_answers env draw 1 3 (second ∷ []) s').1 ≡ s')
unfolding skip
skip-closed_example =
    skip-closed env draw 8 1 3 (second ∷ [])
      (record { skipped = true; completed = false; session_id = some 3; status = Status.skipped })
      halfway (skip 8 1 halfway).1 refl refl

abbrev finished : Db ℕ
finished = db (ready ∷ []) questions answers

adaptive_complete-core_answers_example :
    (location_answered rendering (adaptive_answer_rows 3 finished) ≡ true)
    × (has_key rendering "travel_group" (adaptive_answer_rows 3 finished) ≡ true)
    × (has_key rendering "price_value" (adaptive_answer_rows 3 finished) ≡ true)
    × (has_key rendering "travel_pace" (adaptive_answer_rows 3 finished) ≡ true)
    × (has_key rendering "food_preference" (adaptive_answer_rows 3 finished) ≡ true)
unfolding adaptive_complete completion_readiness canonical_question_key replace casefold lookup
    counts adaptive_answer_rows
adaptive_complete-core_answers_example =
    adaptive_complete-core_answers env 9 1 3 ready (tx finished) (unfold owned in refl) (λ e. cc)
      refl

adaptive_complete-stored_example :
    let d' = (request (adaptive_complete env 9 1 3) finished).1 in
    (g : Session ℕ) × ((find (λ s. s.id == 3 && s.user_id == 1) d'.sessions ≡ some g)
      × ((g.status ≡ Status.completed)
          × (done env 9 g
              ≡ record { preferences_created = 0; profile = some 1; unresolved_attributes = [] })))
unfolding adaptive_complete completion_readiness canonical_question_key replace casefold lookup
    counts adaptive_answer_rows
adaptive_complete-stored_example =
    adaptive_complete-stored env 9 1 3 finished (request (adaptive_complete env 9 1 3) finished).1
      (record { preferences_created = 0; profile = some 1; unresolved_attributes = [] }) refl

skip-status_example :
    let s' = (skip 8 1 halfway).1 in
    (u : User) × (x : StatusRead) × ((get_by_id 1 s'.db.users ≡ some u)
      × ((status 1 u.onboarding_completed s').0 ≡ ok x)
      × (x.skipped ≡ true)
      × (x.completed ≡ false)
      × (x.active_session_id ≡ none)
      × (x.answered_count ≡ 0))
unfolding skip
skip-status_example =
    skip-status 8 1
      (record { skipped = true; completed = false; session_id = some 3; status = Status.skipped })
      halfway (skip 8 1 halfway).1 refl refl refl

-- A user who has not begun.
abbrev untouched : Db ℕ
untouched = db [] [] []

start-first_question_example :
    (r : SessionRead) × (((request (start env draw 1) untouched).0 ≡ ok r)
      × (r.id ≡ 30)
      × (r.status ≡ Status.in_progress)
      × (r.answered_count ≡ 0)
      × (r.question_count ≡ 1)
      × (r.current_question ≡ some (first env draw, none)))
start-first_question_example =
    start-first_question env draw 1 untouched refl (unfold active_session in refl)
      (unfold get_session in refl) refl (unfold answers_of in refl)
