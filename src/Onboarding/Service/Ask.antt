-- ===== src/Onboarding/Service/Ask.antt =====
-- The second half of `_submit_adaptive` of services/onboarding.py: the calls of the provider, the
-- completion gate, and how the outcome is stored.
pub mod Induction
pub mod Skipped
pub mod Payload
use hotel_server_v.Base.{
  ℕ, String, Bool, true, false, not, ◌&&◌, ◌||◌, Option, none, some, List, [], ◌∷◌, ltb, leb, ◌==◌,
  nat_eq, string_eq, if◌then◌else◌, any, count_if, length,
}
use hotel_server_v.Base.Exec.{
  Exec, Tx, Result, ok, err, pure, raise, raise_if, or_raise, modify, gets, commit, ◌>>=◌, ◌>>◌,
}
use hotel_server_v.Base.Dict.{insert}
use hotel_server_v.Errors.{dependency_unavailable, onboarding_session_not_found, unexpected}
use hotel_server_v.Onboarding.Types.{
  Session, Question, QuestionKind, clarification, standard, Status, skipped, ready_to_complete,
  Generation, idle, Signal, AdaptiveQuestion,
}
use hotel_server_v.Onboarding.Keys.{min_questions, max_questions, max_clarification_questions}
use hotel_server_v.Onboarding.Branches.{Row}
use hotel_server_v.Onboarding.Readiness.{Readiness, completion_readiness}
use hotel_server_v.Onboarding.Questions.{
  Verdict, accepted, rejected, duplicate, validate_question, question_row,
}
use hotel_server_v.Onboarding.Store.{
  Db, get_session, put_session, session_questions, add_session_question,
  next_session_question_position, adaptive_answer_rows, counts, is_skipped,
}
use hotel_server_v.Onboarding.Service.{
  Env, Draw, SessionRead, Decision, Reply, decided, provider_error, crashed, owned, session_read,
  save, mark_generation_failed,
}
use hotel_server_v.Onboarding.Service.Submit.{Item, Begun, replayed, begun, submit_begin}

-- The public message of an `AdaptiveProviderError` that the service raises itself.
abbrev provider_failed : String
provider_failed = "Claude adaptive onboarding provider failed"

-- The routing state that is in memory while the provider is asked.
abbrev pub Inferred : Type 0
Inferred = List (String × Signal)

abbrev pub of_option : Option Inferred → Inferred
of_option none = []
of_option (some i) = i

record_signals : Inferred → List Signal → Inferred
record_signals inferred [] = inferred
record_signals inferred (s ∷ ss) = record_signals (insert s.routing_key s inferred) ss

-- How a step inside the `try` ends: with the answer of the request, or with a provider error.
pub data Outcome : Type 0 where
  done : SessionRead → Outcome
  provider_raised : String → Outcome

abbrev is_clarification : QuestionKind → Bool
is_clarification clarification = true
is_clarification standard = false

abbrev pub or_text : Option String → String → Option String
or_text none t = some t
or_text (some s) t = if s == "" then some t else some s

-- The variables of the request that the later steps read.
pub record Asked : Type 0 where
  pub sid : ℕ
  pub answered : ℕ
  pub existing : List Question
  pub rows : List Row

module _ (env : Env) (draw : Draw) where
  open env use {Profile, rendering, provider, reply, meanwhile}

  -- One call of the provider: other requests may commit before the answer comes. The open
  -- transaction has only read, so it sees their changes.
  unfoldable pub call : ℕ → Exec (Db Profile) Reply
  call n s = let d = meanwhile n s.saved in (ok (reply n), record { db = d; saved = d })

  -- `_finish_questionnaire`
  abbrev finish_found : ℕ → Option String → Option (Session Profile) → Exec (Db Profile) SessionRead
  finish_found sid reason none = raise onboarding_session_not_found
  finish_found sid reason (some found) = do
    session ← owned found.user_id sid
    if is_skipped session.status then gets (session_read session) else do
      let finished : Session Profile = record session {
        status = ready_to_complete;
        generation_state = idle;
        completion_reason = reason;
      }
      save finished
      commit
      gets (session_read finished)

  unfoldable pub finish_questionnaire : ℕ → Option String → Exec (Db Profile) SessionRead
  unfolding get_session owned put_session
  finish_questionnaire sid reason = do
    found ← gets (λ d. get_session sid d.sessions)
    finish_found sid reason found

  abbrev add_next : Bool → ℕ → AdaptiveQuestion → ℕ → Exec (Db Profile) Unit
  add_next true sid q position = pure tt
  add_next false sid q position =
      add_session_question (question_row provider none none draw.question_id sid position q)

  abbrev persist_in : Session Profile → AdaptiveQuestion → Exec (Db Profile) SessionRead
  persist_in session q = if is_skipped session.status then gets (session_read session) else do
    existing ← gets (session_questions session.id)
    position ← gets (next_session_question_position session.id)
    add_next (any (λ p. p.prompt == q.prompt) existing) session.id q position
    let waiting : Session Profile = record session { generation_state = idle }
    save waiting
    commit
    gets (session_read waiting)

  abbrev persist_found :
      ℕ → AdaptiveQuestion → Option (Session Profile) → Exec (Db Profile) SessionRead
  persist_found sid q none = raise onboarding_session_not_found
  persist_found sid q (some found) = do session ← owned found.user_id sid; persist_in session q

  -- `_persist_next_question`
  unfoldable pub persist_next_question : ℕ → AdaptiveQuestion → Exec (Db Profile) SessionRead
  unfolding get_session owned put_session add_session_question
  persist_next_question sid q = do
    found ← gets (λ d. get_session sid d.sessions)
    persist_found sid q found

  abbrev finish : ℕ → Option String → Exec (Db Profile) Outcome
  finish sid reason = do answer ← finish_questionnaire sid reason; pure (done answer)

  abbrev persist : ℕ → AdaptiveQuestion → Exec (Db Profile) Outcome
  persist sid q = do answer ← persist_next_question sid q; pure (done answer)

  abbrev fail : Exec (Db Profile) Outcome
  fail = pure (provider_raised provider_failed)

  -- The completion gate of `_context`: the stored rows, and the routing state in memory.
  gate : ℕ → Inferred → Db Profile → Readiness
  gate sid inferred d =
      let rows = adaptive_answer_rows sid d in
      completion_readiness rendering inferred rows (length rows)

  -- The reason under which a decision that opens the gate finishes the questionnaire.
  abbrev gate_reason : Decision → Option String
  gate_reason d =
      if d.questionnaire_complete then d.completion_reason else some "CANONICAL_SIGNALS_COMPLETE"

  abbrev clarifications : Asked → ℕ
  clarifications a = count_if (λ q. is_clarification q.question_kind) a.existing

  abbrev on_replacement : Asked → AdaptiveQuestion → Verdict → Exec (Db Profile) Outcome
  on_replacement a q accepted = persist a.sid q
  on_replacement a q _ = fail

  -- The replacement for a question that was asked before.
  abbrev check_replacement : Asked → Option AdaptiveQuestion → Exec (Db Profile) Outcome
  check_replacement a none = fail
  check_replacement a (some q) =
      on_replacement a q (validate_question rendering q a.existing a.rows)

  replacement : Asked → Inferred → Reply → Exec (Db Profile) Outcome
  unfolding record_signals gate
  replacement a inferred crashed = raise unexpected
  replacement a inferred (provider_error message) = pure (provider_raised message)
  replacement a inferred (decided d) = do
    let inferred' = record_signals inferred d.inferred_signals
    readiness ← gets (gate a.sid inferred')
    if leb min_questions a.answered && readiness.ready
        then finish a.sid (gate_reason d)
        else if d.questionnaire_complete
        then fail
        else check_replacement a d.question

  abbrev on_verdict : Asked → Inferred → AdaptiveQuestion → Verdict → Exec (Db Profile) Outcome
  on_verdict a inferred q accepted = persist a.sid q
  on_verdict a inferred q rejected = fail
  on_verdict a inferred q duplicate = do r ← call 2; replacement a inferred r

  -- The limits on the flow, and then the question itself.
  next_question : Asked → Inferred → Option AdaptiveQuestion → Exec (Db Profile) Outcome
  unfolding replacement call
  next_question a inferred none = fail
  next_question a inferred (some q) =
      if leb max_questions a.answered && not (is_clarification q.question_kind)
      then fail
      else if is_clarification q.question_kind && leb max_clarification_questions (clarifications a)
      then fail
      else on_verdict a inferred q (validate_question rendering q a.existing a.rows)

  -- The second decision, after the provider was told what blocks completion.
  corrected : Asked → Inferred → Reply → Exec (Db Profile) Outcome
  unfolding record_signals gate next_question
  corrected a inferred crashed = raise unexpected
  corrected a inferred (provider_error message) = pure (provider_raised message)
  corrected a inferred (decided d) = do
    let inferred' = record_signals inferred d.inferred_signals
    readiness ← gets (gate a.sid inferred')
    if d.questionnaire_complete
        then (if readiness.ready
            then finish a.sid (or_text d.completion_reason "SUFFICIENT_SIGNAL")
            else fail)
        else next_question a inferred' d.question

  unfoldable pub first_reply : Asked → Inferred → Reply → Exec (Db Profile) Outcome
  unfolding record_signals gate corrected call
  first_reply a inferred crashed = raise unexpected
  first_reply a inferred (provider_error message) = pure (provider_raised message)
  first_reply a inferred (decided d) = do
    let inferred' = record_signals inferred d.inferred_signals
    readiness ← gets (gate a.sid inferred')
    if leb min_questions a.answered && readiness.ready
        then finish a.sid (gate_reason d)
        else if not d.questionnaire_complete
        then next_question a inferred' d.question
        else if ltb a.answered min_questions
        then fail
        else (do r ← call 1; corrected a inferred' r)

  -- `except AdaptiveProviderError`
  abbrev settle : ℕ → Outcome → Exec (Db Profile) SessionRead
  settle sid (done answer) = pure answer
  settle sid (provider_raised message) = do
    mark_generation_failed sid
    raise (dependency_unavailable message)

  abbrev pub ask_provider : Asked → Inferred → Exec (Db Profile) SessionRead
  ask_provider a inferred = do r ← call 0; outcome ← first_reply a inferred r; settle a.sid outcome

  abbrev over_limit : ℕ → Bool → Exec (Db Profile) SessionRead
  over_limit sid true = finish_questionnaire sid (some "MAX_QUESTIONS")
  over_limit sid false = do
    mark_generation_failed sid
    raise (
        dependency_unavailable
          "Claude adaptive onboarding provider failed before canonical signals")

  -- From the commit on; `handed` is the session object that the request holds.
  unfoldable pub ask : ℕ → Session Profile → Exec (Db Profile) SessionRead
  unfolding call first_reply finish_questionnaire mark_generation_failed
  ask user handed = do
    owned user handed.id
    answered ← gets (λ d. (counts handed.id d).0)
    rows ← gets (adaptive_answer_rows handed.id)
    existing ← gets (session_questions handed.id)
    let inferred = of_option handed.profile_payload.routing_state
    let readiness = completion_readiness rendering inferred rows answered
    let asked : Asked = record {
      sid = handed.id;
      answered = answered;
      existing = existing;
      rows = rows;
    }
    if ltb max_questions answered
        then over_limit handed.id readiness.ready
        else if leb min_questions answered && readiness.ready
        then finish_questionnaire handed.id (some "CANONICAL_SIGNALS_COMPLETE")
        else ask_provider asked inferred

  abbrev go_on : ℕ → Begun Profile → Exec (Db Profile) SessionRead
  go_on user (replayed answer) = pure answer
  go_on user (begun handed) = ask user handed

  -- `submit_answers`
  unfoldable pub submit_answers : ℕ → ℕ → List Item → Exec (Db Profile) SessionRead
  unfolding submit_begin ask
  submit_answers user sid items = do b ← submit_begin env user sid items; go_on user b
