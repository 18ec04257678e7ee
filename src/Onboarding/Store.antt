-- ===== src/Onboarding/Store.antt =====
-- The tables of the questionnaire and repositories/onboarding.py.
pub mod Sessions
use Prim.Native.Nat.{max}
use hotel_server_v.Base.{
  ℕ, zero, suc, ◌+◌, String, Bool, true, false, not, ◌&&◌, ◌||◌, Option, none, some, List, [], ◌∷◌,
  ◌++◌, ltb, leb, ◌==◌, nat_eq, if◌then◌else◌, find, keep, any, count_if,
}
use hotel_server_v.Base.Exec.{Exec, raise_if, modify, gets, ◌>>=◌, ◌>>◌}
use hotel_server_v.Errors.{integrity}
use hotel_server_v.Auth.Store.{User}
use hotel_server_v.Preferences.Store.{UserPreference}
use hotel_server_v.Onboarding.Types.{
  Session, Question, AnswerRow, Answer, Status, in_progress, ready_to_complete, skipped, Mode,
  adaptive, idle, Payload,
}
use hotel_server_v.Onboarding.Branches.{Row}

pub record Db (Profile : Type 0) : Type 0 where
  pub users : List User
  pub sessions : List (Session Profile)
  pub questions : List Question
  pub answers : List AnswerRow
  pub preferences : List UserPreference

abbrev pub is_open : Status → Bool
is_open in_progress = true
is_open ready_to_complete = true
is_open _ = false

abbrev pub is_skipped : Status → Bool
is_skipped skipped = true
is_skipped _ = false

-- Questions of one session.
abbrev pub of_session : ℕ → Question → Bool
of_session sid q = q.session_id == sid

place : Question → List Question → List Question
place q [] = q ∷ []
place q (p ∷ ps) = if leb q.position p.position then q ∷ p ∷ ps else p ∷ place q ps

by_position : List Question → List Question
unfolding place
by_position [] = []
by_position (q ∷ qs) = place q (by_position qs)

answer_to : ℕ → List AnswerRow → List AnswerRow
answer_to qid rows = keep (λ a. a.question_id == qid) rows

pair_all : Question → List AnswerRow → List Row
pair_all q [] = []
pair_all q (a ∷ rest) = (q, a) ∷ pair_all q rest

pairs : List Question → List AnswerRow → List Row
unfolding answer_to pair_all
pairs [] rows = []
pairs (q ∷ qs) rows = pair_all q (answer_to q.id rows) ++ pairs qs rows

last_position : List Question → ℕ
last_position [] = 0
last_position (q ∷ qs) = max q.position (last_position qs)

abbrev after : ℕ → ℕ → Question → Bool
after sid position q = of_session sid q && ltb position q.position

unfoldable pub upsert_row : ℕ → ℕ → Answer → List AnswerRow → List AnswerRow
upsert_row sid qid answer [] =
    record { session_id = sid; question_id = qid; answer = answer; interpreted = [] } ∷ []
upsert_row sid qid answer (a ∷ rest) =
    if a.session_id == sid && a.question_id == qid
    then record a { answer = answer; interpreted = [] } ∷ rest
    else a ∷ upsert_row sid qid answer rest

module _ {Profile : Type 0} where
  -- The latest of two by `created_at`; the first where they agree.
  abbrev pub later : Session Profile → Option (Session Profile) → Option (Session Profile)
  later s none = some s
  later s (some t) = if ltb s.created_at t.created_at then some t else some s

  unfoldable pub latest :
      (Session Profile → Bool) → List (Session Profile) → Option (Session Profile)
  latest p [] = none
  latest p (s ∷ ss) = let rest = latest p ss in if p s then later s rest else rest

  unfoldable pub active_session : ℕ → Db Profile → Option (Session Profile)
  unfolding latest
  active_session user d = latest (λ s. s.user_id == user && is_open s.status) d.sessions

  unfoldable pub latest_skipped_session : ℕ → Db Profile → Option (Session Profile)
  unfolding latest
  latest_skipped_session user d = latest (λ s. s.user_id == user && is_skipped s.status) d.sessions

  -- `select ... where id` of `get_session`
  unfoldable pub get_session : ℕ → List (Session Profile) → Option (Session Profile)
  get_session sid ss = find (λ s. s.id == sid) ss

  -- Writes a session back under its primary key.
  unfoldable pub put_session : Session Profile → List (Session Profile) → List (Session Profile)
  put_session new [] = []
  put_session new (s ∷ ss) = if s.id == new.id then new ∷ ss else s ∷ put_session new ss

  abbrev pub fresh_session : ℕ → ℕ → ℕ → Session Profile
  fresh_session sid user now = record {
    id = sid;
    user_id = user;
    created_at = now;
    status = in_progress;
    mode = adaptive;
    generation_state = idle;
    completion_reason = none;
    completed_at = none;
    ai_model = none;
    prompt_version = none;
    profile_summary = none;
    profile_payload = record {
      routing_state = none;
      location_context = none;
      profile = none;
      resolved_preference_count = 0;
      unresolved_attributes = [];
    };
  }

  unfoldable pub session_questions : ℕ → Db Profile → List Question
  unfolding by_position
  session_questions sid d = by_position (keep (of_session sid) d.questions)

  unfoldable pub session_question : ℕ → ℕ → Db Profile → Option Question
  session_question sid qid d = find (λ q. q.id == qid && of_session sid q) d.questions

  -- A question is added under the unique index (session_id, position).
  unfoldable pub add_session_question : Question → Exec (Db Profile) Unit
  add_session_question q = do
    taken ← gets (λ d. any (λ p. of_session q.session_id p && p.position == q.position) d.questions)
    raise_if taken integrity
    modify (λ d. record d { questions = d.questions ++ q ∷ [] })

  unfoldable pub next_session_question_position : ℕ → Db Profile → ℕ
  unfolding last_position
  next_session_question_position sid d = last_position (keep (of_session sid) d.questions) + 1

  -- Later questions go, and the answers to them.
  unfoldable pub delete_questions_after : ℕ → ℕ → Db Profile → Db Profile
  delete_questions_after sid position d = record d {
    questions = keep (λ q. not (after sid position q)) d.questions;
    answers =
        keep (λ a. not (any (λ q. after sid position q && q.id == a.question_id) d.questions))
          d.answers;
  }

  abbrev pub upsert_answer : ℕ → ℕ → Answer → Db Profile → Db Profile
  upsert_answer sid qid answer d = record d { answers = upsert_row sid qid answer d.answers }

  unfoldable pub answers_of : ℕ → Db Profile → List AnswerRow
  answers_of sid d = keep (λ a. a.session_id == sid) d.answers

  unfoldable pub adaptive_answer_rows : ℕ → Db Profile → List Row
  unfolding pairs session_questions
  adaptive_answer_rows sid d = pairs (session_questions sid d) d.answers

  -- Answered and total questions.
  unfoldable pub counts : ℕ → Db Profile → ℕ × ℕ
  counts sid d =
      (count_if (λ a. a.session_id == sid) d.answers, count_if (of_session sid) d.questions)
