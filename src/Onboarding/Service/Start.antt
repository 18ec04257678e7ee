-- ===== src/Onboarding/Service/Start.antt =====
-- `start` and `_generate_first` of services/onboarding.py.
pub mod Fresh
use hotel_server_v.Base.{
  ℕ, Bool, true, false, not, Option, none, some, [], ◌∷◌, ◌++◌, is_empty, if◌then◌else◌,
}
use hotel_server_v.Base.Exec.{Exec, pure, modify, gets, commit, ◌>>=◌, ◌>>◌}
use hotel_server_v.Onboarding.Types.{Session, Generation, generating, restart_required}
use hotel_server_v.Onboarding.Questions.{location_question, question_row}
use hotel_server_v.Onboarding.Store.{
  Db, active_session, session_questions, add_session_question, put_session, fresh_session,
}
use hotel_server_v.Onboarding.Service.{
  Env, Draw, SessionRead, owned, session_read, save, is_adaptive, require_claude,
}

abbrev pub is_generating : Generation → Bool
is_generating generating = true
is_generating _ = false

module _ (env : Env) (draw : Draw) where
  open env use {Profile, provider}

  abbrev add_first : ℕ → Bool → Exec (Db Profile) Unit
  add_first sid true = add_session_question (
      question_row provider (some "deterministic") (some "deterministic-location-v1")
        draw.question_id sid 1 location_question)
  add_first sid false = pure tt

  unfoldable pub generate_first : ℕ → ℕ → Exec (Db Profile) SessionRead
  unfolding owned session_questions add_session_question question_row put_session session_read
  generate_first user sid = do
    session ← owned user sid
    questions ← gets (session_questions sid)
    add_first sid (is_empty questions)
    let idle : Session Profile = record session { generation_state = Generation.idle }
    save idle
    commit
    gets (session_read idle)

  -- The model and prompt version that the code sets on the new row are lost when `_generate_first`
  -- selects it again: nothing has flushed them.
  unfoldable pub create : ℕ → Exec (Db Profile) SessionRead
  unfolding generate_first
  create user = do
    modify (λ d. record d {
      sessions = d.sessions ++ fresh_session draw.session_id user draw.now ∷ [];
    })
    generate_first user draw.session_id

  abbrev restart : ℕ → Session Profile → Exec (Db Profile) SessionRead
  restart user s = do
    save (record s {
      status = restart_required;
      completion_reason = some "LEGACY_STATIC_SESSION_RESTART_REQUIRED";
    })
    commit
    create user

  abbrev go_on : ℕ → Session Profile → Exec (Db Profile) SessionRead
  go_on user s = do
    questions ← gets (session_questions s.id)
    if is_empty questions then generate_first user s.id else gets (session_read s)

  abbrev resume : ℕ → Option (Session Profile) → Exec (Db Profile) SessionRead
  resume user none = create user
  resume user (some s) =
      if not (is_adaptive s.mode)
      then restart user s
      else if is_generating s.generation_state
      then gets (session_read s)
      else go_on user s

  unfoldable pub start : ℕ → Exec (Db Profile) SessionRead
  unfolding create active_session
  start user = do require_claude env; active ← gets (active_session user); resume user active
