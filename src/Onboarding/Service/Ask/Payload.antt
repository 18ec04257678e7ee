-- ===== src/Onboarding/Service/Ask/Payload.antt =====
-- About the payload that `_record_inferred_signals` of services/onboarding.py sets on the session: the
-- object is refreshed by the next locked select, before anything flushes it.
use hotel_server_v.Base.{
  ℕ, String, ◌≡◌, refl, Option, none, some, arith, nat_eq, eqb_iff, inl, inr, Option-cases,
}
use hotel_server_v.Base.Exec.{Tx}
use hotel_server_v.Base.Exec.Keeps.{Keeps}
use hotel_server_v.Onboarding.Types.{AdaptiveQuestion, Status, Payload, Generation}
use hotel_server_v.Onboarding.Store.{Db, get_session, add_session_question}
use hotel_server_v.Onboarding.Store.Sessions.{get_session-id, find-owned, get_session-put_session}
use hotel_server_v.Onboarding.Service.{Env, Draw, owned, mark_generation_failed}
use hotel_server_v.Onboarding.Service.Ask.{
  Inferred, Asked, call, finish_questionnaire, persist_next_question, ask_provider,
}
use hotel_server_v.Onboarding.Service.Ask.Induction.{reply-keeps}

-- The payload that the table holds for a session.
abbrev pub stored_payload : {Profile : Type 0} → ℕ → Db Profile → Option (Payload Profile)
stored_payload sid d = elim (get_session sid d.sessions) [
  | none ↦ none
  | some s ↦ some s.profile_payload
]

module _ (env : Env) (draw : Draw) (sid : ℕ) (p : Payload env.Profile)
    (later : (n : ℕ) (d : Db env.Profile)
      → stored_payload sid d ≡ some p
      → stored_payload sid (env.meanwhile n d) ≡ some p) where
  abbrev Holds : Tx (Db env.Profile) → Type 0
  Holds s = (stored_payload sid s.db ≡ some p) × (stored_payload sid s.saved ≡ some p)

  call-Holds : (n : ℕ) → Keeps Holds (call env draw n)
  unfolding call
  call-Holds n s h = (later n s.saved h.1, later n s.saved h.1)

  finish_questionnaire-Holds :
      (o : Option String) → Keeps Holds (finish_questionnaire env draw sid o)
  unfolding finish_questionnaire owned
  finish_questionnaire-Holds o s h = elim (Option-cases (get_session sid s.db.sessions)) [
    | inl e ↦ ground (arith, e)
    | inr (f, e) ↦ ground (
      arith,
      find-owned sid f s.db.sessions e,
      get_session-put_session sid
          (record f {
            status = Status.ready_to_complete;
            generation_state = Generation.idle;
            completion_reason = o;
          })
          s.db.sessions,
      get_session-id sid f s.db.sessions e,
      eqb_iff f.id sid,
    )
  ]

  persist_next_question-Holds :
      (q : AdaptiveQuestion) → Keeps Holds (persist_next_question env draw sid q)
  unfolding persist_next_question owned add_session_question
  persist_next_question-Holds q s h = elim (Option-cases (get_session sid s.db.sessions)) [
    | inl e ↦ ground (arith, e)
    | inr (f, e) ↦ ground (
      arith,
      find-owned sid f s.db.sessions e,
      get_session-put_session sid (record f { generation_state = Generation.idle }) s.db.sessions,
      get_session-id sid f s.db.sessions e,
      eqb_iff f.id sid,
    )
  ]

  mark_generation_failed-Holds : Keeps Holds (mark_generation_failed sid)
  unfolding mark_generation_failed owned
  mark_generation_failed-Holds s h = elim (Option-cases (get_session sid s.db.sessions)) [
    | inl e ↦ ground (arith, e)
    | inr (f, e) ↦ ground (
      arith,
      find-owned sid f s.db.sessions e,
      get_session-put_session sid (record f { generation_state = Generation.failed }) s.db.sessions,
      get_session-put_session sid (f) s.db.sessions,
      get_session-id sid f s.db.sessions e,
      eqb_iff f.id sid,
    )
  ]

-- If the other requests keep the stored payload of the session, then the payload that the table
-- holds after the provider was asked is the one from before, whatever signals the provider inferred.
pub ask_provider-keeps_payload :
    (env : Env) (draw : Draw) (a : Asked) (i : Inferred) (p : Payload env.Profile)
    (s : Tx (Db env.Profile))
    → ((n : ℕ) (d : Db env.Profile)
        → stored_payload a.sid d ≡ some p
        → stored_payload a.sid (env.meanwhile n d) ≡ some p)
    → stored_payload a.sid s.saved ≡ some p
    → stored_payload a.sid (ask_provider env draw a i s).1.saved ≡ some p
unfolding call
ask_provider-keeps_payload env draw a i p s later h =
    let d = env.meanwhile 0 s.saved in
    (reply-keeps env draw a.sid (Holds env draw a.sid p later) (call-Holds env draw a.sid p later)
      (finish_questionnaire-Holds env draw a.sid p later)
      (persist_next_question-Holds env draw a.sid p later)
      (mark_generation_failed-Holds env draw a.sid p later) a refl i (env.reply 0)
      (record { db = d; saved = d }) (later 0 s.saved h, later 0 s.saved h)).1
