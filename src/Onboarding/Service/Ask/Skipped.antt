-- ===== src/Onboarding/Service/Ask/Skipped.antt =====
-- About a skip that is committed while the provider works (services/onboarding.py).
use hotel_server_v.Base.{ℕ, String, ◌≡◌, refl, Option, some, arith, nat_eq, eqb_iff}
use hotel_server_v.Base.Exec.{Tx}
use hotel_server_v.Base.Exec.Keeps.{Keeps}
use hotel_server_v.Onboarding.Types.{Session, AdaptiveQuestion, skipped}
use hotel_server_v.Onboarding.Store.{Db, get_session}
use hotel_server_v.Onboarding.Store.Sessions.{get_session-id, find-owned, get_session-put_session}
use hotel_server_v.Onboarding.Service.{Env, Draw, owned, mark_generation_failed}
use hotel_server_v.Onboarding.Service.Ask.{
  Inferred, Asked, call, finish_questionnaire, persist_next_question, ask_provider,
}
use hotel_server_v.Onboarding.Service.Ask.Induction.{reply-keeps}

module _ (env : Env) (draw : Draw) (sid : ℕ) (f : Session env.Profile) (done : f.status ≡ skipped)
    (later : (n : ℕ) (d : Db env.Profile)
      → get_session sid d.sessions ≡ some f
      → get_session sid (env.meanwhile n d).sessions ≡ some f) where
  -- The stored row is `f`, and so is the one the request reads.
  abbrev Frozen : Tx (Db env.Profile) → Type 0
  Frozen s = (get_session sid s.db.sessions ≡ some f) × (get_session sid s.saved.sessions ≡ some f)

  call-Keeps : (n : ℕ) → Keeps Frozen (call env draw n)
  unfolding call
  call-Keeps n s h = (later n s.saved h.1, later n s.saved h.1)

  finish_questionnaire-Keeps :
      (o : Option String) → Keeps Frozen (finish_questionnaire env draw sid o)
  unfolding finish_questionnaire owned
  finish_questionnaire-Keeps o s h = ground (arith, done, find-owned sid f s.db.sessions h.0)

  persist_next_question-Keeps :
      (q : AdaptiveQuestion) → Keeps Frozen (persist_next_question env draw sid q)
  unfolding persist_next_question owned
  persist_next_question-Keeps q s h = ground (arith, done, find-owned sid f s.db.sessions h.0)

  mark_generation_failed-Keeps : Keeps Frozen (mark_generation_failed sid)
  unfolding mark_generation_failed owned
  mark_generation_failed-Keeps s h = ground (
    arith,
    done,
    find-owned sid f s.db.sessions h.0,
    get_session-put_session sid f s.db.sessions,
    get_session-id sid f s.db.sessions h.0,
    eqb_iff f.id sid,
  )

-- A session that another request has skipped by the time the provider's first answer arrives, and
-- whose row the other requests then leave alone, is stored unchanged at the end, whatever the
-- provider answers: the request adds no status, generation state or reason of its own.
pub ask_provider-keeps_skip :
    (env : Env) (draw : Draw) (a : Asked) (i : Inferred) (f : Session env.Profile)
    (s : Tx (Db env.Profile))
    → f.status ≡ skipped
    → ((n : ℕ) (d : Db env.Profile)
        → get_session a.sid d.sessions ≡ some f
        → get_session a.sid (env.meanwhile n d).sessions ≡ some f)
    → get_session a.sid (env.meanwhile 0 s.saved).sessions ≡ some f
    → get_session a.sid (ask_provider env draw a i s).1.saved.sessions ≡ some f
unfolding call
ask_provider-keeps_skip env draw a i f s done later h =
    let d = env.meanwhile 0 s.saved in
    (reply-keeps env draw a.sid (Frozen env draw a.sid f done later)
      (call-Keeps env draw a.sid f done later)
      (finish_questionnaire-Keeps env draw a.sid f done later)
      (persist_next_question-Keeps env draw a.sid f done later)
      (mark_generation_failed-Keeps env draw a.sid f done later) a refl i (env.reply 0)
      (record { db = d; saved = d }) (h, h)).1
