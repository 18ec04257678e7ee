-- ===== src/Onboarding/Service/Complete/Stored.antt =====
-- About what `adaptive_complete` of services/onboarding.py has read and stored when it returns.
use hotel_server_v.Base.{
  ℕ, ◌≡◌, sym, true, ◌&&◌, Option, none, some, arith, ◌==◌, nat_eq, eqb_iff, find, inl, inr,
  Option-cases, Bool-cases, ◌≢◌,
}
use hotel_server_v.Base.Exec.{Tx, ok, is_ok, request}
use hotel_server_v.Onboarding.Types.{Session, completed, Generation}
use hotel_server_v.Onboarding.Readiness.Laws.{ready-core_answers}
use hotel_server_v.Onboarding.Readiness.{location_answered, has_key}
use hotel_server_v.Onboarding.Store.{Db, put_session, adaptive_answer_rows, counts}
use hotel_server_v.Onboarding.Store.Sessions.{find-owned, owned-get, get_session-put_session}
use hotel_server_v.Onboarding.Service.{Env, owned}
use hotel_server_v.Onboarding.Service.Ask.{of_option}
use hotel_server_v.Onboarding.Service.Complete.{
  Completion, resolve_profile, adaptive_complete, complete_gate, done, is_completed, Resolved,
  finish, completed_session, generate, build,
}

-- The gate was open when the completion began.
complete_gate-of_ok :
    (env : Env) (now user sid : ℕ) (f : Session env.Profile) (s : Tx (Db env.Profile))
    → owned user sid s ≡ (ok f, s)
    → f.status ≢ completed
    → is_ok (adaptive_complete env now user sid s).0 ≡ true
    → complete_gate env now f s.db ≡ true
unfolding adaptive_complete
complete_gate-of_ok env now user sid f s o n h = elim (Bool-cases (complete_gate env now f s.db)) [
  | inl e ↦ e
  | inr e ↦ ground (arith, o, n, e, h)
]

-- Every completion of a session that was not yet completed finds the core answers stored: one to a
-- location question, and one each about the travel group, the price, the pace and the food.
pub adaptive_complete-core_answers :
    (env : Env) (now user sid : ℕ) (f : Session env.Profile) (s : Tx (Db env.Profile))
    → owned user sid s ≡ (ok f, s)
    → f.status ≢ completed
    → is_ok (adaptive_complete env now user sid s).0 ≡ true
    → (location_answered env.rendering (adaptive_answer_rows f.id s.db) ≡ true)
      × (has_key env.rendering "travel_group" (adaptive_answer_rows f.id s.db) ≡ true)
      × (has_key env.rendering "price_value" (adaptive_answer_rows f.id s.db) ≡ true)
      × (has_key env.rendering "travel_pace" (adaptive_answer_rows f.id s.db) ≡ true)
      × (has_key env.rendering "food_preference" (adaptive_answer_rows f.id s.db) ≡ true)
unfolding complete_gate
adaptive_complete-core_answers env now user sid f s o n h =
    ready-core_answers env.rendering (of_option f.profile_payload.routing_state)
      (adaptive_answer_rows f.id s.db) (counts f.id s.db).0
      (complete_gate-of_ok env now user sid f s o n h)

module _ (env : Env) (now user sid : ℕ) (c : Completion env now) where
  -- The stored session is completed, and holds what was answered.
  abbrev Stored : Db env.Profile → Type 0
  Stored d =
      (g : Session env.Profile) × ((find (λ s. s.id == sid && s.user_id == user) d.sessions
          ≡ some g)
        × ((g.status ≡ completed) × (done env now g ≡ c)))

  finish-Stored :
      (p : env.Profile) (r : Resolved env now) (s s' : Tx (Db env.Profile))
      → finish env now user sid p r s ≡ (ok c, s')
      → Stored s'.saved
  unfolding owned
  finish-Stored p r s s' h =
      elim (Option-cases (find (λ s. s.id == sid && s.user_id == user) s.db.sessions)) [
        | inl e ↦ ground (arith, e)
        | inr (f, e) ↦ (
          completed_session env now p r f,
          ground (
            arith,
            h,
            e,
            owned-get sid user f s.db.sessions e,
            get_session-put_session sid (completed_session env now p r f) s.db.sessions,
            eqb_iff f.id sid,
            find-owned sid (completed_session env now p r f)
                (put_session (completed_session env now p r f) s.db.sessions),
          ),
        )
      ]

  generate-Stored :
      (o : Option env.Profile) (s s' : Tx (Db env.Profile))
      → generate env now user sid o s ≡ (ok c, s')
      → Stored s'.saved
  generate-Stored none s s' h = ground (arith, h)
  generate-Stored (some p) s s' h =
      let r = resolve_profile env now user p s.db.preferences in
      finish-Stored p r (record s { db = record s.db { preferences = r.table } }) s' h

  build-Stored :
      (f : Session env.Profile) (s s' : Tx (Db env.Profile))
      → f.id ≡ sid
      → build env now user f s ≡ (ok c, s')
      → Stored s'.saved
  build-Stored f s s' i h =
      let rows = adaptive_answer_rows f.id s.db in
      let d = env.meanwhile 3 (record s.db {
        sessions =
            put_session (record f { generation_state = Generation.profile_generating })
              s.db.sessions;
      }) in
      generate-Stored
        (env.build_profile rows f.profile_payload.location_context f.profile_payload.routing_state)
        (record { db = d; saved = d }) s' (ground (arith, h, i))

-- When a completion request returns, the session its user finds under that number is stored as
-- completed, and the row's count, profile and unresolved attributes are the ones that were answered;
-- this holds for the first completion and for each later one, and whatever other requests commit
-- while the profile is built.
pub adaptive_complete-stored :
    (env : Env) (now user sid : ℕ) (d d' : Db env.Profile) (c : Completion env now)
    → request (adaptive_complete env now user sid) d ≡ (ok c, d')
    → (g : Session env.Profile) × ((find (λ s. s.id == sid && s.user_id == user) d'.sessions
          ≡ some g)
        × ((g.status ≡ completed) × (done env now g ≡ c)))
unfolding adaptive_complete owned
adaptive_complete-stored env now user sid d d' c h =
    let s : Tx (Db env.Profile) = record { db = d; saved = d } in
    elim (Option-cases (find (λ s. s.id == sid && s.user_id == user) d.sessions)) [
      | inl e ↦ ground (arith, h, e)
      | inr (f, e) ↦ elim (Bool-cases (is_completed f.status)) [
        | inl k ↦ (f, ground (arith, h, e, k))
        | inr k ↦
            let b = build env now user f s in
            let answered : b.0 ≡ ok c = ground (arith, h, e, k) in
            let same : b.1.saved ≡ d' = ground (arith, h, e, k) in
            let kept : Stored env now user sid c b.1.saved =
              build-Stored env now user sid c f s b.1 (owned-get sid user f d.sessions e).0
                (ground (arith, answered)) in
            rw (sym same) kept
      ]
    ]
