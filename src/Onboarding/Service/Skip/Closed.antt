-- ===== src/Onboarding/Service/Skip/Closed.antt =====
-- About a session that Onboarding/Service/Skip.antt has skipped, under the other methods.
use hotel_server_v.Base.{
  ℕ, ◌≡◌, Bool, true, false, ◌&&◌, some, List, [], ◌∷◌, arith, ◌==◌, nat_eq, eqb_iff, is_some, inl,
  inr, Option-cases,
}
use hotel_server_v.Base.Exec.{Tx, ok, is_ok}
use hotel_server_v.Auth.Store.{User, get_by_id}
use hotel_server_v.Onboarding.Types.{Session, skipped}
use hotel_server_v.Onboarding.Store.{
  Db, get_session, put_session, latest, active_session, latest_skipped_session, is_open, is_skipped,
}
use hotel_server_v.Onboarding.Store.Sessions.{find-owned, get_session-put_session}
use hotel_server_v.Onboarding.Service.{Env, Draw, owned}
use hotel_server_v.Onboarding.Service.Ask.{submit_answers}
use hotel_server_v.Onboarding.Service.Submit.{Item, submit_begin}
use hotel_server_v.Onboarding.Service.Complete.{adaptive_complete}
use hotel_server_v.Onboarding.Service.Skip.{SkipRead, skip, skip_target, as_skipped}

module _ {Profile : Type 0} where
  -- The latest row of a kind is of that kind, and its key is in the table.
  latest-is :
      (p : Session Profile → Bool) (ss : List (Session Profile)) (f : Session Profile)
      → latest p ss ≡ some f
      → (p f ≡ true) × (is_some (get_session f.id ss) ≡ true)
  unfolding latest get_session
  latest-is p [] f h = ground arith
  latest-is p (s ∷ ss) f h = elim (Option-cases (latest p ss)) [
    | inl e ↦ ground (arith, e, eqb_iff s.id f.id)
    | inr (g, e) ↦ ground (arith, e, latest-is p ss g e, eqb_iff s.id f.id, eqb_iff s.id g.id)
  ]

  abbrev Target : ℕ → Session Profile → Db Profile → Type 0
  Target user f d = (f.user_id ≡ user) × (is_some (get_session f.id d.sessions) ≡ true)

  active-Target :
      (user : ℕ) (f : Session Profile) (d : Db Profile)
      → active_session user d ≡ some f
      → Target user f d
  unfolding active_session
  active-Target user f d h =
      let l = latest-is (λ s. s.user_id == user && is_open s.status) d.sessions f h in
      ground (arith, l, eqb_iff f.user_id user)

  skipped-Target :
      (user : ℕ) (f : Session Profile) (d : Db Profile)
      → latest_skipped_session user d ≡ some f
      → Target user f d
  unfolding latest_skipped_session
  skipped-Target user f d h =
      let l = latest-is (λ s. s.user_id == user && is_skipped s.status) d.sessions f h in
      ground (arith, l, eqb_iff f.user_id user)

  skip_target-Target :
      (user : ℕ) (u : User) (f : Session Profile) (d : Db Profile)
      → skip_target user u d ≡ some f
      → Target user f d
  skip_target-Target user u f d h = elim (Option-cases (active_session user d)) [
    | inl e ↦ ground (arith, e, skipped-Target user f d)
    | inr (g, e) ↦ ground (arith, e, active-Target user g d e)
  ]

  -- The session that a skip names is found by its owner afterwards, as a skipped one.
  skip-owned :
      (now user sid : ℕ) (r : SkipRead) (s s' : Tx (Db Profile))
      → skip now user s ≡ (ok r, s')
      → r.session_id ≡ some sid
      → (f : Session Profile) × ((owned user sid s' ≡ (ok f, s')) × (f.status ≡ skipped))
  unfolding skip owned
  skip-owned now user sid r s s' h e = elim (Option-cases (get_by_id user s.db.users)) [
    | inl g ↦ ground (arith, g)
    | inr (u, g) ↦ elim (Option-cases (skip_target user u s.db)) [
      | inl t ↦ ground (arith, g, t)
      | inr (f, t) ↦ (
        as_skipped f,
        ground (
          arith,
          g,
          t,
          skip_target-Target user u f s.db t,
          get_session-put_session f.id (as_skipped f) s.db.sessions,
          eqb_iff f.id f.id,
          find-owned f.id (as_skipped f) (put_session (as_skipped f) s.db.sessions),
        ),
      )
    ]
  ]

-- Answers and completion are refused for a session its owner finds skipped.
adaptive_complete-refuses :
    (env : Env) (now user sid : ℕ) (f : Session env.Profile) (s : Tx (Db env.Profile))
    → owned user sid s ≡ (ok f, s)
    → f.status ≡ skipped
    → (is_ok (adaptive_complete env now user sid s).0 ≡ false)
      × ((adaptive_complete env now user sid s).1 ≡ s)
unfolding adaptive_complete
adaptive_complete-refuses env now user sid f s h e = ground (arith, h, e)

submit_begin-refuses :
    (env : Env) (user sid : ℕ) (items : List Item) (f : Session env.Profile)
    (s : Tx (Db env.Profile))
    → owned user sid s ≡ (ok f, s)
    → f.status ≡ skipped
    → (is_ok (submit_begin env user sid items s).0 ≡ false)
      × ((submit_begin env user sid items s).1 ≡ s)
unfolding submit_begin
submit_begin-refuses env user sid [] f s h e = ground (arith, h, e)
submit_begin-refuses env user sid (item ∷ []) f s h e = ground (arith, h, e)
submit_begin-refuses env user sid (item ∷ i ∷ items) f s h e = ground (arith, h, e)

-- After a skip that names a session, its user can neither complete that session nor submit answers
-- to it: both requests raise, whatever the items, and leave every table as the skip left it.
pub skip-closed :
    (env : Env) (draw : Draw) (now user sid : ℕ) (items : List Item) (r : SkipRead)
    (s s' : Tx (Db env.Profile))
    → skip now user s ≡ (ok r, s')
    → r.session_id ≡ some sid
    → (is_ok (adaptive_complete env draw.now user sid s').0 ≡ false)
      × ((adaptive_complete env draw.now user sid s').1 ≡ s')
      × (is_ok (submit_answers env draw user sid items s').0 ≡ false)
      × ((submit_answers env draw user sid items s').1 ≡ s')
unfolding submit_answers
skip-closed env draw now user sid items r s s' h e =
    let (f, (o, k)) = skip-owned now user sid r s s' h e in
    let c = adaptive_complete-refuses env draw.now user sid f s' o k in
    let b = submit_begin-refuses env user sid items f s' o k in
    (c.0, c.1, ground (arith, b), ground (arith, b))
