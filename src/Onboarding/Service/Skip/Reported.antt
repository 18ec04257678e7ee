-- ===== src/Onboarding/Service/Skip/Reported.antt =====
-- About what `status` of services/onboarding.py reports after `skip`.
use hotel_server_v.Base.{
  ℕ, ◌≡◌, refl, Bool, true, false, not, ◌&&◌, Option, none, some, List, [], ◌∷◌, map, distinct,
  contains, subst, ◌==◌, nat_eq, arith, eqb_iff, inl, inr, Option-cases, Bool-cases,
}
use hotel_server_v.Base.Exec.{Tx, ok}
use hotel_server_v.Auth.Store.{User, get_by_id, put_user}
use hotel_server_v.Onboarding.Types.{Session}
use hotel_server_v.Onboarding.Store.{Db, active_session, latest, is_open, put_session}
use hotel_server_v.Onboarding.Service.Skip.{
  SkipRead, StatusRead, skip, status, stamp, skip_target, no_session, as_skipped,
}

get_by_id-found :
    (user : ℕ) (u : User) (us : List User)
    → get_by_id user us ≡ some u
    → (u.id ≡ user) × (u.deleted_at ≡ none)
unfolding get_by_id
get_by_id-found user u [] h = ground (arith, h)
get_by_id-found user u (x ∷ us) h = ground (arith, h, get_by_id-found user u us, eqb_iff x.id user)

get_by_id-put_user :
    (user : ℕ) (u new : User) (us : List User)
    → get_by_id user us ≡ some u
    → new.id ≡ u.id
    → u.id ≡ user
    → new.deleted_at ≡ none
    → get_by_id user (put_user new us) ≡ some new
unfolding get_by_id put_user
get_by_id-put_user user u new [] h i j e = ground (arith, h)
get_by_id-put_user user u new (x ∷ us) h i j e = ground (
  arith,
  h,
  i,
  e,
  get_by_id-put_user user u new us,
  eqb_iff x.id user,
  eqb_iff new.id user,
  eqb_iff x.id new.id,
  eqb_iff u.id user,
)

-- An open session of the user that the skip does not name.
abbrev pub is_other : {Profile : Type 0} → ℕ → Option ℕ → Session Profile → Bool
is_other user none x = x.user_id == user && is_open x.status
is_other user (some named) x = x.user_id == user && is_open x.status && not (x.id == named)

module _ {Profile : Type 0} (user : ℕ) where
  latest-others :
      (named : ℕ) (ss : List (Session Profile))
      → contains named (map (λ x. x.id) ss) ≡ false
      → latest (is_other user (some named)) ss ≡ none
      → latest (λ x. x.user_id == user && is_open x.status) ss ≡ none
  unfolding latest
  latest-others named [] c h = refl
  latest-others named (x ∷ ss) c h =
      ground (arith, c, h, eqb_iff x.id named, eqb_iff named x.id, latest-others named ss)

  latest-tail :
      (p : Session Profile → Bool) (x : Session Profile) (ss : List (Session Profile))
      → latest p (x ∷ ss) ≡ none
      → (p x ≡ false) × (latest p ss ≡ none)
  unfolding latest
  latest-tail p x ss h = elim (Bool-cases (p x)) [
    | inl e ↦ elim (Option-cases (latest p ss)) [
      | inl n ↦ ground (arith, h, e, n)
      | inr (y, n) ↦ ground (arith, h, e, n)
    ]
    | inr e ↦ ground (arith, h, e)
  ]

  latest-skips :
      (p : Session Profile → Bool) (x : Session Profile) (ss : List (Session Profile))
      → p x ≡ false
      → latest p ss ≡ none
      → latest p (x ∷ ss) ≡ none
  unfolding latest
  latest-skips p x ss e h = ground (arith, e, h)

  -- Where no other session of the user is open, none is once this one is written as not open.
  latest-put_session :
      (new : Session Profile) (ss : List (Session Profile))
      → distinct (map (λ x. x.id) ss) ≡ true
      → is_open new.status ≡ false
      → latest (is_other user (some new.id)) ss ≡ none
      → latest (λ x. x.user_id == user && is_open x.status) (put_session new ss) ≡ none
  unfolding put_session latest
  latest-put_session new [] c o h = refl
  latest-put_session new (x ∷ ss) c o h =
      let open_one = λ (x : Session Profile). x.user_id == user && is_open x.status in
      let t = latest-tail (is_other user (some new.id)) x ss h in
      elim (Bool-cases (x.id == new.id)) [
        | inl e ↦ rw e (
            latest-skips open_one new ss (ground (arith, o))
              (latest-others new.id ss (ground (arith, c, e, eqb_iff x.id new.id)) t.1))
        | inr e ↦ rw e (
            latest-skips open_one x (put_session new ss) (ground (arith, e, t.0))
              (latest-put_session new ss (ground (arith, c)) o t.1))
      ]

-- A skip leaves its user no open session, if the one that it names was the only one.
skip-inactive :
    {Profile : Type 0} (now user : ℕ) (r : SkipRead) (s s' : Tx (Db Profile)) (u : User)
    → skip now user s ≡ (ok r, s')
    → get_by_id user s.db.users ≡ some u
    → distinct (map (λ x. x.id) s.db.sessions) ≡ true
    → latest (is_other user r.session_id) s.db.sessions ≡ none
    → active_session user s'.db ≡ none
unfolding skip active_session
skip-inactive now user r s s' u h g c o = elim (Option-cases (skip_target user u s.db)) [
  | inl t ↦
      let named : r.session_id ≡ none = ground (arith, h, g, t) in
      let same : s'.db.sessions ≡ s.db.sessions = ground (arith, h, g, t) in
      rw same (subst (λ i. latest (is_other user i) s.db.sessions ≡ none) named o)
  | inr (f, t) ↦
      let named : r.session_id ≡ some f.id = ground (arith, h, g, t) in
      let written : s'.db.sessions ≡ put_session (as_skipped f) s.db.sessions =
        ground (arith, h, g, t) in
      rw written (
        latest-put_session user (as_skipped f) s.db.sessions c refl
          (subst (λ i. latest (is_other user i) s.db.sessions ≡ none) named o))
]

-- After a skip in a state where session keys are unique and the session that the skip names, if any,
-- is the only one of the user that is open, `status`, called with the user's own flag, reports the
-- user as skipped and not completed, with no active session and no answers.
pub skip-status :
    {Profile : Type 0} (now user : ℕ) (r : SkipRead) (s s' : Tx (Db Profile))
    → skip now user s ≡ (ok r, s')
    → distinct (map (λ x. x.id) s.db.sessions) ≡ true
    → latest (is_other user r.session_id) s.db.sessions ≡ none
    → (u : User) × (x : StatusRead) × ((get_by_id user s'.db.users ≡ some u)
        × ((status user u.onboarding_completed s').0 ≡ ok x)
        × (x.skipped ≡ true)
        × (x.completed ≡ false)
        × (x.active_session_id ≡ none)
        × (x.answered_count ≡ 0))
unfolding skip status
skip-status now user r s s' h c o = elim (Option-cases (get_by_id user s.db.users)) [
  | inl g ↦ absurd (ground (arith, h, g))
  | inr (u, g) ↦
      let f = get_by_id-found user u s.db.users g in
      let p =
        get_by_id-put_user user u (stamp now u) s.db.users g (ground arith) f.0
          (ground (arith, f)) in
      let a = skip-inactive now user r s s' u h g c o in
      let users : s'.db.users ≡ put_user (stamp now u) s.db.users =
        elim (Option-cases (skip_target user u s.db)) [
          | inl t ↦ ground (arith, h, g, t)
          | inr (x, t) ↦ ground (arith, h, g, t)
        ] in
      let open_flag : u.onboarding_completed ≡ false = ground (arith, h, g) in
      let q : get_by_id user s'.db.users ≡ some (stamp now u) = rw users p in
      (
        stamp now u,
        no_session false true none,
        (q, ground (arith, a, q, open_flag), refl, refl, refl, refl),
      )
]
