-- ===== src/Onboarding/Service/Start/Fresh.antt =====
-- About `start` of services/onboarding.py for a user without an open session.
use hotel_server_v.Base.{
  ℕ, ◌≡◌, refl, true, false, ◌&&◌, none, some, List, [], ◌∷◌, ◌++◌, arith, ◌==◌, nat_eq, eqb_iff,
  find, keep, any, count_if,
}
use hotel_server_v.Base.Exec.{ok, request}
use hotel_server_v.Onboarding.Types.{Session, Question, AnswerRow, in_progress}
use hotel_server_v.Onboarding.Questions.{location_question, question_row}
use hotel_server_v.Onboarding.Store.{
  Db, active_session, get_session, put_session, of_session, session_questions, answers_of, counts,
  add_session_question, fresh_session,
}
use hotel_server_v.Onboarding.Service.{Env, Draw, SessionRead, owned, session_read, is_anthropic}
use hotel_server_v.Onboarding.Service.Start.{start}

module _ {Profile : Type 0} where
  owned-append_one :
      (new : Session Profile) (ss : List (Session Profile))
      → get_session new.id ss ≡ none
      → find (λ s. s.id == new.id && s.user_id == new.user_id) (ss ++ new ∷ []) ≡ some new
  unfolding get_session
  owned-append_one new [] h = ground (arith, eqb_iff new.id new.id, eqb_iff new.user_id new.user_id)
  owned-append_one new (s ∷ ss) h = ground (arith, h, owned-append_one new ss)

keep-append_one :
    (sid : ℕ) (q : Question) (qs : List Question)
    → q.session_id ≡ sid
    → keep (of_session sid) qs ≡ []
    → keep (of_session sid) (qs ++ q ∷ []) ≡ q ∷ []
keep-append_one sid q [] e h = ground (arith, e, eqb_iff q.session_id sid)
keep-append_one sid q (p ∷ qs) e h = ground (arith, e, h, keep-append_one sid q qs)

count-append_one :
    (sid : ℕ) (q : Question) (qs : List Question)
    → q.session_id ≡ sid
    → keep (of_session sid) qs ≡ []
    → count_if (of_session sid) (qs ++ q ∷ []) ≡ 1
count-append_one sid q [] e h = ground (arith, e, eqb_iff q.session_id sid)
count-append_one sid q (p ∷ qs) e h = ground (arith, e, h, count-append_one sid q qs)

not-taken :
    (sid position : ℕ) (qs : List Question)
    → keep (of_session sid) qs ≡ []
    → any (λ p. of_session sid p && p.position == position) qs ≡ false
not-taken sid position [] h = refl
not-taken sid position (p ∷ qs) h = ground (arith, h, not-taken sid position qs)

count-none :
    (sid : ℕ) (rows : List AnswerRow)
    → keep (λ a. a.session_id == sid) rows ≡ []
    → count_if (λ a. a.session_id == sid) rows ≡ 0
count-none sid [] h = refl
count-none sid (a ∷ rows) h = ground (arith, h, count-none sid rows)

abbrev pub first : Env → Draw → Question
first env draw =
    question_row env.provider (some "deterministic") (some "deterministic-location-v1")
      draw.question_id draw.session_id 1 location_question

-- With an Anthropic provider, for a user without an open session, and with identifiers that are not in
-- use, `start` answers with a new session in progress that has no answer and one question, the location question.
pub start-first_question :
    (env : Env) (draw : Draw) (user : ℕ) (d : Db env.Profile)
    → is_anthropic env.provider ≡ true
    → active_session user d ≡ none
    → get_session draw.session_id d.sessions ≡ none
    → keep (of_session draw.session_id) d.questions ≡ []
    → answers_of draw.session_id d ≡ []
    → (r : SessionRead) × (((request (start env draw user) d).0 ≡ ok r)
        × (r.id ≡ draw.session_id)
        × (r.status ≡ in_progress)
        × (r.answered_count ≡ 0)
        × (r.question_count ≡ 1)
        × (r.current_question ≡ some (first env draw, none)))
unfolding start owned session_questions add_session_question put_session session_read answers_of
    counts
start-first_question env draw user d p a s q w =
    let q1 = first env draw in
    let new : Session env.Profile = fresh_session draw.session_id user draw.now in
    (
      session_read new (record d { questions = d.questions ++ q1 ∷ [] }),
      ground (
        arith,
        p,
        a,
        q,
        w,
        owned-append_one new d.sessions s,
        keep-append_one draw.session_id q1 d.questions refl q,
        count-append_one draw.session_id q1 d.questions refl q,
        not-taken draw.session_id 1 d.questions q,
        count-none draw.session_id d.answers w,
      ),
    )
