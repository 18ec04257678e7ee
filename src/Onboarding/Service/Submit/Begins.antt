-- ===== src/Onboarding/Service/Submit/Begins.antt =====
-- About the first half of `_submit_adaptive` of services/onboarding.py.
use hotel_server_v.Base.{
  ℕ, ◌≡◌, refl, Bool, true, false, ◌&&◌, Option, none, some, List, [], ◌∷◌, arith, ◌==◌, nat_eq,
  eqb_iff, if◌then◌else◌, find, inl, inr, Option-cases, Bool-cases, is_some,
}
use hotel_server_v.Base.Exec.{Tx, Result, ok}
use hotel_server_v.Onboarding.Types.{
  Session, Question, Answer, AnswerRow, Status, in_progress, restart_required, Generation,
  generating,
}
use hotel_server_v.Onboarding.Answers.{validate_answer}
use hotel_server_v.Onboarding.Store.{
  Db, get_session, session_question, answers_of, upsert_row, delete_questions_after, put_session,
}
use hotel_server_v.Onboarding.Store.Sessions.{get_session-put_session, owned-get}
use hotel_server_v.Onboarding.Service.{Env, owned}
use hotel_server_v.Onboarding.Service.Submit.{
  Item, Begun, begun, submit_begin, take_item, take_answer, store_answer, located, with_location,
  is_edit, forget_routing,
}

abbrev is_begun : {Profile : Type 0} → Result (Begun Profile) → Bool
is_begun (ok (begun s)) = true
is_begun _ = false

take_answer-keeps :
    (env : Env) (f : Session env.Profile) (q : Question) (a : Answer) (s : Tx (Db env.Profile))
    → is_begun (take_answer env f q a s).0 ≡ false
    → (take_answer env f q a s).1 ≡ s
unfolding store_answer
take_answer-keeps env f q a s h = ground (arith, h)

take_item-keeps :
    (env : Env) (user sid : ℕ) (items : List Item) (s : Tx (Db env.Profile))
    → is_begun (take_item env user sid items s).0 ≡ false
    → (take_item env user sid items s).1 ≡ s
unfolding owned
take_item-keeps env user sid [] s h = refl
take_item-keeps env user sid (i ∷ j ∷ items) s h = refl
take_item-keeps env user sid (i ∷ []) s h =
    elim (Option-cases (find (λ r. r.id == sid && r.user_id == user) s.db.sessions)) [
      | inl e ↦ ground (arith, h, e)
      | inr (f, e) ↦ elim (Option-cases (session_question f.id i.question_id s.db)) [
        | inl n ↦ ground (arith, h, e, n)
        | inr (q, n) ↦ ground (arith, h, e, n, take_answer-keeps env f q i.answer s)
      ]
    ]

-- A submission that does not begin a generation, because it raises or because it repeats an answer
-- that was processed, leaves every table as it was.
pub submit_begin-keeps :
    (env : Env) (user sid : ℕ) (items : List Item) (s : Tx (Db env.Profile))
    → is_begun (submit_begin env user sid items s).0 ≡ false
    → (submit_begin env user sid items s).1 ≡ s
unfolding submit_begin owned
submit_begin-keeps env user sid items s h = ground (arith, h, take_item-keeps env user sid items s)

-- The answer stored for a question of a session.
abbrev pub answer_at : ℕ → ℕ → List AnswerRow → Option Answer
answer_at sid qid rows = elim (find (λ a. a.session_id == sid && a.question_id == qid) rows) [
  | none ↦ none
  | some a ↦ some a.answer
]

answer_at-upsert_row :
    (t p sid qid : ℕ) (a : Answer) (rows : List AnswerRow)
    → answer_at t p (upsert_row sid qid a rows)
      ≡ (if sid == t && qid == p then some a else answer_at t p rows)
unfolding upsert_row
answer_at-upsert_row t p sid qid a [] = ground arith
answer_at-upsert_row t p sid qid a (r ∷ rows) = ground (
  arith,
  answer_at-upsert_row t p sid qid a rows,
  eqb_iff r.session_id sid,
  eqb_iff r.question_id qid,
  eqb_iff sid t,
  eqb_iff qid p,
  eqb_iff r.session_id t,
  eqb_iff r.question_id p,
)

-- The states in which a session takes an answer.
abbrev pub takes_answers : Status → Generation → Bool
takes_answers in_progress generating = false
takes_answers restart_required generating = false
takes_answers in_progress _ = true
takes_answers restart_required _ = true
takes_answers _ _ = false

-- What has to hold of the session, the question and the answer, and what is stored.
pub record Taken (env : Env) (f : Session env.Profile) (q : Question) (item : Item)
    (handed : Session env.Profile) (s s' : Tx (Db env.Profile)) : Type 0 where
  pub takes : takes_answers f.status f.generation_state ≡ true
  pub asked : session_question f.id item.question_id s.db ≡ some q
  pub valid : validate_answer q item.answer ≡ ok tt
  pub generating : handed.generation_state ≡ Generation.generating
  pub marked : get_session f.id s'.saved.sessions ≡ some handed
  pub stored : answer_at f.id q.id s'.saved.answers ≡ some item.answer

located-id :
    (env : Env) (q : Question) (a : Answer) (f : Session env.Profile)
    → (located env q a f).id ≡ f.id
unfolding with_location
located-id env q a f = ground arith

-- The session that is handed on keeps its key, and is the row that is written.
store_answer-written :
    (env : Env) (q : Question) (a : Answer) (e : Option AnswerRow) (f handed : Session env.Profile)
    (s s' : Tx (Db env.Profile))
    → store_answer env q a e f s ≡ (ok (begun handed), s')
    → (handed.id ≡ f.id) × (s'.saved.sessions ≡ put_session handed s.db.sessions)
unfolding store_answer delete_questions_after
store_answer-written env q a e f handed s s' h = elim (Bool-cases (is_edit e a)) [
  | inl b ↦ (ground (arith, h, b, located-id env q a (forget_routing f)), ground (arith, h, b))
  | inr b ↦ (ground (arith, h, b, located-id env q a f), ground (arith, h, b))
]

store_answer-stored :
    (env : Env) (q : Question) (a : Answer) (e : Option AnswerRow) (f handed : Session env.Profile)
    (s s' : Tx (Db env.Profile))
    → is_some (get_session f.id s.db.sessions) ≡ true
    → store_answer env q a e f s ≡ (ok (begun handed), s')
    → (handed.generation_state ≡ generating)
      × (get_session f.id s'.saved.sessions ≡ some handed)
      × (answer_at f.id q.id s'.saved.answers ≡ some a)
unfolding store_answer
store_answer-stored env q a e f handed s s' k h =
    let w = store_answer-written env q a e f handed s s' h in
    let rows = answer_at-upsert_row f.id q.id f.id q.id a in
    (
      ground (arith, h),
      rw w.1 (
          ground
            (arith, k, w.0, eqb_iff f.id f.id, get_session-put_session f.id handed s.db.sessions)),
      ground (
        arith,
        h,
        eqb_iff f.id f.id,
        eqb_iff q.id q.id,
        rows s.db.answers,
        rows (delete_questions_after f.id q.position s.db).answers,
      ),
    )

take_item-Taken :
    (env : Env) (user sid : ℕ) (item : Item) (f handed : Session env.Profile)
    (s s' : Tx (Db env.Profile))
    → owned user sid s ≡ (ok f, s)
    → is_some (get_session f.id s.db.sessions) ≡ true
    → take_item env user sid (item ∷ []) s ≡ (ok (begun handed), s')
    → (q : Question) × Taken env f q item handed s s'
take_item-Taken env user sid item f handed s s' o k h =
    elim (Option-cases (session_question f.id item.question_id s.db)) [
      | inl n ↦ ground (arith, h, o, n)
      | inr (q, n) ↦
          let e = find (λ a. a.question_id == q.id) (answers_of f.id s.db) in
          let st = store_answer-stored env q item.answer e f handed s s' k in
          (
            q,
            record {
              takes = ground (arith, h, o, n);
              asked = n;
              valid = ground (arith, h, o, n);
              generating = ground (arith, h, o, n, st);
              marked = ground (arith, h, o, n, st);
              stored = ground (arith, h, o, n, st);
            },
          )
    ]

-- A submission that begins a generation has exactly one item; its user owns the session, which is in
-- progress or to be restarted and is not generating; the item's question belongs to the session and
-- the answer fits it. Then the answer is committed, and so is
-- the session handed on, which is generating.
pub submit_begin-Taken :
    (env : Env) (user sid : ℕ) (items : List Item) (handed : Session env.Profile)
    (s s' : Tx (Db env.Profile))
    → submit_begin env user sid items s ≡ (ok (begun handed), s')
    → (item : Item) × (f : Session env.Profile) × (q : Question) × ((items ≡ item ∷ [])
        × (owned user sid s ≡ (ok f, s))
        × Taken env f q item handed s s')
unfolding submit_begin owned
submit_begin-Taken env user sid [] handed s s' h = ground (arith, h)
submit_begin-Taken env user sid (i ∷ j ∷ items) handed s s' h = ground (arith, h)
submit_begin-Taken env user sid (item ∷ []) handed s s' h =
    elim (Option-cases (find (λ r. r.id == sid && r.user_id == user) s.db.sessions)) [
      | inl e ↦ ground (arith, h, e)
      | inr (f, e) ↦
          let o : owned user sid s ≡ (ok f, s) = ground (arith, e) in
          let row = owned-get sid user f s.db.sessions e in
          let k : is_some (get_session f.id s.db.sessions) ≡ true = rw row.0 row.2 in
          let (q, t) = take_item-Taken env user sid item f handed s s' o k (ground (arith, h, e)) in
          (item, f, q, (refl, o, t))
    ]
