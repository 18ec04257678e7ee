-- ===== src/Onboarding/Service/Ask/Induction.antt =====
-- Induction over the steps of Onboarding/Service/Ask.antt.
use hotel_server_v.Base.{ℕ, String, ◌≡◌, not, ◌&&◌, Option, none, some, ltb, leb}
use hotel_server_v.Base.Exec.{Exec, Tx, pure, raise, ◌>>=◌}
use hotel_server_v.Base.Exec.Keeps.{Keeps, Keeps-bind, Keeps-if}
use hotel_server_v.Errors.{dependency_unavailable}
use hotel_server_v.Onboarding.Types.{AdaptiveQuestion}
use hotel_server_v.Onboarding.Questions.{Verdict, accepted, rejected, duplicate, validate_question}
use hotel_server_v.Onboarding.Store.{Db}
use hotel_server_v.Onboarding.Service.{
  Env, Draw, Reply, decided, provider_error, crashed, mark_generation_failed,
}
use hotel_server_v.Onboarding.Service.Ask.{
  Inferred, Outcome, done, provider_raised, Asked, call, finish_questionnaire,
  persist_next_question, check_replacement, replacement, on_verdict, next_question, corrected,
  first_reply, settle, gate, record_signals, finish, persist, on_replacement, gate_reason,
  is_clarification, clarifications, or_text,
}

module _ (env : Env) (draw : Draw) (sid : ℕ) (P : Tx (Db env.Profile) → Type 0)
    (calls : (n : ℕ) (s : Tx (Db env.Profile)) → P s → P (call env draw n s).1)
    (finishes : (o : Option String) (s : Tx (Db env.Profile))
      → P s
      → P (finish_questionnaire env draw sid o s).1)
    (persists : (q : AdaptiveQuestion) (s : Tx (Db env.Profile))
      → P s
      → P (persist_next_question env draw sid q s).1)
    (fails : (s : Tx (Db env.Profile)) → P s → P (mark_generation_failed sid s).1) where
  -- The action keeps `P`.
  abbrev K : {A : Type 0} → Exec (Db env.Profile) A → Type 0
  K m = Keeps P m

  finish-keeps : (reason : Option String) → K (finish env draw sid reason)
  finish-keeps reason =
      Keeps-bind P (finish_questionnaire env draw sid reason) (λ x. pure (done x)) (finishes reason)
        (λ a s h. h)

  persist-keeps : (q : AdaptiveQuestion) → K (persist env draw sid q)
  persist-keeps q =
      Keeps-bind P (persist_next_question env draw sid q) (λ x. pure (done x)) (persists q)
        (λ a s h. h)

  module _ (a : Asked) (same : a.sid ≡ sid) where
    verdict-keeps : (q : AdaptiveQuestion) (v : Verdict) → K (on_replacement env draw a q v)
    verdict-keeps q accepted s h = rw same (persist-keeps q s h)
    verdict-keeps q rejected s h = h
    verdict-keeps q duplicate s h = h

    check_replacement-keeps : (o : Option AdaptiveQuestion) → K (check_replacement env draw a o)
    check_replacement-keeps none s h = h
    check_replacement-keeps (some q) s h =
        verdict-keeps q (validate_question env.rendering q a.existing a.rows) s h

    replacement-keeps : (i : Inferred) (r : Reply) → K (replacement env draw a i r)
    unfolding replacement
    replacement-keeps i (decided d) s h =
        Keeps-if P
          (leb 5 a.answered
            && (gate env draw a.sid (record_signals i d.inferred_signals) s.db).ready)
          _ _ (rw same (finish-keeps (gate_reason env draw d)))
          (Keeps-if P d.questionnaire_complete _ _ (λ t k. k) (check_replacement-keeps d.question))
          s h
    replacement-keeps i (provider_error m) s h = h
    replacement-keeps i crashed s h = h

    on_verdict-keeps :
        (i : Inferred) (q : AdaptiveQuestion) (v : Verdict) → K (on_verdict env draw a i q v)
    on_verdict-keeps i q accepted s h = rw same (persist-keeps q s h)
    on_verdict-keeps i q rejected s h = h
    on_verdict-keeps i q duplicate s h =
        Keeps-bind P (call env draw 2) (replacement env draw a i) (calls 2) (replacement-keeps i) s
          h

    next_question-keeps :
        (i : Inferred) (o : Option AdaptiveQuestion) → K (next_question env draw a i o)
    unfolding next_question
    next_question-keeps i none s h = h
    next_question-keeps i (some q) s h =
        Keeps-if P (leb 8 a.answered && not (is_clarification q.question_kind)) _ _ (λ t k. k)
          (Keeps-if P (is_clarification q.question_kind && leb 1 (clarifications env draw a)) _ _
            (λ t k. k) (on_verdict-keeps i q (validate_question env.rendering q a.existing a.rows)))
          s h

    corrected-keeps : (i : Inferred) (r : Reply) → K (corrected env draw a i r)
    unfolding corrected
    corrected-keeps i (decided d) s h =
        let i' = record_signals i d.inferred_signals in
        Keeps-if P d.questionnaire_complete _ _
          (Keeps-if P (gate env draw a.sid i' s.db).ready _ _
            (rw same (finish-keeps (or_text d.completion_reason "SUFFICIENT_SIGNAL"))) (λ t k. k))
          (next_question-keeps i' d.question) s h
    corrected-keeps i (provider_error m) s h = h
    corrected-keeps i crashed s h = h

    first_reply-keeps : (i : Inferred) (r : Reply) → K (first_reply env draw a i r)
    unfolding first_reply
    first_reply-keeps i (decided d) s h =
        let i' = record_signals i d.inferred_signals in
        Keeps-if P (leb 5 a.answered && (gate env draw a.sid i' s.db).ready) _ _
          (rw same (finish-keeps (gate_reason env draw d)))
          (Keeps-if P (not d.questionnaire_complete) _ _ (next_question-keeps i' d.question) (
            Keeps-if P (ltb a.answered 5) _ _ (λ t k. k)
              (Keeps-bind P (call env draw 1) (corrected env draw a i') (calls 1)
                (corrected-keeps i'))))
          s h
    first_reply-keeps i (provider_error m) s h = h
    first_reply-keeps i crashed s h = h

    settle-keeps : (o : Outcome) → K (settle env draw a.sid o)
    settle-keeps (done x) s h = h
    settle-keeps (provider_raised m) s h = rw same (
        Keeps-bind P (mark_generation_failed sid) (λ _. raise (dependency_unavailable m)) fails
          (λ x s h. h) s h)

    -- From the state after the first call on, everything is kept.
    pub reply-keeps :
        (i : Inferred) (r : Reply) → K (first_reply env draw a i r >>= settle env draw a.sid)
    reply-keeps i r =
        Keeps-bind P (first_reply env draw a i r) (settle env draw a.sid) (first_reply-keeps i r)
          settle-keeps
