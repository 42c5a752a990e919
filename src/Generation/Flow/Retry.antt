-- ===== src/Generation/Flow/Retry.antt =====
-- A retry, and the making of a task, change the tables along the diagram.
use doc_manage_and_generatio.Prelude.{
  ℕ, ◌≤◌, String, Bool, true, false, inl, some, List, [], ◌≡◌, refl, inr, arith, subst, Bool-cases,
  Option-cases, find?, str_eq, not, ◌&&◌,
}
use doc_manage_and_generatio.Text.{strip}
use doc_manage_and_generatio.Outcome.{ok, Result-cases}
use doc_manage_and_generatio.Schema.{Request}
use doc_manage_and_generatio.Generation.Schema.{Status, Operation, GenerationTask, Store}
use doc_manage_and_generatio.Generation.Guards.{
  find_task, locked_task, ensure_status, log, on_commit, add_review,
}
use doc_manage_and_generatio.Prelude.{ap, ◌∙◌}
use doc_manage_and_generatio.Generation.Schema.{DocumentTemplate, ConversationContext}
use doc_manage_and_generatio.Generation.Requests.{
  Creator, new_task, insert_task, create_generation_task, normalize_facts, made_with,
}
use doc_manage_and_generatio.Generation.Context.{
  with_layout, unread_layout, context_of, normalize_conversation_context, NewTask, chosen_personnel,
}
use doc_manage_and_generatio.Generation.Compile.{
  Checks, Agent-cases, is_extract, is_retryable, confirmed_facts, confirmed_entries, requeued,
  unconfirmed, retry_requeued, retry_unconfirmed, retry_evidence, retry_generation_task,
}
use doc_manage_and_generatio.Generation.Flow.Diagram.{
  Act, Edge, failure_retried, extraction_retried, is_after_retry, unchanged, task_created, Changes,
  one, saves,
}

is_failed : Status → Bool
is_failed x = elim x [ Status.failed ↦ true | _ ↦ false ]

-- where a retry sends a task
retry-Edge :
    (now : ℕ) (t : GenerationTask)
    → is_retryable t.operation t.status ≡ true
    → Edge t.status (requeued now t).status Act.retrying
unfolding is_failed is_retryable requeued is_after_retry
retry-Edge now t h = elim (Bool-cases (is_failed t.status)) [
  | inl e ↦ failure_retried (ground arith) (ground arith)
  | inr e ↦ extraction_retried (ground arith) (ground arith)
]

unconfirmed-Edge :
    (a : Status) (now : ℕ) (fields : List String) (t : GenerationTask)
    → is_retryable Operation.generate a ≡ true
    → Edge a (unconfirmed now fields t).status Act.retrying
unfolding is_retryable unconfirmed is_after_retry
unconfirmed-Edge a now fields t h = failure_retried (ground arith) refl

requeued-progress : (now : ℕ) (t : GenerationTask) → (requeued now t).progress ≤ 100
unfolding requeued
requeued-progress now t = ground arith

-- The task `x` stands in the table; `y` is it, with its own facts or those that were found again.
requeued-Changes :
    (request : Request) (key : ℕ) (s : Store) {x : GenerationTask} (y : GenerationTask) {s' : Store}
    → find_task s key ≡ some x
    → y.pk ≡ x.pk
    → y.status ≡ x.status
    → is_retryable y.operation y.status ≡ true
    → (retry_requeued request y s).1 ≡ s'
    → Changes Act.retrying s s'
unfolding retry_requeued requeued log on_commit add_review
requeued-Changes request key s y e pk status ready h =
    saves s key (requeued (request.now 0) y) e (ground arith) (ground arith)
      (inr (
        subst (λ a. Edge a (requeued (request.now 0) y).status Act.retrying) status
          (retry-Edge (request.now 0) y ready)))
      (λ p. requeued-progress (request.now 0) y) (ground arith) (ground arith)

unconfirmed-Changes :
    (request : Request) (fields : List String) (key : ℕ) (s : Store) (x : GenerationTask)
    {s' : Store}
    → find_task s key ≡ some x
    → is_retryable Operation.generate x.status ≡ true
    → (retry_unconfirmed request fields x s).1 ≡ s'
    → Changes Act.retrying s s'
unfolding retry_unconfirmed unconfirmed log on_commit add_review
unconfirmed-Changes request fields key s x e ready h =
    saves s key (unconfirmed (request.now 0) fields x) e refl (ground arith)
      (inr (unconfirmed-Edge x.status (request.now 0) fields x ready)) (λ p. ground arith)
      (ground arith) (ground arith)

evidence-Changes :
    (checks : Checks) (request : Request) (key : ℕ) (s : Store) (x : GenerationTask)
    {t : GenerationTask} {s' : Store}
    → find_task s key ≡ some x
    → is_extract x.operation ≡ false
    → is_retryable x.operation x.status ≡ true
    → retry_evidence checks request x s ≡ ok (t, s')
    → Changes Act.retrying s s'
unfolding retry_evidence
evidence-Changes checks request key s x e generates ready h =
    elim (Result-cases (confirmed_facts x.facts_snapshot)) [
      | inl (error, f) ↦ ground arith
      | inr (facts, f) ↦ elim (Agent-cases (checks.canonicalize s x facts)) [
        | inl (code, fields, c) ↦
            unconfirmed-Changes request fields key s x e (ground arith) (ground arith)
        | inr (canonical, c) ↦
            requeued-Changes request key s
              (record x { facts_snapshot = confirmed_entries canonical; fact_conflicts = [] }) e
              refl refl ready (ground arith)
      ]
    ]

pub retry_generation_task-Changes :
    (checks : Checks) (request : Request) (key : ℕ) (s : Store) {t : GenerationTask} {s' : Store}
    → retry_generation_task checks request key s ≡ ok (t, s')
    → Changes Act.retrying s s'
unfolding retry_generation_task locked_task ensure_status
retry_generation_task-Changes checks request key s {t} {s'} h =
    elim (Option-cases (find_task s key)) [
      | inl e ↦ ground arith
      | inr (x, e) ↦
          let ready : is_retryable x.operation x.status ≡ true = ground arith in
          elim (Bool-cases
            (not (is_extract x.operation) && str_eq x.error_code "FACT_EVIDENCE_INVALID")) [
              | inl c ↦
                  let again : retry_evidence checks request x s ≡ ok (t, s') = ground arith in
                  evidence-Changes checks request key s x e (ground arith) ready again
              | inr c ↦ requeued-Changes request key s x e refl refl ready (ground arith)
            ]
    ]

-- The context of a creation writes the layout of a template only.
pub with_layout-same :
    (infer_layout : String → String) (s : Store) (template : DocumentTemplate)
    → let kept = with_layout infer_layout s template in
      (kept.tasks ≡ s.tasks)
      × (kept.sections ≡ s.sections)
      × (kept.events ≡ s.events)
      × (kept.db ≡ s.db)
      × (kept.files ≡ s.files)
      × (kept.profiles ≡ s.profiles)
      × (kept.prompts ≡ s.prompts)
unfolding with_layout
with_layout-same infer_layout s template =
    elim (Option-cases (unread_layout infer_layout s template)) [
      | inl e ↦ ground (arith, e)
      | inr (path, e) ↦ ground (arith, e)
    ]

-- what a context that is found is
pub normalize_conversation_context-ok :
    (infer_layout : String → String) (s : Store) (data' : NewTask) {context : ConversationContext}
    {kept : Store}
    → normalize_conversation_context infer_layout s data' ≡ ok (context, kept)
    → (keys : List ℕ) × (chosen_personnel s.db data'.selected_personnel_ids ≡ ok keys)
      × (context ≡ context_of infer_layout s data' keys)
      × (kept ≡ with_layout infer_layout s data'.template)
unfolding normalize_conversation_context
normalize_conversation_context-ok infer_layout s data' h =
    elim (Result-cases (chosen_personnel s.db data'.selected_personnel_ids)) [
      | inl (error, p) ↦ ground arith
      | inr (keys, p) ↦ (keys, p, ground arith, ground arith)
    ]

pub create_generation_task-Changes :
    {act : Act} (creator : Creator) (request : Request) (data' : NewTask) (s : Store)
    {made : GenerationTask × Bool} {s' : Store}
    → create_generation_task creator request data' s ≡ ok (made, s')
    → Changes act s s'
unfolding create_generation_task insert_task new_task log
create_generation_task-Changes creator request data' s {made} {s'} h =
    elim (Result-cases (normalize_facts [] data'.initial_facts)) [
      | inl (error, f) ↦ ground arith
      | inr (facts, f) ↦
          elim (Result-cases (normalize_conversation_context creator.infer_layout s data')) [
            | inl (error, p) ↦ ground arith
            | inr ((context, kept), p) ↦
                let (keys, q, c, k) =
                  normalize_conversation_context-ok creator.infer_layout s data' p in
                let (a, b, d, e1, e2, e3, e4) =
                  with_layout-same creator.infer_layout s data'.template in
                let ta : kept.tasks ≡ s.tasks = ap (λ (x : Store). x.tasks) k ∙ a in
                let tb : kept.sections ≡ s.sections = ap (λ (x : Store). x.sections) k ∙ b in
                let td : kept.events ≡ s.events = ap (λ (x : Store). x.events) k ∙ d in
                elim (Option-cases
                  (find? (made_with request (strip data'.idempotency_key)) kept.tasks)) [
                    | inr (t, m) ↦ one (unchanged (ground arith) (ground arith) (ground arith))
                    | inl m ↦ one (
                        task_created made.0 (ground arith) (ground arith) (ground arith)
                          (ground arith) (ground arith))
                  ]
          ]
    ]
