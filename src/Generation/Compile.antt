-- ===== src/Generation/Compile.antt =====
-- apps/document_generation/services.py: the user confirms the facts, and starts, retries, stops and
-- deletes a task. Each function is one transaction.
use doc_manage_and_generatio.Prelude.{
  ℕ, String, Bool, true, false, not, ◌&&◌, ◌||◌, Option, none, some, List, [], ◌∷◌, map, is_some,
  ◌==◌, str_eq, if◌then◌else◌, any, ◌≡◌, refl, ◌⊎◌, inl, inr,
}
use doc_manage_and_generatio.Outcome.{
  Result, ok, err, ◌>>=◌, ◌>>◌, raise_if, require, generation_error,
}
use doc_manage_and_generatio.Schema.{Request, Actor, success, actor_pk}
use doc_manage_and_generatio.Generation.Schema.{
  Status, Operation, ConfirmedFact, FactEntry, stated, proposed, confirmed, GenerationTask,
  ReviewAction, queue_task, finish_stopping, delete_draft, Store,
}
use doc_manage_and_generatio.Generation.Guards.{
  locked_task, template_of, ensure_active_project, ensure_task_user, ensure_status,
  needs_confirmation, is_ready, is_active_status, has_sources, has_prompt, save_task, add_review,
  plain_review, log, on_commit,
}

-- What the engine answers: a value, or an `AgentError` with its code the fields of its
-- `details["fields"]`, sorted and each once.
pub data Agent {ℓ} (A : Type ℓ) : Type ℓ where
  agent_error : String → List String → Agent A
  gave : A → Agent A

pub Agent-cases {ℓ} :
    {A : Type ℓ} (r : Agent A)
    → ((code : String) × (fields : List String) × (r ≡ agent_error code fields))
      ⊎ ((a : A) × (r ≡ gave a))
Agent-cases (agent_error code fields) = inl (code, fields, refl)
Agent-cases (gave a) = inr (a, refl)

-- The parts of the engine that a confirmation calls. They parse the source files, which the
-- libraries for DOCX and PDF do.
pub record Checks : Type 0 where
  -- `validate_required_fact_value(field, value) is None`
  pub is_valid_value : String → String → Bool
  -- `_canonicalize_confirmed_fact_evidence`
  pub canonicalize : Store → GenerationTask → List ConfirmedFact → Agent (List ConfirmedFact)

-- the sources of the task; with a prompt, the prompt's number is one of them
unfoldable pub is_source_id : Store → GenerationTask → ℕ → Bool
is_source_id s t version =
    any (λ x. x.task == t.pk && x.document_version == version) s.sources
    || has_prompt t && version == 0

unfoldable pub has_locator : ConfirmedFact → Bool
has_locator f =
    is_some f.locator.paragraph_index
    || is_some f.locator.table_index
    || is_some f.locator.page
    || not (str_eq f.locator.text_quote "")

-- The loop over the facts of the request, which stops at the first fault; an item is `none` if
-- `ConfirmedFact.model_validate` refuses it.
unfoldable pub validate_facts :
    Store → GenerationTask → Actor → List (Option ConfirmedFact) → Result (List ConfirmedFact)
validate_facts s t actor [] = ok []
validate_facts s t actor (none ∷ rest) = err (generation_error "FACTS_INCOMPLETE")
validate_facts s t actor (some f ∷ rest) = do
  require (is_source_id s t f.source_document_version_id) (generation_error "FACT_SOURCE_INVALID")
  require (has_locator f) (generation_error "FACT_SOURCE_INVALID")
  facts ← validate_facts s t actor rest
  ok (record f { confirmed_by = actor_pk actor } ∷ facts)

-- `field in {fact.field for fact in confirmed}`
unfoldable pub has_field : List ConfirmedFact → String → Bool
has_field facts field = any (λ f. str_eq f.field field) facts

abbrev pub confirmed_entries : List ConfirmedFact → List FactEntry
confirmed_entries facts = map confirmed facts

-- `[ConfirmedFact.model_validate(value) for value in task.facts_snapshot]`
unfoldable pub confirmed_facts : List FactEntry → Result (List ConfirmedFact)
confirmed_facts [] = ok []
confirmed_facts (confirmed f ∷ rest) = do facts ← confirmed_facts rest; ok (f ∷ facts)
confirmed_facts (stated field value kind ∷ rest) = err (generation_error "FACTS_INCOMPLETE")
confirmed_facts (proposed field value ∷ rest) = err (generation_error "FACTS_INCOMPLETE")

abbrev pub or_api_error {ℓ} : {A : Type ℓ} → Agent A → Result A
or_api_error (agent_error code fields) = err (generation_error code)
or_api_error (gave a) = ok a

unfoldable pub confirm_generation_facts :
    Checks → Request → ℕ → List (Option ConfirmedFact) → Store → Result (GenerationTask × Store)
unfolding plain_review
confirm_generation_facts checks request key items s = do
  t ← locked_task s key
  ensure_task_user s request.actor t
  ensure_active_project s t.project
  ensure_status t needs_confirmation
  facts ← validate_facts s t request.actor items
  template ← template_of s t
  raise_if (any (λ field. not (has_field facts field)) template.required_fact_fields)
      (generation_error "FACTS_INCOMPLETE")
  raise_if
      (any
        (λ (f : ConfirmedFact).
          any (str_eq f.field) template.required_fact_fields
          && not (checks.is_valid_value f.field f.value))
        facts)
      (generation_error "FACTS_INVALID")
  canonical ← or_api_error (checks.canonicalize s t facts)
  let changed = record t {
    facts_snapshot = confirmed_entries canonical;
    fact_conflicts = [];
    status = Status.ready;
    progress = 30;
    error_code = "";
    updated_at = request.now 0;
  }
  let review = plain_review t.pk none ReviewAction.facts_confirmed "" request.actor
  ok (
    changed,
    log request.actor "document_generation.facts.confirm" (some t.pk) success
        (add_review review (save_task changed s)),
  )

unfoldable pub request_generation : Request → ℕ → Store → Result (GenerationTask × Store)
request_generation request key s = do
  t ← locked_task s key
  ensure_task_user s request.actor t
  ensure_active_project s t.project
  ensure_status t is_ready
  let changed = record t {
    status = Status.queued;
    operation = Operation.generate;
    progress = 35;
    completed_at = none;
    error_code = "";
    updated_at = request.now 0;
  }
  ok (
    changed,
    log request.actor "document_generation.generate.queue" (some t.pk) success
        (on_commit (queue_task t.pk) (save_task changed s)),
  )

-- both in one transaction
unfoldable pub confirm_and_request_generation :
    Checks → Request → ℕ → List (Option ConfirmedFact) → Store → Result (GenerationTask × Store)
confirm_and_request_generation checks request key items s = do
  (t, confirmed') ← confirm_generation_facts checks request key items s
  request_generation request t.pk confirmed'

-- `retryable_statuses`
unfoldable pub is_retryable : Operation → Status → Bool
is_retryable operation Status.failed = true
is_retryable Operation.extract Status.needs_confirmation = true
is_retryable operation status = false

abbrev pub is_extract : Operation → Bool
is_extract x = elim x [ Operation.extract ↦ true | Operation.generate ↦ false ]

abbrev pub is_empty {ℓ} : {A : Type ℓ} → List A → Bool
is_empty [] = true
is_empty (x ∷ xs) = false

-- the task as a retry leaves it
unfoldable pub requeued : ℕ → GenerationTask → GenerationTask
requeued now t = record t {
  updated_at = now;
  status = if is_extract t.operation then Status.extracting else Status.queued;
  progress = if is_extract t.operation then 10 else 35;
  completed_at = none;
  error_code = "";
}

-- the task whose sources no longer hold some facts
unfoldable pub unconfirmed : ℕ → List String → GenerationTask → GenerationTask
unconfirmed now fields t = record t {
  updated_at = now;
  status = Status.needs_confirmation;
  progress = 20;
  fact_conflicts = fields;
}

unfoldable pub retry_requeued : Request → GenerationTask → Store → GenerationTask × Store
unfolding plain_review
retry_requeued request t s = (
  requeued (request.now 0) t,
  log request.actor "document_generation.generate.retry" (some t.pk) success (
      on_commit (queue_task t.pk) (
        add_review (plain_review t.pk none ReviewAction.retried "" request.actor)
          (save_task (requeued (request.now 0) t) s))),
)

unfoldable pub retry_unconfirmed :
    Request → List String → GenerationTask → Store → GenerationTask × Store
unfolding plain_review
retry_unconfirmed request fields t s = (
  unconfirmed (request.now 0) fields t,
  log request.actor "document_generation.facts.recovery_required" (some t.pk) success (
      add_review (plain_review t.pk none ReviewAction.retried "来源证据无法自动修复，已回退到人工事实核对" request.actor)
        (save_task (unconfirmed (request.now 0) fields t) s)),
)

-- A retry of a generation whose facts lost their evidence looks for the evidence again.
unfoldable pub retry_evidence :
    Checks → Request → GenerationTask → Store → Result (GenerationTask × Store)
unfolding retry_requeued retry_unconfirmed
retry_evidence checks request t s = do
  facts ← confirmed_facts t.facts_snapshot
  elim (checks.canonicalize s t facts) [
    | agent_error code fields ↦
        if str_eq code "FACT_EVIDENCE_INVALID"
        then ok (retry_unconfirmed request fields t s)
        else err (generation_error code)
    | gave canonical ↦
        let recovered = record t {
          facts_snapshot = confirmed_entries canonical;
          fact_conflicts = [];
        } in
        ok (retry_requeued request recovered s)
  ]

unfoldable pub retry_generation_task :
    Checks → Request → ℕ → Store → Result (GenerationTask × Store)
unfolding retry_requeued
retry_generation_task checks request key s = do
  t ← locked_task s key
  ensure_task_user s request.actor t
  ensure_active_project s t.project
  ensure_status t (is_retryable t.operation)
  raise_if
      (not (is_extract t.operation)
        && (is_empty t.facts_snapshot || not (has_sources s t) && not (has_prompt t)))
      (generation_error "FACTS_INCOMPLETE")
  if not (is_extract t.operation) && str_eq t.error_code "FACT_EVIDENCE_INVALID"
      then retry_evidence checks request t s
      else ok (retry_requeued request t s)

unfoldable pub stop_generation_task : Request → ℕ → Store → Result (GenerationTask × Store)
unfolding plain_review
stop_generation_task request key s = do
  t ← locked_task s key
  ensure_task_user s request.actor t
  ensure_status t is_active_status
  let changed = record t {
    status = Status.cancelled;
    completed_at = some (request.now 0);
    error_code = "";
    updated_at = request.now 1;
  }
  let review = plain_review t.pk none ReviewAction.stopped "用户主动停止编制会话" request.actor
  let logged =
      log request.actor "document_generation.task.stop" (some t.pk) success
        (add_review review (save_task changed s))
  ok (changed, on_commit (finish_stopping t.pk) logged)

abbrev pub delete_draft_of : GenerationTask → Store → Store
delete_draft_of t s =
    if str_eq t.draft_storage_path "" then s else on_commit (delete_draft t.draft_storage_path) s

-- A task that is deleted already stays as it is.
unfoldable pub delete_generation_task : Request → ℕ → Store → Result Store
delete_generation_task request key s = do
  t ← locked_task s key
  ensure_task_user s request.actor t
  raise_if (is_active_status t.status) (generation_error "TASK_STILL_RUNNING")
  let changed = record t {
    deleted_at = some (request.now 0);
    deleted_by = actor_pk request.actor;
    updated_at = request.now 1;
  }
  let logged =
      log request.actor "document_generation.task.delete" (some t.pk) success (save_task changed s)
  if is_some t.deleted_at then ok s else ok (delete_draft_of t logged)
