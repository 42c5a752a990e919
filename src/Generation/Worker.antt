-- ===== src/Generation/Worker.antt =====
-- apps/document_generation/jobs.py: the jobs. Between the claim of a task and its completion the
-- engine runs: it is the argument `engine` or `extract`, which gives the exception that it raised or
-- what it found, and the store as its own calls leave it.
use doc_manage_and_generatio.Prelude.{
  ℕ, String, not, ◌&&◌, Option, none, some, ◌==◌, if◌then◌else◌, any, ◌⊎◌, inl, inr,
}
use doc_manage_and_generatio.Outcome.{Result, ok, err}
use doc_manage_and_generatio.Schema.{Request}
use doc_manage_and_generatio.Generation.Schema.{Store}
use doc_manage_and_generatio.Generation.Guards.{locked_task, is_queued, is_in_review}
use doc_manage_and_generatio.Generation.Events.{Event, emit}
use doc_manage_and_generatio.Generation.Compile.{is_extract}
use doc_manage_and_generatio.Generation.Failures.{Failure, needs_evidence, record_failure}
use doc_manage_and_generatio.Generation.Jobs.{
  not_mine, project_archived, claimed, claim_generation, complete_generation, task_is_cancelled,
  is_being_extracted, claim_extraction, Extraction, complete_extraction,
}

-- what a job returns, or the exception that the queue sees
pub data JobResult : Type 0 where
  returned : String → JobResult
  raised : JobResult

abbrev raise_or {ℓ} : {A : Type ℓ} → Store → Result A → (A → JobResult × Store) → JobResult × Store
raise_or s (err e) next = (raised, s)
raise_or s (ok a) next = next a

-- the `except` of `_run_document_generation`
unfoldable pub handle_failure : Request → ℕ → ℕ → Failure → Store → JobResult × Store
handle_failure request retries key failure s =
    if task_is_cancelled key s
    then (returned "cancelled", s)
    else raise_or s (record_failure request retries key failure s) (λ recorded.
      if needs_evidence failure
      then (returned "needs_confirmation", recorded)
      else if any (λ t. t.pk == key && is_in_review t.status) recorded.tasks
      then (returned "review_required", recorded)
      else (raised, recorded))

module _ (engine : Store → Option Failure × Store) where
  -- `_run_document_generation`, with the retries that are left
  unfoldable pub run_document_generation : Request → ℕ → ℕ → Store → JobResult × Store
  unfolding handle_failure
  run_document_generation request retries key s =
      raise_or s (claim_generation request key s) (λ (claim, begun). elim claim [
        | not_mine ↦ (returned "skipped", begun)
        | project_archived ↦ (returned "failed", begun)
        | claimed ↦
            let (outcome, left) = engine begun in
            elim outcome [
              | some failure ↦ handle_failure request retries key failure left
              | none ↦ raise_or left (complete_generation request key left) (λ (mine, done).
                  if mine then (returned "completed", done) else (returned "superseded", done))
            ]
      ])

abbrev pub workflow_stopped : Event
workflow_stopped = record { stage = "failed"; tool = "stop_workflow"; status = "failed" }

abbrev pub facts_ready : Event
facts_ready = record {
  stage = "completed";
  tool = "wait_for_fact_confirmation";
  status = "succeeded";
}

-- the `except` of `_run_fact_extraction`
unfoldable pub handle_extraction_failure : Request → ℕ → ℕ → Failure → Store → JobResult × Store
handle_extraction_failure request retries key failure s =
    if task_is_cancelled key s
    then (returned "cancelled", s)
    else raise_or s (emit request key workflow_stopped s) (λ (event, traced).
      raise_or traced (record_failure request retries key failure traced)
        (λ recorded. (raised, recorded)))

module _ (extract : Store → (Failure ⊎ Extraction) × Store) where
  unfoldable pub run_fact_extraction : Request → ℕ → ℕ → Store → JobResult × Store
  unfolding handle_extraction_failure
  run_fact_extraction request retries key s =
      raise_or s (claim_extraction request key s) (λ (claim, begun). elim claim [
        | not_mine ↦ (returned "skipped", begun)
        | project_archived ↦ (returned "failed", begun)
        | claimed ↦
            let (outcome, left) = extract begun in
            elim outcome [
              | inl failure ↦ handle_extraction_failure request retries key failure left
              | inr found ↦
                  raise_or left (complete_extraction request key found left) (λ (mine, done).
                    if mine
                    then raise_or done (emit request key facts_ready done)
                        (λ (event, traced). (returned "extracted", traced))
                    else (returned "superseded", done))
            ]
      ])

module _ (engine : Store → Option Failure × Store)
    (extract : Store → (Failure ⊎ Extraction) × Store) where
  -- `run_generation_task`: the task's operation and status say which of the two it is
  unfoldable pub run_generation_task : Request → ℕ → ℕ → Store → JobResult × Store
  unfolding run_document_generation run_fact_extraction
  run_generation_task request retries key s = raise_or s (locked_task s key) (λ t.
      if is_being_extracted t
      then run_fact_extraction extract request retries key s
      else if not (is_extract t.operation) && is_queued t.status
      then run_document_generation engine request retries key s
      else (returned "skipped", s))
