-- ===== src/Generation/Flow/Steps.antt =====
-- All the transactions that write the tables of the tasks, as the steps of one relation, and runs of
-- them in any order. The call of the queue, `queue_generation_task`, follows a commit and is no step: it
-- writes no table if the queue is reachable, and what it does to a task if it is not stands in
-- Generation.Laws.Refusals.
use doc_manage_and_generatio.Prelude.{
  ℕ, String, Bool, Option, List, ◌≡◌, ◌≢◌, Memᴰ, subst, sym, refl,
}
use doc_manage_and_generatio.Outcome.{ok}
use doc_manage_and_generatio.Schema.{Request}
use doc_manage_and_generatio.Generation.Schema.{
  ConfirmedFact, GenerationTask, GeneratedSection, GenerationTraceEvent, Store,
}
use doc_manage_and_generatio.Generation.Events.{Event, emit}
use doc_manage_and_generatio.Generation.Requests.{Creator, create_generation_task}
use doc_manage_and_generatio.Generation.Context.{NewTask}
use doc_manage_and_generatio.Generation.Sources.{
  add_generation_sources, prepare_fact_confirmation, start_compilation_pipeline,
}
use doc_manage_and_generatio.Generation.Compile.{
  Checks, confirm_generation_facts, request_generation, confirm_and_request_generation,
  retry_generation_task, stop_generation_task, delete_generation_task,
}
use doc_manage_and_generatio.Generation.Sections.{
  Edit, edit_generated_section, set_section_lock, request_section_regeneration,
  lock_all_valid_sections,
}
use doc_manage_and_generatio.Generation.Drafts.{Draft, save_draft, lock_draft}
use doc_manage_and_generatio.Generation.Review.{submit_generation_review, approve_generation_task}
use doc_manage_and_generatio.Generation.Export.{Exporter, export_generation_task}
use doc_manage_and_generatio.Generation.Failures.{Failure, record_failure_rows}
use doc_manage_and_generatio.Generation.Jobs.{
  Claim, claim_generation, complete_generation, claim_extraction, Extraction, complete_extraction,
  save_draft_artifact,
}
use doc_manage_and_generatio.Generation.Queue.{requeue_stale}
use doc_manage_and_generatio.Generation.Flow.Diagram.{Act, Changes}
use doc_manage_and_generatio.Generation.Flow.Requests.{
  request_generation-Changes, submit_generation_review-Changes, approve_generation_task-Changes,
  stop_generation_task-Changes, delete_generation_task-Changes, confirm_generation_facts-Changes,
}
use doc_manage_and_generatio.Generation.Flow.Retry.{
  retry_generation_task-Changes, create_generation_task-Changes,
}
use doc_manage_and_generatio.Generation.Flow.Sections.{
  edit_generated_section-Changes, set_section_lock-Changes, request_section_regeneration-Changes,
  lock_all_valid_sections-Changes, save_draft-Changes, lock_draft-Changes,
}
use doc_manage_and_generatio.Generation.Flow.Events.{
  emit-Changes, prepare_fact_confirmation-Changes,
}
use doc_manage_and_generatio.Generation.Flow.Composite.{
  confirm_and_request_generation-Changes, add_generation_sources-Changes,
  start_compilation_pipeline-Changes, export_generation_task-Changes,
}
use doc_manage_and_generatio.Generation.Flow.Worker.{
  claim_generation-Changes, complete_generation-Changes, claim_extraction-Changes,
  complete_extraction-Changes, record_failure_rows-Changes, requeue_stale-Changes,
  save_draft_artifact-Changes,
}

pub data Step (s s' : Store) : Type 0 where
  task_create :
      (creator : Creator) (request : Request) (data' : NewTask) {made : GenerationTask × Bool}
      → create_generation_task creator request data' s ≡ ok (made, s')
      → Step s s'
  pipeline_start :
      (creator : Creator) (request : Request) (data' : NewTask) (versions : List ℕ)
      {made : GenerationTask × Bool}
      → start_compilation_pipeline creator request data' versions s ≡ ok (made, s')
      → Step s s'
  sources_add :
      (request : Request) (key : ℕ) (versions : List ℕ) {t : GenerationTask}
      → add_generation_sources request key versions s ≡ ok (t, s')
      → Step s s'
  facts_prepare :
      (request : Request) (key : ℕ) {t : GenerationTask}
      → prepare_fact_confirmation request key s ≡ ok (t, s')
      → Step s s'
  facts_confirm :
      (checks : Checks) (request : Request) (key : ℕ) (items : List (Option ConfirmedFact))
      {t : GenerationTask}
      → confirm_generation_facts checks request key items s ≡ ok (t, s')
      → Step s s'
  facts_confirm_and_request :
      (checks : Checks) (request : Request) (key : ℕ) (items : List (Option ConfirmedFact))
      {t : GenerationTask}
      → confirm_and_request_generation checks request key items s ≡ ok (t, s')
      → Step s s'
  generation_request :
      (request : Request) (key : ℕ) {t : GenerationTask}
      → request_generation request key s ≡ ok (t, s')
      → Step s s'
  task_retry :
      (checks : Checks) (request : Request) (key : ℕ) {t : GenerationTask}
      → retry_generation_task checks request key s ≡ ok (t, s')
      → Step s s'
  task_stop :
      (request : Request) (key : ℕ) {t : GenerationTask}
      → stop_generation_task request key s ≡ ok (t, s')
      → Step s s'
  task_delete :
      (request : Request) (key : ℕ) → delete_generation_task request key s ≡ ok s' → Step s s'
  section_edit :
      (request : Request) (key : ℕ) (code : String) (edit : Edit) {x : GeneratedSection}
      → edit_generated_section request key code edit s ≡ ok (x, s')
      → Step s s'
  section_lock :
      (request : Request) (key : ℕ) (code : String) (locked : Bool) {x : GeneratedSection}
      → set_section_lock request key code locked s ≡ ok (x, s')
      → Step s s'
  section_regenerate :
      (request : Request) (key : ℕ) (code instruction : String) (chunks : List String)
      {t : GenerationTask}
      → request_section_regeneration request key code instruction chunks s ≡ ok (t, s')
      → Step s s'
  sections_lock :
      (request : Request) (key : ℕ) {t : GenerationTask}
      → lock_all_valid_sections request key s ≡ ok (t, s')
      → Step s s'
  review_submit :
      (request : Request) (key : ℕ) (comment : String) {t : GenerationTask}
      → submit_generation_review request key comment s ≡ ok (t, s')
      → Step s s'
  review_approve :
      (request : Request) (key : ℕ) (comment : String) {t : GenerationTask}
      → approve_generation_task request key comment s ≡ ok (t, s')
      → Step s s'
  task_export :
      (exporter : Exporter) (request : Request) (key : ℕ) (idempotency_key : String)
      (filename : Option String) {t : GenerationTask}
      → export_generation_task exporter request key idempotency_key filename s ≡ ok (t, s')
      → Step s s'
  extraction_claim :
      (request : Request) (key : ℕ) {claim : Claim}
      → claim_extraction request key s ≡ ok (claim, s')
      → Step s s'
  extraction_complete :
      (request : Request) (key : ℕ) (found : Extraction) {mine : Bool}
      → complete_extraction request key found s ≡ ok (mine, s')
      → Step s s'
  generation_claim :
      (request : Request) (key : ℕ) {claim : Claim}
      → claim_generation request key s ≡ ok (claim, s')
      → Step s s'
  generation_complete :
      (request : Request) (key : ℕ) {mine : Bool}
      → complete_generation request key s ≡ ok (mine, s')
      → Step s s'
  failure_record :
      (request : Request) (retries key : ℕ) (failure : Failure) {recorded : Bool}
      → record_failure_rows request retries key failure s ≡ ok (recorded, s')
      → Step s s'
  event_emit :
      (request : Request) (key : ℕ) (event : Event) {row : GenerationTraceEvent}
      → emit request key event s ≡ ok (row, s')
      → Step s s'
  draft_lock :
      (task : ℕ) (code : String) {x : GeneratedSection}
      → lock_draft task code s ≡ ok (x, s')
      → Step s s'
  artifact_save :
      (request : Request) (key : ℕ) (path : String)
      → save_draft_artifact request key path s ≡ ok s'
      → Step s s'
  -- the key drawn for a new section is the key of none
  draft_save :
      (key : ℕ) (draft : Draft) {x : GeneratedSection}
      → ((y : GeneratedSection) → Memᴰ y s.sections → y.pk ≢ s.next_pk)
      → save_draft key draft s ≡ ok (x, s')
      → Step s s'
  stale_requeue :
      (request : Request) (stale_seconds : ℕ)
      → s' ≡ requeue_stale request stale_seconds s
      → Step s s'

-- the kind of a transaction
abbrev pub kind : {s s' : Store} → Step s s' → Act
kind (task_create creator request data' h) = Act.writing
kind (pipeline_start creator request data' versions h) = Act.requesting_extraction
kind (sources_add request key versions h) = Act.writing
kind (facts_prepare request key h) = Act.requesting_extraction
kind (facts_confirm checks request key items h) = Act.confirming
kind (facts_confirm_and_request checks request key items h) = Act.confirming_and_requesting
kind (generation_request request key h) = Act.requesting
kind (task_retry checks request key h) = Act.retrying
kind (task_stop request key h) = Act.stopping
kind (task_delete request key h) = Act.writing
kind (section_edit request key code edit h) = Act.writing
kind (section_lock request key code locked h) = Act.writing
kind (section_regenerate request key code instruction chunks h) = Act.sending_back
kind (sections_lock request key h) = Act.writing
kind (review_submit request key comment h) = Act.submitting
kind (review_approve request key comment h) = Act.approving
kind (task_export exporter request key idempotency_key filename h) = Act.exporting
kind (extraction_claim request key h) = Act.claiming_extraction
kind (extraction_complete request key found h) = Act.completing_extraction
kind (generation_claim request key h) = Act.claiming_generation
kind (generation_complete request key h) = Act.completing_generation
kind (failure_record request retries key failure h) = Act.failing
kind (event_emit request key event h) = Act.writing
kind (draft_lock task code h) = Act.writing
kind (artifact_save request key path h) = Act.writing
kind (draft_save key draft fresh h) = Act.writing
kind (stale_requeue request stale_seconds h) = Act.recovering

-- Every transaction is a sequence of changes of the tables that the diagram allows to its kind.
pub Step-Changes : (s : Store) {s' : Store} (step : Step s s') → Changes (kind step) s s'
Step-Changes s (task_create creator request data' h) =
    create_generation_task-Changes creator request data' s h
Step-Changes s (pipeline_start creator request data' versions h) =
    start_compilation_pipeline-Changes creator request data' versions s h
Step-Changes s (sources_add request key versions h) =
    add_generation_sources-Changes request key versions s h
Step-Changes s (facts_prepare request key h) = prepare_fact_confirmation-Changes request key s h
Step-Changes s (facts_confirm checks request key items h) =
    confirm_generation_facts-Changes refl checks request key items s h
Step-Changes s (facts_confirm_and_request checks request key items h) =
    confirm_and_request_generation-Changes checks request key items s h
Step-Changes s (generation_request request key h) = request_generation-Changes refl request key s h
Step-Changes s (task_retry checks request key h) =
    retry_generation_task-Changes checks request key s h
Step-Changes s (task_stop request key h) = stop_generation_task-Changes request key s h
Step-Changes s (task_delete request key h) = delete_generation_task-Changes request key s h
Step-Changes s (section_edit request key code edit h) =
    edit_generated_section-Changes request key code edit s h
Step-Changes s (section_lock request key code locked h) =
    set_section_lock-Changes request key code locked s h
Step-Changes s (section_regenerate request key code instruction chunks h) =
    request_section_regeneration-Changes request key code instruction chunks s h
Step-Changes s (sections_lock request key h) = lock_all_valid_sections-Changes request key s h
Step-Changes s (review_submit request key comment h) =
    submit_generation_review-Changes request key comment s h
Step-Changes s (review_approve request key comment h) =
    approve_generation_task-Changes request key comment s h
Step-Changes s (task_export exporter request key idempotency_key filename h) =
    export_generation_task-Changes exporter request key idempotency_key filename s h
Step-Changes s (extraction_claim request key h) = claim_extraction-Changes request key s h
Step-Changes s (extraction_complete request key found h) =
    complete_extraction-Changes request key found s h
Step-Changes s (generation_claim request key h) = claim_generation-Changes request key s h
Step-Changes s (generation_complete request key h) = complete_generation-Changes request key s h
Step-Changes s (failure_record request retries key failure h) =
    record_failure_rows-Changes request retries key failure s h
Step-Changes s (event_emit request key event h) = emit-Changes request key event s h
Step-Changes s (draft_lock task code h) = lock_draft-Changes task code s h
Step-Changes s (artifact_save request key path h) = save_draft_artifact-Changes request key path s h
Step-Changes s (draft_save key draft fresh h) = save_draft-Changes key draft s fresh h
Step-Changes s (stale_requeue request stale_seconds h) =
    subst (Changes Act.recovering s) (sym h) (requeue_stale-Changes request stale_seconds s)

-- Transactions of users and workers, one after another.
pub data Run : Store → Store → Type 0 where
  done : (s : Store) → Run s s
  next : {s mid s' : Store} → Step s mid → Run mid s' → Run s s'
