-- ===== src/Generation/Laws/Completes.antt =====
-- A job brings its task to the review.
use doc_manage_and_generatio.Prelude.{
  ℕ, true, false, Option, none, some, List, [], ◌≡◌, refl, inl, inr, ◌⊎◌, arith, ap, ◌∙◌, ◌==◌,
  find?,
}
use doc_manage_and_generatio.Outcome.{Result-cases, ok}
use doc_manage_and_generatio.Schema.{Request}
use doc_manage_and_generatio.Generation.Schema.{Status, Operation, GenerationTask, Store}
use doc_manage_and_generatio.Generation.Guards.{find_task, locked_task, put_task, log_as}
use doc_manage_and_generatio.Generation.Failures.{Failure, set_conversations, set_parse_status}
use doc_manage_and_generatio.Generation.Jobs.{
  claimed, is_archived_project, started_task, claim_generation, complete_conversations,
  complete_generation, Extraction,
}
use doc_manage_and_generatio.Generation.Worker.{
  returned, run_document_generation, run_generation_task,
}
use doc_manage_and_generatio.Generation.Laws.Stops.{put_task-found}

-- the task stands in the table with a status
pub record Stands (key : ℕ) (status : Status) (s : Store) : Type 0 where
  pub task : GenerationTask
  pub found : find_task s key ≡ some task
  pub has_status : task.status ≡ status

-- A claim of a queued task of an active project goes through.
claim-Stands :
    (request : Request) (key : ℕ) (s : Store) {t : GenerationTask}
    → find_task s key ≡ some t
    → t.status ≡ Status.queued
    → is_archived_project s t ≡ false
    → (begun : Store) × (claim_generation request key s ≡ ok (claimed, begun))
      × Stands key Status.generating begun
unfolding claim_generation locked_task started_task set_conversations set_parse_status
claim-Stands request key s {t} e q a = elim (Result-cases (claim_generation request key s)) [
  | inl (error, r) ↦ ground arith
  | inr ((claim, begun), r) ↦
      let u : GenerationTask = record (started_task request t) {
        status = Status.generating;
        progress = 40;
      } in
      let is_claim : claim_generation request key s ≡ ok (claimed, begun) = ground arith in
      let written : begun.tasks ≡ put_task u s.tasks = ground arith in
      (
        begun,
        is_claim,
        record {
          task = u;
          found =
              ap (λ (xs : List GenerationTask). find? (λ y. y.pk == key) xs) written
              ∙ put_task-found s key u e refl;
          has_status = refl;
        },
      )
]

complete-Stands :
    (request : Request) (key : ℕ) (s : Store)
    → Stands key Status.generating s
    → (done : Store) × (complete_generation request key s ≡ ok (true, done))
      × Stands key Status.review_required done
unfolding complete_generation locked_task complete_conversations set_parse_status log_as
complete-Stands request key s p = elim (Result-cases (complete_generation request key s)) [
  | inl (error, r) ↦ ground (arith, p.found, p.has_status)
  | inr ((mine, done), r) ↦
      let u : GenerationTask = record p.task {
        status = Status.review_required;
        progress = 90;
        pending_section_codes = [];
        completed_at = some (request.now 3);
        updated_at = request.now 4;
      } in
      let is_mine : complete_generation request key s ≡ ok (true, done) =
        ground (arith, p.found, p.has_status) in
      let written : done.tasks ≡ put_task u s.tasks = ground (arith, p.found, p.has_status) in
      (
        done,
        is_mine,
        record {
          task = u;
          found =
              ap (λ (xs : List GenerationTask). find? (λ y. y.pk == key) xs) written
              ∙ put_task-found s key u p.found refl;
          has_status = refl;
        },
      )
]

-- The job of a queued task of an active project, whose engine raises nothing and leaves a task that it
-- finds generating in that status, reports that it completed, and the task then waits for its review.
pub generation_job_completes :
    (engine : Store → Option Failure × Store) (extract : Store → (Failure ⊎ Extraction) × Store)
    (request : Request) (retries key : ℕ) (s : Store) {t : GenerationTask}
    → find_task s key ≡ some t
    → t.operation ≡ Operation.generate
    → t.status ≡ Status.queued
    → is_archived_project s t ≡ false
    → ((begun : Store)
        → Stands key Status.generating begun
        → ((engine begun).0 ≡ none) × Stands key Status.generating (engine begun).1)
    → (done : Store) × (run_generation_task engine extract request retries key s
        ≡ (returned "completed", done))
      × Stands key Status.review_required done
unfolding run_generation_task run_document_generation locked_task
generation_job_completes engine extract request retries key s {t} e g q a works =
    let (begun, claim, stands) = claim-Stands request key s e q a in
    let (quiet, kept) = works begun stands in
    let (done, complete, end) = complete-Stands request key (engine begun).1 kept in
    (done, ground arith, end)
