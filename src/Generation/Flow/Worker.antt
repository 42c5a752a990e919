-- ===== src/Generation/Flow/Worker.antt =====
-- The transactions of the worker, of the queue and of the recovery change the tables along the
-- diagram.
use doc_manage_and_generatio.Prelude.{
  ℕ, ◌-◌, ◌≤◌, String, Bool, true, some, [], ◌≡◌, refl, inl, inr, arith, ◌==◌, subst, Bool-cases,
  Option-cases,
}
use doc_manage_and_generatio.Outcome.{ok}
use doc_manage_and_generatio.Schema.{Request}
use doc_manage_and_generatio.Generation.Schema.{Status, GenerationTask, DocumentTemplate, Store}
use doc_manage_and_generatio.Generation.Guards.{
  find_task, find_template, locked_task, template_of, is_cancelled, is_queued, is_generating,
  put_task, log_as,
}
use doc_manage_and_generatio.Generation.Compile.{unconfirmed}
use doc_manage_and_generatio.Generation.Failures.{
  Failure, error_code, retried_status, failed_task, set_conversations, set_parse_status,
  after_failure, record_failure_rows,
}
use doc_manage_and_generatio.Generation.Jobs.{
  Claim, is_archived_project, fail_archived, started_task, claim_generation, complete_conversations,
  complete_generation, is_being_extracted, claim_extraction, Extraction, complete_extraction,
  save_draft_artifact,
}
use doc_manage_and_generatio.Generation.Queue.{is_stale, interrupted, requeue_stale}
use doc_manage_and_generatio.Generation.Flow.Diagram.{
  Act, facts_extracted, generation_claimed, draft_completed, worker_interrupted,
  generation_archived, extraction_archived, worker_raised, is_after_failure, unchanged,
  tasks_mapped, Changes, one, saves,
}

pub claim_generation-Changes :
    (request : Request) (key : ℕ) (s : Store) {claim : Claim} {s' : Store}
    → claim_generation request key s ≡ ok (claim, s')
    → Changes Act.claiming_generation s s'
unfolding claim_generation locked_task fail_archived started_task set_conversations set_parse_status
claim_generation-Changes request key s h = elim (Option-cases (find_task s key)) [
  | inl e ↦ ground arith
  | inr (x, e) ↦ elim (Bool-cases (is_queued x.status)) [
    | inr q ↦ one (unchanged (ground arith) (ground arith) (ground arith))
    | inl q ↦ elim (Bool-cases (is_archived_project s x)) [
      | inl a ↦
          let failed : GenerationTask = record x {
            status = Status.failed;
            error_code = "PROJECT_ARCHIVED";
            updated_at = request.now 0;
          } in
          saves s key failed e refl (ground arith) (inr (generation_archived (ground arith) refl))
            (λ p. p) (ground arith) (ground arith)
      | inr a ↦
          let claimed_task : GenerationTask = record (started_task request x) {
            status = Status.generating;
            progress = 40;
          } in
          saves s key claimed_task e refl (ground arith)
            (inr (generation_claimed (ground arith) refl)) (λ p. ground arith) (ground arith)
            (ground arith)
    ]
  ]
]

pub complete_generation-Changes :
    (request : Request) (key : ℕ) (s : Store) {mine : Bool} {s' : Store}
    → complete_generation request key s ≡ ok (mine, s')
    → Changes Act.completing_generation s s'
unfolding complete_generation locked_task complete_conversations set_parse_status log_as
complete_generation-Changes request key s h = elim (Option-cases (find_task s key)) [
  | inl e ↦ ground arith
  | inr (x, e) ↦ elim (Bool-cases (is_generating x.status)) [
    | inr q ↦ one (unchanged (ground arith) (ground arith) (ground arith))
    | inl q ↦
        let completed_task : GenerationTask = record x {
          status = Status.review_required;
          progress = 90;
          pending_section_codes = [];
          completed_at = some (request.now 3);
          updated_at = request.now 4;
        } in
        saves s key completed_task e refl (ground arith) (inr (draft_completed (ground arith) refl))
          (λ p. ground arith) (ground arith) (ground arith)
  ]
]

pub claim_extraction-Changes :
    (request : Request) (key : ℕ) (s : Store) {claim : Claim} {s' : Store}
    → claim_extraction request key s ≡ ok (claim, s')
    → Changes Act.claiming_extraction s s'
unfolding claim_extraction locked_task fail_archived started_task
claim_extraction-Changes request key s h = elim (Option-cases (find_task s key)) [
  | inl e ↦ ground arith
  | inr (x, e) ↦ elim (Bool-cases (is_being_extracted x)) [
    | inr q ↦ one (unchanged (ground arith) (ground arith) (ground arith))
    | inl q ↦ elim (Bool-cases (is_archived_project s x)) [
      | inl a ↦
          let failed : GenerationTask = record x {
            status = Status.failed;
            error_code = "PROJECT_ARCHIVED";
            updated_at = request.now 0;
          } in
          saves s key failed e refl (ground arith) (inr (extraction_archived (ground arith) refl))
            (λ p. p) (ground arith) (ground arith)
      | inr a ↦
          saves s key (started_task request x) e refl (ground arith) (inl refl) (λ p. p)
            (ground arith) (ground arith)
    ]
  ]
]

pub complete_extraction-Changes :
    (request : Request) (key : ℕ) (found : Extraction) (s : Store) {mine : Bool} {s' : Store}
    → complete_extraction request key found s ≡ ok (mine, s')
    → Changes Act.completing_extraction s s'
unfolding complete_extraction locked_task set_parse_status log_as
complete_extraction-Changes request key found s h = elim (Option-cases (find_task s key)) [
  | inl e ↦ ground arith
  | inr (x, e) ↦ elim (Bool-cases (is_being_extracted x)) [
    | inr q ↦ one (unchanged (ground arith) (ground arith) (ground arith))
    | inl q ↦
        let extracted : GenerationTask = record x {
          facts_snapshot = found.proposals;
          fact_conflicts = found.conflicts;
          status = Status.needs_confirmation;
          progress = 20;
          completed_at = some (request.now 3);
          updated_at = request.now 4;
        } in
        saves s key extracted e refl (ground arith) (inr (facts_extracted (ground arith) refl))
          (λ p. ground arith) (ground arith) (ground arith)
  ]
]

-- Where a failure sends the task.
failed_task-after :
    (now : ℕ) (s : Store) (template : DocumentTemplate) (retries : ℕ) (failure : Failure)
    (t : GenerationTask)
    → is_after_failure (failed_task now s template retries failure t).status ≡ true
unfolding failed_task unconfirmed is_after_failure retried_status
failed_task-after now s template retries failure t = ground arith

failed_task-progress :
    (now : ℕ) (s : Store) (template : DocumentTemplate) (retries : ℕ) (failure : Failure)
    (t : GenerationTask)
    → t.progress ≤ 100
    → (failed_task now s template retries failure t).progress ≤ 100
unfolding failed_task unconfirmed retried_status
failed_task-progress now s template retries failure t h = ground arith

failed_task-pk :
    (now : ℕ) (s : Store) (template : DocumentTemplate) (retries : ℕ) (failure : Failure)
    (t : GenerationTask)
    → (failed_task now s template retries failure t).pk ≡ t.pk
unfolding failed_task unconfirmed retried_status
failed_task-pk now s template retries failure t = ground arith

after_failure-same :
    (retries : ℕ) (failure : Failure) (t : GenerationTask) (s : Store)
    → ((after_failure retries failure t s).tasks ≡ s.tasks)
      × ((after_failure retries failure t s).sections ≡ s.sections)
      × ((after_failure retries failure t s).events ≡ s.events)
unfolding after_failure set_conversations set_parse_status log_as
after_failure-same retries failure t s = ground arith

pub record_failure_rows-Changes :
    (request : Request) (retries key : ℕ) (failure : Failure) (s : Store) {recorded : Bool}
    {s' : Store}
    → record_failure_rows request retries key failure s ≡ ok (recorded, s')
    → Changes Act.failing s s'
unfolding record_failure_rows locked_task template_of
record_failure_rows-Changes request retries key failure s {recorded} {s'} h =
    elim (Option-cases (find_task s key)) [
      | inl e ↦ ground arith
      | inr (x, e) ↦ elim (Option-cases (find_template s x.template)) [
        | inl d ↦ ground arith
        | inr (template, d) ↦ elim (Bool-cases (is_cancelled x.status)) [
          | inl c ↦ one (unchanged (ground arith) (ground arith) (ground arith))
          | inr c ↦
              let t : GenerationTask =
                record (failed_task (request.now 1) s template retries failure x) {
                  updated_at = request.now 1;
                  error_code = error_code failure;
                } in
              let written : Store = record s { tasks = put_task t s.tasks } in
              let (p, q, r) = after_failure-same retries failure x written in
              let same : after_failure retries failure x written ≡ s' = ground arith in
              subst (Changes Act.failing s) same (
                saves s key t e (failed_task-pk (request.now 1) s template retries failure x) p
                  (inr (
                    worker_raised c
                      (failed_task-after (request.now 1) s template retries failure x)))
                  (failed_task-progress (request.now 1) s template retries failure x) q r)
        ]
      ]
    ]

pub requeue_stale-Changes :
    (request : Request) (stale_seconds : ℕ) (s : Store)
    → Changes Act.recovering s (requeue_stale request stale_seconds s)
unfolding requeue_stale is_stale interrupted
requeue_stale-Changes request stale_seconds s = one (
    tasks_mapped (record {
      test = is_stale (request.now 0 - stale_seconds);
      change = interrupted (request.now 1);
      same_key = λ t. refl;
      follows = λ t h. inr (worker_interrupted (ground arith) refl);
      progress = λ t. refl;
      written = refl;
      same_sections = refl;
      same_events = refl;
    }))

pub save_draft_artifact-Changes :
    (request : Request) (key : ℕ) (path : String) (s : Store) {s' : Store}
    → save_draft_artifact request key path s ≡ ok s'
    → Changes Act.writing s s'
unfolding save_draft_artifact locked_task
save_draft_artifact-Changes request key path s h = elim (Option-cases (find_task s key)) [
  | inl e ↦ ground arith
  | inr (x, e) ↦ one (
      tasks_mapped (record {
        test = λ t. t.pk == x.pk;
        change = λ (t : GenerationTask). record t { draft_storage_path = path };
        same_key = λ t. refl;
        follows = λ t i. inl refl;
        progress = λ t. refl;
        written = ground arith;
        same_sections = ground arith;
        same_events = ground arith;
      }))
]
