-- ===== src/Generation/Laws/Refusals.antt =====
-- Locked sections, stale edits, and failures.
use doc_manage_and_generatio.Prelude.{
  ℕ, String, true, false, not, ◌&&◌, ◌||◌, some, List, ◌≡◌, refl, inl, inr, ◌⊎◌, arith, ap, ◌∙◌,
  ◌==◌, ltb, if◌then◌else◌, find?, Bool-cases, Option-cases,
}
use doc_manage_and_generatio.Outcome.{Error, err, ok, Result-cases}
use doc_manage_and_generatio.Schema.{Request}
use doc_manage_and_generatio.Generation.Schema.{
  Status, Operation, GenerationTask, DocumentTemplate, GeneratedSection, GenerationTraceEvent,
  Store,
}
use doc_manage_and_generatio.Generation.Guards.{
  find_task, find_template, locked_task, template_of, put_task, is_cancelled, log_as,
}
use doc_manage_and_generatio.Generation.Events.{emit, advance}
use doc_manage_and_generatio.Generation.Compile.{is_extract, unconfirmed}
use doc_manage_and_generatio.Generation.Sections.{
  Edit, find_section, locked_section, edit_generated_section, request_section_regeneration,
}
use doc_manage_and_generatio.Generation.Drafts.{Draft, save_draft}
use doc_manage_and_generatio.Generation.Failures.{
  Failure, error_code, needs_evidence, needs_revision, needs_validation, failed_task,
  retried_status, set_conversations, set_parse_status, after_failure, recovery_ready,
  record_failure_rows, record_failure,
}
use doc_manage_and_generatio.Generation.Laws.Stops.{put_task-found}

no_edit :
    (request : Request) (key : ℕ) (code : String) (edit : Edit) (s : Store) {t : GenerationTask}
    {x y : GeneratedSection} {s' : Store} {A : Type 0}
    → find_task s key ≡ some t
    → find_section s t.pk code ≡ some x
    → x.is_locked ≡ true
    → edit_generated_section request key code edit s ≡ ok (y, s')
    → A
unfolding edit_generated_section locked_task locked_section
no_edit request key code edit s e f h r = ground arith

no_return :
    (request : Request) (key : ℕ) (code instruction : String) (chunks : List String) (s : Store)
    {t : GenerationTask} {x : GeneratedSection} {y : GenerationTask} {s' : Store} {A : Type 0}
    → find_task s key ≡ some t
    → find_section s t.pk code ≡ some x
    → x.is_locked ≡ true
    → request_section_regeneration request key code instruction chunks s ≡ ok (y, s')
    → A
unfolding request_section_regeneration locked_task locked_section
no_return request key code instruction chunks s e f h r = ground arith

-- While a section is locked, no edit of it goes through, it cannot be sent back to the worker, and
-- what the worker writes for it leaves the store as it is.
pub locked_section_is_closed :
    (request : Request) (key : ℕ) (code instruction : String) (chunks : List String) (edit : Edit)
    (draft : Draft) (s : Store) {t : GenerationTask} {x : GeneratedSection}
    → find_task s key ≡ some t
    → find_section s t.pk code ≡ some x
    → x.is_locked ≡ true
    → draft.section.section_code ≡ code
    → ((error : Error) × (edit_generated_section request key code edit s ≡ err error))
      × ((error : Error) × (request_section_regeneration request key code instruction chunks s
            ≡ err error))
      × ((save_draft key draft s ≡ ok (x, s))
          ⊎ ((error : Error) × (save_draft key draft s ≡ err error)))
unfolding save_draft locked_task
locked_section_is_closed request key code instruction chunks edit draft s {t} {x} e f h same = (
  elim (Result-cases (edit_generated_section request key code edit s)) [
    | inl r ↦ r
    | inr ((y, s'), r) ↦ no_edit request key code edit s e f h r
  ],
  elim (Result-cases (request_section_regeneration request key code instruction chunks s)) [
    | inl r ↦ r
    | inr ((y, s'), r) ↦ no_return request key code instruction chunks s e f h r
  ],
  elim (Result-cases (save_draft key draft s)) [
    | inl r ↦ inr r
    | inr ((y, s'), r) ↦
        let f' : find_section s t.pk draft.section.section_code ≡ some x =
          ap (λ c. find_section s t.pk c) same ∙ f in
        inl (ground arith)
  ],
)

-- What the failure does to the status.
unfoldable pub failure_status : ℕ → Failure → Operation → Status
failure_status retries failure operation =
    if needs_evidence failure
    then Status.needs_confirmation
    else if needs_revision failure
    then Status.review_required
    else if not (ltb 0 retries)
    then Status.failed
    else if is_extract operation && not (needs_validation failure)
    then Status.extracting
    else Status.queued

failed_task-status :
    (now : ℕ) (s : Store) (template : DocumentTemplate) (retries : ℕ) (failure : Failure)
    (t : GenerationTask)
    → (failed_task now s template retries failure t).status
      ≡ failure_status retries failure t.operation
unfolding failed_task unconfirmed retried_status failure_status
failed_task-status now s template retries failure t = ground arith

failed_task-pk :
    (now : ℕ) (s : Store) (template : DocumentTemplate) (retries : ℕ) (failure : Failure)
    (t : GenerationTask)
    → (failed_task now s template retries failure t).pk ≡ t.pk
unfolding failed_task unconfirmed retried_status
failed_task-pk now s template retries failure t = ground arith

after_failure-tasks :
    (retries : ℕ) (failure : Failure) (t : GenerationTask) (s : Store)
    → (after_failure retries failure t s).tasks ≡ s.tasks
unfolding after_failure set_conversations set_parse_status log_as
after_failure-tasks retries failure t s = ground arith

-- an event that reports a failure leaves the tasks alone
recovery_ready-tasks :
    (request : Request) (key : ℕ) (s : Store) {row : GenerationTraceEvent} {s' : Store}
    → emit request key recovery_ready s ≡ ok (row, s')
    → s'.tasks ≡ s.tasks
unfolding emit locked_task advance
recovery_ready-tasks request key s h = elim (Option-cases (find_task s key)) [
  | inl e ↦ ground arith
  | inr (t, e) ↦ ground arith
]

-- An exception of the worker leaves a task that was stopped as it is. Any other task is then waiting
-- for facts or for a review, if the user has to help; else it waits for another try as long as
-- retries are left, and has failed when none is. The code of the error is kept.
pub failure_decides_status :
    (request : Request) (retries key : ℕ) (failure : Failure) (s : Store) {t : GenerationTask}
    {s' : Store}
    → find_task s key ≡ some t
    → record_failure request retries key failure s ≡ ok s'
    → ((is_cancelled t.status ≡ true) × (s' ≡ s))
      ⊎ ((is_cancelled t.status ≡ false)
          × (after : GenerationTask) × (find_task s' key ≡ some after)
          × (after.status ≡ failure_status retries failure t.operation)
          × (after.error_code ≡ error_code failure))
unfolding record_failure record_failure_rows locked_task template_of
failure_decides_status request retries key failure s {t} {s'} e h =
    elim (Option-cases (find_template s t.template)) [
      | inl d ↦ ground arith
      | inr (template, d) ↦ elim (Bool-cases (is_cancelled t.status)) [
        | inl c ↦ inl (c, ground arith)
        | inr c ↦
            let after : GenerationTask =
              record (failed_task (request.now 1) s template retries failure t) {
                updated_at = request.now 1;
                error_code = error_code failure;
              } in
            let recorded : Store =
              after_failure retries failure t (record s { tasks = put_task after s.tasks }) in
            let tasks : s'.tasks ≡ recorded.tasks =
              elim (Bool-cases (needs_validation failure || needs_revision failure)) [
                | inr n ↦ ground arith
                | inl n ↦ elim (Result-cases (emit request key recovery_ready recorded)) [
                  | inl (error, f) ↦ ground arith
                  | inr ((row, traced), f) ↦
                      let same : s' ≡ traced = ground arith in
                      ap (λ (x : Store). x.tasks) same ∙ recovery_ready-tasks request key recorded f
                ]
              ] in
            inr (
              c,
              after,
              ap (λ (xs : List GenerationTask). find? (λ y. y.pk == key) xs)
                    (tasks ∙ after_failure-tasks retries failure t _)
                  ∙ put_task-found s key after e
                      (failed_task-pk (request.now 1) s template retries failure t),
              failed_task-status (request.now 1) s template retries failure t,
              refl,
            )
      ]
    ]
