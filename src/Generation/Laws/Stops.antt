-- ===== src/Generation/Laws/Stops.antt =====
-- After a stop the worker is kept away from the task.
use doc_manage_and_generatio.Prelude.{
  ℕ, String, false, some, List, ◌≡◌, inl, inr, arith, ap, ◌∙◌, ◌==◌, ==_refl, ==_iff, str_eq, find?,
  Option-cases, find?-update_where,
}
use doc_manage_and_generatio.Outcome.{err, ok, task_cancelled}
use doc_manage_and_generatio.Schema.{Request}
use doc_manage_and_generatio.Generation.Schema.{Status, GenerationTask, Store}
use doc_manage_and_generatio.Generation.Guards.{
  find_task, locked_task, ensure_status, log, add_review, on_commit, put_task,
}
use doc_manage_and_generatio.Generation.Events.{Event, emit}
use doc_manage_and_generatio.Generation.Compile.{stop_generation_task}
use doc_manage_and_generatio.Generation.Drafts.{Draft, save_draft}
use doc_manage_and_generatio.Generation.Jobs.{
  Extraction, not_mine, claim_generation, claim_extraction, complete_generation,
  complete_extraction, save_draft_artifact,
}

-- What the worker's transactions do to a task that was stopped.
pub record IsOff (key : ℕ) (event : Event) (s : Store) : Type 0 where
  pub claims : (request : Request) → claim_generation request key s ≡ ok (not_mine, s)
  pub begins : (request : Request) → claim_extraction request key s ≡ ok (not_mine, s)
  pub completes : (request : Request) → complete_generation request key s ≡ ok (false, s)
  pub extracts :
      (request : Request) (found : Extraction)
      → complete_extraction request key found s ≡ ok (false, s)
  pub saves : (draft : Draft) → save_draft key draft s ≡ err task_cancelled
  pub stores :
      (request : Request) (path : String)
      → save_draft_artifact request key path s ≡ err task_cancelled
  pub reports : (request : Request) → emit request key event s ≡ err task_cancelled

cancelled-IsOff :
    (key : ℕ) (event : Event) (s : Store) {t : GenerationTask}
    → str_eq event.tool "cancel_generation_task" ≡ false
    → find_task s key ≡ some t
    → t.status ≡ Status.cancelled
    → IsOff key event s
unfolding claim_generation claim_extraction complete_generation complete_extraction save_draft
    save_draft_artifact emit locked_task
cancelled-IsOff key event s other e h = record {
  claims = λ request. ground arith;
  begins = λ request. ground arith;
  completes = λ request. ground arith;
  extracts = λ request found. ground arith;
  saves = λ draft. ground arith;
  stores = λ request path. ground arith;
  reports = λ request. ground arith;
}

-- the row that a save wrote is found by its key
pub put_task-found :
    (s : Store) (key : ℕ) {x : GenerationTask} (t : GenerationTask)
    → find_task s key ≡ some x
    → t.pk ≡ x.pk
    → find? (λ y. y.pk == key) (put_task t s.tasks) ≡ some t
unfolding put_task
put_task-found s key {x} t e h =
    find?-update_where (λ y. y.pk == key) (λ y. y.pk == t.pk) (λ y. t) s.tasks
      (λ a m. ground (arith, ==_iff a.pk t.pk))
    ∙ ground (arith, e, h, ==_refl x.pk)

-- After a stop the task is cancelled, and of what the worker does to it these are refused or leave the
-- store as it is: to claim it for an extraction or a generation, to complete either of them, to save a
-- section or a draft file of it, and to report any event but that of the stop.
pub stop_shuts_worker_out :
    (request : Request) (key : ℕ) (event : Event) (s : Store) {t : GenerationTask} {s' : Store}
    → str_eq event.tool "cancel_generation_task" ≡ false
    → stop_generation_task request key s ≡ ok (t, s')
    → (t.status ≡ Status.cancelled) × (find_task s' key ≡ some t) × IsOff key event s'
unfolding stop_generation_task locked_task ensure_status log add_review on_commit
stop_shuts_worker_out request key event s {t} {s'} other h = elim (Option-cases (find_task s key)) [
  | inl e ↦ ground arith
  | inr (x, e) ↦
      let written : s'.tasks ≡ put_task t s.tasks = ground arith in
      let same : t.pk ≡ x.pk = ground arith in
      let status : t.status ≡ Status.cancelled = ground arith in
      let found : find_task s' key ≡ some t =
        ap (λ (xs : List GenerationTask). find? (λ y. y.pk == key) xs) written
        ∙ put_task-found s key t e same in
      (status, found, cancelled-IsOff key event s' other found status)
]
