-- ===== src/Generation/Queue.antt =====
-- apps/document_generation/queues.py and recovery.py: the queue of the jobs (RQ and Redis are the
-- library's: here a list of the keys of the unfinished jobs, or no connection), and the recovery of
-- tasks whose worker died.
use doc_manage_and_generatio.Prelude.{
  ℕ, ◌+◌, ◌-◌, Bool, ◌&&◌, ◌||◌, none, some, List, [], ◌∷◌, ◌++◌, map, length, ltb, if◌then◌else◌,
  filter, update_where,
}
use doc_manage_and_generatio.Outcome.{Result, ok, err, generation_error}
use doc_manage_and_generatio.Schema.{Request, failed}
use doc_manage_and_generatio.Folders.Descendants.{contains}
use doc_manage_and_generatio.Generation.Schema.{Status, GenerationTask, Store}
use doc_manage_and_generatio.Generation.Guards.{
  find_task, is_generating, is_queued, is_extracting, save_task, log_as,
}
use doc_manage_and_generatio.Generation.Context.{unique_keys}

-- the queue, as a call finds it
pub data Queue : Type 0 where
  unavailable : Queue
  jobs : List ℕ → Queue

-- the task of a job that could not be queued, whatever its status is
unfoldable pub fail_unqueued : Request → GenerationTask → Store → Store
unfolding log_as
fail_unqueued request t s =
    log_as t.created_by "document_generation.queue.failed" (some t.pk) failed (
      save_task
        (record t {
          status = Status.failed;
          error_code = "QUEUE_UNAVAILABLE";
          updated_at = request.now 0;
        })
        s)

-- a job that waits or runs already is not queued again
unfoldable pub queue_generation_task :
    Request → ℕ → Queue → Store → Result (Unit {0}) × Queue × Store
unfolding fail_unqueued
queue_generation_task request key (jobs keys) s =
    if contains keys key then (ok tt, jobs keys, s) else (ok tt, jobs (keys ++ key ∷ []), s)
queue_generation_task request key unavailable s = elim (find_task s key) [
  | none ↦ (err (generation_error "QUEUE_UNAVAILABLE"), unavailable, s)
  | some t ↦ (err (generation_error "QUEUE_UNAVAILABLE"), unavailable, fail_unqueued request t s)
]

-- generating, and not touched since `stale_before`
unfoldable pub is_stale : ℕ → GenerationTask → Bool
is_stale stale_before t = is_generating t.status && ltb t.updated_at stale_before

unfoldable pub interrupted : ℕ → GenerationTask → GenerationTask
interrupted now t = record t {
  status = Status.queued;
  error_code = "WORKER_INTERRUPTED";
  updated_at = now;
}

abbrev pub keys_where : (GenerationTask → Bool) → Store → List ℕ
keys_where test s = map (λ t. t.pk) (filter test s.tasks)

-- the transaction of `recover_generation_tasks`
unfoldable pub requeue_stale : Request → ℕ → Store → Store
unfolding is_stale interrupted
requeue_stale request stale_seconds s =
    let stale_before = request.now 0 - stale_seconds in
    record s { tasks = update_where (is_stale stale_before) (interrupted (request.now 1)) s.tasks }

abbrev pub is_waiting_task : GenerationTask → Bool
is_waiting_task t = is_queued t.status || is_extracting t.status

pub record Recovery : Type 0 where
  pub recovered : ℕ
  pub queued : ℕ
  pub queue_failures : ℕ

-- the loop over the keys
unfoldable pub queue_all : Request → List ℕ → Recovery → Queue → Store → Recovery × Queue × Store
queue_all request [] count queue s = (count, queue, s)
queue_all request (key ∷ rest) count queue s =
    let (result, left, s') = queue_generation_task request key queue s in
    elim result [
      | ok done ↦ queue_all request rest (record count { queued = count.queued + 1 }) left s'
      | err e ↦
          queue_all request rest (record count { queue_failures = count.queue_failures + 1 }) left
            s'
    ]

-- `stale_seconds` is the setting's duration in microseconds
unfoldable pub recover_generation_tasks : Request → ℕ → Queue → Store → Recovery × Queue × Store
unfolding requeue_stale queue_all
recover_generation_tasks request stale_seconds queue s =
    let recovered = keys_where (is_stale (request.now 0 - stale_seconds)) s in
    let requeued = requeue_stale request stale_seconds s in
    let keys = unique_keys [] (recovered ++ keys_where is_waiting_task requeued) in
    queue_all request keys (record { recovered = length recovered; queued = 0; queue_failures = 0 })
      queue requeued
