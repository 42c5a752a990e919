-- ===== src/Tests/Generation.antt =====
-- Runs of the sample's task.
use doc_manage_and_generatio.Generation.Guards.{add_review}
use doc_manage_and_generatio.Generation.Guards.{
  can_use_generation, ensure_status, ensure_task_user, locked_task, log, on_commit, put_task,
}
use doc_manage_and_generatio.Generation.Events.{advance, next_progress, progress_at, sequences}
use doc_manage_and_generatio.Schema.{
  is_active_user, is_authenticated, is_system_admin, is_temporary_user,
}
use doc_manage_and_generatio.Generation.Flow.Trace.{one_to}
use doc_manage_and_generatio.Prelude.{some, ◌≡◌, refl, Memᴰ, ◌∙◌, sym}
use mathlib.Core.List.Memᴰ.{head, tail}
use doc_manage_and_generatio.Outcome.{ok}
use doc_manage_and_generatio.Generation.Schema.{
  Status, GenerationTask, GeneratedSection, GenerationTraceEvent, EventType, Store,
}
use doc_manage_and_generatio.Generation.Events.{Event, emit}
use doc_manage_and_generatio.Generation.Compile.{stop_generation_task, delete_generation_task}
use doc_manage_and_generatio.Generation.Guards.{find_task, log, on_commit, add_review}
use doc_manage_and_generatio.Generation.Flow.Steps.{
  Run, done, next, event_emit, task_stop, task_delete,
}
use doc_manage_and_generatio.Generation.Flow.Statuses.{
  Follows, statuses_follow_diagram, cancelled_stays_cancelled,
}
use doc_manage_and_generatio.Generation.Laws.Reports.{
  Reports, nothing, report, IsFurthest, progress-IsFurthest,
}
use doc_manage_and_generatio.Prelude.{[], ◌∷◌}
use doc_manage_and_generatio.Generation.Flow.Revisions.{
  HasKeys, Later, sections_change_with_revision,
}
use doc_manage_and_generatio.Generation.Flow.Trace.{IsNumbered, events_have_consecutive_numbers}
use doc_manage_and_generatio.Generation.Laws.Stops.{IsOff, stop_shuts_worker_out}
use doc_manage_and_generatio.Tests.Sample.{value_or, request}
use doc_manage_and_generatio.Tests.Task.{task, section, store}

abbrev parsing : Event
parsing = record { stage = "rendering"; tool = "render_word_document"; status = "started" }

abbrev default_event : GenerationTraceEvent
default_event = record {
  task = 50;
  sequence = 1;
  stage = "rendering";
  event_type = EventType.tool;
  tool = "render_word_document";
  status = "started";
}

-- an event of the worker, a stop by the user, and the deletion
abbrev traced : GenerationTraceEvent × Store
traced = value_or (emit request 50 parsing store) (default_event, store)

emit_succeeds : emit request 50 parsing store ≡ ok (traced.0, traced.1)
unfolding emit locked_task
emit_succeeds = refl

abbrev stopped : GenerationTask × Store
stopped = value_or (stop_generation_task request 50 traced.1) (task, traced.1)

stop_succeeds : stop_generation_task request 50 traced.1 ≡ ok (stopped.0, stopped.1)
unfolding stop_generation_task locked_task emit advance next_progress progress_at put_task
    ensure_task_user can_use_generation is_authenticated is_active_user is_temporary_user
    is_system_admin ensure_status
stop_succeeds = refl

abbrev removed : Store
removed = value_or (delete_generation_task request 50 stopped.1) stopped.1

delete_succeeds : delete_generation_task request 50 stopped.1 ≡ ok removed
unfolding delete_generation_task locked_task stop_generation_task emit advance next_progress
    progress_at put_task ensure_task_user can_use_generation is_authenticated is_active_user
    is_temporary_user is_system_admin ensure_status on_commit log add_review
delete_succeeds = refl

Run-to_stop : Run store stopped.1
Run-to_stop =
    next (event_emit request 50 parsing emit_succeeds)
      (next (task_stop request 50 stop_succeeds) (done stopped.1))

Run-to_deletion : Run stopped.1 removed
Run-to_deletion = next (task_delete request 50 delete_succeeds) (done removed)

found_store : find_task store 50 ≡ some task
found_store = refl

found_stopped : find_task stopped.1 50 ≡ some stopped.0
unfolding stop_generation_task locked_task emit advance next_progress progress_at put_task
    ensure_task_user can_use_generation is_authenticated is_active_user is_temporary_user
    is_system_admin ensure_status on_commit log add_review
found_stopped = refl

stopped_status : stopped.0.status ≡ Status.cancelled
unfolding stop_generation_task locked_task emit advance next_progress progress_at put_task
    ensure_task_user can_use_generation is_authenticated is_active_user is_temporary_user
    is_system_admin ensure_status
stopped_status = refl

store-HasKeys : HasKeys store.sections
unfolding HasKeys
store-HasKeys a b (head e) (head f) same = e ∙ sym f
store-HasKeys a b (head e) (tail m) same = elim m [ ]
store-HasKeys a b (tail m) n same = elim m [ ]

store-IsNumbered : IsNumbered store.events
unfolding IsNumbered one_to sequences
store-IsNumbered k = refl

statuses_follow_diagram_example :
    (later : GenerationTask) × (find_task stopped.1 50 ≡ some later)
    × Follows 50 Run-to_stop task later
statuses_follow_diagram_example = statuses_follow_diagram 50 Run-to_stop found_store

cancelled_stays_cancelled_example :
    (later : GenerationTask) × (find_task removed 50 ≡ some later)
    × (later.status ≡ Status.cancelled)
cancelled_stays_cancelled_example =
    cancelled_stays_cancelled 50 Run-to_deletion found_stopped stopped_status

-- one event of the task
reported : Reports 50 (parsing ∷ []) store traced.1
reported = report request parsing emit_succeeds nothing

progress-IsFurthest_example :
    (later : GenerationTask) × (find_task traced.1 50 ≡ some later)
    × (later.operation ≡ task.operation)
    × (later.status ≡ task.status)
    × IsFurthest task.operation (parsing ∷ []) task.progress later.progress
progress-IsFurthest_example = progress-IsFurthest 50 (parsing ∷ []) found_store reported

sections_change_with_revision_example :
    (y : GeneratedSection) × Memᴰ y stopped.1.sections × Later section y
sections_change_with_revision_example =
    sections_change_with_revision Run-to_stop store-HasKeys section (head refl)

events_have_consecutive_numbers_example : IsNumbered stopped.1.events
events_have_consecutive_numbers_example =
    events_have_consecutive_numbers Run-to_stop store-IsNumbered

stop_shuts_worker_out_example :
    (stopped.0.status ≡ Status.cancelled)
    × (find_task stopped.1 50 ≡ some stopped.0)
    × IsOff 50 parsing stopped.1
stop_shuts_worker_out_example = stop_shuts_worker_out request 50 parsing traced.1 refl stop_succeeds
