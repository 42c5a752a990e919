-- ===== src/Tests/Reviews.antt =====
-- Reviews, exports, jobs and lists at concrete inputs.
use doc_manage_and_generatio.Generation.Guards.{add_review}
use doc_manage_and_generatio.Text.{lower, stem, suffix}
use doc_manage_and_generatio.Uploads.{allowed_upload_extensions, uploaded_file_extension}
use doc_manage_and_generatio.Documents.Guards.{
  ensure_folder_accepts_document, ensure_source_type_matches_folder, folder_is_within_root,
  is_neighbour, takes_content, takes_name,
}
use doc_manage_and_generatio.Documents.Guards.{
  ensure_upload_allowed, is_archive_folder, is_foreign_staff_folder, is_qualification_root_folder,
}
use doc_manage_and_generatio.Folders.Personnel.{public_staff_folder_ids, public_staff_root_ids}
use doc_manage_and_generatio.Folders.Descendants.{folder_and_descendant_ids}
use doc_manage_and_generatio.Folders.Defaults.{standard_root_for_code}
use doc_manage_and_generatio.Documents.Permissions.{can_upload_document}
use doc_manage_and_generatio.Documents.Files.{check_upload}
use doc_manage_and_generatio.Uploads.{
  normalize_upload_filename, validate_uploaded_file, windows_reserved_names,
}
use doc_manage_and_generatio.Text.{is_one_of, path_name, upper}
use doc_manage_and_generatio.Generation.Export.{
  export_folder, is_export_folder, name_is_taken, prepare_output,
}
use doc_manage_and_generatio.Generation.ExportNames.{clean_project_name, default_stem}
use doc_manage_and_generatio.Documents.Files.{create_document}
use doc_manage_and_generatio.Generation.Guards.{
  find_template, ensure_active_project, ensure_review_user, ensure_status, ensure_task_user,
  has_error, is_section, locked_task, template_of,
}
use doc_manage_and_generatio.Prelude.{◌≢◌, ◌≤◌, ◌<◌, ◌+◌}
use doc_manage_and_generatio.Schema.{
  is_active_user, is_authenticated, is_data_operator, is_temporary_user,
}
use doc_manage_and_generatio.Generation.Review.{differs, has_invalid, has_unlocked, lacks}
use doc_manage_and_generatio.Text.{is_space, lower_text}
use doc_manage_and_generatio.Generation.Failures.{needs_revision, needs_validation}
use doc_manage_and_generatio.Generation.ExportNames.{clean_stem, is_invalid_stem, take_chars}
use doc_manage_and_generatio.Prelude.{
  ℕ, ◌≤◌, String, Bool, true, false, not, ◌&&◌, ◌||◌, Option, none, some, List, [], ◌∷◌, ◌≡◌, refl,
  ◌⊎◌, inl, Memᴰ, str_eq,
}
use Prim.Native.String.{◌++◌ as append}
use mathlib.Core.List.Memᴰ.{head}
use doc_manage_and_generatio.Text.{strip, ends_with, any_char, char_count}
use doc_manage_and_generatio.Outcome.{Error, ok, err}
use doc_manage_and_generatio.Schema.{is_deleted, is_system_admin}
use doc_manage_and_generatio.Folders.Descendants.{contains}
use doc_manage_and_generatio.Uploads.{UploadedFile, Settings}
use doc_manage_and_generatio.Documents.Permissions.{can_view_document}
use doc_manage_and_generatio.Documents.Selectors.{is_visible_document, keeps_staff_document}
use doc_manage_and_generatio.Documents.Listing.{HasOneMembership, list_agrees_with_check}
use doc_manage_and_generatio.Generation.Schema.{Status, GenerationTask, DocumentTemplate, Store}
use doc_manage_and_generatio.Generation.Guards.{
  can_use_generation, can_review_generation, find_task, find_template, is_cancelled,
}
use doc_manage_and_generatio.Generation.Requests.{Creator, create_generation_task}
use doc_manage_and_generatio.Generation.Context.{NewTask}
use doc_manage_and_generatio.Generation.Sections.{
  Edit, find_section, edit_generated_section, request_section_regeneration,
}
use doc_manage_and_generatio.Generation.Drafts.{Draft, save_draft}
use doc_manage_and_generatio.Generation.Review.{approve_generation_task}
use doc_manage_and_generatio.Generation.ExportNames.{
  is_forbidden_char, is_control_char, drop_extension, normalize_export_filename,
}
use doc_manage_and_generatio.Generation.ExportNames.Bounds.{export_filename_is_safe}
use doc_manage_and_generatio.Generation.Export.{
  Exporter, effective_order, is_exportable, export_generation_task,
}
use doc_manage_and_generatio.Generation.Failures.{
  Failure, other_failure, error_code, record_failure,
}
use doc_manage_and_generatio.Generation.Jobs.{Extraction}
use doc_manage_and_generatio.Generation.Worker.{returned, run_generation_task}
use doc_manage_and_generatio.Generation.Queue.{
  jobs, interrupted, requeue_stale, is_waiting_task, recover_generation_tasks,
}
use doc_manage_and_generatio.Generation.Laws.Gates.{
  IsFinished, approval_needs_whole_draft, export_needs_whole_draft,
}
use doc_manage_and_generatio.Generation.Laws.Repeats.{export_is_idempotent}
use doc_manage_and_generatio.Generation.Laws.Recovers.{
  recovery_requeues_stale, recovery_queues_waiting_tasks,
}
use doc_manage_and_generatio.Generation.Laws.Refusals.{
  locked_section_is_closed, failure_status, failure_decides_status,
}
use doc_manage_and_generatio.Generation.Laws.Completes.{Stands, generation_job_completes}
use doc_manage_and_generatio.Tests.Sample.{value_or, request, admin, db, document}
use doc_manage_and_generatio.Tests.Task.{task, template, section, store_with, store}

abbrev waiting : GenerationTask
waiting = record task { status = Status.pending_approval }

abbrev approved : GenerationTask × Store
approved = value_or (approve_generation_task request 50 "" (store_with waiting)) (waiting, store)

approve_succeeds :
    approve_generation_task request 50 "" (store_with waiting) ≡ ok (approved.0, approved.1)
unfolding approve_generation_task locked_task ensure_review_user can_review_generation
    is_authenticated is_active_user is_temporary_user is_system_admin ensure_active_project
    ensure_status template_of lacks has_unlocked has_invalid has_error
approve_succeeds = refl

approval_needs_whole_draft_example :
    (x : GenerationTask) × (y : DocumentTemplate) × (find_task (store_with waiting) 50 ≡ some x)
    × (x.status ≡ Status.pending_approval)
    × (can_review_generation (store_with waiting) request.actor x.project ≡ true)
    × (find_template (store_with waiting) x.template ≡ some y)
    × IsFinished y.section_order x (store_with waiting)
approval_needs_whole_draft_example =
    approval_needs_whole_draft request 50 "" (store_with waiting) approve_succeeds

abbrev rendered : UploadedFile
rendered = record {
  name = "draft.docx";
  size = 12;
  header = [];
  archive_names = none;
  stored = record { relative_path = "e1/cc.bin"; sha256 = "e1"; size = 12 };
}

abbrev settings : Settings
settings = record { max_upload_size_bytes = 1000; validate_upload_file_signatures = false }

abbrev exporter : Exporter
exporter = record {
  template_order = λ x. some [];
  render = λ s t x. some (rendered, false);
  settings = settings;
  short_key = λ k. "0000000a";
}

abbrev exported : GenerationTask × Store
exported =
    value_or (export_generation_task exporter request 50 "out" none (store_with waiting))
      (waiting, store)

export_succeeds :
    export_generation_task exporter request 50 "out" none (store_with waiting)
    ≡ ok (exported.0, exported.1)
unfolding export_generation_task locked_task ensure_task_user can_use_generation is_authenticated
    is_active_user is_temporary_user is_system_admin ensure_active_project strip is_space
    ensure_status template_of differs effective_order has_unlocked has_invalid has_error
    prepare_output export_folder is_export_folder normalize_export_filename clean_stem ends_with
    lower_text default_stem take_chars clean_project_name is_forbidden_char is_invalid_stem
    name_is_taken create_document ensure_upload_allowed is_qualification_root_folder
    is_archive_folder is_foreign_staff_folder public_staff_folder_ids folder_and_descendant_ids
    public_staff_root_ids standard_root_for_code can_upload_document check_upload
    validate_uploaded_file normalize_upload_filename path_name is_one_of windows_reserved_names
    upper stem uploaded_file_extension allowed_upload_extensions lower suffix
    ensure_source_type_matches_folder folder_is_within_root ensure_folder_accepts_document
    takes_name is_neighbour takes_content
export_succeeds = refl

export_needs_whole_draft_example :
    (y : DocumentTemplate) × (order : List String) × (find_template (store_with waiting) 60
      ≡ some y)
    × (is_exportable Status.pending_approval ≡ true)
    × (can_use_generation (store_with waiting) request.actor 5 ≡ true)
    × (exporter.template_order y ≡ some order)
    × IsFinished (effective_order order y) waiting (store_with waiting)
    × (exported.0.status ≡ Status.exported)
    × (exported.0.progress ≡ 100)
    × (exported.0.export_idempotency_key ≡ strip "out")
export_needs_whole_draft_example =
    export_needs_whole_draft exporter request 50 "out" none (store_with waiting) {x = waiting} refl
      refl export_succeeds

use_allowed : can_use_generation exported.1 request.actor exported.0.project ≡ true
unfolding export_generation_task locked_task ensure_task_user can_use_generation is_authenticated
    is_active_user is_temporary_user is_system_admin ensure_active_project strip is_space
    ensure_status template_of differs effective_order has_unlocked has_invalid has_error
    prepare_output export_folder is_export_folder normalize_export_filename clean_stem ends_with
    lower_text default_stem take_chars clean_project_name is_forbidden_char is_invalid_stem
    name_is_taken create_document ensure_upload_allowed is_qualification_root_folder
    is_archive_folder is_foreign_staff_folder public_staff_folder_ids folder_and_descendant_ids
    public_staff_root_ids standard_root_for_code can_upload_document check_upload
    validate_uploaded_file normalize_upload_filename path_name is_one_of windows_reserved_names
    upper stem uploaded_file_extension allowed_upload_extensions lower suffix
    ensure_source_type_matches_folder folder_is_within_root ensure_folder_accepts_document
    takes_name is_neighbour takes_content
use_allowed = refl

project_active : ensure_active_project exported.1 exported.0.project ≡ ok tt
unfolding export_generation_task locked_task ensure_task_user can_use_generation is_authenticated
    is_active_user is_temporary_user is_system_admin ensure_active_project strip is_space
    ensure_status template_of differs effective_order has_unlocked has_invalid has_error
    prepare_output export_folder is_export_folder normalize_export_filename clean_stem ends_with
    lower_text default_stem take_chars clean_project_name is_forbidden_char is_invalid_stem
    name_is_taken create_document ensure_upload_allowed is_qualification_root_folder
    is_archive_folder is_foreign_staff_folder public_staff_folder_ids folder_and_descendant_ids
    public_staff_root_ids standard_root_for_code can_upload_document check_upload
    validate_uploaded_file normalize_upload_filename path_name is_one_of windows_reserved_names
    upper stem uploaded_file_extension allowed_upload_extensions lower suffix
    ensure_source_type_matches_folder folder_is_within_root ensure_folder_accepts_document
    takes_name is_neighbour takes_content add_review
project_active = refl

export_is_idempotent_example :
    export_generation_task exporter request 50 "out" (some "other") exported.1
    ≡ ok (exported.0, exported.1)
export_is_idempotent_example =
    export_is_idempotent exporter request request 50 "out" none (some "other") (store_with waiting)
      export_succeeds use_allowed project_active

abbrev creation : NewTask
creation = record {
  project = 5;
  template = template;
  document_purpose = "entry_four_measures_two_plans";
  business_type = "wind_turbine_inspection_four_measures_two_plans";
  idempotency_key = "second";
  initial_facts = [];
  initial_message = "write";
  selected_personnel_ids = [];
}

-- a creator for which the digest of a payload is the user's message
abbrev creator : Creator
creator = record {
  fingerprint = λ p. p.conversation_context.initial_message;
  infer_layout = λ path. path;
}

abbrev created : (GenerationTask × Bool) × Store
created = value_or (create_generation_task creator request creation store) ((task, false), store)

abbrev stale_task : GenerationTask
stale_task = record task { status = Status.generating }

abbrev requeued_task : GenerationTask
requeued_task = interrupted 1000 stale_task

requeued_mem : Memᴰ requeued_task (requeue_stale request 500 (store_with stale_task)).tasks
unfolding requeue_stale
requeued_mem = head refl

requeued_waits : is_waiting_task requeued_task ≡ true
unfolding interrupted
requeued_waits = refl

recovery_requeues_stale_example :
    let result = recover_generation_tasks request 500 (jobs []) (store_with stale_task) in
    (later : GenerationTask) × (find_task result.2 50 ≡ some later)
    × (((stale_task.status ≡ Status.generating)
          × (stale_task.updated_at + 500 < request.now 0)
          × (later.status ≡ Status.queued)
          × (str_eq later.error_code "WORKER_INTERRUPTED" ≡ true)
          × ((after : List ℕ) × (result.1 ≡ jobs after) × (contains after 50 ≡ true)))
        ⊎ (((stale_task.status ≢ Status.generating) ⊎ (request.now 0 ≤ stale_task.updated_at + 500))
            × (later ≡ stale_task)))
recovery_requeues_stale_example =
    recovery_requeues_stale request 500 [] (store_with stale_task) 50 {t = stale_task} refl

recovery_queues_waiting_tasks_example :
    let result = recover_generation_tasks request 500 (jobs []) (store_with stale_task) in
    (after : List ℕ) × (result.1 ≡ jobs after)
    × (result.2 ≡ requeue_stale request 500 (store_with stale_task))
    × (result.0.queue_failures ≡ 0)
    × (contains after requeued_task.pk ≡ true)
recovery_queues_waiting_tasks_example =
    recovery_queues_waiting_tasks request 500 [] (store_with stale_task) requeued_task requeued_mem
      requeued_waits

abbrev reviewed : GenerationTask
reviewed = record task { status = Status.review_required }

abbrev edit : Edit
edit = record {
  content = "new";
  lines = "new" ∷ [];
  structured_content = none;
  expected_revision = 1;
}

abbrev draft : Draft
draft = record {
  section = record {
    section_code = "scope";
    title = "Scope";
    paragraphs = "new" ∷ [];
    tables = [];
    images = [];
    citations = [];
  };
  plain_text = "new";
  issues = [];
}

section_found : find_section (store_with reviewed) 50 "scope" ≡ some section
unfolding is_section
section_found = refl

locked_section_is_closed_example :
    ((error : Error) × (edit_generated_section request 50 "scope" edit (store_with reviewed)
        ≡ err error))
    × ((error : Error) × (request_section_regeneration request 50 "scope" "again" []
            (store_with reviewed)
          ≡ err error))
    × ((save_draft 50 draft (store_with reviewed) ≡ ok (section, store_with reviewed))
        ⊎ ((error : Error) × (save_draft 50 draft (store_with reviewed) ≡ err error)))
locked_section_is_closed_example =
    locked_section_is_closed request 50 "scope" "again" [] edit draft (store_with reviewed)
      {t = reviewed} refl section_found refl refl

abbrev failed_store : Store
failed_store = value_or (record_failure request 0 50 other_failure (store_with stale_task)) store

failure_recorded :
    record_failure request 0 50 other_failure (store_with stale_task) ≡ ok failed_store
unfolding record_failure locked_task template_of needs_validation error_code needs_revision
failure_recorded = refl

failure_decides_status_example :
    ((is_cancelled Status.generating ≡ true) × (failed_store ≡ store_with stale_task))
    ⊎ ((is_cancelled Status.generating ≡ false)
        × (after : GenerationTask) × (find_task failed_store 50 ≡ some after)
        × (after.status ≡ failure_status 0 other_failure stale_task.operation)
        × (after.error_code ≡ error_code other_failure))
failure_decides_status_example =
    failure_decides_status request 0 50 other_failure (store_with stale_task) {t = stale_task} refl
      failure_recorded

abbrev quiet_engine : Store → Option Failure × Store
quiet_engine s = (none, s)

abbrev no_extraction : Store → (Failure ⊎ Extraction) × Store
no_extraction s = (inl other_failure, s)

generation_job_completes_example :
    (end : Store) × (run_generation_task quiet_engine no_extraction request 2 50 store
      ≡ (returned "completed", end))
    × Stands 50 Status.review_required end
generation_job_completes_example =
    generation_job_completes quiet_engine no_extraction request 2 50 store {t = task} refl refl refl
      refl (λ begun p. (refl, p))

no_members : HasOneMembership db
unfolding HasOneMembership
no_members a b m n = elim m [ ]

no_clerk : is_data_operator admin ≡ false
unfolding is_data_operator
no_clerk = refl

list_agrees_with_check_example : is_visible_document db 1000 admin false document ≡ (
    not (is_deleted document)
    && can_view_document db 1000 admin document
    && (is_system_admin admin || keeps_staff_document db admin document))
unfolding is_data_operator
list_agrees_with_check_example = list_agrees_with_check db 1000 admin document no_members no_clerk

filename_ok : normalize_export_filename "Dam" "0000000a" (some "plan.docx") ≡ ok "plan.docx"
unfolding normalize_export_filename clean_stem ends_with lower_text strip is_space drop_extension
    take_chars is_invalid_stem is_forbidden_char
filename_ok = refl

export_filename_is_safe_example :
    (char_count "plan.docx" ≤ 255)
    × ((append (drop_extension "plan.docx") ".docx") ≡ "plan.docx")
    × (str_eq (drop_extension "plan.docx") "" ≡ false)
    × (ends_with (drop_extension "plan.docx") "." ≡ false)
    × (any_char is_forbidden_char (drop_extension "plan.docx") ≡ false)
    × (any_char is_control_char (drop_extension "plan.docx") ≡ false)
export_filename_is_safe_example =
    export_filename_is_safe "Dam" "0000000a" (some "plan.docx") filename_ok
