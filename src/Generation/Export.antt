-- ===== src/Generation/Export.antt =====
-- apps/document_generation/services.py: a draft whose sections are locked is exported, as a document
-- of the project.
use doc_manage_and_generatio.Prelude.{
  ℕ, String, Bool, true, false, not, ◌&&◌, ◌||◌, Option, none, some, List, [], ◌∷◌, ◌==◌, same_key,
  str_eq, if◌then◌else◌, find?, any,
}
use doc_manage_and_generatio.Text.{strip}
use doc_manage_and_generatio.Outcome.{
  Result, ok, err, ◌>>=◌, ◌>>◌, raise_if, require, generation_error,
}
use doc_manage_and_generatio.Schema.{
  Request, Db, Folder, Document, AccessLevel, SourceType, success, is_deleted,
}
use doc_manage_and_generatio.Projects.Membership.{project_of}
use doc_manage_and_generatio.Uploads.{UploadedFile, Settings}
use doc_manage_and_generatio.Documents.Guards.{found, has_filename}
use doc_manage_and_generatio.Documents.Files.{System, NewDocument, create_document}
use doc_manage_and_generatio.Generation.Schema.{
  Status, CompletionState, GenerationTask, DocumentTemplate, ReviewAction, Store,
}
use doc_manage_and_generatio.Generation.Guards.{
  locked_task, template_of, ensure_active_project, ensure_task_user, ensure_status, is_exported,
  save_task, add_review, plain_review, log,
}
use doc_manage_and_generatio.Generation.Review.{differs, section_codes, has_unlocked, has_invalid}
use doc_manage_and_generatio.Generation.ExportNames.{normalize_export_filename, drop_extension}

unfoldable pub is_export_folder : GenerationTask → Folder → Bool
is_export_folder t f =
    same_key f.project (some t.project) && str_eq f.code "PUBLIC-TECH-SOLUTION" && f.is_active

-- `_generation_export_folder`
unfoldable pub export_folder : Store → GenerationTask → Result Folder
export_folder s t = elim (find? (is_export_folder t) s.db.folders) [
  | none ↦ err (generation_error "EXPORT_FOLDER_MISSING")
  | some f ↦ ok f
]

-- a document of the folder that has the title or the file name
unfoldable pub name_is_taken : Db → Folder → String → String → Document → Bool
name_is_taken db folder title filename d =
    d.folder == folder.pk
    && not (is_deleted d)
    && (str_eq d.title title || has_filename db filename d)

-- the statuses that an export starts from
abbrev pub is_exportable : Status → Bool
is_exportable x = elim x [
  | Status.review_required ↦ true
  | Status.pending_approval ↦ true
  | Status.approved ↦ true
  | _ ↦ false
]

-- The calls of other code: the order of the sections that the template's file shows
-- (`infer_template_section_order`, empty if it shows none; `none` if the file is missing), and the
-- renderer, which the library for DOCX does: it gives the file, with what stands at its place in the
-- storage, and says whether cells of its tables are left to be filled in.
pub record Exporter : Type 0 where
  pub template_order : DocumentTemplate → Option (List String)
  pub render : Store → GenerationTask → DocumentTemplate → Option (UploadedFile × Bool)
  pub settings : Settings
  -- `str(task.pk)[:8]`
  pub short_key : ℕ → String

-- `infer_template_section_order(content) or template.section_order`
unfoldable pub effective_order : List String → DocumentTemplate → List String
effective_order [] template = template.section_order
effective_order (code ∷ codes) template = code ∷ codes

unfoldable pub exported_task : ℕ → Bool → Option ℕ → String → GenerationTask → GenerationTask
exported_task now pending version key t = record t {
  updated_at = now;
  status = Status.exported;
  progress = 100;
  completion_state =
      if pending then CompletionState.pending_manual_fill else CompletionState.complete;
  output_document_version = version;
  export_idempotency_key = key;
}

abbrev pub description : Bool → String
description pending =
    if pending
    then "由入场资料编制Agent生成并经人工确认锁定；不是检测报告或完工报告。 状态：pending_manual_fill，表格中的空白项目专属字段需人工补录。"
    else "由入场资料编制Agent生成并经人工确认锁定；不是检测报告或完工报告。"

unfoldable pub new_output : String → Bool → NewDocument
new_output title pending = record {
  title = title;
  description = description pending;
  access_level = AccessLevel.internal;
  source_type = SourceType.project_upload;
}

-- the result of `create_document`, with the database and the files that it leaves
unfoldable pub stored_output : Result Document × System → Store → Result (Document × Store)
stored_output (err e, sys) s = err e
stored_output (ok d, sys) s = ok (d, record s { db = sys.db; files = sys.files })

module _ (exporter : Exporter) where
  -- the folder, the file, and the fields of the document that an export makes
  unfoldable pub prepare_output :
      Request
      → GenerationTask
      → DocumentTemplate
      → Option String
      → Store
      → Result (Folder × UploadedFile × NewDocument × Bool)
  unfolding new_output
  prepare_output request t template filename s = do
    folder ← export_folder s t
    project ← found (project_of s.db (some t.project))
    export_filename ← normalize_export_filename project.name (exporter.short_key t.pk) filename
    let title = drop_extension export_filename
    raise_if (any (name_is_taken s.db folder title export_filename) s.db.documents)
        (generation_error "EXPORT_NAME_CONFLICT")
    (file, pending) ← elim (exporter.render s t template) [
      | none ↦ err (generation_error "EXPORT_FAILED")
      | some rendered ↦ ok rendered
    ]
    ok (folder, record file { name = export_filename }, new_output title pending, pending)

  -- the document is rendered, stored and linked to the task
  unfoldable pub publish :
      Request
      → GenerationTask
      → DocumentTemplate
      → Option String
      → String
      → Store
      → Result (GenerationTask × Store)
  unfolding plain_review log exported_task stored_output
  publish request t template filename key s = do
    (folder, upload, fields, pending) ← prepare_output request t template filename s
    let sys : System = record { db = s.db; files = s.files }
    (d, stored) ←
        stored_output (create_document request exporter.settings folder upload fields sys) s
    let changed = exported_task (request.now 3) pending d.current_version key t
    let review = plain_review t.pk none ReviewAction.export "" request.actor
    ok (
      changed,
      log request.actor "document_generation.export" (some t.pk) success
          (add_review review (save_task changed stored)),
    )

  unfoldable pub export_checked :
      Request → GenerationTask → Option String → String → Store → Result (GenerationTask × Store)
  unfolding publish
  export_checked request t filename key s = do
    ensure_status t is_exportable
    template ← template_of s t
    order ← elim (exporter.template_order template) [
      | none ↦ err (generation_error "TEMPLATE_INVALID")
      | some codes ↦ ok (effective_order codes template)
    ]
    raise_if (differs order (section_codes t s)) (generation_error "SECTIONS_INCOMPLETE")
    raise_if (has_unlocked t s) (generation_error "SECTIONS_NOT_LOCKED")
    raise_if (has_invalid t s) (generation_error "VALIDATION_FAILED")
    publish request t template filename key s

  -- a task that is exported already is returned, if the key is the one of its export
  unfoldable pub export_generation_task :
      Request → ℕ → String → Option String → Store → Result (GenerationTask × Store)
  unfolding export_checked
  export_generation_task request key idempotency_key filename s = do
    t ← locked_task s key
    ensure_task_user s request.actor t
    ensure_active_project s t.project
    raise_if (str_eq (strip idempotency_key) "") (generation_error "IDEMPOTENCY_KEY_REQUIRED")
    elim (is_exported t.status) [
      | true ↦ do
        require (str_eq t.export_idempotency_key (strip idempotency_key))
            (generation_error "IDEMPOTENCY_CONFLICT")
        ok (t, s)
      | false ↦ export_checked request t filename (strip idempotency_key) s
    ]
