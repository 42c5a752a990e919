-- ===== src/Generation/Sources.antt =====
-- apps/document_generation/services.py: the material of a task, and the extraction of its facts.
use Prim.Native.String.{◌++◌ as append}
use text.Mathlib.Text.{starts_with}
use doc_manage_and_generatio.Prelude.{
  ℕ, zero, suc, String, Bool, true, false, not, ◌&&◌, ◌||◌, Option, none, some, List, [], ◌∷◌, ◌++◌,
  length, ◌==◌, same_key, str_eq, if◌then◌else◌, find?, any,
}
use doc_manage_and_generatio.Text.{has_part}
use doc_manage_and_generatio.Outcome.{
  Result, ok, err, ◌>>=◌, ◌>>◌, raise_if, require, permission_denied, generation_error,
}
use doc_manage_and_generatio.Schema.{
  Request, Db, Folder, Document, DocumentVersion, SourceType, success,
}
use doc_manage_and_generatio.Folders.Defaults.{entry_preparation_root_code}
use doc_manage_and_generatio.Documents.Guards.{find_document, find_folder, parent_of}
use doc_manage_and_generatio.Documents.Selectors.{is_visible_document}
use doc_manage_and_generatio.Generation.Schema.{
  Status, Operation, GenerationTask, ParseStatus, queue_task, Store,
}
use doc_manage_and_generatio.Generation.Guards.{
  locked_task, ensure_active_project, ensure_task_user, ensure_status, is_draft, has_sources,
  has_prompt, save_task, log, on_commit,
}
use doc_manage_and_generatio.Generation.Events.{Event, emit}
use doc_manage_and_generatio.Generation.Requests.{Creator, create_generation_task}
use doc_manage_and_generatio.Generation.Context.{NewTask, unique_keys}

-- `visible_source_version_for_user`
unfoldable pub visible_source_version : Request → Db → ℕ → ℕ → Option (DocumentVersion × Document)
visible_source_version request db project version =
    elim (find? (λ v. v.pk == version) db.versions) [
      | none ↦ none
      | some v ↦ elim (find_document db v.document) [
        | none ↦ none
        | some d ↦
            if same_key d.project (some project)
              && is_visible_document db (request.now 0) request.actor false d
            then some (v, d)
            else none
      ]
    ]

-- the folder may not hold sources: reports, finished projects, archives
unfoldable pub is_blocked_folder : Folder → Bool
is_blocked_folder f =
    str_eq f.code "PUBLIC-REPORT-TEMPLATE"
    || str_eq f.code "PUBLIC-ARCHIVE"
    || starts_with f.code "PROJECT-ARCHIVE-"

-- The walk from the document's folder to the root, with `is_entry_preparation_folder` as it stands.
-- The source walks as long as there is a parent: among folders whose parents form no cycle it stops
-- after as many steps as there are rows.
unfoldable pub entry_walk : ℕ → Db → Option Folder → Bool → Result Bool
entry_walk zero db current seen = ok seen
entry_walk (suc fuel) db none seen = ok seen
entry_walk (suc fuel) db (some f) seen = elim (is_blocked_folder f) [
  | true ↦ err (generation_error "SOURCE_PURPOSE_MISMATCH")
  | false ↦ entry_walk fuel db (parent_of db f) (seen || str_eq f.code entry_preparation_root_code)
]

abbrev blocked_source_markers : List String
blocked_source_markers = "检测报告" ∷ "试验报告" ∷ "验收报告" ∷ "完工报告" ∷ "竣工资料" ∷ "报告模板" ∷ []

abbrev is_entrance_material : Document → Bool
is_entrance_material d = elim d.source_type [
  | SourceType.entrance_material ↦ true
  | SourceType.project_upload ↦ false
]

-- `_ensure_entry_source`
unfoldable pub ensure_entry_source : Store → DocumentVersion → Document → Result (Unit {0})
unfolding entry_walk
ensure_entry_source s v d = do
  raise_if
      (any (λ x. x.document_version == v.pk) s.templates
        || has_part "四措两案 Agent 甲方模板" d.description)
      (generation_error "SOURCE_PURPOSE_MISMATCH")
  require (is_entrance_material d) (generation_error "SOURCE_PURPOSE_MISMATCH")
  entry ← entry_walk (suc (length s.db.folders)) s.db (find_folder s.db d.folder) false
  require entry (generation_error "SOURCE_PURPOSE_MISMATCH")
  raise_if
      (any (λ m. has_part m (append d.title (append " " v.original_filename)))
        blocked_source_markers)
      (generation_error "SOURCE_PURPOSE_MISMATCH")

-- `GenerationSource.objects.get_or_create`
unfoldable pub get_or_create_source : GenerationTask → DocumentVersion → Store → Store
get_or_create_source t v s =
    elim (any (λ x. x.task == t.pk && x.document_version == v.pk) s.sources) [
      | true ↦ s
      | false ↦ record s {
        sources =
            s.sources
            ++ (record {
              task = t.pk;
              document_version = v.pk;
              file_sha256 = v.sha256;
              parse_status = ParseStatus.pending;
            })
              ∷ [];
      }
    ]

-- the loop over the versions
unfoldable pub add_sources : Request → GenerationTask → List ℕ → Store → Result Store
add_sources request t [] s = ok s
add_sources request t (key ∷ rest) s = elim (visible_source_version request s.db t.project key) [
  | none ↦ err permission_denied
  | some (v, d) ↦ do
    ensure_entry_source s v d
    add_sources request t rest (get_or_create_source t v s)
]

unfoldable pub add_generation_sources :
    Request → ℕ → List ℕ → Store → Result (GenerationTask × Store)
unfolding log
add_generation_sources request key versions s = do
  t ← locked_task s key
  ensure_task_user s request.actor t
  ensure_active_project s t.project
  ensure_status t is_draft
  added ← add_sources request t (unique_keys [] versions) s
  ok (t, log request.actor "document_generation.source.add" (some t.pk) success added)

abbrev pub extraction_queued : Event
extraction_queued = record {
  stage = "initialized";
  tool = "queue_fact_extraction";
  status = "succeeded";
}

unfoldable pub prepare_fact_confirmation : Request → ℕ → Store → Result (GenerationTask × Store)
unfolding log on_commit
prepare_fact_confirmation request key s = do
  t ← locked_task s key
  ensure_task_user s request.actor t
  ensure_active_project s t.project
  ensure_status t is_draft
  require (has_sources s t || has_prompt t) (generation_error "PROMPT_REQUIRED")
  let changed = record t {
    status = Status.extracting;
    operation = Operation.extract;
    progress = 10;
    updated_at = request.now 1;
  }
  let saved = save_task changed s
  (event, traced) ← emit request t.pk extraction_queued saved
  ok (
    changed,
    log request.actor "document_generation.facts.queue" (some t.pk) success
        (on_commit (queue_task t.pk) traced),
  )

module _ (creator : Creator) where
  -- `create_generation_task`, `add_generation_sources` and `prepare_fact_confirmation` as one
  unfoldable pub start_compilation_pipeline :
      Request → NewTask → List ℕ → Store → Result ((GenerationTask × Bool) × Store)
  start_compilation_pipeline request data' versions s = do
    ((t, created), made) ← create_generation_task creator request data' s
    if not created && not (is_draft t.status) then ok ((t, false), made) else do
      (same, added) ← add_generation_sources request t.pk versions made
      (prepared, ready) ← prepare_fact_confirmation request t.pk added
      ok ((prepared, created), ready)
