-- ===== src/Generation/Jobs.antt =====
-- apps/document_generation/jobs.py and artifacts.py: the transactions of the worker. A job claims the
-- task in one of them and completes it in another one.
use doc_manage_and_generatio.Prelude.{
  ℕ, ◌+◌, String, Bool, true, false, not, ◌&&◌, ◌||◌, Option, none, some, List, [], is_none, ◌==◌,
  str_eq, if◌then◌else◌, find?, any, update_where,
}
use doc_manage_and_generatio.Outcome.{Result, ok, ◌>>=◌, ◌>>◌, require, task_cancelled}
use doc_manage_and_generatio.Schema.{Request, success}
use doc_manage_and_generatio.Documents.Guards.{project_is_archived}
use doc_manage_and_generatio.Documents.Files.{save_file, delete_file}
use doc_manage_and_generatio.Generation.Schema.{
  Status, FactEntry, GenerationTask, ParseStatus, GenerationReview, Conversation, Store,
}
use doc_manage_and_generatio.Generation.Guards.{
  locked_task, is_queued, is_extracting, is_generating, is_cancelled, save_task, log_as,
}
use doc_manage_and_generatio.Generation.Compile.{is_extract}
use doc_manage_and_generatio.Generation.Failures.{
  asks_for, is_waiting, is_unanswered, set_conversations, set_parse_status,
}

-- the outcome of the transaction that claims a task
pub data Claim : Type 0 where
  not_mine project_archived claimed : Claim

-- `PROJECT_ARCHIVED`: the project was archived while the task waited
unfoldable pub fail_archived : Request → GenerationTask → Store → Store
fail_archived request t s =
    save_task
      (record t {
        status = Status.failed;
        error_code = "PROJECT_ARCHIVED";
        updated_at = request.now 0;
      })
      s

abbrev pub is_archived_project : Store → GenerationTask → Bool
is_archived_project s t = project_is_archived s.db (some t.project)

unfoldable pub started_task : Request → GenerationTask → GenerationTask
started_task request t = record t {
  generation_attempts = t.generation_attempts + 1;
  started_at = some (request.now 1);
  updated_at = request.now 2;
  error_code = "";
}

unfoldable pub claim_generation : Request → ℕ → Store → Result (Claim × Store)
unfolding fail_archived started_task set_conversations asks_for set_parse_status
claim_generation request key s = do
  t ← locked_task s key
  let changed = record (started_task request t) { status = Status.generating; progress = 40 }
  let saved = save_task changed s
  let answering =
      set_conversations (λ r. asks_for s t.pk t.pending_section_codes r && is_waiting r)
        Conversation.processing saved
  if not (is_queued t.status)
      then ok (not_mine, s)
      else if is_archived_project s t
      then ok (project_archived, fail_archived request t s)
      else ok (claimed, set_parse_status t.pk ParseStatus.pending answering)

-- the revision of the section that a review is about
abbrev pub reviewed_revision : Store → GenerationReview → Option ℕ
reviewed_revision s r = elim r.section [
  | none ↦ none
  | some key ↦ elim (find? (λ x. x.pk == key) s.sections) [ none ↦ none | some x ↦ some x.revision ]
]

unfoldable pub complete_conversations : (GenerationReview → Bool) → Store → Store
complete_conversations test s = record s {
  reviews =
      update_where test
        (λ (r : GenerationReview). record r {
          conversation = Conversation.completed;
          revision_after = reviewed_revision s r;
        })
        s.reviews;
}

-- `false` if the task is no longer generating: then what was made of it is superseded
unfoldable pub complete_generation : Request → ℕ → Store → Result (Bool × Store)
unfolding complete_conversations asks_for set_parse_status log_as
complete_generation request key s = do
  t ← locked_task s key
  let changed = record t {
    status = Status.review_required;
    progress = 90;
    pending_section_codes = [];
    completed_at = some (request.now 3);
    updated_at = request.now 4;
  }
  let answered =
      complete_conversations (λ r. asks_for s t.pk t.pending_section_codes r && is_unanswered r)
        (save_task changed s)
  let marked = set_parse_status t.pk ParseStatus.parsed answered
  if is_generating t.status
      then ok (
        true,
        log_as t.created_by "document_generation.generate.complete" (some t.pk) success marked,
      )
      else ok (false, s)

-- `_task_is_cancelled`
unfoldable pub task_is_cancelled : ℕ → Store → Bool
task_is_cancelled key s = any (λ t. t.pk == key && is_cancelled t.status) s.tasks

abbrev pub is_being_extracted : GenerationTask → Bool
is_being_extracted t = is_extracting t.status && is_extract t.operation

unfoldable pub claim_extraction : Request → ℕ → Store → Result (Claim × Store)
unfolding fail_archived started_task
claim_extraction request key s = do
  t ← locked_task s key
  if not (is_being_extracted t)
      then ok (not_mine, s)
      else if is_archived_project s t
      then ok (project_archived, fail_archived request t s)
      else ok (claimed, save_task (started_task request t) s)

-- what the extraction found: the proposals, and the fields of the conflicts
pub record Extraction : Type 0 where
  pub proposals : List FactEntry
  pub conflicts : List String

unfoldable pub complete_extraction : Request → ℕ → Extraction → Store → Result (Bool × Store)
unfolding set_parse_status log_as
complete_extraction request key found s = do
  t ← locked_task s key
  let changed = record t {
    facts_snapshot = found.proposals;
    fact_conflicts = found.conflicts;
    status = Status.needs_confirmation;
    progress = 20;
    completed_at = some (request.now 3);
    updated_at = request.now 4;
  }
  let marked = set_parse_status t.pk ParseStatus.parsed (save_task changed s)
  if is_being_extracted t
      then ok (
        true,
        log_as t.created_by "document_generation.facts.extracted" (some t.pk) success marked,
      )
      else ok (false, s)

-- `TaskDraftArtifactStorage.save`: the file at `path` is linked to a task that is still generating.
-- The source stores the file first, and deletes it again if the task has stopped meanwhile.
unfoldable pub save_draft_artifact : Request → ℕ → String → Store → Result Store
save_draft_artifact request key path s = do
  t ← locked_task s key
  require (is_generating t.status && is_none t.deleted_at) task_cancelled
  let linked = record s {
    files = save_file path s.files;
    tasks =
        update_where (λ x. x.pk == t.pk)
          (λ (x : GenerationTask). record x { draft_storage_path = path }) s.tasks;
  }
  if str_eq t.draft_storage_path "" || str_eq t.draft_storage_path path
      then ok linked
      else ok (record linked { files = delete_file t.draft_storage_path linked.files })
