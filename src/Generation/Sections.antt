-- ===== src/Generation/Sections.antt =====
-- apps/document_generation/services.py: the sections of a draft are edited, locked and sent back by
-- the users.
use doc_manage_and_generatio.Prelude.{
  ℕ, ◌+◌, String, Bool, true, false, not, ◌&&◌, Option, none, some, List, [], ◌∷◌, ◌++◌, ◌==◌,
  str_eq, if◌then◌else◌, find?, any, update_where,
}
use doc_manage_and_generatio.Text.{strip}
use doc_manage_and_generatio.Outcome.{
  Result, ok, err, ◌>>=◌, ◌>>◌, raise_if, require, generation_error,
}
use doc_manage_and_generatio.Schema.{Request, success}
use doc_manage_and_generatio.Documents.Guards.{found}
use doc_manage_and_generatio.Generation.Schema.{
  Status, Operation, GenerationTask, GeneratedSection, ReviewAction, Conversation, Structure, Block,
  queue_task, Store,
}
use doc_manage_and_generatio.Generation.Guards.{
  locked_task, ensure_active_project, ensure_task_user, ensure_status, is_in_review, is_section,
  has_error, save_task, save_section, add_review, plain_review, log, on_commit,
}

abbrev pub find_section : Store → ℕ → String → Option GeneratedSection
find_section s task code = find? (is_section task code) s.sections

-- `GeneratedSection.objects.select_for_update().get(task=task, section_code=code)`
unfoldable pub locked_section : Store → ℕ → String → Result GeneratedSection
locked_section s task code = found (find_section s task code)

-- The arguments of an edit. `lines` are the lines of the content, stripped and not empty; a
-- `structured_content` that is given is `none` inside if the contract refuses it.
pub record Edit : Type 0 where
  pub content : String
  pub lines : List String
  pub structured_content : Option (Option Structure)
  pub expected_revision : ℕ

-- the structure of the row, or an empty one
unfoldable pub original_structure : GeneratedSection → Structure
original_structure x = elim x.structured_content [
  | some structure ↦ structure
  | none ↦ record {
    section_code = x.section_code;
    title = x.title;
    paragraphs = [];
    tables = [];
    images = [];
    citations = [];
  }
]

abbrev pub has_block : List Block → String → Bool
has_block blocks key = any (λ b. str_eq b.block_key key) blocks

-- a block that must stay and is not among the blocks `kept`
unfoldable pub is_removed : List Block → Block → Bool
is_removed kept b = b.is_required && not (str_eq b.block_key "") && not (has_block kept b.block_key)

unfoldable pub removes_required : Structure → Structure → Bool
unfolding is_removed
removes_required original requested =
    any (is_removed (requested.tables ++ requested.images)) (original.tables ++ original.images)

-- the structure that the edit leaves
unfoldable pub edited_structure : GeneratedSection → Edit → Result Structure
unfolding original_structure removes_required
edited_structure x edit = elim edit.structured_content [
  | none ↦ ok (record (original_structure x) { paragraphs = edit.lines })
  | some none ↦ err (generation_error "SECTION_STRUCTURE_INVALID")
  | some (some requested) ↦ do
    require (str_eq requested.section_code x.section_code)
        (generation_error "SECTION_STRUCTURE_INVALID")
    raise_if (removes_required (original_structure x) requested)
        (generation_error "REQUIRED_BLOCK_REMOVAL_FORBIDDEN")
    ok (record requested { title = x.title; paragraphs = edit.lines })
]

-- the columns that an edit writes
unfoldable pub edited : Edit → Structure → GeneratedSection → GeneratedSection
edited edit structure x = record x {
  content = strip edit.content;
  structured_content = some structure;
  citations = structure.citations;
  revision = x.revision + 1;
}

unfoldable pub edit_generated_section :
    Request → ℕ → String → Edit → Store → Result (GeneratedSection × Store)
unfolding plain_review log
edit_generated_section request key code edit s = do
  t ← locked_task s key
  ensure_task_user s request.actor t
  ensure_status t is_in_review
  x ← locked_section s t.pk code
  raise_if x.is_locked (generation_error "SECTION_LOCKED")
  require (x.revision == edit.expected_revision) (generation_error "SECTION_REVISION_CONFLICT")
  raise_if (str_eq (strip edit.content) "") (generation_error "SECTION_EMPTY")
  structure ← edited_structure x edit
  let saved = edited edit structure x
  let review = plain_review t.pk (some x.pk) ReviewAction.section_edited "" request.actor
  ok (
    saved,
    log request.actor "document_generation.section.edit" (some x.pk) success (
        add_review (record review { revision_after = some saved.revision }) (save_section saved s)),
  )

abbrev pub lock_action : Bool → ReviewAction
lock_action true = ReviewAction.section_locked
lock_action false = ReviewAction.section_unlocked

unfoldable pub set_section_lock :
    Request → ℕ → String → Bool → Store → Result (GeneratedSection × Store)
unfolding plain_review log
set_section_lock request key code locked s = do
  t ← locked_task s key
  ensure_task_user s request.actor t
  ensure_status t is_in_review
  x ← locked_section s t.pk code
  let saved = record x { is_locked = locked }
  let review = plain_review t.pk (some x.pk) (lock_action locked) "" request.actor
  let action =
      if locked then "document_generation.section.lock" else "document_generation.section.unlock"
  ok (
    saved,
    log request.actor action (some x.pk) success (add_review review (save_section saved s)),
  )

-- `list(dict.fromkeys(texts))`
unfoldable pub unique_texts : List String → List String → List String
unique_texts seen [] = []
unique_texts seen (x ∷ rest) =
    let others = unique_texts (x ∷ seen) rest in
    let fresh = unique_texts seen rest in if any (str_eq x) seen then fresh else x ∷ others

-- a chunk that is no citation of the section
unfoldable pub is_uncited : GeneratedSection → String → Bool
is_uncited x chunk = not (any (λ c. str_eq (strip c) chunk && not (str_eq c "")) x.citations)

unfoldable pub request_section_regeneration :
    Request → ℕ → String → String → List String → Store → Result (GenerationTask × Store)
unfolding plain_review log on_commit unique_texts is_uncited
request_section_regeneration request key code instruction chunks s = do
  t ← locked_task s key
  ensure_task_user s request.actor t
  ensure_active_project s t.project
  ensure_status t is_in_review
  x ← locked_section s t.pk code
  raise_if x.is_locked (generation_error "SECTION_LOCKED")
  raise_if (str_eq (strip instruction) "") (generation_error "REVISION_INSTRUCTION_REQUIRED")
  raise_if (any (is_uncited x) (unique_texts [] chunks)) (generation_error "RAG_REFERENCE_INVALID")
  let changed = record t {
    pending_section_codes = code ∷ [];
    status = Status.queued;
    operation = Operation.generate;
    progress = 35;
    updated_at = request.now 0;
  }
  let plain =
      plain_review t.pk (some x.pk) ReviewAction.section_regenerated (strip instruction)
        request.actor
  let review = record plain {
    conversation = Conversation.waiting;
    requested_rag_chunk_ids = unique_texts [] chunks;
    revision_before = some x.revision;
  }
  ok (
    changed,
    log request.actor "document_generation.section.regenerate" (some x.pk) success
        (on_commit (queue_task t.pk) (add_review review (save_task changed s))),
  )

-- `GeneratedSection.objects.filter(task=task).update(is_locked=True)`
unfoldable pub put_locks : ℕ → List GeneratedSection → List GeneratedSection
put_locks task sections =
    update_where (λ x. x.task == task) (λ (x : GeneratedSection). record x { is_locked = true })
      sections

abbrev pub lock_sections : ℕ → Store → Store
lock_sections task s = record s { sections = put_locks task s.sections }

unfoldable pub lock_all_valid_sections : Request → ℕ → Store → Result (GenerationTask × Store)
unfolding plain_review log
lock_all_valid_sections request key s = do
  t ← locked_task s key
  ensure_task_user s request.actor t
  ensure_status t is_in_review
  raise_if (any (λ x. x.task == t.pk && has_error x) s.sections)
      (generation_error "SECTION_VALIDATION_FAILED")
  let review = plain_review t.pk none ReviewAction.section_locked "" request.actor
  ok (
    t,
    log request.actor "document_generation.sections.lock_all" (some t.pk) success
        (add_review review (lock_sections t.pk s)),
  )
