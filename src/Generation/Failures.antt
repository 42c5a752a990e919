-- ===== src/Generation/Failures.antt =====
-- `_record_failure` of apps/document_generation/jobs.py: what becomes of a task whose worker raised.
use doc_manage_and_generatio.Prelude.{
  ℕ, String, Bool, true, false, not, ◌&&◌, ◌||◌, none, some, List, [], ◌∷◌, ◌++◌, ltb, ◌==◌, str_eq,
  if◌then◌else◌, find?, any, filter, update_where,
}
use doc_manage_and_generatio.Text.{strip}
use doc_manage_and_generatio.Outcome.{Result, ok, ◌>>=◌}
use doc_manage_and_generatio.Schema.{Request, failed}
use doc_manage_and_generatio.Generation.Schema.{
  Status, GenerationTask, DocumentTemplate, GenerationSource, ParseStatus, Issue, GenerationReview,
  ReviewAction, Conversation, Store,
}
use doc_manage_and_generatio.Generation.Guards.{
  locked_task, template_of, is_cancelled, is_section, has_error, save_task, log_as,
}
use doc_manage_and_generatio.Generation.Events.{Event, emit}
use doc_manage_and_generatio.Generation.Compile.{is_extract, unconfirmed}
use doc_manage_and_generatio.Generation.Review.{is_among}

-- An exception: an `AgentError` with its code and what `_record_failure` reads of its details, the
-- fields sorted and each once, or any other.
pub data Failure : Type 0 where
  agent_failure : String → List String → String → List Issue → Failure
  other_failure : Failure

unfoldable pub error_code : Failure → String
error_code (agent_failure code fields section issues) = code
error_code other_failure = "GENERATION_FAILED"

abbrev pub failed_fields : Failure → List String
failed_fields (agent_failure code fields section issues) = fields
failed_fields other_failure = []

-- `_validation_failure_context`: the section, and the issues that have a message
unfoldable pub failed_section : Failure → String
failed_section (agent_failure code fields section issues) =
    if str_eq code "VALIDATION_FAILED" then strip section else ""
failed_section other_failure = ""

unfoldable pub failed_issues : Failure → List Issue
failed_issues (agent_failure code fields section issues) =
    if str_eq code "VALIDATION_FAILED"
    then filter (λ i. not (str_eq (strip i.message) "")) issues
    else []
failed_issues other_failure = []

abbrev is_revision_issue : Issue → Bool
is_revision_issue i =
    str_eq (strip i.code) "REVISION_CONTENT_UNCHANGED"
    || str_eq (strip i.code) "REVISION_LITERAL_MISSING"

unfoldable pub needs_evidence : Failure → Bool
needs_evidence failure = str_eq (error_code failure) "FACT_EVIDENCE_INVALID"

unfoldable pub needs_revision : Failure → Bool
needs_revision failure =
    str_eq (error_code failure) "VALIDATION_FAILED" && any is_revision_issue (failed_issues failure)

unfoldable pub needs_validation : Failure → Bool
needs_validation failure =
    str_eq (error_code failure) "VALIDATION_FAILED" && not (needs_revision failure)

-- a section that is missing, empty or invalid
unfoldable pub is_pending_section : Store → ℕ → String → Bool
is_pending_section s task code = elim (find? (is_section task code) s.sections) [
  | none ↦ true
  | some x ↦ str_eq (strip x.content) "" || has_error x
]

abbrev pub with_failed : String → List String → List String
with_failed failed_code pending =
    if str_eq failed_code "" || is_among pending failed_code
    then pending
    else (pending ++ failed_code ∷ [])

-- `_pending_validation_sections`
unfoldable pub pending_validation_sections : Store → ℕ → DocumentTemplate → String → List String
pending_validation_sections s task template failed_code =
    with_failed failed_code (filter (is_pending_section s task) template.section_order)

-- the status of a task that is tried again as long as retries are left
unfoldable pub retried_status : ℕ → GenerationTask → Status
retried_status retries t =
    if ltb 0 retries
    then if is_extract t.operation then Status.extracting else Status.queued
    else Status.failed

-- the columns that the failure sets, without the error code
unfoldable pub failed_task :
    ℕ → Store → DocumentTemplate → ℕ → Failure → GenerationTask → GenerationTask
failed_task now s template retries failure t =
    if needs_evidence failure
    then unconfirmed now (failed_fields failure) t
    else if needs_revision failure
    then record t { status = Status.review_required; progress = 90; pending_section_codes = [] }
    else if needs_validation failure
    then record t {
      status = if ltb 0 retries then Status.queued else Status.failed;
      pending_section_codes = pending_validation_sections s t.pk template (failed_section failure);
    }
    else record t { status = retried_status retries t }

-- a review that asked for a new version of one of the sections
unfoldable pub asks_for : Store → ℕ → List String → GenerationReview → Bool
asks_for s task codes r =
    r.task == task
    && elim r.action [ ReviewAction.section_regenerated ↦ true | _ ↦ false ]
    && elim r.section [
      | none ↦ false
      | some key ↦ any (λ x. x.pk == key && is_among codes x.section_code) s.sections
    ]

abbrev pub is_waiting : GenerationReview → Bool
is_waiting r = elim r.conversation [ Conversation.waiting ↦ true | _ ↦ false ]

-- `conversation_status in {"queued", "processing"}`
abbrev pub is_unanswered : GenerationReview → Bool
is_unanswered r = elim r.conversation [
  | Conversation.waiting ↦ true
  | Conversation.processing ↦ true
  | _ ↦ false
]

unfoldable pub answer_failed : ℕ → Failure → Conversation
answer_failed retries failure =
    if needs_revision failure
    then Conversation.unsuccessful
    else if ltb 0 retries
    then Conversation.processing
    else Conversation.unsuccessful

unfoldable pub set_conversations : (GenerationReview → Bool) → Conversation → Store → Store
set_conversations test conversation s = record s {
  reviews =
      update_where test (λ (r : GenerationReview). record r { conversation = conversation })
        s.reviews;
}

unfoldable pub set_parse_status : ℕ → ParseStatus → Store → Store
set_parse_status task status s = record s {
  sources =
      update_where (λ x. x.task == task)
        (λ (x : GenerationSource). record x { parse_status = status }) s.sources;
}

unfoldable pub spoils_sources : Failure → Bool
spoils_sources failure =
    is_among ("SOURCE_UNSUPPORTED" ∷ "SOURCE_PARSE_FAILED" ∷ "SOURCE_PURPOSE_MISMATCH" ∷ [])
      (error_code failure)

-- what follows the save
unfoldable pub after_failure : ℕ → Failure → GenerationTask → Store → Store
unfolding set_conversations asks_for answer_failed set_parse_status spoils_sources log_as
after_failure retries failure t s =
    let answered =
      set_conversations (λ r. asks_for s t.pk t.pending_section_codes r && is_unanswered r)
        (answer_failed retries failure) s in
    let marked =
      if spoils_sources failure
      then set_parse_status t.pk ParseStatus.unreadable answered
      else answered in
    log_as t.created_by "document_generation.generate.failed" (some t.pk) failed marked

abbrev pub recovery_ready : Event
recovery_ready = record {
  stage = "validating_sections";
  tool = "validation_recovery_ready";
  status = "failed";
}

-- the transaction: `false` if the task was stopped, which then stays as it is
unfoldable pub record_failure_rows : Request → ℕ → ℕ → Failure → Store → Result (Bool × Store)
record_failure_rows request retries key failure s = do
  t ← locked_task s key
  template ← template_of s t
  let changed = record (failed_task (request.now 1) s template retries failure t) {
    updated_at = request.now 1;
    error_code = error_code failure;
  }
  if is_cancelled t.status
      then ok (false, s)
      else ok (true, after_failure retries failure t (save_task changed s))

-- the transaction, and the event behind it, which is a transaction of its own
unfoldable pub record_failure : Request → ℕ → ℕ → Failure → Store → Result Store
unfolding record_failure_rows
record_failure request retries key failure s = do
  (recorded, s') ← record_failure_rows request retries key failure s
  if recorded && (needs_validation failure || needs_revision failure)
      then (do (event, traced) ← emit request key recovery_ready s'; ok traced)
      else ok s'
