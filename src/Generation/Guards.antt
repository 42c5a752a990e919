-- ===== src/Generation/Guards.antt =====
-- apps/document_generation/permissions.py, and the checks of services.py that its operations share.
use doc_manage_and_generatio.Prelude.{
  ℕ, ◌+◌, String, Bool, true, false, not, ◌&&◌, ◌||◌, Option, none, some, List, [], ◌∷◌, ◌++◌, ◌==◌,
  str_eq, if◌then◌else◌, find?, any, update_where,
}
use doc_manage_and_generatio.Text.{strip}
use doc_manage_and_generatio.Outcome.{
  Result, raise_if, require, permission_denied, generation_error,
}
use doc_manage_and_generatio.Schema.{
  Actor, AuditResult, ProjectMember, MemberRole, is_authenticated, is_active_user, is_system_admin,
  is_temporary_user, actor_pk,
}
use doc_manage_and_generatio.Audit.{audit_log}
use doc_manage_and_generatio.Projects.Membership.{get_project_membership, has_membership_flag}
use doc_manage_and_generatio.Documents.Guards.{found, project_is_archived}
use doc_manage_and_generatio.Generation.Schema.{
  Status, GenerationTask, DocumentTemplate, GeneratedSection, GenerationReview, ReviewAction,
  Conversation, Callback, Store,
}

unfoldable pub is_author : ProjectMember → Bool
is_author m = elim m.role [ MemberRole.viewer ↦ m.can_upload | _ ↦ true ]

unfoldable pub is_project_manager : ProjectMember → Bool
is_project_manager m = elim m.role [ MemberRole.manager ↦ true | _ ↦ false ]

unfoldable pub can_use_generation : Store → Actor → ℕ → Bool
unfolding has_membership_flag
can_use_generation s actor project =
    if not (is_authenticated actor)
    then false
    else if not (is_active_user actor) || is_temporary_user actor
    then false
    else (is_system_admin actor
        || has_membership_flag (get_project_membership s.db actor project) is_author)

unfoldable pub can_review_generation : Store → Actor → ℕ → Bool
unfolding has_membership_flag
can_review_generation s actor project =
    if not (is_authenticated actor)
    then false
    else if not (is_active_user actor) || is_temporary_user actor
    then false
    else (is_system_admin actor
        || has_membership_flag (get_project_membership s.db actor project) is_project_manager)

abbrev pub find_task : Store → ℕ → Option GenerationTask
find_task s key = find? (λ t. t.pk == key) s.tasks

-- `GenerationTask.objects.select_for_update().get(pk=key)`
unfoldable pub locked_task : Store → ℕ → Result GenerationTask
locked_task s key = found (find_task s key)

abbrev pub find_template : Store → ℕ → Option DocumentTemplate
find_template s key = find? (λ x. x.pk == key) s.templates

-- `task.template`
unfoldable pub template_of : Store → GenerationTask → Result DocumentTemplate
template_of s t = found (find_template s t.template)

unfoldable pub ensure_active_project : Store → ℕ → Result (Unit {0})
ensure_active_project s project =
    raise_if (project_is_archived s.db (some project)) (generation_error "PROJECT_ARCHIVED")

unfoldable pub ensure_task_user : Store → Actor → GenerationTask → Result (Unit {0})
ensure_task_user s actor t = require (can_use_generation s actor t.project) permission_denied

unfoldable pub ensure_review_user : Store → Actor → GenerationTask → Result (Unit {0})
ensure_review_user s actor t = require (can_review_generation s actor t.project) permission_denied

-- `_ensure_status`; the allowed statuses are given by their test
unfoldable pub ensure_status : GenerationTask → (Status → Bool) → Result (Unit {0})
ensure_status t allowed = require (allowed t.status) (generation_error "INVALID_TASK_TRANSITION")

abbrev pub is_draft : Status → Bool
is_draft x = elim x [ Status.draft ↦ true | _ ↦ false ]

abbrev pub is_extracting : Status → Bool
is_extracting x = elim x [ Status.extracting ↦ true | _ ↦ false ]

abbrev pub needs_confirmation : Status → Bool
needs_confirmation x = elim x [ Status.needs_confirmation ↦ true | _ ↦ false ]

abbrev pub is_ready : Status → Bool
is_ready x = elim x [ Status.ready ↦ true | _ ↦ false ]

abbrev pub is_queued : Status → Bool
is_queued x = elim x [ Status.queued ↦ true | _ ↦ false ]

abbrev pub is_generating : Status → Bool
is_generating x = elim x [ Status.generating ↦ true | _ ↦ false ]

abbrev pub is_in_review : Status → Bool
is_in_review x = elim x [ Status.review_required ↦ true | _ ↦ false ]

abbrev pub is_pending_approval : Status → Bool
is_pending_approval x = elim x [ Status.pending_approval ↦ true | _ ↦ false ]

abbrev pub is_exported : Status → Bool
is_exported x = elim x [ Status.exported ↦ true | _ ↦ false ]

abbrev pub is_cancelled : Status → Bool
is_cancelled x = elim x [ Status.cancelled ↦ true | _ ↦ false ]

-- `ACTIVE_TASK_STATUSES`
abbrev pub is_active_status : Status → Bool
is_active_status x = elim x [
  | Status.extracting ↦ true
  | Status.queued ↦ true
  | Status.generating ↦ true
  | _ ↦ false
]

-- `task.sources.exists()`
abbrev pub has_sources : Store → GenerationTask → Bool
has_sources s t = any (λ x. x.task == t.pk) s.sources

-- `prompt_source_document(task) is not None`
unfoldable pub has_prompt : GenerationTask → Bool
has_prompt t = not (str_eq (strip t.conversation_context.initial_message) "")

abbrev pub sections_of : GenerationTask → GeneratedSection → Bool
sections_of t x = x.task == t.pk

unfoldable pub is_section : ℕ → String → GeneratedSection → Bool
is_section task code x = x.task == task && str_eq x.section_code code

-- `any(issue.get("severity") == "error" for issue in section.validation_issues)`
unfoldable pub has_error : GeneratedSection → Bool
has_error x = any (λ i. str_eq i.severity "error") x.validation_issues

-- the rows with one of them written
unfoldable pub put_task : GenerationTask → List GenerationTask → List GenerationTask
put_task t tasks = update_where (λ x. x.pk == t.pk) (λ x. t) tasks

unfoldable pub put_section : GeneratedSection → List GeneratedSection → List GeneratedSection
put_section x sections = update_where (λ y. y.pk == x.pk) (λ y. x) sections

-- `task.save(...)`: the row is locked, so the columns that are not named are those that were read.
-- The caller writes the stamp of `updated_at` into the row.
abbrev pub save_task : GenerationTask → Store → Store
save_task t s = record s { tasks = put_task t s.tasks }

-- `section.save(...)`
abbrev pub save_section : GeneratedSection → Store → Store
save_section x s = record s { sections = put_section x s.sections }

unfoldable pub add_review : GenerationReview → Store → Store
add_review review s = record s {
  reviews = s.reviews ++ record review { pk = s.next_pk } ∷ [];
  next_pk = s.next_pk + 1;
}

-- a review without metadata
unfoldable pub plain_review : ℕ → Option ℕ → ReviewAction → String → Actor → GenerationReview
plain_review task section action comment actor = record {
  pk = 0;
  task = task;
  section = section;
  action = action;
  comment = comment;
  conversation = Conversation.no_conversation;
  requested_rag_chunk_ids = [];
  revision_before = none;
  revision_after = none;
  actor = actor_pk actor;
}

unfoldable pub log : Actor → String → Option ℕ → AuditResult → Store → Store
log actor action resource result s = record s { db = audit_log actor action resource result s.db }

-- `audit_log(user=task.created_by, ...)`, which the worker calls
unfoldable pub log_as : Option ℕ → String → Option ℕ → AuditResult → Store → Store
log_as user action resource result s = record s {
  db = record s.db {
    audit =
        s.db.audit
        ++ record { user = user; action = action; resource = resource; result = result } ∷ [];
  };
}

-- `transaction.on_commit(callback)`
unfoldable pub on_commit : Callback → Store → Store
on_commit callback s = record s { callbacks = s.callbacks ++ callback ∷ [] }
