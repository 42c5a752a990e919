-- ===== src/Generation/Requests.antt =====
-- apps/document_generation/services.py: a user makes a task, gives it material and has its facts
-- extracted. Each function is one transaction.
use doc_manage_and_generatio.Prelude.{
  ℕ, ◌+◌, String, Bool, true, false, not, ◌&&◌, ◌||◌, Option, none, some, List, [], ◌∷◌, ◌++◌,
  same_key, str_eq, if◌then◌else◌, find?, any,
}
use doc_manage_and_generatio.Text.{strip, lower_text, has_part}
use doc_manage_and_generatio.Outcome.{
  Result, ok, ◌>>=◌, ◌>>◌, raise_if, require, permission_denied, generation_error,
}
use doc_manage_and_generatio.Schema.{Request, success, actor_pk}
use doc_manage_and_generatio.Generation.Schema.{
  Status, Operation, CompletionState, FactEntry, stated, GenerationTask, DocumentTemplate,
  AgentSystemPrompt, ConversationContext, Store,
}
use doc_manage_and_generatio.Generation.Guards.{can_use_generation, ensure_active_project, log}
use doc_manage_and_generatio.Generation.Context.{
  StatedFact, NewTask, normalize_conversation_context,
}

abbrev pub business_type : String
business_type = "wind_turbine_inspection_four_measures_two_plans"

abbrev pub document_purpose : String
document_purpose = "entry_four_measures_two_plans"

-- `template_is_available_for_project`
unfoldable pub template_is_available : DocumentTemplate → ℕ → Bool
template_is_available template project =
    if not template.is_active || not (str_eq template.business_type business_type)
    then false
    else if template.is_approved
    then true
    else template.self_service && same_key template.self_service_project (some project)

abbrev forbidden_fact_field_parts : List String
forbidden_fact_field_parts =
    "actual_result" ∷ "completion_result" ∷ "defect" ∷ "detection_conclusion"
    ∷ "inspection_conclusion" ∷ "inspection_result" ∷ "measured_result" ∷ "test_conclusion"
    ∷ "test_result" ∷ "实测结果" ∷ "完工结果" ∷ "检测结论" ∷ "检测结果" ∷ "缺陷清单" ∷ "验收结论" ∷ []

abbrev pub field_of : StatedFact → String
field_of item = lower_text (strip item.field)

unfoldable pub value_type_of : StatedFact → String
value_type_of item = if str_eq (strip item.value_type) "" then "string" else strip item.value_type

-- `_normalize_initial_facts`, behind the fields `seen`
unfoldable pub normalize_facts : List String → List StatedFact → Result (List FactEntry)
normalize_facts seen [] = ok []
normalize_facts seen (item ∷ rest) = do
  raise_if (str_eq (field_of item) "") (generation_error "FACTS_INCOMPLETE")
  raise_if (any (str_eq (field_of item)) seen) (generation_error "FACTS_CONFLICT")
  raise_if (any (λ part. has_part part (field_of item)) forbidden_fact_field_parts)
      (generation_error "RESULT_CONTENT_FORBIDDEN")
  entries ← normalize_facts (field_of item ∷ seen) rest
  ok (stated (field_of item) item.value (value_type_of item) ∷ entries)

-- `filter(is_active=True).order_by("-created_at", "-id").first()`: rows are inserted at the end
unfoldable pub newest_prompt : List AgentSystemPrompt → Option AgentSystemPrompt
newest_prompt [] = none
newest_prompt (p ∷ rest) = elim (newest_prompt rest) [
  | some q ↦ some q
  | none ↦ if p.is_active then some p else none
]

-- what `_fingerprint` hashes
pub record Payload : Type 0 where
  pub project_id : ℕ
  pub template_id : ℕ
  pub document_purpose : String
  pub business_type : String
  pub facts : List FactEntry
  pub conversation_context : ConversationContext
  pub system_prompt_sha256 : String

abbrev prompt_sha256 : Option AgentSystemPrompt → String
prompt_sha256 none = ""
prompt_sha256 (some p) = p.content_sha256

abbrev prompt_content : Option AgentSystemPrompt → String
prompt_content none = ""
prompt_content (some p) = p.content

abbrev prompt_pk : Option AgentSystemPrompt → Option ℕ
prompt_pk none = none
prompt_pk (some p) = some p.pk

unfoldable pub payload_of :
    NewTask → List FactEntry → ConversationContext → Option AgentSystemPrompt → Payload
payload_of data' facts context prompt = record {
  project_id = data'.project;
  template_id = data'.template.pk;
  document_purpose = data'.document_purpose;
  business_type = data'.business_type;
  facts = facts;
  conversation_context = context;
  system_prompt_sha256 = prompt_sha256 prompt;
}

unfoldable pub new_task :
    Request → ℕ → NewTask → Payload → String → Option AgentSystemPrompt → GenerationTask
new_task request pk data' payload fingerprint prompt = record {
  pk = pk;
  project = data'.project;
  template = data'.template.pk;
  status = Status.draft;
  operation = Operation.extract;
  progress = 0;
  completion_state = CompletionState.complete;
  idempotency_key = strip data'.idempotency_key;
  request_fingerprint = fingerprint;
  conversation_context = payload.conversation_context;
  system_prompt = prompt_pk prompt;
  system_prompt_snapshot = prompt_content prompt;
  system_prompt_sha256 = prompt_sha256 prompt;
  facts_snapshot = payload.facts;
  fact_conflicts = [];
  pending_section_codes = data'.template.section_order;
  generation_attempts = 0;
  error_code = "";
  draft_storage_path = "";
  output_document_version = none;
  export_idempotency_key = "";
  created_by = actor_pk request.actor;
  reviewed_by = none;
  approved_at = none;
  started_at = none;
  completed_at = none;
  deleted_at = none;
  deleted_by = none;
  updated_at = request.now 0;
}

-- the task that a creation with this key has made
abbrev pub made_with : Request → String → GenerationTask → Bool
made_with request key t =
    same_key t.created_by (actor_pk request.actor) && str_eq t.idempotency_key key

-- The digests and files that a creation reads.
pub record Creator : Type 0 where
  -- `_fingerprint`, the SHA-256 of the payload's JSON text
  pub fingerprint : Payload → String
  -- `infer_template_layout_schema`, of the file at a path
  pub infer_layout : String → String

-- The rows of the creator and the key are
-- unique; `create` meets no such row, since the transaction has just looked for one.
module _ (creator : Creator) where
  unfoldable pub insert_task :
      Request
      → NewTask
      → List FactEntry
      → ConversationContext
      → Option AgentSystemPrompt
      → Store
      → Result ((GenerationTask × Bool) × Store)
  unfolding payload_of new_task log
  insert_task request data' facts context prompt s =
      let payload = payload_of data' facts context prompt in
      elim (find? (made_with request (strip data'.idempotency_key)) s.tasks) [
        | some t ↦ do
          require (str_eq t.request_fingerprint (creator.fingerprint payload))
              (generation_error "IDEMPOTENCY_CONFLICT")
          ok ((t, false), s)
        | none ↦
            let t = new_task request s.next_pk data' payload (creator.fingerprint payload) prompt in
            let inserted = record s { tasks = s.tasks ++ t ∷ []; next_pk = s.next_pk + 1 } in
            ok (
              (t, true),
              log request.actor "document_generation.task.create" (some t.pk) success inserted,
            )
      ]

  unfoldable pub create_generation_task :
      Request → NewTask → Store → Result ((GenerationTask × Bool) × Store)
  create_generation_task request data' s = do
    require (can_use_generation s request.actor data'.project) permission_denied
    ensure_active_project s data'.project
    require (str_eq data'.document_purpose document_purpose)
        (generation_error "DOCUMENT_PURPOSE_INVALID")
    require (str_eq data'.business_type business_type) (generation_error "BUSINESS_TYPE_INVALID")
    require (template_is_available data'.template data'.project)
        (generation_error "TEMPLATE_INVALID")
    facts ← normalize_facts [] data'.initial_facts
    (context, kept) ← normalize_conversation_context creator.infer_layout s data'
    raise_if (str_eq (strip data'.idempotency_key) "") (generation_error "IDEMPOTENCY_KEY_REQUIRED")
    insert_task request data' facts context (newest_prompt s.prompts) kept
