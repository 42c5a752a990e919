-- ===== src/Tests/Task.antt =====
-- A small store: one queued task of the sample's project, its template, and one locked section.
use doc_manage_and_generatio.Prelude.{true, false, none, some, [], ◌∷◌}
use doc_manage_and_generatio.Schema.{Folder}
use doc_manage_and_generatio.Generation.Schema.{
  Status, Operation, CompletionState, stated, GenerationTask, DocumentTemplate, GeneratedSection,
  Store,
}
use doc_manage_and_generatio.Tests.Sample.{db, folder}

abbrev pub task : GenerationTask
task = record {
  pk = 50;
  project = 5;
  template = 60;
  status = Status.queued;
  operation = Operation.generate;
  progress = 35;
  completion_state = CompletionState.complete;
  idempotency_key = "first";
  request_fingerprint = "print";
  conversation_context = record {
    initial_message = "write the plan";
    personnel = [];
    template = record {
      template = 60;
      code = "T1";
      name = "plan";
      filename = "plan.docx";
      version = "1";
      document_version = 30;
      layout_schema = "";
    };
  };
  system_prompt = none;
  system_prompt_snapshot = "";
  system_prompt_sha256 = "";
  facts_snapshot = stated "site" "Dam" "string" ∷ [];
  fact_conflicts = [];
  pending_section_codes = "scope" ∷ [];
  generation_attempts = 0;
  error_code = "";
  draft_storage_path = "";
  output_document_version = none;
  export_idempotency_key = "";
  created_by = some 1;
  reviewed_by = none;
  approved_at = none;
  started_at = none;
  completed_at = none;
  deleted_at = none;
  deleted_by = none;
  updated_at = 100;
}

abbrev pub template : DocumentTemplate
template = record {
  pk = 60;
  code = "T1";
  client_name = "plan";
  version = "1";
  layout_schema = "";
  template_name = "";
  business_type = "wind_turbine_inspection_four_measures_two_plans";
  section_order = "scope" ∷ [];
  required_fact_fields = [];
  document_version = 30;
  is_active = true;
  is_approved = true;
  self_service = false;
  self_service_project = none;
}

abbrev pub section : GeneratedSection
section = record {
  pk = 70;
  task = 50;
  section_code = "scope";
  title = "Scope";
  content = "text";
  structured_content = none;
  citations = [];
  validation_issues = [];
  revision = 1;
  is_locked = true;
}

abbrev pub technical_folder : Folder
technical_folder = record folder { pk = 12; name = "plans"; code = "PUBLIC-TECH-SOLUTION" }

-- the store with one task
abbrev pub store_with : GenerationTask → Store
store_with t = record {
  profiles = [];
  db = record db { folders = technical_folder ∷ db.folders };
  files = [];
  prompts = [];
  templates = template ∷ [];
  tasks = t ∷ [];
  sources = [];
  sections = section ∷ [];
  reviews = [];
  events = [];
  callbacks = [];
  next_pk = 200;
}

abbrev pub store : Store
store = store_with task
