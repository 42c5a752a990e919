-- ===== src/Generation/Schema.antt =====
-- apps/document_generation/models.py: the tables of the generation tasks. A JSON column is the
-- record of the parts that the services read: of `conversation_context` the initial message, of
-- `structured_content` the contract `GeneratedSection`, if the column satisfies it. Texts that are
-- only shown to the user (`error_message`, titles, details), the risk profile and the names of the
-- models are left out.
use doc_manage_and_generatio.Prelude.{ℕ, String, Bool, Option, List}
use doc_manage_and_generatio.Schema.{Db}

-- `GenerationTask.Status`
pub data Status : Type 0 where
  draft extracting needs_confirmation ready queued generating review_required : Status
  pending_approval approved exported failed cancelled : Status

-- `GenerationTask.Operation`
pub data Operation : Type 0 where
  extract generate : Operation

pub data CompletionState : Type 0 where
  complete pending_manual_fill : CompletionState

-- `SourceLocator`
pub record Locator : Type 0 where
  pub page : Option ℕ
  pub paragraph_index : Option ℕ
  pub table_index : Option ℕ
  pub text_quote : String

pub record ConfirmedFact : Type 0 where
  pub field : String
  pub value : String
  pub source_document_version_id : ℕ
  pub locator : Locator
  pub confirmed_by : Option ℕ

-- An entry of `facts_snapshot`: what the creator stated, what the extraction proposed, or what
-- a user confirmed. Only the last satisfies the contract `ConfirmedFact`.
pub data FactEntry : Type 0 where
  stated : String → String → String → FactEntry
  proposed : String → String → FactEntry
  confirmed : ConfirmedFact → FactEntry

-- `PersonnelProfile.Gender`
pub data Gender : Type 0 where
  unknown male female : Gender

-- `PersonnelProfile` of apps/folders/models.py
pub record PersonnelProfile : Type 0 where
  pub folder : ℕ
  pub gender : Gender
  pub id_card_number : String
  pub phone : String

-- A person as the conversation context keeps it; the entries that are always empty are left out.
pub record Person : Type 0 where
  pub folder : ℕ
  pub name : String
  pub gender : Gender
  pub id_card_number : String
  pub phone : String
  pub profile_complete : Bool

-- The template as the context keeps it; the entries that never differ are left out.
pub record TemplateContext : Type 0 where
  pub template : ℕ
  pub code : String
  pub name : String
  pub filename : String
  pub version : String
  pub document_version : ℕ
  pub layout_schema : String

-- `GenerationTask.conversation_context`
pub record ConversationContext : Type 0 where
  pub initial_message : String
  pub personnel : List Person
  pub template : TemplateContext

pub record GenerationTask : Type 0 where
  pub pk : ℕ
  pub project : ℕ
  pub template : ℕ
  pub status : Status
  pub operation : Operation
  pub progress : ℕ
  pub completion_state : CompletionState
  pub idempotency_key : String
  pub request_fingerprint : String
  pub conversation_context : ConversationContext
  pub system_prompt : Option ℕ
  pub system_prompt_snapshot : String
  pub system_prompt_sha256 : String
  pub facts_snapshot : List FactEntry
  -- the fields of the conflicts
  pub fact_conflicts : List String
  pub pending_section_codes : List String
  pub generation_attempts : ℕ
  pub error_code : String
  pub draft_storage_path : String
  pub output_document_version : Option ℕ
  pub export_idempotency_key : String
  pub created_by : Option ℕ
  pub reviewed_by : Option ℕ
  pub approved_at : Option ℕ
  pub started_at : Option ℕ
  pub completed_at : Option ℕ
  pub deleted_at : Option ℕ
  pub deleted_by : Option ℕ
  pub updated_at : ℕ

pub record AgentSystemPrompt : Type 0 where
  pub pk : ℕ
  pub original_filename : String
  pub content : String
  pub content_sha256 : String
  pub is_active : Bool
  pub created_by : Option ℕ

-- `DocumentTemplate`
pub record DocumentTemplate : Type 0 where
  pub pk : ℕ
  pub code : String
  pub client_name : String
  pub version : String
  pub business_type : String
  -- the JSON text, "" for an empty object
  pub layout_schema : String
  pub section_order : List String
  pub required_fact_fields : List String
  pub document_version : ℕ
  pub is_active : Bool
  -- `approval_status == APPROVED`
  pub is_approved : Bool
  -- of `field_mapping`; "" where `template_name` is missing
  pub template_name : String
  pub self_service : Bool
  pub self_service_project : Option ℕ

-- `GenerationSource.ParseStatus`
pub data ParseStatus : Type 0 where
  pending parsed unreadable : ParseStatus

pub record GenerationSource : Type 0 where
  pub task : ℕ
  pub document_version : ℕ
  pub file_sha256 : String
  pub parse_status : ParseStatus

pub record Issue : Type 0 where
  pub code : String
  pub message : String
  pub severity : String

-- a table or an image of a section
pub record Block : Type 0 where
  pub block_key : String
  pub is_required : Bool
  pub missing_cells : Bool

-- the contract `GeneratedSection`; a citation is its `chunk_id`
pub record Structure : Type 0 where
  pub section_code : String
  pub title : String
  pub paragraphs : List String
  pub tables : List Block
  pub images : List Block
  pub citations : List String

pub record GeneratedSection : Type 0 where
  pub pk : ℕ
  pub task : ℕ
  pub section_code : String
  pub title : String
  pub content : String
  pub structured_content : Option Structure
  pub citations : List String
  pub validation_issues : List Issue
  pub revision : ℕ
  pub is_locked : Bool

-- `GenerationReview.Action`
pub data ReviewAction : Type 0 where
  facts_confirmed section_edited section_locked section_unlocked : ReviewAction
  section_regenerated submitted approval export retried stopped : ReviewAction

-- `metadata["conversation_status"]`; none of them for a review of another action
pub data Conversation : Type 0 where
  no_conversation waiting processing completed unsuccessful : Conversation

pub record GenerationReview : Type 0 where
  pub pk : ℕ
  pub task : ℕ
  pub section : Option ℕ
  pub action : ReviewAction
  pub comment : String
  pub conversation : Conversation
  pub requested_rag_chunk_ids : List String
  pub revision_before : Option ℕ
  pub revision_after : Option ℕ
  pub actor : Option ℕ

-- `GenerationTraceEvent.EventType`
pub data EventType : Type 0 where
  system tool model rag : EventType

pub record GenerationTraceEvent : Type 0 where
  pub task : ℕ
  pub sequence : ℕ
  pub stage : String
  pub event_type : EventType
  pub tool : String
  pub status : String

-- a callback that `transaction.on_commit` registered
pub data Callback : Type 0 where
  queue_task : ℕ → Callback
  finish_stopping : ℕ → Callback
  delete_draft : String → Callback

pub record Store : Type 0 where
  pub db : Db
  pub profiles : List PersonnelProfile
  -- the paths under the storage root at which a file stands
  pub files : List String
  pub prompts : List AgentSystemPrompt
  pub templates : List DocumentTemplate
  pub tasks : List GenerationTask
  pub sources : List GenerationSource
  pub sections : List GeneratedSection
  pub reviews : List GenerationReview
  pub events : List GenerationTraceEvent
  pub callbacks : List Callback
  -- the key that the next inserted row of these tables gets
  pub next_pk : ℕ
