-- ===== src/Generation/Events.antt =====
-- apps/document_generation/workflow_events.py: the trace of a task and its progress. Titles, details
-- and metadata of an event are left out.
use text.Mathlib.Text.{starts_with}
use doc_manage_and_generatio.Prelude.{
  ℕ, ◌+◌, String, not, ◌&&◌, Option, none, some, List, [], ◌∷◌, ◌++◌, ltb, ◌==◌, max, str_eq,
  if◌then◌else◌, any,
}
use doc_manage_and_generatio.Outcome.{Result, ok, ◌>>=◌, ◌>>◌, raise_if, task_cancelled}
use doc_manage_and_generatio.Schema.{Request}
use doc_manage_and_generatio.Generation.Schema.{
  Operation, GenerationTask, GenerationTraceEvent, EventType, Store,
}
use doc_manage_and_generatio.Generation.Guards.{locked_task, save_task, is_cancelled}

abbrev model_tools : List String
model_tools = "extract_fact_candidates" ∷ "draft_document_section" ∷ "revise_document_section" ∷ []

abbrev rag_tools : List String
rag_tools = "retrieve_reference_sections" ∷ "rag_context_ready" ∷ []

abbrev tool_prefixes : List String
tool_prefixes = "validate_" ∷ "build_" ∷ "select_" ∷ "parse_" ∷ "render_" ∷ "publish_" ∷ []

unfoldable pub event_type_for_tool : String → EventType
event_type_for_tool tool =
    if any (str_eq tool) model_tools
    then EventType.model
    else if any (str_eq tool) rag_tools
    then EventType.rag
    else if any (starts_with tool) tool_prefixes
    then EventType.tool
    else EventType.system

-- `EXTRACT_PROGRESS` and `GENERATE_PROGRESS`
abbrev pub extract_progress : List (String × ℕ)
extract_progress =
    ("initialized", 10)
    ∷ ("parsing", 12)
    ∷ ("extracting_facts", 16)
    ∷ ("validating_facts", 18)
    ∷ ("completed", 20)
    ∷ []

abbrev pub generate_progress : List (String × ℕ)
generate_progress =
    ("initialized", 40)
    ∷ ("parsing", 42)
    ∷ ("validating_facts", 45)
    ∷ ("building_risk_profile", 48)
    ∷ ("selecting_clauses", 52)
    ∷ ("retrieving_references", 58)
    ∷ ("generating_sections", 68)
    ∷ ("validating_sections", 78)
    ∷ ("rendering", 84)
    ∷ ("storing", 88)
    ∷ ("completed", 90)
    ∷ []

-- `progress_map.get(stage)`
unfoldable pub progress_at : List (String × ℕ) → String → Option ℕ
progress_at [] stage = none
progress_at ((name, n) ∷ rest) stage = if str_eq name stage then some n else progress_at rest stage

unfoldable pub next_progress : Operation → String → Option ℕ
next_progress Operation.extract stage = progress_at extract_progress stage
next_progress Operation.generate stage = progress_at generate_progress stage

-- the sequence numbers of the task's events
unfoldable pub sequences : ℕ → List GenerationTraceEvent → List ℕ
sequences task [] = []
sequences task (e ∷ rest) =
    let others = sequences task rest in if e.task == task then e.sequence ∷ others else others

-- `aggregate(value=Max("sequence"))["value"] or 0`
unfoldable pub max_sequence : List ℕ → ℕ
max_sequence [] = 0
max_sequence (n ∷ rest) = max n (max_sequence rest)

-- What `emit` is called with.
pub record Event : Type 0 where
  pub stage : String
  pub tool : String
  pub status : String

unfoldable pub new_event : Store → GenerationTask → Event → GenerationTraceEvent
new_event s t event = record {
  task = t.pk;
  sequence = max_sequence (sequences t.pk s.events) + 1;
  stage = event.stage;
  event_type = event_type_for_tool event.tool;
  tool = event.tool;
  status = event.status;
}

-- the progress that an event of this stage reports, if it is ahead of the task's
unfoldable pub advance : ℕ → GenerationTask → Event → Store → Store
advance now t event s =
    if str_eq event.status "failed" then s else elim (next_progress t.operation event.stage) [
      | none ↦ s
      | some n ↦
          if ltb t.progress n then save_task (record t { progress = n; updated_at = now }) s else s
    ]

unfoldable pub emit : Request → ℕ → Event → Store → Result (GenerationTraceEvent × Store)
emit request key event s = do
  t ← locked_task s key
  raise_if (is_cancelled t.status && not (str_eq event.tool "cancel_generation_task"))
      task_cancelled
  let row = new_event s t event
  let inserted = record s { events = s.events ++ row ∷ [] }
  ok (row, advance (request.now 0) t event inserted)
