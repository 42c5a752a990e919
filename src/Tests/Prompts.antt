-- ===== src/Tests/Prompts.antt =====
-- A system prompt at concrete inputs.
use doc_manage_and_generatio.Generation.Context.{normalize_conversation_context, with_layout}
use doc_manage_and_generatio.Audit.{audit_log}
use doc_manage_and_generatio.Generation.Requests.{
  insert_task, normalize_facts, template_is_available,
}
use doc_manage_and_generatio.Generation.Context.{chosen_personnel, unique_keys}
use doc_manage_and_generatio.Schema.{actor_pk}
use doc_manage_and_generatio.Generation.Prompts.{candidates, decode_system_prompt, first_readable}
use doc_manage_and_generatio.Uploads.{bytes_start_with}
use doc_manage_and_generatio.Text.{is_space, strip}
use doc_manage_and_generatio.Generation.Guards.{can_use_generation, ensure_active_project, log}
use doc_manage_and_generatio.Schema.{
  is_active_user, is_authenticated, is_system_admin, is_temporary_user,
}
use doc_manage_and_generatio.Prelude.{
  ℕ, String, Bool, true, false, Option, none, some, List, [], ◌∷◌, ◌≡◌, refl, str_eq,
}
use doc_manage_and_generatio.Text.{any_char}
use doc_manage_and_generatio.Outcome.{ok}
use doc_manage_and_generatio.Tests.Sample.{value_or, request}
use doc_manage_and_generatio.Tests.Task.{task, template, store}
use doc_manage_and_generatio.Generation.Schema.{GenerationTask, AgentSystemPrompt, Store}
use doc_manage_and_generatio.Generation.Requests.{Creator, create_generation_task}
use doc_manage_and_generatio.Generation.Context.{NewTask}
use doc_manage_and_generatio.Generation.Prompts.{
  Encoding, is_unreadable, activate_agent_system_prompt,
}
use doc_manage_and_generatio.Generation.Laws.Prompts.{active, activated_prompt_is_used}

-- a decoder that reads the file as GB18030 only
abbrev decode : Encoding → List ℕ → Option String
decode Encoding.gb18030 raw = some " be brief "
decode encoding raw = none

abbrev sha256 : String → String
sha256 content = content

abbrev creator : Creator
creator = record {
  fingerprint = λ p. p.conversation_context.initial_message;
  infer_layout = λ path. path;
}

abbrev earlier : AgentSystemPrompt
earlier = record {
  pk = 90;
  original_filename = "old.txt";
  content = "be long";
  content_sha256 = "be long";
  is_active = true;
  created_by = some 1;
}

abbrev creation : NewTask
creation = record {
  project = 5;
  template = template;
  document_purpose = "entry_four_measures_two_plans";
  business_type = "wind_turbine_inspection_four_measures_two_plans";
  idempotency_key = "second";
  initial_facts = [];
  initial_message = "write";
  selected_personnel_ids = [];
}

abbrev before : Store
before = record store { prompts = earlier ∷ [] }

abbrev activation : AgentSystemPrompt × Store
activation =
    value_or (activate_agent_system_prompt decode sha256 request "new.txt" (0xb1 ∷ []) before)
      (earlier, before)

abbrev created : (GenerationTask × Bool) × Store
created =
    value_or (create_generation_task creator request creation activation.1) ((task, false), before)

activation_succeeds :
    activate_agent_system_prompt decode sha256 request "new.txt" (0xb1 ∷ []) before
    ≡ ok (activation.0, activation.1)
unfolding activate_agent_system_prompt decode_system_prompt first_readable candidates
    bytes_start_with strip is_space is_unreadable
activation_succeeds = refl

creation_succeeds :
    create_generation_task creator request creation activation.1
    ≡ ok ((created.0.0, true), created.1)
unfolding create_generation_task can_use_generation is_authenticated is_active_user
    is_temporary_user is_system_admin ensure_active_project activate_agent_system_prompt
    decode_system_prompt first_readable candidates bytes_start_with strip is_space is_unreadable log
    audit_log template_is_available normalize_facts chosen_personnel unique_keys insert_task
    actor_pk normalize_conversation_context with_layout
creation_succeeds = refl

activated_prompt_is_used_example :
    (active activation.1 ≡ activation.0 ∷ [])
    × (str_eq activation.0.content "" ≡ false)
    × (any_char is_unreadable activation.0.content ≡ false)
    × (created.0.0.system_prompt_snapshot ≡ activation.0.content)
activated_prompt_is_used_example =
    activated_prompt_is_used decode sha256 creator request request "new.txt" (0xb1 ∷ []) creation
      before activation_succeeds creation_succeeds
