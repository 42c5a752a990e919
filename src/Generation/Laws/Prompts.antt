-- ===== src/Generation/Laws/Prompts.antt =====
-- The system prompt that was activated last is the one that new tasks take with them.
use doc_manage_and_generatio.Prelude.{
  ℕ, String, true, false, Option, some, List, [], ◌∷◌, ◌++◌, ◌≡◌, ap, ◌∙◌, inl, inr, arith, filter,
  find?, str_eq, Option-cases, Bool-cases,
}
use doc_manage_and_generatio.Text.{strip, any_char}
use doc_manage_and_generatio.Outcome.{ok, Result-cases}
use doc_manage_and_generatio.Schema.{Request}
use doc_manage_and_generatio.Generation.Schema.{
  GenerationTask, AgentSystemPrompt, Store, FactEntry, ConversationContext,
}
use doc_manage_and_generatio.Generation.Guards.{log}
use doc_manage_and_generatio.Generation.Requests.{
  Creator, newest_prompt, new_task, made_with, insert_task, create_generation_task, normalize_facts,
}
use doc_manage_and_generatio.Generation.Context.{NewTask, normalize_conversation_context}
use doc_manage_and_generatio.Generation.Prompts.{
  Encoding, is_unreadable, candidates, first_readable, decode_system_prompt, new_prompt,
  deactivated, activate_agent_system_prompt,
}

-- the rows that are active, as the source filters them
abbrev pub active : Store → List AgentSystemPrompt
active s = filter (λ p. p.is_active) s.prompts

deactivated-active :
    (decode : Encoding → List ℕ → Option String) (sha256 : String → String)
    (prompts : List AgentSystemPrompt) (prompt : AgentSystemPrompt)
    → prompt.is_active ≡ true
    → filter
        (λ (p : AgentSystemPrompt). p.is_active)
        (deactivated decode sha256 prompts ++ prompt ∷ [])
      ≡ prompt ∷ []
unfolding deactivated
deactivated-active decode sha256 [] prompt h = ground arith
deactivated-active decode sha256 (p ∷ prompts) prompt h =
    let rest = deactivated-active decode sha256 prompts prompt h in
    elim (Bool-cases p.is_active) [ inl e ↦ ground (arith, rest) | inr e ↦ ground (arith, rest) ]

newest_prompt-last :
    (xs : List AgentSystemPrompt) (prompt : AgentSystemPrompt)
    → prompt.is_active ≡ true
    → newest_prompt (xs ++ prompt ∷ []) ≡ some prompt
unfolding newest_prompt
newest_prompt-last [] prompt h = ground arith
newest_prompt-last (p ∷ xs) prompt h = ground (arith, newest_prompt-last xs prompt h)

first_readable-readable :
    (decode : Encoding → List ℕ → Option String) (raw : List ℕ) (encodings : List Encoding)
    {content : String}
    → first_readable decode raw encodings ≡ ok content
    → any_char is_unreadable content ≡ false
unfolding first_readable
first_readable-readable decode raw [] h = ground arith
first_readable-readable decode raw (encoding ∷ rest) h = elim (Option-cases (decode encoding raw)) [
  | inl e ↦ first_readable-readable decode raw rest (ground arith)
  | inr (text, e) ↦ elim (Bool-cases (any_char is_unreadable (strip text))) [
    | inl b ↦ first_readable-readable decode raw rest (ground arith)
    | inr b ↦ ground arith
  ]
]

-- a task that a creation inserts has the newest active prompt
insert_task-prompt :
    (creator : Creator) (request : Request) (data' : NewTask) (facts : List FactEntry)
    (context : ConversationContext) (prompt : AgentSystemPrompt) (s : Store) {t : GenerationTask}
    {s' : Store}
    → insert_task creator request data' facts context (some prompt) s ≡ ok ((t, true), s')
    → t.system_prompt_snapshot ≡ prompt.content
unfolding insert_task new_task
insert_task-prompt creator request data' facts context prompt s h =
    elim (Option-cases (find? (made_with request (strip data'.idempotency_key)) s.tasks)) [
      | inr (t, e) ↦ ground arith
      | inl e ↦ ground arith
    ]

create_generation_task-prompt :
    (creator : Creator) (request : Request) (data' : NewTask) (prompt : AgentSystemPrompt)
    (s : Store) {t : GenerationTask} {s' : Store}
    → newest_prompt s.prompts ≡ some prompt
    → create_generation_task creator request data' s ≡ ok ((t, true), s')
    → t.system_prompt_snapshot ≡ prompt.content
unfolding create_generation_task
create_generation_task-prompt creator request data' prompt s {t} {s'} n h =
    elim (Result-cases (normalize_facts [] data'.initial_facts)) [
      | inl (error, f) ↦ ground arith
      | inr (facts, f) ↦
          elim (Result-cases (normalize_conversation_context creator.infer_layout s data')) [
            | inl (error, c) ↦ ground arith
            | inr ((context, kept), c) ↦
                insert_task-prompt creator request data' facts context prompt kept {t = t} {s' = s'}
                  (ground arith)
          ]
    ]

-- If an activation goes through and a task is created anew right after it, the new prompt is the only
-- active one, it is not empty and holds no control character but tabulators and line ends, and the
-- task has its text.
pub activated_prompt_is_used :
    (decode : Encoding → List ℕ → Option String) (sha256 : String → String) (creator : Creator)
    (request later : Request) (filename : String) (raw : List ℕ) (data' : NewTask) (s : Store)
    {prompt : AgentSystemPrompt} {s' : Store} {t : GenerationTask} {s'' : Store}
    → activate_agent_system_prompt decode sha256 request filename raw s ≡ ok (prompt, s')
    → create_generation_task creator later data' s' ≡ ok ((t, true), s'')
    → (active s' ≡ prompt ∷ [])
      × (str_eq prompt.content "" ≡ false)
      × (any_char is_unreadable prompt.content ≡ false)
      × (t.system_prompt_snapshot ≡ prompt.content)
unfolding activate_agent_system_prompt decode_system_prompt new_prompt log
activated_prompt_is_used decode sha256 creator request later filename raw data' s {prompt} {s'} h
      made =
    elim (Result-cases (first_readable decode raw (candidates raw))) [
      | inl (error, e) ↦ ground arith
      | inr (content, e) ↦
          let on : prompt.is_active ≡ true = ground arith in
          let rows : s'.prompts ≡ deactivated decode sha256 s.prompts ++ prompt ∷ [] =
            ground arith in
          let text : prompt.content ≡ content = ground arith in
          let newest =
            ap newest_prompt rows
            ∙ newest_prompt-last (deactivated decode sha256 s.prompts) prompt on in
          (
            ap (λ xs. filter (λ (p : AgentSystemPrompt). p.is_active) xs) rows
                ∙ deactivated-active decode sha256 s.prompts prompt on,
            ground arith,
            ap (λ c. any_char is_unreadable c) text
                ∙ first_readable-readable decode raw (candidates raw) e,
            create_generation_task-prompt creator later data' prompt s' newest made,
          )
    ]
