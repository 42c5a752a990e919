-- ===== src/Generation/Prompts.antt =====
-- `activate_agent_system_prompt` of apps/document_generation/services.py: an uploaded text becomes the
-- system prompt of the tasks that are created from then on. The decoders are Python's, and the digest
-- of the text is hashlib's: parameters here.
use doc_manage_and_generatio.Prelude.{
  ℕ, ◌+◌, String, Bool, true, false, not, ◌&&◌, ◌||◌, Option, none, some, List, [], ◌∷◌, ◌++◌, ltb,
  ◌==◌, str_eq, if◌then◌else◌, update_where,
}
use doc_manage_and_generatio.Text.{strip, any_char}
use doc_manage_and_generatio.Outcome.{Result, ok, err, ◌>>=◌, ◌>>◌, raise_if, generation_error}
use doc_manage_and_generatio.Schema.{Request, success, actor_pk}
use doc_manage_and_generatio.Uploads.{bytes_start_with}
use doc_manage_and_generatio.Generation.Schema.{AgentSystemPrompt, Store}
use doc_manage_and_generatio.Generation.Guards.{log}

-- "utf-8-sig", "utf-16", "utf-8" and "gb18030"
pub data Encoding : Type 0 where
  utf8_sig utf16 utf8 gb18030 : Encoding

-- the encodings that are tried, by the mark at the beginning of the file
unfoldable pub candidates : List ℕ → List Encoding
candidates raw =
    if bytes_start_with raw (0xef ∷ 0xbb ∷ 0xbf ∷ [])
    then utf8_sig ∷ []
    else if bytes_start_with raw (0xff ∷ 0xfe ∷ []) || bytes_start_with raw (0xfe ∷ 0xff ∷ [])
    then utf16 ∷ []
    else utf8 ∷ gb18030 ∷ []

-- a control character, the null character among them, other than tabulator and line ends
unfoldable pub is_unreadable : ℕ → Bool
is_unreadable c = ltb c 32 && not (c == 9 || c == 10 || c == 13)

module _ (decode : Encoding → List ℕ → Option String) where
  -- the loop over the encodings
  unfoldable pub first_readable : List ℕ → List Encoding → Result String
  first_readable raw [] = err (generation_error "SYSTEM_PROMPT_INVALID")
  first_readable raw (encoding ∷ rest) =
      let later = first_readable raw rest in
      elim (decode encoding raw) [
        | none ↦ later
        | some text ↦ if any_char is_unreadable (strip text) then later else ok (strip text)
      ]

  unfoldable pub decode_system_prompt : List ℕ → Result String
  decode_system_prompt raw = first_readable raw (candidates raw)

  module _ (sha256 : String → String) where
    unfoldable pub new_prompt : Request → ℕ → String → String → AgentSystemPrompt
    new_prompt request pk filename content = record {
      pk = pk;
      original_filename = strip filename;
      content = content;
      content_sha256 = sha256 content;
      is_active = true;
      created_by = actor_pk request.actor;
    }

    -- `filter(is_active=True).update(is_active=False)`
    unfoldable pub deactivated : List AgentSystemPrompt → List AgentSystemPrompt
    deactivated prompts =
        update_where (λ p. p.is_active) (λ (p : AgentSystemPrompt). record p { is_active = false })
          prompts

    unfoldable pub activate_agent_system_prompt :
        Request → String → List ℕ → Store → Result (AgentSystemPrompt × Store)
    activate_agent_system_prompt request filename raw s = do
      content ← decode_system_prompt raw
      raise_if (str_eq content "") (generation_error "SYSTEM_PROMPT_INVALID")
      let prompt = new_prompt request s.next_pk filename content
      let activated = record s {
        prompts = deactivated s.prompts ++ prompt ∷ [];
        next_pk = s.next_pk + 1;
      }
      ok (
        prompt,
        log request.actor "document_generation.system_prompt.activate" (some prompt.pk) success
            activated,
      )
