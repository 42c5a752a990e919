-- ===== src/Generation/Context.antt =====
-- apps/document_generation/services.py: what a user states for a new task, and the context that is kept
-- of it (`_normalize_conversation_context`).
use doc_manage_and_generatio.Prelude.{
  ℕ, String, Bool, true, false, not, ◌&&◌, ◌||◌, Option, none, some, List, [], ◌∷◌, is_none, ◌==◌,
  str_eq, if◌then◌else◌, find?, any, update_where,
}
use doc_manage_and_generatio.Text.{strip}
use doc_manage_and_generatio.Outcome.{Result, ok, ◌>>=◌, ◌>>◌, raise_if, generation_error}
use doc_manage_and_generatio.Schema.{Db, Folder, DocumentVersion}
use doc_manage_and_generatio.Folders.Defaults.{names, standard_root_for_code}
use doc_manage_and_generatio.Folders.Descendants.{contains}
use doc_manage_and_generatio.Documents.Guards.{parent_of}
use doc_manage_and_generatio.Generation.Schema.{
  DocumentTemplate, Gender, PersonnelProfile, Person, ConversationContext, Store,
}
use doc_manage_and_generatio.Documents.Files.{file_exists}

-- an item of the request's `facts`, with `""` for a key that is not there
pub record StatedFact : Type 0 where
  pub field : String
  pub value : String
  pub value_type : String

-- the rows of `personnel_folders()` of apps/folders/personnel.py
unfoldable pub is_personnel_folder : Db → Folder → Bool
is_personnel_folder db f = elim (standard_root_for_code "PUBLIC-STAFF") [
  | none ↦ false
  | some d ↦ is_none f.project && f.is_active && elim (parent_of db f) [
    | none ↦ false
    | some p ↦
        is_none p.project
        && is_none p.parent
        && p.is_active
        && (str_eq p.code d.code || any (str_eq p.name) (names d))
  ]
]

-- `list(dict.fromkeys(keys))`
unfoldable pub unique_keys : List ℕ → List ℕ → List ℕ
unique_keys seen [] = []
unique_keys seen (k ∷ rest) =
    let others = unique_keys (k ∷ seen) rest in
    let fresh = unique_keys seen rest in if contains seen k then fresh else k ∷ others

-- the folders of the chosen persons
unfoldable pub chosen_personnel : Db → List ℕ → Result (List ℕ)
chosen_personnel db ids = do
  raise_if
      (any (λ k. not (any (λ f. f.pk == k && is_personnel_folder db f) db.folders))
        (unique_keys [] ids))
      (generation_error "PERSONNEL_INVALID")
  ok (unique_keys [] ids)

-- the arguments of `create_generation_task`
pub record NewTask : Type 0 where
  pub project : ℕ
  pub template : DocumentTemplate
  pub document_purpose : String
  pub business_type : String
  pub idempotency_key : String
  pub initial_facts : List StatedFact
  pub initial_message : String
  pub selected_personnel_ids : List ℕ

-- `personnel_profile_for`
unfoldable pub personnel_profile_for : Store → Folder → Option PersonnelProfile
personnel_profile_for s f = find? (λ (p : PersonnelProfile). p.folder == f.pk) s.profiles

abbrev is_known : Gender → Bool
is_known x = elim x [ Gender.unknown ↦ false | _ ↦ true ]

unfoldable pub person_of : Store → Folder → Person
person_of s f = elim (personnel_profile_for s f) [
  | none ↦ record {
    folder = f.pk;
    name = strip f.name;
    gender = Gender.unknown;
    id_card_number = "";
    phone = "";
    profile_complete = false;
  }
  | some p ↦ record {
    folder = f.pk;
    name = strip f.name;
    gender = p.gender;
    id_card_number = p.id_card_number;
    phone = p.phone;
    profile_complete =
        is_known p.gender && not (str_eq p.id_card_number "") && not (str_eq p.phone "");
  }
]

-- the loop over the chosen keys; a folder is found for each
unfoldable pub persons_of : Store → List ℕ → List Person
persons_of s [] = []
persons_of s (k ∷ rest) = elim (find? (λ f. f.pk == k && is_personnel_folder s.db f) s.db.folders) [
  | none ↦ persons_of s rest
  | some f ↦ person_of s f ∷ persons_of s rest
]

abbrev template_version : Store → DocumentTemplate → Option DocumentVersion
template_version s template = find? (λ v. v.pk == template.document_version) s.db.versions

-- `infer_template_layout_schema` of the file at a path, which the library for DOCX reads.
module _ (infer_layout : String → String) where
  -- the path of the template's file, if the layout is yet to be found and the file stands there
  unfoldable pub unread_layout : Store → DocumentTemplate → Option String
  unread_layout s template = elim (template_version s template) [
    | none ↦ none
    | some v ↦
        if str_eq template.layout_schema "" && file_exists v.storage_path s.files
        then some v.storage_path
        else none
  ]

  unfoldable pub layout_of : Store → DocumentTemplate → String
  unfolding unread_layout
  layout_of s template = elim (unread_layout s template) [
    | none ↦ template.layout_schema
    | some path ↦ infer_layout path
  ]

  -- `DocumentTemplate.objects.filter(pk=template.pk).update(layout_schema=layout_schema)`
  unfoldable pub keep_layout :
      DocumentTemplate → String → List DocumentTemplate → List DocumentTemplate
  keep_layout template layout rows =
      update_where (λ x. x.pk == template.pk)
        (λ (x : DocumentTemplate). record x { layout_schema = layout }) rows

  unfoldable pub with_layout : Store → DocumentTemplate → Store
  unfolding unread_layout
  with_layout s template = elim (unread_layout s template) [
    | none ↦ s
    | some path ↦ record s { templates = keep_layout template (infer_layout path) s.templates }
  ]

  unfoldable pub context_of : Store → NewTask → List ℕ → ConversationContext
  context_of s data' keys =
      let filename : String = elim (template_version s data'.template) [
        | none ↦ ""
        | some v ↦ v.original_filename
      ] in
      let title : String =
        if str_eq data'.template.template_name ""
        then data'.template.client_name
        else data'.template.template_name in
      record {
        initial_message = strip data'.initial_message;
        personnel = persons_of s keys;
        template = record {
          template = data'.template.pk;
          code = data'.template.code;
          name = if str_eq (strip title) "" then filename else strip title;
          filename = filename;
          version = data'.template.version;
          document_version = data'.template.document_version;
          layout_schema = layout_of s data'.template;
        };
      }

  -- `_normalize_conversation_context`, with the store that it leaves
  unfoldable pub normalize_conversation_context :
      Store → NewTask → Result (ConversationContext × Store)
  normalize_conversation_context s data' = do
    keys ← chosen_personnel s.db data'.selected_personnel_ids
    ok (context_of s data' keys, with_layout s data'.template)
