-- ===== src/Documents/Guards.antt =====
-- The checks of apps/documents/services.py that its operations share.
use text.Mathlib.Text.{starts_with}
use doc_manage_and_generatio.Prelude.{
  ℕ, zero, suc, ◌+◌, String, Bool, true, false, not, ◌&&◌, ◌||◌, Option, none, some, List, [], ◌∷◌,
  is_none, is_some, leb, ◌==◌, same_key, str_eq, if◌then◌else◌, any, find?, length, update_where,
}
use doc_manage_and_generatio.Text.{strip, ends_with, path_name}
use doc_manage_and_generatio.Outcome.{
  validation, permission_denied, does_not_exist, document_conflict, Result, ok, err, ◌>>◌, raise_if,
  require, document_deleted, folder_disabled, target_folder_disabled, qualification_root,
  archive_folder, project_archived, project_mismatch, entrance_folder_required,
  entrance_folder_reserved, same_name, same_content,
}
use doc_manage_and_generatio.Schema.{
  Actor, Db, Document, DocumentVersion, Folder, SourceType, is_archived, is_deleted,
  is_system_admin,
}
use doc_manage_and_generatio.Projects.Membership.{project_of}
use doc_manage_and_generatio.Folders.Defaults.{
  names, archive_root, entry_preparation_root_code, standard_root_for_code, standard_root_for_name,
}
use doc_manage_and_generatio.Folders.Descendants.{contains}
use doc_manage_and_generatio.Folders.Personnel.{
  public_staff_folder_ids, own_public_staff_folder_ids,
}
use doc_manage_and_generatio.Documents.Permissions.{can_upload_document}

-- `Model.objects.select_for_update().get(pk=key)`
abbrev pub found {ℓ} : {A : Type ℓ} → Option A → Result A
found none = err does_not_exist
found (some a) = ok a

abbrev pub find_document : Db → ℕ → Option Document
find_document db key = find? (λ d. d.pk == key) db.documents

abbrev pub find_folder : Db → ℕ → Option Folder
find_folder db key = find? (λ f. f.pk == key) db.folders

-- `_locked_document`
unfoldable pub locked_document : Db → ℕ → Result Document
locked_document db key = found (find_document db key)

-- the row that `document.current_version` names
abbrev pub version_of : Db → Option ℕ → Option DocumentVersion
version_of db none = none
version_of db (some key) = find? (λ v. v.pk == key) db.versions

-- the row that `folder.parent` names
abbrev pub parent_of : Db → Folder → Option Folder
parent_of db f = elim f.parent [ none ↦ none | some key ↦ find_folder db key ]

unfoldable pub is_qualification_root_folder : Folder → Bool
is_qualification_root_folder f =
    if not (is_none f.parent && is_none f.project)
    then false
    else elim (standard_root_for_code f.code) [
      | some d ↦ str_eq d.code "PUBLIC-COMPANY" || str_eq d.code "PUBLIC-STAFF"
      | none ↦ elim (standard_root_for_name f.name) [
        | some d ↦ str_eq d.code "PUBLIC-COMPANY" || str_eq d.code "PUBLIC-STAFF"
        | none ↦ false
      ]
    ]

unfoldable pub is_archive_folder : Folder → Bool
unfolding archive_root
is_archive_folder f =
    if is_some f.project
    then false
    else (str_eq f.code archive_root.code
        || any (str_eq f.name) (names archive_root)
        || starts_with f.code "PUBLIC-ARCHIVE-"
        || ends_with f.name "年归档资料")

abbrev pub project_is_archived : Db → Option ℕ → Bool
project_is_archived db project = elim (project_of db project) [
  | none ↦ false
  | some p ↦ is_archived p
]

-- `folder.pk in public_staff_folder_ids() and not admin and folder.pk not in own_...(actor)`
unfoldable pub is_foreign_staff_folder : Db → Actor → ℕ → Bool
is_foreign_staff_folder db actor folder =
    contains (public_staff_folder_ids db) folder
    && not (is_system_admin actor)
    && not (contains (own_public_staff_folder_ids db actor) folder)

unfoldable pub ensure_upload_allowed : Db → Actor → Folder → Result (Unit {0})
ensure_upload_allowed db actor f = do
  require f.is_active (validation folder_disabled)
  raise_if (is_qualification_root_folder f) (validation qualification_root)
  raise_if (is_archive_folder f) (validation archive_folder)
  raise_if (project_is_archived db f.project) (validation project_archived)
  raise_if (is_foreign_staff_folder db actor f.pk) permission_denied
  require (can_upload_document db actor f.project) permission_denied

-- `_folder_is_within_root`. Each round adds a key to `visited`, so one round more than there are
-- rows is enough fuel.
unfoldable pub walk_to_root : ℕ → Db → List ℕ → Option Folder → String → Bool
walk_to_root zero db visited current root_code = false
walk_to_root (suc fuel) db visited none root_code = false
walk_to_root (suc fuel) db visited (some f) root_code =
    let rest = walk_to_root fuel db (f.pk ∷ visited) (parent_of db f) root_code in
    if contains visited f.pk then false else if str_eq f.code root_code then true else rest

unfoldable pub folder_is_within_root : Db → Folder → String → Bool
unfolding walk_to_root
folder_is_within_root db f root_code =
    walk_to_root (suc (suc (length db.folders))) db [] (some f) root_code

unfoldable pub ensure_source_type_matches_folder : Db → SourceType → Folder → Result (Unit {0})
ensure_source_type_matches_folder db SourceType.entrance_material f =
    raise_if (is_none f.project || not (folder_is_within_root db f entry_preparation_root_code))
      (validation entrance_folder_required)
ensure_source_type_matches_folder db SourceType.project_upload f =
    raise_if (folder_is_within_root db f entry_preparation_root_code)
      (validation entrance_folder_reserved)

unfoldable pub ensure_not_deleted : Document → Result (Unit {0})
ensure_not_deleted d = raise_if (is_deleted d) (validation document_deleted)

unfoldable pub ensure_project_write_allowed : Db → Document → Result (Unit {0})
ensure_project_write_allowed db d =
    raise_if (project_is_archived db d.project) (validation project_archived)

unfoldable pub ensure_expected_updated_at : Document → ℕ → Result (Unit {0})
ensure_expected_updated_at d expected = require (d.updated_at == expected) document_conflict

unfoldable pub validate_target_folder : Document → Folder → Result (Unit {0})
validate_target_folder d f = do
  require f.is_active (validation target_folder_disabled)
  raise_if (is_qualification_root_folder f) (validation qualification_root)
  raise_if (is_archive_folder f) (validation archive_folder)
  require (same_key f.project d.project) (validation project_mismatch)

-- What `_ensure_folder_accepts_document` compares; an argument left out is `none`.
pub record Candidate : Type 0 where
  pub folder : ℕ
  pub title : Option String
  pub original_filename : Option String
  pub sha256 : Option String
  pub exclude_document_id : Option ℕ

-- the documents that the candidate is compared with
unfoldable pub is_neighbour : Candidate → Document → Bool
is_neighbour c d =
    d.folder == c.folder && not (is_deleted d) && not (same_key c.exclude_document_id (some d.pk))

abbrev pub text_or_empty : Option String → String
text_or_empty none = ""
text_or_empty (some s) = s

-- `Q(title=clean_title)`, which is not asked for an empty title
unfoldable pub has_title : String → Document → Bool
has_title clean_title d = not (str_eq clean_title "") && str_eq d.title clean_title

-- `Q(current_version__original_filename=clean_filename)`
unfoldable pub has_filename : Db → String → Document → Bool
has_filename db clean_filename d =
    not (str_eq clean_filename "") && elim (version_of db d.current_version) [
      | none ↦ false
      | some v ↦ str_eq v.original_filename clean_filename
    ]

-- `current_version__sha256=sha256`
unfoldable pub has_content : Db → String → Document → Bool
has_content db sha256 d =
    not (str_eq sha256 "")
    && elim (version_of db d.current_version) [ none ↦ false | some v ↦ str_eq v.sha256 sha256 ]

-- the candidate's name is taken by the document `d`
unfoldable pub takes_name : Db → Candidate → Document → Bool
takes_name db c d =
    let clean_title = strip (text_or_empty c.title) in
    let clean_filename = path_name (text_or_empty c.original_filename) in
    is_neighbour c d && (has_title clean_title d || has_filename db clean_filename d)

-- the candidate's content is that of the document `d`
unfoldable pub takes_content : Db → Candidate → Document → Bool
takes_content db c d = is_neighbour c d && has_content db (text_or_empty c.sha256) d

unfoldable pub ensure_folder_accepts_document : Db → Candidate → Result (Unit {0})
ensure_folder_accepts_document db c = do
  raise_if (any (takes_name db c) db.documents) (validation same_name)
  raise_if (any (takes_content db c) db.documents) (validation same_content)

-- `_touch_document` on the row in memory: `save` stamps it with the time, and a stamp that is not
-- later than the one before is replaced by the next microsecond.
unfoldable pub touch_document : ℕ → Document → Document
touch_document now d = record d {
  lock_version = d.lock_version + 1;
  updated_at = if leb now d.updated_at then d.updated_at + 1 else now;
}

-- `document.save()`
unfoldable pub save_document : Document → Db → Db
save_document d db = record db {
  documents = update_where (λ x. x.pk == d.pk) (λ x. d) db.documents;
}
