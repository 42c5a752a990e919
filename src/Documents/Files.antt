-- ===== src/Documents/Files.antt =====
-- The operations of apps/documents/services.py that read or write stored files.
use doc_manage_and_generatio.Prelude.{
  ℕ, ◌+◌, String, Bool, not, none, some, List, [], ◌∷◌, ◌++◌, ◌==◌, str_eq, if◌then◌else◌, filter,
  max, any,
}
use doc_manage_and_generatio.Text.{strip, lower, suffix, is_one_of}
use doc_manage_and_generatio.Outcome.{
  validation, permission_denied, Result, ok, err, ◌>>=◌, ◌>>◌, raise_if, require, document_deleted,
}
use doc_manage_and_generatio.Uploads.{
  UploadedFile, StoredFile, Settings, normalize_upload_filename, validate_uploaded_file,
}
use doc_manage_and_generatio.Schema.{
  Actor, Db, Request, Document, DocumentVersion, Folder, AccessLevel, SourceType, success,
  is_deleted, actor_pk,
}
use doc_manage_and_generatio.Audit.{audit_log}
use doc_manage_and_generatio.Documents.Permissions.{can_update_document}
use doc_manage_and_generatio.Documents.Guards.{
  found, locked_document, find_folder, ensure_upload_allowed, ensure_source_type_matches_folder,
  ensure_not_deleted, ensure_project_write_allowed, Candidate, ensure_folder_accepts_document,
  save_document,
}

-- the database, and the paths under the storage root at which a file stands
pub record System : Type 0 where
  pub db : Db
  pub files : List String

-- `LocalDocumentStorage.delete`
unfoldable pub delete_file : String → List String → List String
delete_file path files = filter (λ p. not (str_eq p path)) files

-- `os.replace` to the final path
unfoldable pub save_file : String → List String → List String
unfolding delete_file
save_file path files = path ∷ delete_file path files

-- `LocalDocumentStorage.exists`
abbrev pub file_exists : String → List String → Bool
file_exists path files = any (λ p. str_eq p path) files

-- `_safe_content_type`
unfoldable pub safe_content_type : String → String
safe_content_type filename =
    let extension = lower (suffix filename) in
    if is_one_of extension (".pdf" ∷ [])
    then "application/pdf"
    else if is_one_of extension (".doc" ∷ [])
    then "application/msword"
    else if is_one_of extension (".docx" ∷ [])
    then "application/vnd.openxmlformats-officedocument.wordprocessingml.document"
    else if is_one_of extension (".xls" ∷ [])
    then "application/vnd.ms-excel"
    else if is_one_of extension (".xlsx" ∷ [])
    then "application/vnd.openxmlformats-officedocument.spreadsheetml.sheet"
    else if is_one_of extension (".jpg" ∷ ".jpeg" ∷ [])
    then "image/jpeg"
    else if is_one_of extension (".png" ∷ [])
    then "image/png"
    else "application/octet-stream"

-- `_create_version`, as a row with the key `pk`
unfoldable pub create_version : ℕ → ℕ → Actor → String → StoredFile → ℕ → DocumentVersion
create_version pk document actor filename stored number = record {
  pk = pk;
  document = document;
  version_number = number;
  original_filename = filename;
  content_type = safe_content_type filename;
  file_size = stored.size;
  sha256 = stored.sha256;
  storage_path = stored.relative_path;
  uploaded_by = actor_pk actor;
}

-- What the caller of `create_document` hands over beside the folder and the file.
pub record NewDocument : Type 0 where
  pub title : String
  pub description : String
  pub access_level : AccessLevel
  pub source_type : SourceType

-- `title.strip() or original_filename`
unfoldable pub document_title : String → String → String
document_title title filename = if str_eq (strip title) "" then filename else strip title

new_document : Request → ℕ → Folder → String → NewDocument → ℕ → Document
new_document request pk folder title data' version = record {
  pk = pk;
  project = folder.project;
  folder = folder.pk;
  title = title;
  description = data'.description;
  access_level = data'.access_level;
  source_type = data'.source_type;
  current_version = some version;
  created_by = actor_pk request.actor;
  updated_at = request.now 0;
  lock_version = 1;
  deleted_at = none;
  deleted_by = none;
}

abbrev pub new_candidate : Folder → String → String → StoredFile → Candidate
new_candidate folder title filename stored = record {
  folder = folder.pk;
  title = some title;
  original_filename = some filename;
  sha256 = some stored.sha256;
  exclude_document_id = none;
}

-- the transaction in `create_document`
unfoldable pub create_document_rows :
    Request → ℕ → String → NewDocument → StoredFile → Db → Result (Document × Db)
unfolding new_document create_version audit_log
create_document_rows request folder_key filename data' stored db = do
  folder ← found (find_folder db folder_key)
  ensure_upload_allowed db request.actor folder
  ensure_source_type_matches_folder db data'.source_type folder
  let title = document_title data'.title filename
  ensure_folder_accepts_document db (new_candidate folder title filename stored)
  let version_pk = db.next_pk + 1
  let d = new_document request db.next_pk folder title data' version_pk
  let v = create_version version_pk db.next_pk request.actor filename stored 1
  let inserted = record db {
    documents = db.documents ++ d ∷ [];
    versions = db.versions ++ v ∷ [];
    next_pk = db.next_pk + 2;
  }
  ok (d, audit_log request.actor "document.create" (some d.pk) success inserted)

-- `except Exception: backend.delete(...); raise` around a transaction
unfoldable pub commit_or_delete {ℓ} :
    {A : Type ℓ} → String → System → Result (A × Db) → Result A × System
unfolding delete_file
commit_or_delete path sys (ok (a, db)) = (ok a, record sys { db = db })
commit_or_delete path sys (err e) = (err e, record sys { files = delete_file path sys.files })

abbrev pub store : UploadedFile → System → System
store file sys = record sys { files = save_file file.stored.relative_path sys.files }

-- Both uploads check the file, store it, and run their transaction with the normalized name.
unfoldable pub with_stored_file {ℓ} :
    {A : Type ℓ}
    → Result String
    → UploadedFile
    → System
    → (String → Result (A × Db))
    → Result A × System
unfolding save_file commit_or_delete
with_stored_file (err e) file sys transaction = (err e, sys)
with_stored_file (ok filename) file sys transaction =
    commit_or_delete file.stored.relative_path (store file sys) (transaction filename)

-- the checks before the file is stored; they return the normalized name
unfoldable pub check_upload : Settings → UploadedFile → Result String
check_upload settings file = do
  validate_uploaded_file settings file
  normalize_upload_filename file.name

-- `folder` is the object that the caller read; its row is read again inside the transaction.
unfoldable pub create_document :
    Request → Settings → Folder → UploadedFile → NewDocument → System → Result Document × System
unfolding create_document_rows with_stored_file
create_document request settings folder file data' sys =
    with_stored_file
      (do ensure_upload_allowed sys.db request.actor folder; check_upload settings file) file sys
      (λ filename. create_document_rows request folder.pk filename data' file.stored sys.db)

-- `aggregate(latest=Max("version_number"))["latest"] or 0`
unfoldable pub latest_version : ℕ → List DocumentVersion → ℕ
latest_version document [] = 0
latest_version document (v ∷ vs) =
    let rest = latest_version document vs in
    if v.document == document then max v.version_number rest else rest

-- the transaction in `create_document_version`
unfoldable pub create_version_rows :
    Request → ℕ → String → StoredFile → Db → Result (DocumentVersion × Db)
unfolding create_version save_document audit_log
create_version_rows request key filename stored db = do
  d ← locked_document db key
  ensure_not_deleted d
  ensure_project_write_allowed db d
  require (can_update_document db (request.now 1) request.actor d) permission_denied
  let number = latest_version d.pk db.versions + 1
  let v = create_version db.next_pk d.pk request.actor filename stored number
  let inserted = record db { versions = db.versions ++ v ∷ []; next_pk = db.next_pk + 1 }
  let saved = record d { current_version = some v.pk; updated_at = request.now 2 }
  ok (
    v,
    audit_log request.actor "document.version.create" (some d.pk) success
        (save_document saved inserted),
  )

-- `document` is the object that the caller read; its row is read again inside the transaction.
unfoldable pub create_document_version :
    Request → Settings → Document → UploadedFile → System → Result DocumentVersion × System
unfolding create_version_rows with_stored_file
create_document_version request settings document file sys =
    with_stored_file
      (do
        raise_if (is_deleted document) (validation document_deleted)
        require (can_update_document sys.db (request.now 0) request.actor document)
            permission_denied
        check_upload settings file)
      file sys (λ filename. create_version_rows request document.pk filename file.stored sys.db)
