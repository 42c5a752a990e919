-- ===== src/Documents/Removal.antt =====
-- `open_current_version_for_download`, `document_storage_consistency` and
-- `permanently_delete_document` of apps/documents/services.py.
use doc_manage_and_generatio.Prelude.{
  ℕ, String, Bool, true, false, not, none, some, List, [], ◌∷◌, map, ◌==◌, if◌then◌else◌, filter,
}
use doc_manage_and_generatio.Outcome.{
  validation, permission_denied, stored_file_missing, backup_running, Result, ok, err, ◌>>=◌, ◌>>◌,
  require, document_deleted, document_not_deleted, no_current_version,
}
use doc_manage_and_generatio.Schema.{
  Db, Request, Document, DocumentVersion, AuditResult, success, denied, failed, is_deleted,
}
use doc_manage_and_generatio.Audit.{audit_log}
use doc_manage_and_generatio.Documents.Permissions.{
  can_download_document, can_permanently_delete_document,
}
use doc_manage_and_generatio.Documents.Guards.{
  locked_document, version_of, ensure_expected_updated_at,
}
use doc_manage_and_generatio.Documents.Operations.{is_access_to}
use doc_manage_and_generatio.Documents.Files.{System, delete_file, file_exists}

abbrev pub versions_of : Db → ℕ → List DocumentVersion
versions_of db document = filter (λ v. v.document == document) db.versions

-- `document_storage_consistency`: the paths of the document's versions at which no file stands
unfoldable pub document_storage_consistency : ℕ → System → List String
document_storage_consistency document sys =
    map (λ v. v.storage_path)
      (filter (λ v. not (file_exists v.storage_path sys.files)) (versions_of sys.db document))

abbrev logged : Request → ℕ → AuditResult → System → System
logged request document result sys = record sys {
  db = audit_log request.actor "document.download" (some document) result sys.db;
}

-- The download runs in no transaction: the entry about a refusal stays in the log.
unfoldable pub open_current_version_for_download :
    Request → Document → System → Result DocumentVersion × System
unfolding audit_log
open_current_version_for_download request d sys =
    if is_deleted d
    then (err (validation document_deleted), sys)
    else if not (can_download_document sys.db (request.now 0) request.actor d)
    then (err permission_denied, logged request d.pk denied sys)
    else elim (version_of sys.db d.current_version) [
      | none ↦ (err (validation no_current_version), sys)
      | some v ↦
          if file_exists v.storage_path sys.files
          then (ok v, logged request d.pk success sys)
          else (err stored_file_missing, logged request d.pk failed sys)
    ]

-- `document.delete()`: the foreign keys to the document and to its versions cascade
unfoldable pub delete_document_rows : ℕ → Db → Db
unfolding is_access_to
delete_document_rows key db = record db {
  documents = filter (λ d. not (d.pk == key)) db.documents;
  versions = filter (λ v. not (v.document == key)) db.versions;
  grants = filter (λ g. not (g.document == key)) db.grants;
  temporary_grants = filter (λ g. not (is_access_to db key g)) db.temporary_grants;
}

-- `for storage_path in storage_paths: backend.delete(storage_path)`
unfoldable pub delete_files : List String → List String → List String
unfolding delete_file
delete_files [] files = files
delete_files (path ∷ paths) files = delete_files paths (delete_file path files)

-- the transaction in `permanently_delete_document`: the paths to delete, and the database
unfoldable pub permanently_delete_rows : Request → ℕ → ℕ → Db → Result (List String × Db)
unfolding delete_document_rows audit_log
permanently_delete_rows request key expected db = do
  d ← locked_document db key
  ensure_expected_updated_at d expected
  require (can_permanently_delete_document request.actor) permission_denied
  require (is_deleted d) (validation document_not_deleted)
  let paths = map (λ v. v.storage_path) (versions_of db d.pk)
  ok (
    paths,
    audit_log request.actor "document.permanent_delete" (some key) success
        (delete_document_rows d.pk db),
  )

-- the transaction committed, and then the files are deleted
unfoldable pub removed : System → Result (List String × Db) → Result (Unit {0}) × System
unfolding delete_files
removed sys (err e) = (err e, sys)
removed sys (ok (paths, db)) = (ok tt, record { db = db; files = delete_files paths sys.files })

-- `backup_is_running` is what `ensure_backup_not_running` of apps/system/services.py finds.
unfoldable pub permanently_delete_document :
    Bool → Request → ℕ → ℕ → System → Result (Unit {0}) × System
unfolding permanently_delete_rows removed
permanently_delete_document true request key expected sys = (err backup_running, sys)
permanently_delete_document false request key expected sys =
    removed sys (permanently_delete_rows request key expected sys.db)
