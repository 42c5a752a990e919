-- ===== src/Documents/Stored/Steps.antt =====
-- Uploads and permanent deletions keep the versions and their files together.
use doc_manage_and_generatio.Prelude.{
  ℕ, ◌+◌, String, Bool, true, false, not, List, [], ◌∷◌, map, ◌≡◌, refl, inl, inr, Memᴰ, arith,
  subst, ◌∙◌, ◌==◌, filter, mem-filter, str_eq, str_eq_iff, Option-cases, Bool-cases,
}
use mathlib.Core.List.Memᴰ.{head, tail, cases_cons}
use doc_manage_and_generatio.Outcome.{
  Result, ok, err, raise_if, require, validation, permission_denied, document_deleted, ◌>>◌,
}
use doc_manage_and_generatio.Uploads.{UploadedFile, Settings, StoredFile}
use doc_manage_and_generatio.Schema.{Db, Request, Folder, Document, DocumentVersion, is_deleted}
use doc_manage_and_generatio.Audit.{audit_log}
use doc_manage_and_generatio.Documents.Permissions.{can_update_document}
use doc_manage_and_generatio.Documents.Guards.{
  find_document, find_folder, locked_document, ensure_upload_allowed,
}
use doc_manage_and_generatio.Documents.Files.{
  System, file_exists, check_upload, create_document, create_document_version, create_document_rows,
  create_version_rows, create_version, NewDocument,
}
use doc_manage_and_generatio.Documents.Removal.{
  versions_of, delete_document_rows, delete_files, permanently_delete_rows, removed,
  permanently_delete_document,
}
use doc_manage_and_generatio.Documents.Versions.{create_version_rows-IsNewest}
use doc_manage_and_generatio.Documents.Stored.{
  IsStored, Adds, exists-delete_files, uploaded-IsStored,
}

create_document_rows-Adds :
    (request : Request) (key : ℕ) (name : String) (data' : NewDocument) (stored : StoredFile)
    (db : Db) {d : Document} {db' : Db}
    → create_document_rows request key name data' stored db ≡ ok (d, db')
    → Adds stored db db'
unfolding create_document_rows create_version audit_log
create_document_rows-Adds request key name data' stored db h =
    elim (Option-cases (find_folder db key)) [
      | inl e ↦ ground arith
      | inr (f, e) ↦ record {
        version = create_version (db.next_pk + 1) db.next_pk request.actor name stored 1;
        written = ground arith;
        at_path = refl;
      }
    ]

create_version_rows-Adds :
    (request : Request) (key : ℕ) (name : String) (stored : StoredFile) (db : Db)
    {v : DocumentVersion} {db' : Db}
    → create_version_rows request key name stored db ≡ ok (v, db')
    → Adds stored db db'
create_version_rows-Adds request key name stored db {v} h =
    let newest = create_version_rows-IsNewest request key name stored db h in
    record { version = v; written = newest.appended; at_path = newest.has_file.0 }

mem-paths :
    (vs : List DocumentVersion) (p : String)
    → Memᴰ p (map (λ v. v.storage_path) vs)
    → (v : DocumentVersion) × Memᴰ v vs × (p ≡ v.storage_path)
mem-paths [] p m = elim m [ ]
mem-paths (v ∷ vs) p m = elim (cases_cons m) [
  | inl e ↦ (v, head refl, e)
  | inr n ↦ let (w, i, e) = mem-paths vs p n in (w, tail i, e)
]

removed-IsStored :
    (request : Request) (key expected : ℕ) (sys : System) {paths : List String} {db' : Db}
    → permanently_delete_rows request key expected sys.db ≡ ok (paths, db')
    → IsStored sys
    → IsStored (record { db = db'; files = delete_files paths sys.files })
unfolding permanently_delete_rows delete_document_rows locked_document audit_log
removed-IsStored request key expected sys {paths} {db'} h inv =
    elim (Option-cases (find_document sys.db key)) [
      | inl e ↦ ground arith
      | inr (d, e) ↦
          let written : db'.versions ≡ filter (λ x. not (x.document == d.pk)) sys.db.versions =
            ground arith in
          let listed : paths ≡ map (λ v. v.storage_path) (versions_of sys.db d.pk) = ground arith in
          let back = λ (v : DocumentVersion) (m : Memᴰ v db'.versions).
            mem-filter (λ x. not (x.document == d.pk)) sys.db.versions (subst (Memᴰ v) written m) in
          record {
            has_file = λ v m.
                let (i, other) = back v m in
                exists-delete_files paths v.storage_path sys.files
                  (λ p q. elim (Bool-cases (str_eq v.storage_path p)) [
                    | inl same ↦
                        let (w, n, at) =
                          mem-paths (versions_of sys.db d.pk) p (subst (Memᴰ p) listed q) in
                        let (j, own) = mem-filter (λ x. x.document == d.pk) sys.db.versions n in
                        absurd (
                          ground (
                            arith,
                            other,
                            own,
                            inv.one_document v w i j ((str_eq_iff v.storage_path p).0 same ∙ at),
                          ))
                    | inr apart ↦ apart
                  ])
                  (inv.has_file v i);
            one_document = λ v w m n e. inv.one_document v w (back v m).0 (back w n).0 e;
          }
    ]

removal-IsStored :
    (sys : System) (r : Result (List String × Db))
    → ((paths : List String) (db' : Db)
        → r ≡ ok (paths, db')
        → IsStored (record { db = db'; files = delete_files paths sys.files }))
    → IsStored sys
    → IsStored (removed sys r).1
unfolding removed
removal-IsStored sys (err e) kept inv = inv
removal-IsStored sys (ok (paths, db')) kept inv = kept paths db' refl

-- One call that writes files. The path that is drawn for an upload is not in use.
pub data FileStep (s : System) : System → Type 0 where
  new_document :
      (request : Request) (settings : Settings) (folder : Folder) (file : UploadedFile)
      (data' : NewDocument)
      → file_exists file.stored.relative_path s.files ≡ false
      → FileStep s (create_document request settings folder file data' s).1
  new_version :
      (request : Request) (settings : Settings) (document : Document) (file : UploadedFile)
      → file_exists file.stored.relative_path s.files ≡ false
      → FileStep s (create_document_version request settings document file s).1
  permanent_deletion :
      (running : Bool) (request : Request) (key expected : ℕ)
      → FileStep s (permanently_delete_document running request key expected s).1

-- An upload or a permanent deletion, whether it succeeds or fails, leaves every version in the
-- database with its file, and no path to the versions of two documents, if that held before and the
-- path that is drawn for an upload is not in use.
pub FileStep-IsStored : {s t : System} → FileStep s t → IsStored s → IsStored t
unfolding create_document create_document_version permanently_delete_document
FileStep-IsStored {s} (new_document request settings folder file data' fresh) inv =
    uploaded-IsStored
      (do ensure_upload_allowed s.db request.actor folder; check_upload settings file) file s
      (λ x. create_document_rows request folder.pk x data' file.stored s.db) fresh inv
      (λ name d db' h. create_document_rows-Adds request folder.pk name data' file.stored s.db h)
FileStep-IsStored {s} (new_version request settings document file fresh) inv =
    uploaded-IsStored
      (do
        raise_if (is_deleted document) (validation document_deleted)
        require (can_update_document s.db (request.now 0) request.actor document) permission_denied
        check_upload settings file)
      file s (λ x. create_version_rows request document.pk x file.stored s.db) fresh inv
      (λ name v db' h. create_version_rows-Adds request document.pk name file.stored s.db h)
FileStep-IsStored {s} (permanent_deletion true request key expected) inv = inv
FileStep-IsStored {s} (permanent_deletion false request key expected) inv =
    removal-IsStored s (permanently_delete_rows request key expected s.db)
      (λ paths db' h. removed-IsStored request key expected s h inv) inv
