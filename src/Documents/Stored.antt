-- ===== src/Documents/Stored.antt =====
-- Every version in the database has its file under the storage root.
pub mod Steps
use doc_manage_and_generatio.Prelude.{
  ℕ, ◌+◌, String, Bool, true, false, not, Option, none, some, List, [], ◌∷◌, ◌++◌, map, ◌≡◌, ◌≢◌,
  refl, inl, inr, Memᴰ, arith, ap, sym, subst, ◌∙◌, ◌==◌, ==_iff, any, filter, mem-filter,
  filter-mem, mem-concat, str_eq, str_eq_iff, Option-cases, Bool-cases,
}
use mathlib.Core.List.Memᴰ.{head, tail, cases_cons}
use doc_manage_and_generatio.Outcome.{
  Result, ok, err, Result-cases, raise_if, require, validation, permission_denied, document_deleted,
  ◌>>◌,
}
use doc_manage_and_generatio.Uploads.{UploadedFile, Settings, StoredFile}
use doc_manage_and_generatio.Schema.{Db, Request, Folder, Document, DocumentVersion, is_deleted}
use doc_manage_and_generatio.Audit.{audit_log}
use doc_manage_and_generatio.Documents.Permissions.{can_update_document}
use doc_manage_and_generatio.Documents.Guards.{
  find_document, find_folder, locked_document, ensure_upload_allowed,
}
use doc_manage_and_generatio.Documents.Rows.{find_document-pk}
use doc_manage_and_generatio.Documents.Files.{
  System, delete_file, save_file, file_exists, commit_or_delete, store, with_stored_file,
  check_upload, create_document, create_document_version, create_document_rows, create_version_rows,
  create_version, NewDocument,
}
use doc_manage_and_generatio.Documents.Removal.{
  versions_of, delete_document_rows, delete_files, permanently_delete_rows, removed,
  permanently_delete_document,
}
use doc_manage_and_generatio.Documents.Storage.{delete_file-save_file}
use doc_manage_and_generatio.Documents.Versions.{create_version_rows-IsNewest, saved_file}

pub record IsStored (s : System) : Type 0 where
  pub has_file :
      (v : DocumentVersion) → Memᴰ v s.db.versions → file_exists v.storage_path s.files ≡ true
  pub one_document :
      (v w : DocumentVersion)
      → Memᴰ v s.db.versions
      → Memᴰ w s.db.versions
      → v.storage_path ≡ w.storage_path
      → v.document ≡ w.document

exists-delete_file :
    (path other : String) (files : List String)
    → file_exists other files ≡ true
    → str_eq other path ≡ false
    → file_exists other (delete_file path files) ≡ true
unfolding delete_file
exists-delete_file path other [] h apart = ground arith
exists-delete_file path other (p ∷ ps) h apart = ground (
  arith,
  exists-delete_file path other ps,
  str_eq_iff p path,
  str_eq_iff p other,
  str_eq_iff other path,
  h,
  apart,
)

exists-save_file :
    (path other : String) (files : List String)
    → file_exists other files ≡ true
    → file_exists other (save_file path files) ≡ true
unfolding save_file
exists-save_file path other files h = elim (Bool-cases (str_eq other path)) [
  | inl e ↦ ground (arith, (str_eq_iff path other).1 (sym ((str_eq_iff other path).0 e)))
  | inr e ↦ ground (arith, exists-delete_file path other files h e)
]

pub exists-delete_files :
    (paths : List String) (other : String) (files : List String)
    → ((p : String) → Memᴰ p paths → str_eq other p ≡ false)
    → file_exists other files ≡ true
    → file_exists other (delete_files paths files) ≡ true
unfolding delete_files
exists-delete_files [] other files apart h = h
exists-delete_files (path ∷ paths) other files apart h =
    exists-delete_files paths other (delete_file path files) (λ p m. apart p (tail m))
      (exists-delete_file path other files h (apart path (head refl)))

-- An upload adds one version, of the stored file.
pub record Adds (stored : StoredFile) (before after : Db) : Type 0 where
  pub version : DocumentVersion
  pub written : after.versions ≡ before.versions ++ version ∷ []
  pub at_path : version.storage_path ≡ stored.relative_path

added-IsStored :
    (file : UploadedFile) (sys : System) (db' : Db)
    → file_exists file.stored.relative_path sys.files ≡ false
    → IsStored sys
    → Adds file.stored sys.db db'
    → IsStored (record { db = db'; files = save_file file.stored.relative_path sys.files })
added-IsStored file sys db' fresh inv a =
    let path = file.stored.relative_path in
    let new : (w : DocumentVersion)
        → Memᴰ w sys.db.versions
        → w.storage_path ≢ a.version.storage_path =
      λ w m e. ground (
        arith,
        fresh,
        subst (λ p. file_exists p sys.files ≡ true) (e ∙ a.at_path) (inv.has_file w m),
      ) in
    record {
      has_file = λ v m. elim (mem-concat sys.db.versions a.version (subst (Memᴰ v) a.written m)) [
        | inl i ↦ exists-save_file path v.storage_path sys.files (inv.has_file v i)
        | inr e ↦
            subst (λ p. file_exists p (save_file path sys.files) ≡ true)
              (sym (ap (λ x. x.storage_path) e ∙ a.at_path)) (saved_file path sys.files)
      ];
      one_document = λ v w m n e.
          elim (mem-concat sys.db.versions a.version (subst (Memᴰ v) a.written m)) [
            | inl i ↦ elim (mem-concat sys.db.versions a.version (subst (Memᴰ w) a.written n)) [
              | inl j ↦ inv.one_document v w i j e
              | inr q ↦ absurd (new v i (e ∙ ap (λ x. x.storage_path) q))
            ]
            | inr p ↦ elim (mem-concat sys.db.versions a.version (subst (Memᴰ w) a.written n)) [
              | inl j ↦ absurd (new w j (sym e ∙ ap (λ x. x.storage_path) p))
              | inr q ↦ ap (λ x. x.document) (p ∙ sym q)
            ]
          ];
    }

committed-IsStored {ℓ} :
    {A : Type ℓ} (file : UploadedFile) (sys : System) (r : Result (A × Db))
    → file_exists file.stored.relative_path sys.files ≡ false
    → IsStored sys
    → ((a : A) (db' : Db) → r ≡ ok (a, db') → Adds file.stored sys.db db')
    → IsStored (commit_or_delete file.stored.relative_path (store file sys) r).1
unfolding commit_or_delete
committed-IsStored file sys (err e) fresh inv adds =
    subst (λ fs. IsStored (record sys { files = fs }))
      (sym (delete_file-save_file file.stored.relative_path sys.files fresh)) inv
committed-IsStored file sys (ok (a, db')) fresh inv adds =
    added-IsStored file sys db' fresh inv (adds a db' refl)

pub uploaded-IsStored {ℓ} :
    {A : Type ℓ} (checked : Result String) (file : UploadedFile) (sys : System)
    (transaction : String → Result (A × Db))
    → file_exists file.stored.relative_path sys.files ≡ false
    → IsStored sys
    → ((name : String) (a : A) (db' : Db)
        → transaction name ≡ ok (a, db')
        → Adds file.stored sys.db db')
    → IsStored (with_stored_file checked file sys transaction).1
unfolding with_stored_file
uploaded-IsStored (err e) file sys transaction fresh inv adds = inv
uploaded-IsStored (ok name) file sys transaction fresh inv adds =
    committed-IsStored file sys (transaction name) fresh inv (adds name)
