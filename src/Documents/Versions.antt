-- ===== src/Documents/Versions.antt =====
-- A new version of a document is its newest one, and its file is stored.
use doc_manage_and_generatio.Prelude.{
  ℕ, ◌≤◌, ◌<◌, String, true, some, List, [], ◌∷◌, ◌++◌, ◌≡◌, refl, inl, inr, Memᴰ, arith, ap, sym,
  ◌∙◌, ◌==◌, ==_iff, Option-cases, find?, str_eq_iff,
}
use mathlib.Core.List.Memᴰ.{cases_cons}
use doc_manage_and_generatio.Outcome.{
  Result, ok, err, raise_if, require, validation, permission_denied, document_deleted, ◌>>◌,
}
use doc_manage_and_generatio.Uploads.{UploadedFile, Settings, StoredFile}
use doc_manage_and_generatio.Schema.{Db, Request, Document, DocumentVersion, is_deleted}
use doc_manage_and_generatio.Audit.{audit_log}
use doc_manage_and_generatio.Documents.Permissions.{can_update_document}
use doc_manage_and_generatio.Documents.Guards.{find_document, locked_document, save_document}
use doc_manage_and_generatio.Documents.Files.{
  System, save_file, file_exists, commit_or_delete, with_stored_file, check_upload, create_version,
  latest_version, store, create_version_rows, create_document_version,
}
use doc_manage_and_generatio.Documents.Rows.{find_document-pk, find_document-save_document}

latest_version-le :
    (document : ℕ) (versions : List DocumentVersion) {w : DocumentVersion}
    → Memᴰ w versions
    → w.document ≡ document
    → w.version_number ≤ latest_version document versions
unfolding latest_version
latest_version-le document [] m h = elim m [ ]
latest_version-le document (v ∷ vs) m h = elim (cases_cons m) [
  | inl e ↦
      ground
        (arith, ap (λ x. x.document) e, ap (λ x. x.version_number) e, h, ==_iff v.document document)
  | inr n ↦ ground (arith, latest_version-le document vs n h)
]

-- `v` was added to the versions, with a number above those that the document had; it is the current
-- version, and bears the path and the digest of the stored file.
pub record IsNewest (key : ℕ) (stored : StoredFile) (v : DocumentVersion) (before after : Db)
    : Type 0 where
  pub appended : after.versions ≡ before.versions ++ v ∷ []
  pub of_document : v.document ≡ key
  pub highest :
      (w : DocumentVersion)
      → Memᴰ w before.versions
      → w.document ≡ key
      → w.version_number < v.version_number
  pub current :
      (d : Document) × (find_document after key ≡ some d) × (d.current_version ≡ some v.pk)
  pub has_file : (v.storage_path ≡ stored.relative_path) × (v.sha256 ≡ stored.sha256)

pub create_version_rows-IsNewest :
    (request : Request) (key : ℕ) (filename : String) (stored : StoredFile) (db : Db)
    {v : DocumentVersion} {db' : Db}
    → create_version_rows request key filename stored db ≡ ok (v, db')
    → IsNewest key stored v db db'
unfolding create_version_rows locked_document create_version save_document audit_log
create_version_rows-IsNewest request key filename stored db {v} {db'} h =
    elim (Option-cases (find_document db key)) [
      | inl e ↦ ground arith
      | inr (d, e) ↦
          let same = find_document-pk db key e in
          let saved = record d { current_version = some db.next_pk; updated_at = request.now 2 } in
          let documents : db'.documents ≡ (save_document saved db).documents = ground arith in
          record {
            appended = ground arith;
            of_document = ground (arith, same);
            highest =
                λ w m q. ground (arith, same, latest_version-le d.pk db.versions m (q ∙ sym same));
            current = (
              saved,
              ap (find? (λ x. x.pk == key)) documents
                  ∙ find_document-save_document db key d saved e same,
              ground arith,
            );
            has_file = (ground arith, ground arith);
          }
    ]

pub saved_file :
    (path : String) (files : List String) → file_exists path (save_file path files) ≡ true
unfolding save_file
saved_file path files = ground (arith, (str_eq_iff path path).1 refl)

committed {ℓ} :
    {A : Type ℓ} (path : String) (sys : System) (r : Result (A × Db)) {a : A}
    → (commit_or_delete path sys r).0 ≡ ok a
    → (r ≡ ok (a, (commit_or_delete path sys r).1.db))
      × ((commit_or_delete path sys r).1.files ≡ sys.files)
unfolding commit_or_delete
committed path sys (err e) h = ground arith
committed path sys (ok (b, db)) h = (ground (arith, h), refl)

stored_and_committed {ℓ} :
    {A : Type ℓ} (checked : Result String) (file : UploadedFile) (sys : System)
    (transaction : String → Result (A × Db)) {a : A}
    → (with_stored_file checked file sys transaction).0 ≡ ok a
    → (name : String) × (transaction name
        ≡ ok (a, (with_stored_file checked file sys transaction).1.db))
      × (file_exists file.stored.relative_path
            (with_stored_file checked file sys transaction).1.files
          ≡ true)
unfolding with_stored_file
stored_and_committed (err e) file sys transaction h = ground arith
stored_and_committed (ok name) file sys transaction h =
    let path = file.stored.relative_path in
    let (done, kept) = committed path (store file sys) (transaction name) h in
    (name, done, ap (file_exists path) kept ∙ saved_file path sys.files)

-- A new version that was accepted is the newest and the current one of its document, and its file
-- stands at its path.
pub create_document_version-IsNewest :
    (request : Request) (settings : Settings) (document : Document) (file : UploadedFile)
    (sys : System) {v : DocumentVersion}
    → (create_document_version request settings document file sys).0 ≡ ok v
    → IsNewest document.pk file.stored v sys.db
        (create_document_version request settings document file sys).1.db
      × (file_exists v.storage_path
            (create_document_version request settings document file sys).1.files
          ≡ true)
unfolding create_document_version
create_document_version-IsNewest request settings document file sys h =
    let (name, done, kept) =
      stored_and_committed
        (do
          raise_if (is_deleted document) (validation document_deleted)
          require (can_update_document sys.db (request.now 0) request.actor document)
              permission_denied
          check_upload settings file)
        file sys (λ x. create_version_rows request document.pk x file.stored sys.db) h in
    let newest = create_version_rows-IsNewest request document.pk name file.stored sys.db done in
    (newest, rw (newest.has_file.0) kept)
