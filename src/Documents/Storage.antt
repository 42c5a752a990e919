-- ===== src/Documents/Storage.antt =====
-- The files under the storage root and the rows of the database.
use doc_manage_and_generatio.Prelude.{
  ℕ, String, Bool, true, false, not, none, List, [], ◌∷◌, map, ◌≡◌, refl, inl, inr, Memᴰ, arith, ap,
  subst, ◌∙◌, ◌==◌, filter, mem-filter, filter-mem, ==_iff, str_eq_iff, Option-cases, find?,
}
use mathlib.Core.List.Memᴰ.{head, tail, cases_cons}
use doc_manage_and_generatio.Outcome.{
  Error, Result, ok, err, raise_if, require, validation, permission_denied, document_deleted, ◌>>◌,
}
use doc_manage_and_generatio.Uploads.{UploadedFile, Settings}
use doc_manage_and_generatio.Schema.{
  Db, Request, Folder, Document, DocumentVersion, DocumentGrant, is_deleted,
}
use doc_manage_and_generatio.Audit.{audit_log}
use doc_manage_and_generatio.Documents.Guards.{
  find_document, locked_document, ensure_upload_allowed,
}
use doc_manage_and_generatio.Documents.Permissions.{can_update_document}
use doc_manage_and_generatio.Documents.Rows.{find_document-pk}
use doc_manage_and_generatio.Documents.Files.{
  System, delete_file, save_file, file_exists, commit_or_delete, with_stored_file, create_document,
  create_document_version, create_document_rows, create_version_rows, check_upload, NewDocument,
}
use doc_manage_and_generatio.Documents.Removal.{
  versions_of, delete_document_rows, delete_files, permanently_delete_rows, removed,
  permanently_delete_document,
}

delete_file-absent :
    (path : String) (files : List String)
    → file_exists path files ≡ false
    → delete_file path files ≡ files
unfolding delete_file
delete_file-absent path [] h = refl
delete_file-absent path (p ∷ ps) h = ground (arith, delete_file-absent path ps)

-- What was saved and deleted again leaves the files as they were.
pub delete_file-save_file :
    (path : String) (files : List String)
    → file_exists path files ≡ false
    → delete_file path (save_file path files) ≡ files
unfolding delete_file save_file
delete_file-save_file path files h =
    ground (arith, delete_file-absent path files h, (str_eq_iff path path).1 refl)

failed_commit {ℓ} :
    {A : Type ℓ} (path : String) (sys : System) (r : Result (A × Db)) {e : Error}
    → file_exists path sys.files ≡ false
    → (commit_or_delete path (record sys { files = save_file path sys.files }) r).0 ≡ err e
    → (commit_or_delete path (record sys { files = save_file path sys.files }) r).1 ≡ sys
unfolding commit_or_delete
failed_commit path sys (err x) fresh h =
    ap (λ fs. record sys { files = fs }) (delete_file-save_file path sys.files fresh)
failed_commit path sys (ok (a, db)) fresh h = ground arith

failed_upload {ℓ} :
    {A : Type ℓ} (checked : Result String) (file : UploadedFile) (sys : System)
    (transaction : String → Result (A × Db)) {e : Error}
    → file_exists file.stored.relative_path sys.files ≡ false
    → (with_stored_file checked file sys transaction).0 ≡ err e
    → (with_stored_file checked file sys transaction).1 ≡ sys
unfolding with_stored_file
failed_upload (err x) file sys transaction fresh h = refl
failed_upload (ok name) file sys transaction fresh h =
    failed_commit file.stored.relative_path sys (transaction name) fresh h

-- An upload of a new document that fails, for whatever reason, leaves the database and the files as
-- they were, if no file stood at the path that was drawn for it.
pub failed_document_leaves_nothing :
    (request : Request) (settings : Settings) (folder : Folder) (file : UploadedFile)
    (data' : NewDocument) (sys : System) {e : Error}
    → file_exists file.stored.relative_path sys.files ≡ false
    → (create_document request settings folder file data' sys).0 ≡ err e
    → (create_document request settings folder file data' sys).1 ≡ sys
unfolding create_document
failed_document_leaves_nothing request settings folder file data' sys fresh h =
    failed_upload (do ensure_upload_allowed sys.db request.actor folder; check_upload settings file)
      file sys (λ x. create_document_rows request folder.pk x data' file.stored sys.db) fresh h

-- An upload of a new version that fails, for whatever reason, leaves the database and the files as
-- they were, if no file stood at the path that was drawn for it.
pub failed_version_leaves_nothing :
    (request : Request) (settings : Settings) (document : Document) (file : UploadedFile)
    (sys : System) {e : Error}
    → file_exists file.stored.relative_path sys.files ≡ false
    → (create_document_version request settings document file sys).0 ≡ err e
    → (create_document_version request settings document file sys).1 ≡ sys
unfolding create_document_version
failed_version_leaves_nothing request settings document file sys fresh h =
    failed_upload
      (do
        raise_if (is_deleted document) (validation document_deleted)
        require (can_update_document sys.db (request.now 0) request.actor document)
            permission_denied
        check_upload settings file)
      file sys (λ x. create_version_rows request document.pk x file.stored sys.db) fresh h

find?-filter-not :
    (test : Document → Bool) (xs : List Document)
    → find? test (filter (λ x. not (test x)) xs) ≡ none
find?-filter-not test [] = refl
find?-filter-not test (x ∷ xs) = ground (arith, find?-filter-not test xs)

delete_file-exists :
    (path other : String) (files : List String)
    → file_exists other files ≡ false
    → file_exists other (delete_file path files) ≡ false
unfolding delete_file
delete_file-exists path other [] h = refl
delete_file-exists path other (p ∷ ps) h = ground (arith, delete_file-exists path other ps)

delete_file-gone :
    (path : String) (files : List String) → file_exists path (delete_file path files) ≡ false
unfolding delete_file
delete_file-gone path [] = refl
delete_file-gone path (p ∷ ps) = ground (arith, delete_file-gone path ps)

delete_files-exists :
    (paths : List String) (other : String) (files : List String)
    → file_exists other files ≡ false
    → file_exists other (delete_files paths files) ≡ false
unfolding delete_files
delete_files-exists [] other files h = h
delete_files-exists (path ∷ paths) other files h =
    delete_files-exists paths other (delete_file path files) (delete_file-exists path other files h)

delete_files-gone :
    (paths : List String) (path : String) (files : List String)
    → Memᴰ path paths
    → file_exists path (delete_files paths files) ≡ false
unfolding delete_files
delete_files-gone [] path files m = elim m [ ]
delete_files-gone (p ∷ paths) path files m = elim (cases_cons m) [
  | inl e ↦
      delete_files-exists paths path (delete_file p files) (
        subst (λ x. file_exists path (delete_file x files) ≡ false) e (delete_file-gone path files))
  | inr n ↦ delete_files-gone paths path (delete_file p files) n
]

-- What a permanent deletion that succeeded leaves of a document.
pub record IsGone (key : ℕ) (before after : System) : Type 0 where
  pub no_document : find_document after.db key ≡ none
  pub no_version : versions_of after.db key ≡ []
  pub no_grant : (g : DocumentGrant) → Memᴰ g after.db.grants → (g.document == key) ≡ false
  pub no_file :
      (v : DocumentVersion)
      → Memᴰ v before.db.versions
      → v.document ≡ key
      → file_exists v.storage_path after.files ≡ false

filter-not-none :
    (test : DocumentVersion → Bool) (xs : List DocumentVersion)
    → filter test (filter (λ x. not (test x)) xs) ≡ []
filter-not-none test [] = refl
filter-not-none test (x ∷ xs) = ground (arith, filter-not-none test xs)

path-mem :
    (v : DocumentVersion) (xs : List DocumentVersion)
    → Memᴰ v xs
    → Memᴰ v.storage_path (map (λ v. v.storage_path) xs)
path-mem v [] m = elim m [ ]
path-mem v (x ∷ xs) m = elim (cases_cons m) [
  | inl e ↦ head (ap (λ v. v.storage_path) e)
  | inr n ↦ tail (path-mem v xs n)
]

removed-IsGone :
    (request : Request) (key expected : ℕ) (sys : System) {paths : List String} {db' : Db}
    → permanently_delete_rows request key expected sys.db ≡ ok (paths, db')
    → IsGone key sys (record { db = db'; files = delete_files paths sys.files })
unfolding permanently_delete_rows delete_document_rows locked_document audit_log
removed-IsGone request key expected sys {paths} {db'} h =
    elim (Option-cases (find_document sys.db key)) [
      | inl e ↦ ground arith
      | inr (d, e) ↦
          let same : d.pk ≡ key = find_document-pk sys.db key e in
          let documents : db'.documents ≡ filter (λ x. not (x.pk == d.pk)) sys.db.documents =
            ground arith in
          let versions : db'.versions ≡ filter (λ x. not (x.document == d.pk)) sys.db.versions =
            ground arith in
          let grants : db'.grants ≡ filter (λ x. not (x.document == d.pk)) sys.db.grants =
            ground arith in
          let listed : map (λ v. v.storage_path) (versions_of sys.db d.pk) ≡ paths = ground arith in
          subst (λ k. IsGone k sys (record { db = db'; files = delete_files paths sys.files })) same
            (record {
              no_document =
                  ap (find? (λ x. x.pk == d.pk)) documents
                  ∙ find?-filter-not (λ x. x.pk == d.pk) sys.db.documents;
              no_version =
                  ap (filter (λ x. x.document == d.pk)) versions
                  ∙ filter-not-none (λ x. x.document == d.pk) sys.db.versions;
              no_grant = λ g m.
                  let (i, t) =
                    mem-filter (λ x. not (x.document == d.pk)) sys.db.grants
                      (subst (Memᴰ g) grants m) in
                  ground (arith, t);
              no_file = λ v m q. delete_files-gone paths v.storage_path sys.files (
                  subst (Memᴰ v.storage_path) listed (
                    path-mem v (versions_of sys.db d.pk) (
                      filter-mem (λ x. x.document == d.pk) sys.db.versions m
                        (ground (arith, q, ==_iff v.document d.pk)))));
            })
    ]

removal :
    (key : ℕ) (sys : System) (r : Result (List String × Db))
    → ((paths : List String) (db' : Db)
        → r ≡ ok (paths, db')
        → IsGone key sys (record { db = db'; files = delete_files paths sys.files }))
    → (removed sys r).0 ≡ ok tt
    → IsGone key sys (removed sys r).1
unfolding removed
removal key sys (err e) gone h = ground arith
removal key sys (ok (paths, db')) gone h = gone paths db' refl

-- A permanent deletion that succeeded leaves no row of the document and of its versions, no grant on
-- it, and no file of its versions.
pub permanently_delete_document-IsGone :
    (running : Bool) (request : Request) (key expected : ℕ) (sys : System)
    → (permanently_delete_document running request key expected sys).0 ≡ ok tt
    → IsGone key sys (permanently_delete_document running request key expected sys).1
unfolding permanently_delete_document
permanently_delete_document-IsGone true request key expected sys h = ground arith
permanently_delete_document-IsGone false request key expected sys h =
    removal key sys (permanently_delete_rows request key expected sys.db)
      (λ paths db' e. removed-IsGone request key expected sys e) h
