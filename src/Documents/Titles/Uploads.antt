-- ===== src/Documents/Titles/Uploads.antt =====
-- The single operations and the titles in a folder: uploads, downloads and permanent deletion.
use doc_manage_and_generatio.Prelude.{
  ℕ, String, false, not, some, List, [], ◌∷◌, ◌++◌, ◌≡◌, refl, inl, inr, Memᴰ, arith, Option-cases,
  Bool-cases, mem-concat, mem-filter, filter, ◌==◌, str_eq, str_eq_iff,
}
use doc_manage_and_generatio.Text.{strip}
use doc_manage_and_generatio.Text.Strip.{strip_idem}
use doc_manage_and_generatio.Outcome.{Result, ok, err}
use doc_manage_and_generatio.Uploads.{UploadedFile, StoredFile, Settings}
use doc_manage_and_generatio.Uploads.Names.{normalize_upload_filename-IsSafeName}
use doc_manage_and_generatio.Schema.{Db, Request, Document, DocumentVersion, is_deleted}
use doc_manage_and_generatio.Documents.Guards.{find_document, find_folder, locked_document}
use doc_manage_and_generatio.Documents.Rows.{find_document-mem}
use doc_manage_and_generatio.Documents.Files.{
  System, NewDocument, document_title, new_candidate, create_document_rows, check_upload,
  commit_or_delete, with_stored_file, store, create_version_rows,
}
use doc_manage_and_generatio.Documents.Removal.{
  open_current_version_for_download, permanently_delete_rows,
}
use doc_manage_and_generatio.Documents.Titles.{
  IsClean, TitlesAreUnique, accepted_title, save_document-TitlesAreUnique,
}

-- The title of a new document: stripped, or the name of the file.
document_title-IsClean :
    (title filename : String) → IsClean filename → IsClean (document_title title filename)
unfolding document_title
document_title-IsClean title filename c = elim (Bool-cases (str_eq (strip title) "")) [
  | inl e ↦ rw e c
  | inr e ↦ rw e (record {
    stripped = strip_idem title;
    filled = λ q. ground (arith, str_eq_iff (strip title) "");
  })
]

pub same_documents :
    {db db' : Db} → TitlesAreUnique db → db'.documents ≡ db.documents → TitlesAreUnique db'
same_documents inv e = record {
  clean = λ d m. inv.clean d (rw e at m);
  unique = λ a b ma mb. inv.unique a b (rw e at ma) (rw e at mb);
}

-- A new row at the end, of a title that no live row of its folder has.
append-TitlesAreUnique :
    {db db' : Db} (d : Document)
    → TitlesAreUnique db
    → db'.documents ≡ db.documents ++ d ∷ []
    → IsClean d.title
    → ((x : Document)
        → Memᴰ x db.documents
        → is_deleted x ≡ false
        → x.folder ≡ d.folder
        → x.title ≡ d.title
        → ⊥)
    → TitlesAreUnique db'
append-TitlesAreUnique {db} d inv e c fresh = record {
  clean = λ x m. elim (mem-concat db.documents d (rw e at m)) [
    | inl n ↦ inv.clean x n
    | inr q ↦ rw q c
  ];
  unique = λ a b ma mb la lb f t. elim (mem-concat db.documents d (rw e at ma)) [
    | inl na ↦ elim (mem-concat db.documents d (rw e at mb)) [
      | inl nb ↦ inv.unique a b na nb la lb f t
      | inr qb ↦ ground (arith, fresh a na)
    ]
    | inr qa ↦ elim (mem-concat db.documents d (rw e at mb)) [
      | inl nb ↦ ground (arith, fresh b nb)
      | inr qb ↦ cc
    ]
  ];
}

module _ (request : Request) where
  pub create_rows-TitlesAreUnique :
      (folder : ℕ) (filename : String) (data' : NewDocument) (stored : StoredFile) (db : Db)
      {d : Document} {db' : Db}
      → IsClean filename
      → TitlesAreUnique db
      → create_document_rows request folder filename data' stored db ≡ ok (d, db')
      → TitlesAreUnique db'
  unfolding create_document_rows
  create_rows-TitlesAreUnique folder filename data' stored db {d} c inv h =
      elim (Option-cases (find_folder db folder)) [
        | inl e ↦ ground arith
        | inr (f, e) ↦
            let title = document_title data'.title filename in
            let clean = document_title-IsClean data'.title filename c in
            append-TitlesAreUnique d inv (ground arith)
              (record {
                stripped = ground (arith, clean.stripped);
                filled = ground (arith, clean.filled);
              })
              (λ x m lx sf st. ground (
                arith,
                accepted_title db (new_candidate f title filename stored) x title,
                clean,
                m,
              ))
      ]

  pub version_rows-TitlesAreUnique :
      (key : ℕ) (filename : String) (stored : StoredFile) (db : Db) {v : DocumentVersion} {db' : Db}
      → TitlesAreUnique db
      → create_version_rows request key filename stored db ≡ ok (v, db')
      → TitlesAreUnique db'
  unfolding create_version_rows locked_document
  version_rows-TitlesAreUnique key filename stored db inv h =
      elim (Option-cases (find_document db key)) [
        | inl e ↦ ground arith
        | inr (d, e) ↦
            let old = find_document-mem db key e in
            let saved = record d {
              current_version = some db.next_pk;
              updated_at = request.now 2;
            } in
            same_documents
              (save_document-TitlesAreUnique db saved inv (inv.clean d old)
                (λ x m lx la f t. inv.unique x d m old lx la f t))
              (ground arith)
      ]

  pub removal-TitlesAreUnique :
      (key expected : ℕ) (db : Db) {paths : List String} {db' : Db}
      → TitlesAreUnique db
      → permanently_delete_rows request key expected db ≡ ok (paths, db')
      → TitlesAreUnique db'
  unfolding permanently_delete_rows locked_document
  removal-TitlesAreUnique key expected db {db' = db'} inv h =
      elim (Option-cases (find_document db key)) [
        | inl e ↦ ground arith
        | inr (d, e) ↦
            let q : db'.documents ≡ filter (λ x. not (x.pk == d.pk)) db.documents = ground arith in
            record {
              clean = λ x m. inv.clean x (mem-filter _ db.documents (rw q at m)).0;
              unique = λ a b ma mb.
                  inv.unique a b (mem-filter _ db.documents (rw q at ma)).0
                    (mem-filter _ db.documents (rw q at mb)).0;
            }
      ]

pub check_upload-IsClean :
    (settings : Settings) (file : UploadedFile) {name : String}
    → check_upload settings file ≡ ok name
    → IsClean name
unfolding check_upload
check_upload-IsClean settings file h =
    let (e, s) = normalize_upload_filename-IsSafeName file.name (ground arith) in
    record { stripped = s.stripped; filled = s.filled }

module _ {A : Type 0} (P : Db → Type 0) where
  commit-keeps :
      (path : String) (s : System) (r : Result (A × Db))
      → P s.db
      → ((a : A) (db' : Db) → r ≡ ok (a, db') → P db')
      → P (commit_or_delete path s r).1.db
  unfolding commit_or_delete
  commit-keeps path s (ok (a, db')) h k = k a db' refl
  commit-keeps path s (err e) h k = h

  -- What holds before an upload, and after its transaction, holds whatever becomes of it.
  pub with_stored_file-keeps :
      (checked : Result String) (file : UploadedFile) (s : System)
      (transaction : String → Result (A × Db))
      → P s.db
      → ((name : String) (a : A) (db' : Db)
          → checked ≡ ok name
          → transaction name ≡ ok (a, db')
          → P db')
      → P (with_stored_file checked file s transaction).1.db
  unfolding with_stored_file
  with_stored_file-keeps (err e) file s transaction h k = h
  with_stored_file-keeps (ok name) file s transaction h k =
      commit-keeps file.stored.relative_path (store file s) (transaction name) h
        (λ a db'. k name a db' refl)

pub open_version-documents :
    (request : Request) (d : Document) (s : System)
    → (open_current_version_for_download request d s).1.db.documents ≡ s.db.documents
unfolding open_current_version_for_download
open_version-documents request d s = ground arith
