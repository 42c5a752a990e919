-- ===== src/Documents/Steps.antt =====
-- What the document service may do to the system, one operation at a time, and what is reachable.
-- An operation in a transaction that raises changes nothing, so it is no step.
use doc_manage_and_generatio.Prelude.{ℕ, Bool, ◌≡◌}
use doc_manage_and_generatio.Outcome.{ok}
use doc_manage_and_generatio.Uploads.{UploadedFile, Settings}
use doc_manage_and_generatio.Schema.{Db, Request, Document, Folder}
use doc_manage_and_generatio.Documents.Concurrency.{Change, apply_change}
use doc_manage_and_generatio.Documents.Files.{
  System, NewDocument, create_document, create_document_version,
}
use doc_manage_and_generatio.Documents.Removal.{
  open_current_version_for_download, permanently_delete_document,
}

pub data Step (s t : System) : Type 0 where
  change :
      (request : Request) (key : ℕ) (c : Change) (expected : ℕ) {after : Document} {db' : Db}
      → apply_change request key c expected s.db ≡ ok (after, db')
      → t ≡ record s { db = db' }
      → Step s t
  create :
      (request : Request) (settings : Settings) (folder : Folder) (file : UploadedFile)
      (data' : NewDocument)
      → t ≡ (create_document request settings folder file data' s).1
      → Step s t
  add_version :
      (request : Request) (settings : Settings) (document : Document) (file : UploadedFile)
      → t ≡ (create_document_version request settings document file s).1
      → Step s t
  open_version :
      (request : Request) (document : Document)
      → t ≡ (open_current_version_for_download request document s).1
      → Step s t
  remove :
      (backup_is_running : Bool) (request : Request) (key expected : ℕ)
      → t ≡ (permanently_delete_document backup_is_running request key expected s).1
      → Step s t

pub data Reach (s : System) : System → Type 0 where
  here : Reach s s
  next : {t u : System} → Reach s t → Step t u → Reach s u
