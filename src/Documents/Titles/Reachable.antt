-- ===== src/Documents/Titles/Reachable.antt =====
-- Whether the titles in a folder stay distinct over the calls of the document service.
use doc_manage_and_generatio.Prelude.{ℕ, String, Bool, true, false, List, ◌≡◌, refl, arith}
use doc_manage_and_generatio.Outcome.{Result, ok, err}
use doc_manage_and_generatio.Schema.{Db, Request}
use doc_manage_and_generatio.Documents.Files.{System, create_document, create_document_version}
use doc_manage_and_generatio.Documents.Removal.{
  permanently_delete_document, permanently_delete_rows, removed,
}
use doc_manage_and_generatio.Documents.Titles.{TitlesAreUnique}
use doc_manage_and_generatio.Documents.Titles.Changes.{IsCleanChange, apply_change-TitlesAreUnique}
use doc_manage_and_generatio.Documents.Steps.{
  Step, change, create, add_version, open_version, remove, Reach, here, next,
}
use doc_manage_and_generatio.Documents.Titles.Uploads.{
  same_documents, check_upload-IsClean, open_version-documents, with_stored_file-keeps,
  create_rows-TitlesAreUnique, version_rows-TitlesAreUnique, removal-TitlesAreUnique,
}

removed-keeps :
    (P : Db → Type 0) (s : System) (r : Result (List String × Db))
    → P s.db
    → ((paths : List String) (db' : Db) → r ≡ ok (paths, db') → P db')
    → P (removed s r).1.db
unfolding removed
removed-keeps P s (ok (paths, db')) h k = k paths db' refl
removed-keeps P s (err e) h k = h

removal_step :
    (backup_is_running : Bool) (request : Request) (key expected : ℕ) (s : System)
    → TitlesAreUnique s.db
    → TitlesAreUnique (permanently_delete_document backup_is_running request key expected s).1.db
unfolding permanently_delete_document
removal_step true request key expected s inv = inv
removal_step false request key expected s inv =
    removed-keeps TitlesAreUnique s (permanently_delete_rows request key expected s.db) inv
      (λ paths db' e. removal-TitlesAreUnique request key expected s.db inv e)

-- A metadata update sets a title that is stripped and not empty, as the serializer leaves it.
unfoldable pub IsCleanStep : {s t : System} → Step s t → Type 0
IsCleanStep (change request key c expected h e) = IsCleanChange c
IsCleanStep (create request settings folder file data' e) = Unit
IsCleanStep (add_version request settings document file e) = Unit
IsCleanStep (open_version request document e) = Unit
IsCleanStep (remove running request key expected e) = Unit

-- all metadata updates among the calls do
unfoldable pub IsCleanReach : {s t : System} → Reach s t → Type 0
IsCleanReach here = Unit
IsCleanReach (next r st) = IsCleanReach r × IsCleanStep st

-- One step of the service keeps the titles in each folder distinct.
Step-TitlesAreUnique :
    {s t : System} (st : Step s t) → IsCleanStep st → TitlesAreUnique s.db → TitlesAreUnique t.db
unfolding IsCleanStep create_document create_document_version
Step-TitlesAreUnique {s} {t} (change request key c expected {db' = db'} h e) clean inv =
    same_documents (apply_change-TitlesAreUnique request key c expected s.db clean inv h)
      (ground arith)
Step-TitlesAreUnique {s} (create request settings folder file data' e) clean inv = rw e (
    with_stored_file-keeps TitlesAreUnique _ file s _ inv λ name d db' checked h.
      create_rows-TitlesAreUnique request folder.pk name data' file.stored s.db
        (check_upload-IsClean settings file (ground arith)) inv h)
Step-TitlesAreUnique {s} (add_version request settings document file e) clean inv = rw e (
    with_stored_file-keeps TitlesAreUnique _ file s _ inv λ name v db' checked h.
      version_rows-TitlesAreUnique request document.pk name file.stored s.db inv h)
Step-TitlesAreUnique {s} (open_version request document e) clean inv =
    rw e (same_documents inv (open_version-documents request document s))
Step-TitlesAreUnique {s} (remove running request key expected e) clean inv =
    rw e (removal_step running request key expected s inv)

-- From titles that are clean and distinct, any calls of the document service, one after another, reach
-- only such, if every metadata update among them sets a title that is stripped and not empty: two
-- documents outside the recycle bin in one folder never have the same title.
pub Reach-TitlesAreUnique :
    {s t : System} (r : Reach s t) → IsCleanReach r → TitlesAreUnique s.db → TitlesAreUnique t.db
unfolding IsCleanReach
Reach-TitlesAreUnique here clean inv = inv
Reach-TitlesAreUnique (next r st) (earlier, clean) inv =
    Step-TitlesAreUnique st clean (Reach-TitlesAreUnique r earlier inv)
