-- ===== src/Documents/Rows.antt =====
-- How the saved row is found again, and what the saving leaves alone.
use doc_manage_and_generatio.Prelude.{
  ℕ, String, Option, ◌≡◌, refl, some, ◌==◌, arith, find?-mem, find?-update_where, ==_iff, Memᴰ,
}
use doc_manage_and_generatio.Schema.{Actor, Db, Document}
use doc_manage_and_generatio.Documents.Guards.{find_document, save_document}
use doc_manage_and_generatio.Documents.Operations.{
  save_and_log, revoke_temporary_access_for_document,
}

pub find_document-pk :
    (db : Db) (key : ℕ) {d : Document} → find_document db key ≡ some d → d.pk ≡ key
find_document-pk db key h = (==_iff _ key).0 (find?-mem (λ d. d.pk == key) db.documents h).1

pub find_document-mem :
    (db : Db) (key : ℕ) {d : Document} → find_document db key ≡ some d → Memᴰ d db.documents
find_document-mem db key h = (find?-mem (λ d. d.pk == key) db.documents h).0

-- A row that is saved is the one that is found under its key.
pub find_document-save_document :
    (db : Db) (key : ℕ) (d e : Document)
    → find_document db key ≡ some d
    → e.pk ≡ key
    → find_document (save_document e db) key ≡ some e
unfolding save_document
find_document-save_document db key d e h k = ground (
  arith,
  find_document-pk db key h,
  find?-update_where (λ x. x.pk == key) (λ x. x.pk == e.pk) (λ x. e) db.documents
      (λ a t. ground arith),
)

pub find_document-save_and_log :
    (actor : Actor) (action : String) (db : Db) (key : ℕ) (d e : Document)
    → find_document db key ≡ some d
    → e.pk ≡ key
    → find_document (save_and_log actor action e db) key ≡ some e
unfolding save_and_log
find_document-save_and_log actor action db key d e h k = find_document-save_document db key d e h k

-- Revoking temporary access writes to no document.
pub documents-revoke_temporary_access :
    (now : ℕ) (actor : Option ℕ) (document : ℕ) (db : Db)
    → (revoke_temporary_access_for_document now actor document db).documents ≡ db.documents
unfolding revoke_temporary_access_for_document
documents-revoke_temporary_access now actor document db = refl
