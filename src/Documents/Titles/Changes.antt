-- ===== src/Documents/Titles/Changes.antt =====
-- The four changes of a document keep the titles of a folder distinct.
use doc_manage_and_generatio.Prelude.{ℕ, String, some, ◌≡◌, inl, inr, arith, Option-cases}
use doc_manage_and_generatio.Outcome.{ok}
use doc_manage_and_generatio.Schema.{Db, Request, Document, Folder}
use doc_manage_and_generatio.Audit.{audit_log}
use doc_manage_and_generatio.Documents.Guards.{
  find_document, locked_document, touch_document, save_document, ensure_not_deleted,
}
use doc_manage_and_generatio.Documents.Operations.{
  MetadataPatch, apply_patch, own_candidate, title_candidate, save_and_log,
  update_document_metadata, move_document, soft_delete_document, restore_document,
}
use doc_manage_and_generatio.Documents.Rows.{find_document-mem}
use doc_manage_and_generatio.Documents.Concurrency.{
  Change, update, move, soft_delete, restore, apply_change,
}
use doc_manage_and_generatio.Documents.Titles.{
  IsClean, TitlesAreUnique, accepted_title, Fits, save_document-TitlesAreUnique,
}

-- The title that a change writes, if it writes one, is as the API hands it over.
abbrev pub IsCleanChange : Change → Type 0
IsCleanChange (update patch) = (t : String) → patch.title ≡ some t → IsClean t
IsCleanChange _ = Unit

-- A change that succeeds saves one row, which fits.
record Saves (db : Db) (after : Document) (db' : Db) : Type 0 where
  saved : db'.documents ≡ (save_document after db).documents
  clean : IsClean after.title
  fits : Fits db after

Saves-TitlesAreUnique :
    {db db' : Db} {after : Document} → TitlesAreUnique db → Saves db after db' → TitlesAreUnique db'
Saves-TitlesAreUnique {db} {db'} {after} inv s =
    let kept = save_document-TitlesAreUnique db after inv s.clean s.fits in
    record {
      clean = λ d m. kept.clean d (rw s.saved at m);
      unique = λ a b ma mb. kept.unique a b (rw s.saved at ma) (rw s.saved at mb);
    }

module _ (request : Request) (key expected : ℕ) (db : Db) (inv : TitlesAreUnique db) where
  soft_delete-Saves :
      {after : Document} {db' : Db}
      → soft_delete_document request key expected db ≡ ok (after, db')
      → Saves db after db'
  unfolding soft_delete_document locked_document touch_document audit_log
  soft_delete-Saves h = elim (Option-cases (find_document db key)) [
    | inl e ↦ ground arith
    | inr (d, e) ↦
        let c = inv.clean d (find_document-mem db key e) in
        record {
          saved = ground arith;
          clean = record {
            stripped = ground (arith, c.stripped);
            filled = ground (arith, c.filled);
          };
          fits = λ x m lx la f t. ground arith;
        }
  ]

  restore-Saves :
      {after : Document} {db' : Db}
      → restore_document request key expected db ≡ ok (after, db')
      → Saves db after db'
  unfolding restore_document locked_document touch_document save_and_log own_candidate
  restore-Saves h = elim (Option-cases (find_document db key)) [
    | inl e ↦ ground arith
    | inr (d, e) ↦
        let c = inv.clean d (find_document-mem db key e) in
        record {
          saved = ground arith;
          clean = record {
            stripped = ground (arith, c.stripped);
            filled = ground (arith, c.filled);
          };
          fits = λ x m lx la f t.
              ground (arith, accepted_title db (own_candidate db d d.folder) x d.title, c, m);
        }
  ]

  move-Saves :
      (folder : Folder) {after : Document} {db' : Db}
      → move_document request key folder expected db ≡ ok (after, db')
      → Saves db after db'
  unfolding move_document locked_document touch_document save_and_log own_candidate
  move-Saves folder h = elim (Option-cases (find_document db key)) [
    | inl e ↦ ground arith
    | inr (d, e) ↦
        let c = inv.clean d (find_document-mem db key e) in
        record {
          saved = ground arith;
          clean = record {
            stripped = ground (arith, c.stripped);
            filled = ground (arith, c.filled);
          };
          fits = λ x m lx la f t.
              ground (arith, accepted_title db (own_candidate db d folder.pk) x d.title, c, m);
        }
  ]

  update-Saves :
      (patch : MetadataPatch)
      → IsCleanChange (update patch)
      → {after : Document} {db' : Db}
      → update_document_metadata request key patch expected db ≡ ok (after, db')
      → Saves db after db'
  unfolding update_document_metadata locked_document touch_document save_and_log apply_patch
      ensure_not_deleted title_candidate
  update-Saves patch ok_patch {after} h = elim (Option-cases (find_document db key)) [
    | inl e ↦ ground arith
    | inr (d, e) ↦ elim (Option-cases patch.title) [
      | inl same ↦
          let old = find_document-mem db key e in
          let c = inv.clean d old in
          record {
            saved = ground arith;
            clean = record {
              stripped = ground (arith, c.stripped);
              filled = ground (arith, c.filled);
            };
            fits = λ x m lx la f t. ground (arith, inv.unique x d m old);
          }
      | inr (new, changed) ↦
          let c = ok_patch new changed in
          record {
            saved = ground arith;
            clean = record {
              stripped = ground (arith, c.stripped);
              filled = ground (arith, c.filled);
            };
            fits = λ x m lx la f t.
                ground
                  (arith, accepted_title db (title_candidate (apply_patch patch d)) x new, c, m);
          }
    ]
  ]

-- From titles that are clean and distinct in each folder, a change that succeeds and writes no title
-- but a clean one leads to such titles again.
pub apply_change-TitlesAreUnique :
    (request : Request) (key : ℕ) (change : Change) (expected : ℕ) (db : Db) {after : Document}
    {db' : Db}
    → IsCleanChange change
    → TitlesAreUnique db
    → apply_change request key change expected db ≡ ok (after, db')
    → TitlesAreUnique db'
unfolding apply_change
apply_change-TitlesAreUnique request key (update patch) expected db c inv h =
    Saves-TitlesAreUnique inv (update-Saves request key expected db inv patch c h)
apply_change-TitlesAreUnique request key (move folder) expected db c inv h =
    Saves-TitlesAreUnique inv (move-Saves request key expected db inv folder h)
apply_change-TitlesAreUnique request key soft_delete expected db c inv h =
    Saves-TitlesAreUnique inv (soft_delete-Saves request key expected db inv h)
apply_change-TitlesAreUnique request key restore expected db c inv h =
    Saves-TitlesAreUnique inv (restore-Saves request key expected db inv h)
