-- ===== src/Documents/RoundTrip.antt =====
-- A document that goes to the recycle bin and comes back is the same document.
use doc_manage_and_generatio.Prelude.{ℕ, ◌+◌, none, some, ◌≡◌, arith, ap, sym, ◌∙◌}
use doc_manage_and_generatio.Outcome.{ok}
use doc_manage_and_generatio.Schema.{Db, Request, Document, actor_pk}
use doc_manage_and_generatio.Documents.Guards.{find_document, locked_document, touch_document}
use doc_manage_and_generatio.Documents.Operations.{soft_delete_document, restore_document}
use doc_manage_and_generatio.Documents.Concurrency.{
  soft_delete, restore, apply_change, apply_change-Stamped,
}

-- What a deletion and a restoration write, as functions of the row that they find.
deleted_row :
    (request : Request) (key expected : ℕ) (db : Db) {d after : Document} {db' : Db}
    → find_document db key ≡ some d
    → soft_delete_document request key expected db ≡ ok (after, db')
    → after
      ≡ touch_document
          (request.now 2)
          (record d { deleted_at = some (request.now 1); deleted_by = actor_pk request.actor })
unfolding soft_delete_document locked_document
deleted_row request key expected db e h = ground arith

restored_row :
    (request : Request) (key expected : ℕ) (db : Db) {d after : Document} {db' : Db}
    → find_document db key ≡ some d
    → restore_document request key expected db ≡ ok (after, db')
    → after ≡ touch_document (request.now 1) (record d { deleted_at = none; deleted_by = none })
unfolding restore_document locked_document
restored_row request key expected db e h = ground arith

-- A document that was soft-deleted and then restored is found again as it was, out of the recycle bin, but
-- for its stamp and its version count, which is two higher.
pub restored_document_is_back :
    (deletion restoration : Request) (key expected expected' : ℕ) (db : Db)
    {d deleted restored : Document} {db' db'' : Db}
    → find_document db key ≡ some d
    → soft_delete_document deletion key expected db ≡ ok (deleted, db')
    → restore_document restoration key expected' db' ≡ ok (restored, db'')
    → find_document db'' key
      ≡ some (record d {
        updated_at = restored.updated_at;
        lock_version = d.lock_version + 2;
        deleted_at = none;
        deleted_by = none;
      })
unfolding apply_change touch_document
restored_document_is_back deletion restoration key expected expected' db {d} e hd hr =
    let first = apply_change-Stamped deletion key soft_delete expected db hd in
    let second = apply_change-Stamped restoration key restore expected' _ hr in
    let gone = deleted_row deletion key expected db e hd in
    let back =
      restored_row restoration key expected' _ first.is_there hr
      ∙ ap
          (λ x.
            touch_document (restoration.now 1) (record x { deleted_at = none; deleted_by = none }))
          gone in
    let row : ℕ → ℕ → Document = λ stamp count. record d {
      updated_at = stamp;
      lock_version = count;
      deleted_at = none;
      deleted_by = none;
    } in
    second.is_there
    ∙ ap some (
        back
        ∙ sym (ap (λ t. row t (d.lock_version + 1 + 1)) (ap (λ x. x.updated_at) back))
        ∙ ap (row _) (omega arith))
