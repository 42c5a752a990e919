-- ===== src/Documents/Concurrency.antt =====
-- Optimistic locking: a change names the stamp of the row that it was made for, and two changes
-- with one stamp never both succeed.
use doc_manage_and_generatio.Prelude.{
  ℕ, ◌+◌, String, List, ◌≡◌, ◌≢◌, ◌<◌, some, arith, Option-cases, inl, inr, ap, some_unique,
}
use doc_manage_and_generatio.Outcome.{Result, ok}
use doc_manage_and_generatio.Schema.{Db, Request, Document, Folder}
use doc_manage_and_generatio.Audit.{audit_log}
use doc_manage_and_generatio.Documents.Guards.{
  find_document, locked_document, ensure_expected_updated_at, touch_document,
}
use doc_manage_and_generatio.Documents.Operations.{
  MetadataPatch, apply_patch, update_document_metadata, move_document, soft_delete_document,
  restore_document,
}
use doc_manage_and_generatio.Documents.Removal.{permanently_delete_rows}
use doc_manage_and_generatio.Documents.Rows.{
  find_document-pk, find_document-save_document, find_document-save_and_log,
}

-- a change of a document's row, as the API offers it
pub data Change : Type 0 where
  update : MetadataPatch → Change
  move : Folder → Change
  soft_delete restore : Change

unfoldable pub apply_change : Request → ℕ → Change → ℕ → Db → Result (Document × Db)
apply_change request key (update patch) expected db =
    update_document_metadata request key patch expected db
apply_change request key (move folder) expected db = move_document request key folder expected db
apply_change request key soft_delete expected db = soft_delete_document request key expected db
apply_change request key restore expected db = restore_document request key expected db

-- What a change that succeeded says of the row before and after.
pub record Stamped (db : Db) (key expected : ℕ) (after : Document) (db' : Db) : Type 0 where
  pub before : Document
  pub was_there : find_document db key ≡ some before
  pub was_expected : before.updated_at ≡ expected
  pub is_there : find_document db' key ≡ some after
  pub is_later : expected < after.updated_at
  pub is_counted : after.lock_version ≡ before.lock_version + 1

restore-Stamped :
    (request : Request) (key : ℕ) (expected : ℕ) (db : Db) {after : Document} {db' : Db}
    → restore_document request key expected db ≡ ok (after, db')
    → Stamped db key expected after db'
unfolding restore_document locked_document ensure_expected_updated_at touch_document
restore-Stamped request key expected db {after} h = elim (Option-cases (find_document db key)) [
  | inl e ↦ ground arith
  | inr (d, e) ↦
      let same = find_document-pk db key e in
      record {
        before = d;
        was_there = e;
        was_expected = ground arith;
        is_there =
            ground
              (arith, find_document-save_and_log request.actor "document.restore" db key d after e);
        is_later = ground arith;
        is_counted = ground arith;
      }
]

move-Stamped :
    (request : Request) (key : ℕ) (folder : Folder) (expected : ℕ) (db : Db) {after : Document}
    {db' : Db}
    → move_document request key folder expected db ≡ ok (after, db')
    → Stamped db key expected after db'
unfolding move_document locked_document ensure_expected_updated_at touch_document
move-Stamped request key folder expected db {after} h = elim (Option-cases (find_document db key)) [
  | inl e ↦ ground arith
  | inr (d, e) ↦
      let same = find_document-pk db key e in
      record {
        before = d;
        was_there = e;
        was_expected = ground arith;
        is_there =
            ground
              (arith, find_document-save_and_log request.actor "document.move" db key d after e);
        is_later = ground arith;
        is_counted = ground arith;
      }
]

update-Stamped :
    (request : Request) (key : ℕ) (patch : MetadataPatch) (expected : ℕ) (db : Db)
    {after : Document} {db' : Db}
    → update_document_metadata request key patch expected db ≡ ok (after, db')
    → Stamped db key expected after db'
unfolding update_document_metadata locked_document ensure_expected_updated_at touch_document
    apply_patch
update-Stamped request key patch expected db {after} h =
    elim (Option-cases (find_document db key)) [
      | inl e ↦ ground arith
      | inr (d, e) ↦
          let same = find_document-pk db key e in
          record {
            before = d;
            was_there = e;
            was_expected = ground arith;
            is_there = ground (
              arith,
              find_document-save_and_log request.actor "document.update" db key d after e,
            );
            is_later = ground arith;
            is_counted = ground arith;
          }
    ]

soft_delete-Stamped :
    (request : Request) (key : ℕ) (expected : ℕ) (db : Db) {after : Document} {db' : Db}
    → soft_delete_document request key expected db ≡ ok (after, db')
    → Stamped db key expected after db'
unfolding soft_delete_document locked_document ensure_expected_updated_at touch_document audit_log
soft_delete-Stamped request key expected db {after} h = elim (Option-cases (find_document db key)) [
  | inl e ↦ ground arith
  | inr (d, e) ↦
      let same = find_document-pk db key e in
      record {
        before = d;
        was_there = e;
        was_expected = ground arith;
        is_there = ground (arith, find_document-save_document db key d after e);
        is_later = ground arith;
        is_counted = ground arith;
      }
]

-- A change that succeeded was made for the stamp that the row had. The row it leaves is found under
-- the same key, bears a later stamp whatever the clock says, and counts one version more.
pub apply_change-Stamped :
    (request : Request) (key : ℕ) (change : Change) (expected : ℕ) (db : Db) {after : Document}
    {db' : Db}
    → apply_change request key change expected db ≡ ok (after, db')
    → Stamped db key expected after db'
unfolding apply_change
apply_change-Stamped request key (update patch) expected db h =
    update-Stamped request key patch expected db h
apply_change-Stamped request key (move folder) expected db h =
    move-Stamped request key folder expected db h
apply_change-Stamped request key soft_delete expected db h =
    soft_delete-Stamped request key expected db h
apply_change-Stamped request key restore expected db h = restore-Stamped request key expected db h

-- Permanent deletion asks for the stamp too.
removal_was_expected :
    (request : Request) (key expected : ℕ) (db : Db) {d : Document} {r : List String × Db}
    → find_document db key ≡ some d
    → permanently_delete_rows request key expected db ≡ ok r
    → d.updated_at ≡ expected
unfolding permanently_delete_rows locked_document ensure_expected_updated_at
removal_was_expected request key expected db e h = ground arith

-- No update is lost: after a change that succeeded for a stamp, neither another change nor a
-- permanent deletion that names the same stamp succeeds, whoever asks and whatever the clock says.
pub no_lost_update :
    (first second : Request) (key : ℕ) (a b : Change) (expected : ℕ) (db : Db) {after : Document}
    {db' : Db}
    → apply_change first key a expected db ≡ ok (after, db')
    → ((r : Document × Db) → apply_change second key b expected db' ≢ ok r)
      × ((r : List String × Db) → permanently_delete_rows second key expected db' ≢ ok r)
no_lost_update first second key a b expected db {db' = db'} h =
    let s = apply_change-Stamped first key a expected db h in
    (
      (λ (d, db'') e.
          let t = apply_change-Stamped second key b expected db' e in
          let same = some_unique s.is_there t.was_there in
          absurd (omega (arith, ap (λ x. x.updated_at) same))),
      (λ r e. absurd (omega (arith, removal_was_expected second key expected db' s.is_there e))),
    )
