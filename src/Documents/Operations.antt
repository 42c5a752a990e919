-- ===== src/Documents/Operations.antt =====
-- The operations of apps/documents/services.py on one document. An operation in
-- `transaction.atomic` is a function from the database into `Result`: an exception leaves the
-- database as it was. Files are stored outside the transaction, so the operations that write files
-- run on a `System` and say what becomes of it when they raise.
use doc_manage_and_generatio.Prelude.{
  ℕ, String, Bool, false, ◌&&◌, Option, none, some, is_none, is_some, ◌==◌, if◌then◌else◌, find?,
  update_where,
}
use doc_manage_and_generatio.Outcome.{
  validation, permission_denied, Result, ok, ◌>>=◌, ◌>>◌, require, document_not_deleted,
  folder_disabled,
}
use doc_manage_and_generatio.Schema.{
  Actor, Db, Request, Document, Folder, TemporaryAccessGrant, AccessLevel, success, is_deleted,
  actor_pk,
}
use doc_manage_and_generatio.Audit.{audit_log}
use doc_manage_and_generatio.Documents.Permissions.{
  can_update_document, can_delete_document, can_restore_document,
}
use doc_manage_and_generatio.Documents.Guards.{
  found, locked_document, find_folder, version_of, ensure_source_type_matches_folder,
  ensure_not_deleted, ensure_project_write_allowed, ensure_expected_updated_at,
  validate_target_folder, Candidate, ensure_folder_accepts_document, touch_document, save_document,
}

-- The fields of `data` that `update_document_metadata` reads; `none` is a key that is not there.
pub record MetadataPatch : Type 0 where
  pub title : Option String
  pub description : Option String
  pub access_level : Option AccessLevel

abbrev given {ℓ} : {A : Type ℓ} → Option A → A → A
given none old = old
given (some new) old = new

-- `setattr` of the keys that `data` has
unfoldable pub apply_patch : MetadataPatch → Document → Document
apply_patch p d = record d {
  title = given p.title d.title;
  description = given p.description d.description;
  access_level = given p.access_level d.access_level;
}

-- the document itself, as a candidate in a folder: its title, and its current version's file
unfoldable pub own_candidate : Db → Document → ℕ → Candidate
own_candidate db d folder = record {
  folder = folder;
  title = some d.title;
  original_filename = elim (version_of db d.current_version) [
    | none ↦ none
    | some v ↦ some v.original_filename
  ];
  sha256 = elim (version_of db d.current_version) [ none ↦ none | some v ↦ some v.sha256 ];
  exclude_document_id = some d.pk;
}

-- the candidate of a change of the title: no file is compared
unfoldable pub title_candidate : Document → Candidate
title_candidate d = record {
  folder = d.folder;
  title = some d.title;
  original_filename = none;
  sha256 = none;
  exclude_document_id = some d.pk;
}

-- every operation ends by saving the row and logging it
unfoldable pub save_and_log : Actor → String → Document → Db → Db
unfolding save_document audit_log
save_and_log actor action d db = audit_log actor action (some d.pk) success (save_document d db)

unfoldable pub update_document_metadata :
    Request → ℕ → MetadataPatch → ℕ → Db → Result (Document × Db)
update_document_metadata request key patch expected db = do
  d ← locked_document db key
  folder ← found (find_folder db d.folder)
  ensure_not_deleted d
  ensure_project_write_allowed db d
  ensure_expected_updated_at d expected
  require (can_update_document db (request.now 0) request.actor d) permission_denied
  let changed = apply_patch patch d
  if is_some patch.title then ensure_folder_accepts_document db (title_candidate changed) else ok tt
  let saved = touch_document (request.now 1) changed
  ok (saved, save_and_log request.actor "document.update" saved db)

-- `folder` is the object that the caller read; its row is locked and not read again.
unfoldable pub move_document : Request → ℕ → Folder → ℕ → Db → Result (Document × Db)
move_document request key folder expected db = do
  d ← locked_document db key
  ensure_not_deleted d
  ensure_project_write_allowed db d
  ensure_expected_updated_at d expected
  require (can_update_document db (request.now 0) request.actor d) permission_denied
  validate_target_folder d folder
  ensure_source_type_matches_folder db d.source_type folder
  ensure_folder_accepts_document db (own_candidate db d folder.pk)
  let saved = touch_document (request.now 1) (record d { folder = folder.pk })
  ok (saved, save_and_log request.actor "document.move" saved db)

-- the version that a temporary access opens belongs to the document
unfoldable pub is_access_to : Db → ℕ → TemporaryAccessGrant → Bool
is_access_to db document g = elim (find? (λ v. v.pk == g.document_version) db.versions) [
  | none ↦ false
  | some v ↦ v.document == document
]

abbrev pub is_open_access : Db → ℕ → TemporaryAccessGrant → Bool
is_open_access db document g = is_access_to db document g && is_none g.revoked_at

abbrev pub revoked : ℕ → Option ℕ → TemporaryAccessGrant → TemporaryAccessGrant
revoked now actor g = record g { revoked_at = some now; revoked_by = actor }

unfoldable pub revoke_temporary_access_for_document : ℕ → Option ℕ → ℕ → Db → Db
unfolding is_access_to
revoke_temporary_access_for_document now actor document db = record db {
  temporary_grants =
      update_where (is_open_access db document) (revoked now actor) db.temporary_grants;
}

unfoldable pub soft_delete_document : Request → ℕ → ℕ → Db → Result (Document × Db)
unfolding revoke_temporary_access_for_document
soft_delete_document request key expected db = do
  d ← locked_document db key
  ensure_not_deleted d
  ensure_project_write_allowed db d
  ensure_expected_updated_at d expected
  require (can_delete_document db (request.now 0) request.actor d) permission_denied
  let marked = record d { deleted_at = some (request.now 1); deleted_by = actor_pk request.actor }
  let saved = touch_document (request.now 2) marked
  let closed =
      revoke_temporary_access_for_document (request.now 3) (actor_pk request.actor) d.pk
        (save_document saved db)
  ok (saved, audit_log request.actor "document.delete" (some d.pk) success closed)

unfoldable pub restore_document : Request → ℕ → ℕ → Db → Result (Document × Db)
restore_document request key expected db = do
  d ← locked_document db key
  require (is_deleted d) (validation document_not_deleted)
  ensure_project_write_allowed db d
  ensure_expected_updated_at d expected
  require (can_restore_document db (request.now 0) request.actor d) permission_denied
  folder ← found (find_folder db d.folder)
  require folder.is_active (validation folder_disabled)
  ensure_folder_accepts_document db (own_candidate db d d.folder)
  let saved = touch_document (request.now 1) (record d { deleted_at = none; deleted_by = none })
  ok (saved, save_and_log request.actor "document.restore" saved db)
