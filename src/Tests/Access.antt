-- ===== src/Tests/Access.antt =====
-- Temporary access at concrete inputs; the token's hash is the token itself.
use mathlib.Core.List.Memᴰ.{head}
use doc_manage_and_generatio.Prelude.{
  none, ◌+◌, true, [], ◌∷◌, ◌≡◌, ◌≢◌, ◌≤◌, refl, some, String, is_some,
}
use doc_manage_and_generatio.Text.{strip, is_space, path_name}
use doc_manage_and_generatio.Outcome.{ok}
use doc_manage_and_generatio.Schema.{
  Db, Document, TemporaryAccessGrant, is_temporary_user, is_system_admin, actor_pk,
}
use doc_manage_and_generatio.Audit.{audit_log}
use doc_manage_and_generatio.Documents.Permissions.{can_delete_document, can_restore_document}
use doc_manage_and_generatio.Documents.Guards.{
  find_document, locked_document, ensure_not_deleted, ensure_project_write_allowed,
  ensure_expected_updated_at, touch_document, ensure_folder_accepts_document, save_document,
  takes_name, is_neighbour, has_title, has_filename, takes_content, has_content,
}
use doc_manage_and_generatio.Documents.Operations.{
  soft_delete_document, restore_document, revoked, is_access_to, save_and_log, own_candidate,
}
use doc_manage_and_generatio.Documents.Files.{System}
use doc_manage_and_generatio.Access.Temporary.{find_token, consume_temporary_access_token}
use doc_manage_and_generatio.Access.Temporary.Budget.{served, remaining, served-le-remaining}
use doc_manage_and_generatio.Access.Temporary.Revocation.{
  soft_delete-revokes, restored_document_stays_closed,
}
use doc_manage_and_generatio.Documents.RoundTrip.{restored_document_is_back}
use doc_manage_and_generatio.Tests.Sample.{
  value_or, request, db, document, version, access, trashed, delete_succeeds,
}

abbrev same : String → String
same token = token

abbrev system : System
system = record { db = db; files = "d1/aa.bin" ∷ [] }

served-le-remaining_example :
    served same "secret" (request ∷ request ∷ request ∷ []) system ≤ remaining "secret" db
served-le-remaining_example =
    served-le-remaining same "secret" (request ∷ request ∷ request ∷ []) system

-- Two of three requests are served.
two_are_served : served same "secret" (request ∷ request ∷ request ∷ []) system ≡ 2
unfolding served consume_temporary_access_token
two_are_served = refl

abbrev closed : TemporaryAccessGrant
closed = revoked 1000 (some 1) access

soft_delete-revokes_example : is_some closed.revoked_at ≡ true
unfolding soft_delete_document locked_document ensure_not_deleted ensure_project_write_allowed
    ensure_expected_updated_at can_delete_document is_temporary_user is_system_admin touch_document
    audit_log is_access_to save_document actor_pk
soft_delete-revokes_example =
    soft_delete-revokes request 20 2000 db closed delete_succeeds (head refl) refl

abbrev back : Document × Db
back = value_or (restore_document request 20 2001 trashed.1) (document, db)

restore_succeeds : restore_document request 20 2001 trashed.1 ≡ ok (back.0, back.1)
unfolding soft_delete_document restore_document ensure_folder_accepts_document locked_document
    ensure_not_deleted ensure_project_write_allowed ensure_expected_updated_at can_delete_document
    can_restore_document is_temporary_user is_system_admin touch_document audit_log save_and_log
    takes_name is_neighbour own_candidate has_title strip is_space has_filename path_name
    takes_content has_content
restore_succeeds = refl

restored_document_stays_closed_example :
    (consume_temporary_access_token same request "secret" (record { db = back.1; files = [] })).0
    ≢ ok version
unfolding soft_delete_document restore_document ensure_folder_accepts_document locked_document
    ensure_not_deleted ensure_project_write_allowed ensure_expected_updated_at can_delete_document
    can_restore_document is_temporary_user is_system_admin touch_document audit_log save_and_log
    is_access_to find_token takes_name is_neighbour own_candidate has_title strip is_space
    has_filename path_name takes_content has_content actor_pk
restored_document_stays_closed_example =
    restored_document_stays_closed same "secret" request request request 20 2000 2001 db [] closed
      version delete_succeeds restore_succeeds refl refl

restored_document_is_back_example :
    find_document back.1 20
    ≡ some (record document {
      updated_at = back.0.updated_at;
      lock_version = document.lock_version + 2;
      deleted_at = none;
      deleted_by = none;
    })
restored_document_is_back_example =
    restored_document_is_back request request 20 2000 2001 db refl delete_succeeds restore_succeeds
