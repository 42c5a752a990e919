-- ===== src/Documents/Permissions.antt =====
-- apps/documents/permissions.py. The grants that a view prefetches are those of the same query.
use doc_manage_and_generatio.Prelude.{
  ℕ, Bool, true, false, not, Option, none, some, is_some, if◌then◌else◌,
}
use doc_manage_and_generatio.Schema.{
  Actor, Db, Document, AccessLevel, ProjectMember, is_authenticated, is_active_user,
  is_system_admin, is_temporary_user, is_data_operator,
}
use doc_manage_and_generatio.Projects.Membership.{get_project_membership, has_membership_flag}
use doc_manage_and_generatio.Folders.Descendants.{contains}
use doc_manage_and_generatio.Folders.Personnel.{
  public_staff_folder_ids, own_public_staff_folder_ids,
}
use doc_manage_and_generatio.Access.Selectors.{
  Action, view, download, update, delete, restore, has_active_document_grant,
}

abbrev pub is_restricted : Document → Bool
is_restricted d = elim d.access_level [
  | AccessLevel.restricted ↦ true
  | AccessLevel.internal ↦ false
]

-- `document.project is not None` and the membership there has the flag
unfoldable pub project_flag : Db → Actor → Option ℕ → (ProjectMember → Bool) → Bool
unfolding has_membership_flag
project_flag db actor none flag = false
project_flag db actor (some p) flag = has_membership_flag (get_project_membership db actor p) flag

unfoldable pub can_upload_document : Db → Actor → Option ℕ → Bool
unfolding project_flag
can_upload_document db actor project =
    if not (is_authenticated actor)
    then false
    else if not (is_active_user actor)
    then false
    else if is_temporary_user actor
    then false
    else if is_system_admin actor
    then true
    else if not (is_some project)
    then true
    else project_flag db actor project (λ m. m.can_upload)

unfoldable pub can_download_document : Db → ℕ → Actor → Document → Bool
unfolding project_flag
can_download_document db now actor d =
    if is_temporary_user actor
    then false
    else if is_system_admin actor
    then true
    else if contains (public_staff_folder_ids db) d.folder
    then contains (own_public_staff_folder_ids db actor) d.folder
    else if has_active_document_grant db now actor d.pk download
    then true
    else if is_data_operator actor
    then true
    else if not (is_restricted d)
    then false
    else project_flag db actor d.project (λ m. m.can_download_restricted)

unfoldable pub has_basic_scope : Db → Actor → Document → Bool
unfolding project_flag
has_basic_scope db actor d =
    if not (is_some d.project) then true else project_flag db actor d.project (λ m. true)

unfoldable pub can_view_document : Db → ℕ → Actor → Document → Bool
unfolding has_basic_scope
can_view_document db now actor d =
    if is_temporary_user actor
    then false
    else if is_system_admin actor
    then true
    else if has_active_document_grant db now actor d.pk view
    then true
    else if is_restricted d
    then project_flag db actor d.project (λ m. m.can_download_restricted)
    else has_basic_scope db actor d

-- The three write permissions differ in the grant and in the flag of the membership.
unfoldable pub write_allowed : Action → (ProjectMember → Bool) → Db → ℕ → Actor → Document → Bool
unfolding project_flag
write_allowed action flag db now actor d =
    if is_temporary_user actor
    then false
    else if is_system_admin actor
    then true
    else if has_active_document_grant db now actor d.pk action
    then true
    else project_flag db actor d.project flag

unfoldable pub can_update_document : Db → ℕ → Actor → Document → Bool
unfolding write_allowed
can_update_document = write_allowed update (λ m. m.can_upload)

unfoldable pub can_delete_document : Db → ℕ → Actor → Document → Bool
unfolding write_allowed
can_delete_document = write_allowed delete (λ m. m.can_delete)

unfoldable pub can_restore_document : Db → ℕ → Actor → Document → Bool
unfolding write_allowed
can_restore_document = write_allowed restore (λ m. m.can_restore)

unfoldable pub can_permanently_delete_document : Actor → Bool
can_permanently_delete_document actor =
    if is_temporary_user actor then false else is_system_admin actor
