-- ===== src/Documents/Selectors.antt =====
-- apps/documents/selectors.py and `visible_projects_for_user` of apps/projects/selectors.py: the rows
-- that a user's lists show.
use doc_manage_and_generatio.Prelude.{
  ℕ, Bool, true, false, not, ◌&&◌, ◌||◌, Option, none, some, List, [], ◌∷◌, is_none, ◌==◌,
  if◌then◌else◌, any, filter,
}
use doc_manage_and_generatio.Schema.{
  Actor, anonymous, signed_in, Db, Project, ProjectMember, Document, is_deleted, is_system_admin,
  is_temporary_user, is_data_operator,
}
use doc_manage_and_generatio.Folders.Descendants.{contains}
use doc_manage_and_generatio.Folders.Personnel.{
  public_staff_folder_ids, own_public_staff_folder_ids,
}
use doc_manage_and_generatio.Access.Selectors.{
  Action, view, download, update, delete, restore, granted, active_grants_for_user,
}
use doc_manage_and_generatio.Documents.Permissions.{is_restricted}

-- some membership of the user in the project satisfies the filter
unfoldable pub member_row : Db → Actor → (ProjectMember → Bool) → ℕ → Bool
member_row db anonymous flag project = false
member_row db (signed_in u) flag project =
    any (λ m. m.project == project && m.user == u.pk && flag m) db.members

unfoldable pub is_visible_project : Db → Actor → ℕ → Bool
is_visible_project db actor project =
    if is_system_admin actor then true else member_row db actor (λ m. true) project

unfoldable pub visible_projects_for_user : Db → Actor → List Project
visible_projects_for_user db actor = filter (λ p. is_visible_project db actor p.pk) db.projects

-- `project_id__in=...`
unfoldable pub project_in : (ℕ → Bool) → Option ℕ → Bool
project_in test none = false
project_in test (some p) = test p

-- `document_id in active_granted_document_ids(user, *actions)`
unfoldable pub is_granted : Db → ℕ → Actor → List Action → ℕ → Bool
is_granted db now actor actions document =
    any (λ g. g.document == document && any (λ a. granted a g) actions)
      (active_grants_for_user db now actor)

unfoldable pub base_document : Db → ℕ → Actor → Bool → Document → Bool
base_document db now actor include_deleted d =
    if not include_deleted && is_deleted d
    then false
    else if is_temporary_user actor
    then false
    else if is_system_admin actor || is_data_operator actor
    then true
    else (is_none d.project
        || project_in (is_visible_project db actor) d.project
        || is_granted db now actor (view ∷ download ∷ update ∷ delete ∷ restore ∷ []) d.pk)

-- what `_filter_public_staff_documents_for_user` keeps
unfoldable pub keeps_staff_document : Db → Actor → Document → Bool
keeps_staff_document db actor d = not (
    contains (public_staff_folder_ids db) d.folder
    && not (contains (own_public_staff_folder_ids db actor) d.folder))

-- the `Q` of `visible_documents_for_user`
unfoldable pub is_viewable : Db → ℕ → Actor → Document → Bool
is_viewable db now actor d =
    not (is_restricted d) && is_none d.project
    || not (is_restricted d) && project_in (is_visible_project db actor) d.project
    || is_restricted d
      && project_in (member_row db actor (λ m. m.can_download_restricted)) d.project
    || is_granted db now actor (view ∷ []) d.pk

unfoldable pub is_visible_document : Db → ℕ → Actor → Bool → Document → Bool
is_visible_document db now actor include_deleted d =
    if not (base_document db now actor include_deleted d)
    then false
    else if is_system_admin actor
    then true
    else if is_data_operator actor
    then keeps_staff_document db actor d
    else (is_viewable db now actor d && keeps_staff_document db actor d)

unfoldable pub visible_documents_for_user : Db → ℕ → Actor → List Document
visible_documents_for_user db now actor =
    filter (is_visible_document db now actor false) db.documents

unfoldable pub trashed_documents_for_user : Db → ℕ → Actor → List Document
trashed_documents_for_user db now actor =
    filter (λ d. is_visible_document db now actor true d && is_deleted d) db.documents
