-- ===== src/Projects/Membership.antt =====
-- apps/projects/selectors.py and permissions.py, and apps/folders/permissions.py: who belongs to a
-- project, and what the role allows. The memberships that a view prefetches are those of the same
-- query.
use doc_manage_and_generatio.Prelude.{
  ℕ, Bool, true, false, ◌&&◌, ◌||◌, Option, none, some, ◌==◌, find?,
}
use doc_manage_and_generatio.Schema.{
  Actor, anonymous, signed_in, Db, Project, ProjectMember, MemberRole, is_system_admin,
}

unfoldable pub get_project_membership : Db → Actor → ℕ → Option ProjectMember
get_project_membership db anonymous project = none
get_project_membership db (signed_in u) project =
    find? (λ m. m.project == project && m.user == u.pk) db.members

-- `membership and membership.flag`
unfoldable pub has_membership_flag : Option ProjectMember → (ProjectMember → Bool) → Bool
has_membership_flag none flag = false
has_membership_flag (some m) flag = flag m

-- the row that a foreign key to a project names
abbrev pub project_of : Db → Option ℕ → Option Project
project_of db none = none
project_of db (some k) = find? (λ p. p.pk == k) db.projects

abbrev is_manager : ProjectMember → Bool
is_manager m = elim m.role [ MemberRole.manager ↦ true | _ ↦ false ]

unfoldable pub can_manage_project : Db → Actor → ℕ → Bool
unfolding has_membership_flag
can_manage_project db actor project =
    is_system_admin actor
    || has_membership_flag (get_project_membership db actor project) is_manager

unfoldable pub can_manage_folder : Db → Actor → Option ℕ → Bool
unfolding has_membership_flag
can_manage_folder db actor none = is_system_admin actor
can_manage_folder db actor (some project) =
    is_system_admin actor
    || has_membership_flag (get_project_membership db actor project) (λ m. m.can_manage_folder)
