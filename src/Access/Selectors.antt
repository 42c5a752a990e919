-- ===== src/Access/Selectors.antt =====
-- apps/access/selectors.py and permissions.py: the grants that count, and who may manage them.
-- Nobody has granted anything to a visitor who is not signed in.
use doc_manage_and_generatio.Prelude.{
  ℕ, Bool, false, not, ◌&&◌, ◌||◌, none, some, List, [], is_none, ◌==◌, any, filter,
}
use doc_manage_and_generatio.Schema.{
  Actor, anonymous, signed_in, Db, Document, DocumentGrant, is_expired, is_system_admin,
}
use doc_manage_and_generatio.Projects.Membership.{get_project_membership, has_membership_flag}

-- the keys of `GRANT_ACTION_FIELDS`
pub data Action : Type 0 where
  view download update delete restore manage : Action

unfoldable pub granted : Action → DocumentGrant → Bool
granted view g = g.can_view
granted download g = g.can_download
granted update g = g.can_update
granted delete g = g.can_delete
granted restore g = g.can_restore
granted manage g = g.can_manage

-- `expires_at__gt=now` or no expiry
unfoldable pub is_active_for : ℕ → ℕ → DocumentGrant → Bool
is_active_for now user g = g.user == user && is_none g.revoked_at && not (is_expired now g)

unfoldable pub active_grants_for_user : Db → ℕ → Actor → List DocumentGrant
unfolding is_active_for
active_grants_for_user db now anonymous = []
active_grants_for_user db now (signed_in u) = filter (is_active_for now u.pk) db.grants

unfoldable pub has_active_document_grant : Db → ℕ → Actor → ℕ → Action → Bool
has_active_document_grant db now actor document action =
    any (λ g. g.document == document && granted action g) (active_grants_for_user db now actor)

unfoldable pub can_manage_document_grants : Db → ℕ → Actor → Document → Bool
unfolding has_membership_flag
can_manage_document_grants db now actor d =
    is_system_admin actor
    || elim d.project [
      | none ↦ false
      | some p ↦
          has_membership_flag (get_project_membership db actor p) (λ m. m.can_manage_permission)
    ]
    || has_active_document_grant db now actor d.pk manage
