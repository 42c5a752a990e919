-- ===== src/Documents/Listing.antt =====
-- The lists of documents and the check of one document agree.
use doc_manage_and_generatio.Prelude.{
  ℕ, Bool, true, false, not, ◌&&◌, ◌||◌, List, [], ◌∷◌, ◌≡◌, refl, inl, inr, Memᴰ, arith, ap, ◌==◌,
  ==_iff, find?, any, any-true, any-false, any-of_mem, find?-mem, find?-none, Bool-cases,
  Option-cases,
}
use doc_manage_and_generatio.Schema.{
  Actor, anonymous, signed_in, Db, Document, ProjectMember, DocumentGrant, is_deleted,
  is_system_admin, is_data_operator,
}
use doc_manage_and_generatio.Projects.Membership.{get_project_membership, has_membership_flag}
use doc_manage_and_generatio.Access.Selectors.{
  Action, view, download, update, delete, restore, granted, active_grants_for_user,
  has_active_document_grant,
}
use doc_manage_and_generatio.Documents.Permissions.{
  project_flag, has_basic_scope, can_view_document,
}
use doc_manage_and_generatio.Documents.Selectors.{
  member_row, is_visible_project, project_in, is_granted, base_document, keeps_staff_document,
  is_viewable, is_visible_document,
}

-- the unique constraint of the memberships
unfoldable pub HasOneMembership : Db → Type 0
HasOneMembership db =
    (a b : ProjectMember)
    → Memᴰ a db.members
    → Memᴰ b db.members
    → a.project ≡ b.project
    → a.user ≡ b.user
    → a ≡ b

member_row-flag :
    (db : Db) (actor : Actor) (flag : ProjectMember → Bool) (project : ℕ)
    → HasOneMembership db
    → member_row db actor flag project
      ≡ has_membership_flag (get_project_membership db actor project) flag
unfolding HasOneMembership member_row has_membership_flag get_project_membership
member_row-flag db anonymous flag project single = refl
member_row-flag db (signed_in u) flag project single =
    let row = λ (m : ProjectMember). m.project == project && m.user == u.pk in
    let flagged = λ (m : ProjectMember). m.project == project && m.user == u.pk && flag m in
    elim (Option-cases (find? row db.members)) [
      | inl e ↦ elim (Bool-cases (any flagged db.members)) [
        | inl b ↦
            let (y, m, h) = any-true flagged db.members b in
            ground (arith, find?-none row db.members e m)
        | inr b ↦ ground (arith, b, e)
      ]
      | inr (x, e) ↦
          let (i, own) = find?-mem row db.members e in
          elim (Bool-cases (any flagged db.members)) [
            | inl b ↦
                let (y, m, h) = any-true flagged db.members b in
                let same : y ≡ x =
                  single y x m i
                    (ground (arith, ==_iff y.project project, ==_iff x.project project))
                    (ground (arith, ==_iff y.user u.pk, ==_iff x.user u.pk)) in
                ground (arith, b, e, h, ap flag same)
            | inr b ↦ ground (arith, b, e, any-false flagged db.members b i)
          ]
    ]

-- who has a flag in a project is a member of it
member_row-visible :
    (db : Db) (actor : Actor) (flag : ProjectMember → Bool) (project : ℕ)
    → member_row db actor flag project ≡ true
    → is_visible_project db actor project ≡ true
unfolding is_visible_project member_row
member_row-visible db anonymous flag project h = ground arith
member_row-visible db (signed_in u) flag project h =
    let (y, m, t) = any-true (λ m. m.project == project && m.user == u.pk && flag m) db.members h in
    ground (
      arith,
      any-of_mem (λ m. m.project == project && m.user == u.pk && true) db.members m (ground arith),
    )

is_granted-view :
    (db : Db) (now : ℕ) (actor : Actor) (document : ℕ)
    → is_granted db now actor (view ∷ []) document
      ≡ has_active_document_grant db now actor document view
unfolding is_granted has_active_document_grant
is_granted-view db now actor document = same (active_grants_for_user db now actor)
  where
    same :
        (grants : List DocumentGrant)
        → any (λ g. g.document == document && any (λ a. granted a g) (view ∷ [])) grants
          ≡ any (λ g. g.document == document && granted view g) grants
    same [] = refl
    same (g ∷ rest) = ground (arith, same rest)

is_granted-more :
    (db : Db) (now : ℕ) (actor : Actor) (document : ℕ) (actions : List Action)
    → is_granted db now actor (view ∷ []) document ≡ true
    → is_granted db now actor (view ∷ actions) document ≡ true
unfolding is_granted
is_granted-more db now actor document actions h =
    let (g, m, t) =
      any-true (λ g. g.document == document && any (λ a. granted a g) (view ∷ []))
        (active_grants_for_user db now actor) h in
    any-of_mem (λ g. g.document == document && any (λ a. granted a g) (view ∷ actions))
      (active_grants_for_user db now actor) m (ground arith)

-- For a user who is no clerk, and as long as nobody is a member of a project twice, the list of
-- documents shows just those that are not deleted, that `can_view_document` allows, and that, unless
-- the user is an administrator, do not lie in the folder of another member of the staff.
pub list_agrees_with_check :
    (db : Db) (now : ℕ) (actor : Actor) (d : Document)
    → HasOneMembership db
    → is_data_operator actor ≡ false
    → is_visible_document db now actor false d ≡ (
        not (is_deleted d)
        && can_view_document db now actor d
        && (is_system_admin actor || keeps_staff_document db actor d))
unfolding is_visible_document base_document is_viewable project_in can_view_document project_flag
    has_basic_scope is_visible_project
list_agrees_with_check db now actor d single clerk =
    let more = is_granted-more db now actor d.pk (download ∷ update ∷ delete ∷ restore ∷ []) in
    let same = is_granted-view db now actor d.pk in
    elim (Option-cases d.project) [
      | inl e ↦ ground (arith, more, same)
      | inr (p, e) ↦
          let restricted = member_row-flag db actor (λ m. m.can_download_restricted) p single in
          let member = member_row-flag db actor (λ m. true) p single in
          let visible = member_row-visible db actor (λ m. m.can_download_restricted) p in
          ground (arith, e, more, same, restricted, member, visible)
    ]
