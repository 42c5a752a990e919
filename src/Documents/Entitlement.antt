-- ===== src/Documents/Entitlement.antt =====
-- Who may do what with a document, in terms of the rows that give the right.
use doc_manage_and_generatio.Prelude.{
  ℕ, Bool, true, false, none, some, ◌≡◌, refl, inl, inr, Memᴰ, arith, ◌==◌, any-true, filter, find?,
  ◌&&◌, mem-filter, find?-mem, Option-cases, Bool-cases,
}
use doc_manage_and_generatio.Outcome.{ok}
use doc_manage_and_generatio.Schema.{
  Db, Request, Actor, User, anonymous, signed_in, Document, Folder, DocumentGrant, ProjectMember,
  is_system_admin, is_temporary_user, is_expired,
}
use doc_manage_and_generatio.Projects.Membership.{get_project_membership, has_membership_flag}
use doc_manage_and_generatio.Access.Selectors.{
  Action, granted, update, delete, restore, is_active_for, active_grants_for_user,
  has_active_document_grant,
}
use doc_manage_and_generatio.Documents.Permissions.{
  project_flag, write_allowed, can_update_document, can_delete_document, can_restore_document,
}
use doc_manage_and_generatio.Documents.Guards.{
  find_document, locked_document, project_is_archived, ensure_project_write_allowed,
}
use doc_manage_and_generatio.Documents.Operations.{
  MetadataPatch, update_document_metadata, move_document, soft_delete_document, restore_document,
}
use doc_manage_and_generatio.Documents.Concurrency.{Change, apply_change}

-- What gives an actor a right on a document: the role, a grant on the document that is neither
-- revoked nor expired, or a membership in the document's project.
pub data IsEntitled (db : Db) (now : ℕ) (actor : Actor) (d : Document) (action : Action)
    (flag : ProjectMember → Bool) : Type 0 where
  administrator : is_system_admin actor ≡ true → IsEntitled db now actor d action flag
  by_grant :
      (u : User) (g : DocumentGrant)
      → actor ≡ signed_in u
      → Memᴰ g db.grants
      → g.document ≡ d.pk
      → g.user ≡ u.pk
      → granted action g ≡ true
      → g.revoked_at ≡ none
      → is_expired now g ≡ false
      → IsEntitled db now actor d action flag
  by_membership :
      (u : User) (project : ℕ) (m : ProjectMember)
      → actor ≡ signed_in u
      → d.project ≡ some project
      → Memᴰ m db.members
      → m.project ≡ project
      → m.user ≡ u.pk
      → flag m ≡ true
      → IsEntitled db now actor d action flag

grant-IsEntitled :
    (db : Db) (now : ℕ) (actor : Actor) (d : Document) (action : Action)
    (flag : ProjectMember → Bool)
    → has_active_document_grant db now actor d.pk action ≡ true
    → IsEntitled db now actor d action flag
unfolding has_active_document_grant active_grants_for_user is_active_for
grant-IsEntitled db now anonymous d action flag h = ground arith
grant-IsEntitled db now (signed_in u) d action flag h =
    let (g, m, t) =
      any-true (λ g. g.document == d.pk && granted action g)
        (filter (is_active_for now u.pk) db.grants) h in
    let (i, active) = mem-filter (is_active_for now u.pk) db.grants m in
    by_grant u g refl i (ground arith) (ground arith) (ground arith) (ground arith) (ground arith)

membership-IsEntitled :
    (db : Db) (now : ℕ) (actor : Actor) (d : Document) (action : Action)
    (flag : ProjectMember → Bool)
    → project_flag db actor d.project flag ≡ true
    → IsEntitled db now actor d action flag
unfolding project_flag has_membership_flag get_project_membership
membership-IsEntitled db now anonymous d action flag h = ground arith
membership-IsEntitled db now (signed_in u) d action flag h = elim (Option-cases d.project) [
  | inl e ↦ ground arith
  | inr (p, e) ↦ elim (Option-cases (find? (λ m. m.project == p && m.user == u.pk) db.members)) [
    | inl e' ↦ ground arith
    | inr (m, e') ↦
        let (i, t) = find?-mem (λ m. m.project == p && m.user == u.pk) db.members e' in
        by_membership u p m refl e i (ground arith) (ground arith) (ground arith)
  ]
]

write_allowed-IsEntitled :
    (action : Action) (flag : ProjectMember → Bool) (db : Db) (now : ℕ) (actor : Actor)
    (d : Document)
    → write_allowed action flag db now actor d ≡ true
    → (is_temporary_user actor ≡ false) × IsEntitled db now actor d action flag
unfolding write_allowed
write_allowed-IsEntitled action flag db now actor d h = (
  ground arith,
  elim (Bool-cases (is_system_admin actor)) [
    | inl e ↦ administrator e
    | inr e ↦ elim (Bool-cases (has_active_document_grant db now actor d.pk action)) [
      | inl e' ↦ grant-IsEntitled db now actor d action flag e'
      | inr e' ↦ membership-IsEntitled db now actor d action flag (ground arith)
    ]
  ],
)

-- What a change asks for.
abbrev pub action_of : Change → Action
action_of (Change.update patch) = update
action_of (Change.move folder) = update
action_of Change.soft_delete = delete
action_of Change.restore = restore

abbrev pub flag_of : Change → ProjectMember → Bool
flag_of (Change.update patch) m = m.can_upload
flag_of (Change.move folder) m = m.can_upload
flag_of Change.soft_delete m = m.can_delete
flag_of Change.restore m = m.can_restore

-- A change that succeeds found the document, whose project is not archived, and an actor who is no
-- temporary user and has the right that the change asks for.
pub record Authorised (db : Db) (request : Request) (key : ℕ) (action : Action)
    (flag : ProjectMember → Bool) : Type 0 where
  pub document : Document
  pub found_there : find_document db key ≡ some document
  pub writable : project_is_archived db document.project ≡ false
  pub no_temporary_user : is_temporary_user request.actor ≡ false
  pub entitled : IsEntitled db (request.now 0) request.actor document action flag

allowed_change :
    (db : Db) (request : Request) (key : ℕ) (action : Action) (flag : ProjectMember → Bool)
    (d : Document)
    → find_document db key ≡ some d
    → ensure_project_write_allowed db d ≡ ok tt
    → write_allowed action flag db (request.now 0) request.actor d ≡ true
    → Authorised db request key action flag
unfolding ensure_project_write_allowed
allowed_change db request key action flag d e open_project h =
    let (regular, right) =
      write_allowed-IsEntitled action flag db (request.now 0) request.actor d h in
    record {
      document = d;
      found_there = e;
      writable = ground arith;
      no_temporary_user = regular;
      entitled = right;
    }

update-Authorised :
    (request : Request) (key : ℕ) (patch : MetadataPatch) (expected : ℕ) (db : Db)
    {after : Document} {db' : Db}
    → update_document_metadata request key patch expected db ≡ ok (after, db')
    → Authorised db request key update (λ m. m.can_upload)
unfolding update_document_metadata locked_document can_update_document
update-Authorised request key patch expected db h = elim (Option-cases (find_document db key)) [
  | inl e ↦ ground arith
  | inr (d, e) ↦
      allowed_change db request key update (λ m. m.can_upload) d e (ground arith) (ground arith)
]

move-Authorised :
    (request : Request) (key : ℕ) (folder : Folder) (expected : ℕ) (db : Db) {after : Document}
    {db' : Db}
    → move_document request key folder expected db ≡ ok (after, db')
    → Authorised db request key update (λ m. m.can_upload)
unfolding move_document locked_document can_update_document
move-Authorised request key folder expected db h = elim (Option-cases (find_document db key)) [
  | inl e ↦ ground arith
  | inr (d, e) ↦
      allowed_change db request key update (λ m. m.can_upload) d e (ground arith) (ground arith)
]

delete-Authorised :
    (request : Request) (key : ℕ) (expected : ℕ) (db : Db) {after : Document} {db' : Db}
    → soft_delete_document request key expected db ≡ ok (after, db')
    → Authorised db request key delete (λ m. m.can_delete)
unfolding soft_delete_document locked_document can_delete_document
delete-Authorised request key expected db h = elim (Option-cases (find_document db key)) [
  | inl e ↦ ground arith
  | inr (d, e) ↦
      allowed_change db request key delete (λ m. m.can_delete) d e (ground arith) (ground arith)
]

restore-Authorised :
    (request : Request) (key : ℕ) (expected : ℕ) (db : Db) {after : Document} {db' : Db}
    → restore_document request key expected db ≡ ok (after, db')
    → Authorised db request key restore (λ m. m.can_restore)
unfolding restore_document locked_document can_restore_document
restore-Authorised request key expected db h = elim (Option-cases (find_document db key)) [
  | inl e ↦ ground arith
  | inr (d, e) ↦
      allowed_change db request key restore (λ m. m.can_restore) d e (ground arith) (ground arith)
]

-- A metadata update, a move, a soft deletion or a restoration that succeeds was asked for by an
-- actor who is no temporary user and has the right that it asks for, on a document whose project is
-- not archived.
pub apply_change-Authorised :
    (request : Request) (key : ℕ) (change : Change) (expected : ℕ) (db : Db) {after : Document}
    {db' : Db}
    → apply_change request key change expected db ≡ ok (after, db')
    → Authorised db request key (action_of change) (flag_of change)
unfolding apply_change
apply_change-Authorised request key (Change.update patch) expected db h =
    update-Authorised request key patch expected db h
apply_change-Authorised request key (Change.move folder) expected db h =
    move-Authorised request key folder expected db h
apply_change-Authorised request key Change.soft_delete expected db h =
    delete-Authorised request key expected db h
apply_change-Authorised request key Change.restore expected db h =
    restore-Authorised request key expected db h
