-- ===== src/Access/Grants.antt =====
-- apps/access/services.py: grants of rights on one document to one user. Each function is one
-- transaction.
pub mod Single
pub mod Steps
use doc_manage_and_generatio.Prelude.{
  ℕ, ◌+◌, Bool, true, false, not, ◌&&◌, ◌||◌, Option, none, some, List, [], ◌∷◌, ◌++◌, is_some,
  is_none, leb, ◌==◌, if◌then◌else◌, find?, update_where,
}
use doc_manage_and_generatio.Outcome.{
  validation, permission_denied, Result, ok, err, ◌>>=◌, ◌>>◌, raise_if, require, grant_exists,
  grant_target_fixed, grant_revoked, no_action, expiry_not_in_future,
}
use doc_manage_and_generatio.Schema.{
  Db, Request, Document, DocumentGrant, success, is_expired, actor_pk,
}
use doc_manage_and_generatio.Audit.{audit_log}
use doc_manage_and_generatio.Access.Selectors.{can_manage_document_grants}
use doc_manage_and_generatio.Documents.Guards.{found, find_document}

-- `_ensure_manage_allowed`
unfoldable pub ensure_manage_allowed : Db → Request → Document → Result (Unit {0})
ensure_manage_allowed db request d =
    require (can_manage_document_grants db (request.now 0) request.actor d) permission_denied

-- what a grant allows, and until when
pub record GrantPayload : Type 0 where
  pub can_view : Bool
  pub can_download : Bool
  pub can_update : Bool
  pub can_delete : Bool
  pub can_restore : Bool
  pub can_manage : Bool
  pub expires_at : Option ℕ

unfoldable pub allows_something : GrantPayload → Bool
allows_something p =
    p.can_view || p.can_download || p.can_update || p.can_delete || p.can_restore || p.can_manage

-- `_validate_grant_payload`
unfoldable pub validate_grant_payload : ℕ → GrantPayload → Result (Unit {0})
unfolding allows_something
validate_grant_payload now p = do
  require (allows_something p) (validation no_action)
  raise_if (elim p.expires_at [ none ↦ false | some t ↦ leb t now ])
      (validation expiry_not_in_future)

-- `filter(test).first()`: the table's default order puts the newest row first
abbrev pub find_last {ℓ} : {A : Type ℓ} → (A → Bool) → List A → Option A
find_last test [] = none
find_last test (x ∷ xs) =
    let rest = find_last test xs in
    elim rest [ none ↦ if test x then some x else none | some a ↦ some a ]

abbrev pub is_open_grant : ℕ → ℕ → DocumentGrant → Bool
is_open_grant document user g = g.document == document && g.user == user && is_none g.revoked_at

unfoldable pub with_payload : GrantPayload → DocumentGrant → DocumentGrant
with_payload p g = record g {
  can_view = p.can_view;
  can_download = p.can_download;
  can_update = p.can_update;
  can_delete = p.can_delete;
  can_restore = p.can_restore;
  can_manage = p.can_manage;
  expires_at = p.expires_at;
}

unfoldable pub new_document_grant : ℕ → ℕ → ℕ → Option ℕ → GrantPayload → DocumentGrant
new_document_grant pk document user actor p = record {
  pk = pk;
  document = document;
  user = user;
  can_view = p.can_view;
  can_download = p.can_download;
  can_update = p.can_update;
  can_delete = p.can_delete;
  can_restore = p.can_restore;
  can_manage = p.can_manage;
  expires_at = p.expires_at;
  created_by = actor;
  revoked_at = none;
  revoked_by = none;
}

abbrev pub revoke_grant : Option ℕ → ℕ → DocumentGrant → DocumentGrant
revoke_grant actor now g = record g { revoked_at = some now; revoked_by = actor }

-- the columns that a revocation writes, on the row of the key
abbrev pub revoke_row : Option ℕ → ℕ → ℕ → List DocumentGrant → List DocumentGrant
revoke_row actor now key grants = update_where (λ g. g.pk == key) (revoke_grant actor now) grants

-- An open grant that has expired gives way; one that has not is an error.
unfoldable pub close_expired : Request → ℕ → ℕ → List DocumentGrant → Result (List DocumentGrant)
close_expired request document user grants = elim (find_last (is_open_grant document user) grants) [
  | none ↦ ok grants
  | some g ↦ do
    require (is_expired (request.now 2) g) (validation grant_exists)
    ok (revoke_row (actor_pk request.actor) (request.now 3) g.pk grants)
]

unfoldable pub create_document_grant :
    Request → ℕ → ℕ → GrantPayload → Db → Result (DocumentGrant × Db)
unfolding close_expired new_document_grant audit_log
create_document_grant request document user payload db = do
  d ← found (find_document db document)
  ensure_manage_allowed db request d
  validate_grant_payload (request.now 1) payload
  grants ← close_expired request d.pk user db.grants
  let g = new_document_grant db.next_pk d.pk user (actor_pk request.actor) payload
  let inserted = record db { grants = grants ++ g ∷ []; next_pk = db.next_pk + 1 }
  ok (g, audit_log request.actor "document.grant.create" (some d.pk) success inserted)

-- the fields in the data of a change; `retargets` is `"document" in data or "user" in data`
pub record GrantPatch : Type 0 where
  pub retargets : Bool
  pub can_view : Option Bool
  pub can_download : Option Bool
  pub can_update : Option Bool
  pub can_delete : Option Bool
  pub can_restore : Option Bool
  pub can_manage : Option Bool
  pub expires_at : Option (Option ℕ)

abbrev given {ℓ} : {A : Type ℓ} → Option A → A → A
given none old = old
given (some new) old = new

-- `merged`
unfoldable pub merged : GrantPatch → DocumentGrant → GrantPayload
merged patch g = record {
  can_view = given patch.can_view g.can_view;
  can_download = given patch.can_download g.can_download;
  can_update = given patch.can_update g.can_update;
  can_delete = given patch.can_delete g.can_delete;
  can_restore = given patch.can_restore g.can_restore;
  can_manage = given patch.can_manage g.can_manage;
  expires_at = given patch.expires_at g.expires_at;
}

abbrev pub find_grant : Db → ℕ → Option DocumentGrant
find_grant db key = find? (λ g. g.pk == key) db.grants

-- `grant` is the object that the caller read; its rows are read again.
unfoldable pub update_document_grant :
    Request → DocumentGrant → GrantPatch → Db → Result (DocumentGrant × Db)
unfolding with_payload audit_log
update_document_grant request grant patch db = do
  raise_if patch.retargets (validation grant_target_fixed)
  d ← found (find_document db grant.document)
  g ← found (find_grant db grant.pk)
  ensure_manage_allowed db request d
  raise_if (is_some g.revoked_at) (validation grant_revoked)
  validate_grant_payload (request.now 1) (merged patch g)
  let saved = with_payload (merged patch g) g
  let changed = record db { grants = update_where (λ x. x.pk == g.pk) (λ x. saved) db.grants }
  ok (saved, audit_log request.actor "document.grant.update" (some d.pk) success changed)

unfoldable pub revoke_document_grant : Request → DocumentGrant → Db → Result (DocumentGrant × Db)
unfolding audit_log
revoke_document_grant request grant db = do
  d ← found (find_document db grant.document)
  g ← found (find_grant db grant.pk)
  ensure_manage_allowed db request d
  raise_if (is_some g.revoked_at) (validation grant_revoked)
  let changed = record db {
    grants = revoke_row (actor_pk request.actor) (request.now 1) g.pk db.grants;
  }
  ok (
    revoke_grant (actor_pk request.actor) (request.now 1) g,
    audit_log request.actor "document.grant.revoke" (some d.pk) success changed,
  )
