-- ===== src/Access/Temporary.antt =====
-- apps/access/temporary_services.py: tokens that open one version of a document a limited number of
-- times. The token's hash (`hash_temporary_access_token`) is the parameter `hash`; the token that
-- `generate_temporary_access_token` draws is an argument.
pub mod Budget
pub mod Revocation
use doc_manage_and_generatio.Prelude.{
  ℕ, ◌+◌, ◌*◌, String, Bool, true, false, not, ◌||◌, Option, none, some, List, [], ◌∷◌, ◌++◌,
  is_some, is_none, ltb, leb, ◌==◌, str_eq, if◌then◌else◌, find?, any, update_where,
}
use doc_manage_and_generatio.Outcome.{
  validation, permission_denied, does_not_exist, stored_file_missing, temporary_access_invalid,
  integrity_error, Result, ok, err, ◌>>=◌, ◌>>◌, raise_if, require, downloads_below_one,
  downloads_above_limit, expiry_not_in_future, expiry_above_limit, access_revoked,
}
use doc_manage_and_generatio.Schema.{
  Db, Request, Document, DocumentVersion, TemporaryAccessGrant, AuditResult, success, denied,
  failed, is_deleted, is_active_access, actor_pk,
}
use doc_manage_and_generatio.Audit.{audit_log}
use doc_manage_and_generatio.Access.Selectors.{can_manage_document_grants}
use doc_manage_and_generatio.Documents.Guards.{found, find_document}
use doc_manage_and_generatio.Documents.Files.{System, file_exists}

-- the settings TEMPORARY_GRANT_*
pub record AccessSettings : Type 0 where
  pub max_downloads : ℕ
  pub default_hours : ℕ
  pub max_hours : ℕ

-- `timedelta(hours=n)` in microseconds
abbrev pub hours : ℕ → ℕ
hours n = n * 3600000000

abbrev expiry_or : Option ℕ → ℕ → ℕ
expiry_or none default = default
expiry_or (some t) default = t

-- the row that `grant.document_version` names, and the row that its `document` names
unfoldable pub version_and_document : Db → ℕ → Result (DocumentVersion × Document)
version_and_document db version = do
  v ← found (find? (λ v. v.pk == version) db.versions)
  d ← found (find_document db v.document)
  ok (v, d)

module _ (hash : String → String) where
  new_grant : Request → ℕ → DocumentVersion → String → ℕ → ℕ → TemporaryAccessGrant
  new_grant request pk version token max_downloads expires_at = record {
    pk = pk;
    document_version = version.pk;
    token_hash = hash token;
    max_downloads = max_downloads;
    used_count = 0;
    expires_at = expires_at;
    created_by = actor_pk request.actor;
    revoked_at = none;
    revoked_by = none;
    last_used_at = none;
  }

  -- The token's hash is unique in the table.
  unfoldable pub create_temporary_access_grant :
      Request
      → AccessSettings
      → DocumentVersion
      → Option ℕ
      → ℕ
      → String
      → Db
      → Result (TemporaryAccessGrant × Db)
  unfolding new_grant audit_log
  create_temporary_access_grant request settings version expires_at max_downloads token db = do
    d ← found (find_document db version.document)
    require (can_manage_document_grants db (request.now 0) request.actor d) permission_denied
    raise_if (ltb max_downloads 1) (validation downloads_below_one)
    raise_if (ltb settings.max_downloads max_downloads) (validation downloads_above_limit)
    let expiry = expiry_or expires_at (request.now 1 + hours settings.default_hours)
    raise_if (leb expiry (request.now 2)) (validation expiry_not_in_future)
    raise_if (ltb (request.now 3 + hours settings.max_hours) expiry) (validation expiry_above_limit)
    raise_if (any (λ g. str_eq g.token_hash (hash token)) db.temporary_grants) integrity_error
    let g = new_grant request db.next_pk version token max_downloads expiry
    let inserted = record db {
      temporary_grants = db.temporary_grants ++ g ∷ [];
      next_pk = db.next_pk + 1;
    }
    ok (g, audit_log request.actor "temporary_access.create" (some d.pk) success inserted)

-- `grant` is locked by its key.
unfoldable pub revoke_temporary_access_grant : Request → ℕ → Db → Result (TemporaryAccessGrant × Db)
unfolding version_and_document audit_log
revoke_temporary_access_grant request key db = do
  g ← found (find? (λ g. g.pk == key) db.temporary_grants)
  (v, d) ← version_and_document db g.document_version
  require (can_manage_document_grants db (request.now 0) request.actor d) permission_denied
  raise_if (is_some g.revoked_at) (validation access_revoked)
  let stamp = λ (x : TemporaryAccessGrant). record x {
    revoked_at = some (request.now 1);
    revoked_by = actor_pk request.actor;
  }
  let changed = record db {
    temporary_grants = update_where (λ x. x.pk == g.pk) stamp db.temporary_grants;
  }
  ok (stamp g, audit_log request.actor "temporary_access.revoke" (some d.pk) success changed)

-- the columns that a use writes, `save(update_fields=["used_count", "last_used_at"])`
abbrev pub used_at : ℕ → ℕ → TemporaryAccessGrant → TemporaryAccessGrant
used_at count now g = record g { used_count = count; last_used_at = some now }

unfoldable pub use_access : Request → TemporaryAccessGrant → Db → Db
use_access request g db = record db {
  temporary_grants =
      update_where (λ x. x.pk == g.pk) (used_at (g.used_count + 1) (request.now 1))
        db.temporary_grants;
}

abbrev pub log_access : Request → Option ℕ → AuditResult → System → System
log_access request document result sys = record sys {
  db = audit_log request.actor "temporary_access.download" document result sys.db;
}

-- a version whose grant was used: the file is opened, if it is there
unfoldable pub open_version_file :
    Request → DocumentVersion → System → Result DocumentVersion × System
open_version_file request v sys =
    if file_exists v.storage_path sys.files
    then (ok v, sys)
    else (err stored_file_missing, log_access request (some v.document) failed sys)

-- The transaction commits the use, or nothing; what is denied is logged outside it.
unfoldable pub consume_grant :
    Request → TemporaryAccessGrant → System → Result DocumentVersion × System
unfolding version_and_document use_access open_version_file audit_log
consume_grant request g sys = elim (version_and_document sys.db g.document_version) [
  | err e ↦ (err e, sys)
  | ok (v, d) ↦
      if is_deleted d || not (is_active_access (request.now 0) g)
      then (err temporary_access_invalid, log_access request (some d.pk) denied sys)
      else open_version_file request v
          (log_access request (some d.pk) success (record sys { db = use_access request g sys.db }))
]

unfoldable pub find_token : String → Db → Option TemporaryAccessGrant
find_token token_hash db = find? (λ g. str_eq g.token_hash token_hash) db.temporary_grants

module _ (hash : String → String) where
  unfoldable pub consume_temporary_access_token :
      Request → String → System → Result DocumentVersion × System
  unfolding consume_grant find_token
  consume_temporary_access_token request token sys = elim (find_token (hash token) sys.db) [
    | none ↦ (err temporary_access_invalid, log_access request none denied sys)
    | some g ↦ consume_grant request g sys
  ]
