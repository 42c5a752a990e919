-- ===== src/Tests/Grants.antt =====
-- Grants on documents at concrete inputs.
use doc_manage_and_generatio.Prelude.{true, false, none, ◌≡◌, refl}
use doc_manage_and_generatio.Outcome.{ok}
use doc_manage_and_generatio.Schema.{Db, DocumentGrant, is_system_admin}
use doc_manage_and_generatio.Audit.{audit_log}
use doc_manage_and_generatio.Access.Selectors.{can_manage_document_grants}
use doc_manage_and_generatio.Access.Grants.{
  GrantPayload, create_document_grant, ensure_manage_allowed, validate_grant_payload, close_expired,
  new_document_grant,
}
use doc_manage_and_generatio.Access.Grants.Single.{IsSingle}
use doc_manage_and_generatio.Access.Grants.Steps.{give, GrantStep-IsSingle}
use doc_manage_and_generatio.Tests.Sample.{value_or, request, db}

abbrev payload : GrantPayload
payload = record {
  can_view = true;
  can_download = true;
  can_update = false;
  can_delete = false;
  can_restore = false;
  can_manage = false;
  expires_at = none;
}

abbrev nobody : DocumentGrant
nobody = new_document_grant 0 0 0 none payload

abbrev granted_db : DocumentGrant × Db
granted_db = value_or (create_document_grant request 20 7 payload db) (nobody, db)

grant_succeeds : create_document_grant request 20 7 payload db ≡ ok (granted_db.0, granted_db.1)
unfolding create_document_grant ensure_manage_allowed can_manage_document_grants is_system_admin
    validate_grant_payload close_expired new_document_grant audit_log
grant_succeeds = refl

GrantStep-IsSingle_example : IsSingle granted_db.1.grants
GrantStep-IsSingle_example =
    GrantStep-IsSingle {db = db} {db' = granted_db.1} (give request 20 7 payload grant_succeeds)
      (record { single = λ document user a b m n h k. elim m [ ] })
