-- ===== src/Audit.antt =====
-- apps/audit/services.py: every operation leaves an entry in the log. The snapshots of the rows and
-- what the HTTP request adds (address, user agent, request id) are left out.
use doc_manage_and_generatio.Prelude.{ℕ, String, Option, [], ◌∷◌, ◌++◌}
use doc_manage_and_generatio.Schema.{Actor, Db, AuditResult, actor_pk}

unfoldable pub audit_log : Actor → String → Option ℕ → AuditResult → Db → Db
audit_log actor action resource result db = record db {
  audit =
      db.audit
      ++ record { user = actor_pk actor; action = action; resource = resource; result = result }
        ∷ [];
}
