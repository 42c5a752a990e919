-- ===== src/Access/Grants/Steps.antt =====
-- Each operation on grants leaves a user at most one on a document that is not revoked.
use doc_manage_and_generatio.Prelude.{
  ℕ, List, [], ◌∷◌, ◌++◌, ◌≡◌, refl, inl, inr, arith, ap, sym, subst, ◌∙◌, ◌==◌, Option-cases,
  find?-mem, mem-update_where, update_where,
}
use doc_manage_and_generatio.Outcome.{ok, Result-cases}
use doc_manage_and_generatio.Schema.{Db, Request, DocumentGrant, actor_pk}
use doc_manage_and_generatio.Audit.{audit_log}
use doc_manage_and_generatio.Documents.Guards.{find_document}
use doc_manage_and_generatio.Access.Grants.{
  GrantPayload, GrantPatch, is_open_grant, revoke_row, close_expired, find_grant,
  new_document_grant, create_document_grant, update_document_grant, revoke_document_grant,
  with_payload, merged,
}
use doc_manage_and_generatio.Access.Grants.Single.{
  IsSingle, Closed, traced-IsSingle, revoke_row-IsSingle, close_expired-Closed, insert-IsSingle,
}

at_target :
    {document user document' user' : ℕ} {grants : List DocumentGrant}
    → document ≡ document'
    → user ≡ user'
    → Closed document user grants
    → Closed document' user' grants
at_target {document = document} {user' = user'} {grants = grants} same same' c =
    subst (λ d. Closed d user' grants) same (subst (λ u. Closed document u grants) same' c)

create-IsSingle :
    (request : Request) (document user : ℕ) (payload : GrantPayload) (db : Db)
    {after : DocumentGrant} {db' : Db}
    → create_document_grant request document user payload db ≡ ok (after, db')
    → IsSingle db.grants
    → IsSingle db'.grants
unfolding create_document_grant new_document_grant audit_log
create-IsSingle request document user payload db {after} {db'} h inv =
    elim (Option-cases (find_document db document)) [
      | inl e ↦ ground arith
      | inr (d, e) ↦ elim (Result-cases (close_expired request d.pk user db.grants)) [
        | inl (x, failed) ↦ ground arith
        | inr (grants, closed) ↦
            let written : db'.grants ≡ grants ++ after ∷ [] = ground arith in
            subst IsSingle (sym written) (
              insert-IsSingle grants after (
                at_target (ground arith) (ground arith)
                  (close_expired-Closed request d.pk user db.grants closed inv)))
      ]
    ]

update-IsSingle :
    (request : Request) (grant : DocumentGrant) (patch : GrantPatch) (db : Db)
    {after : DocumentGrant} {db' : Db}
    → update_document_grant request grant patch db ≡ ok (after, db')
    → IsSingle db.grants
    → IsSingle db'.grants
unfolding update_document_grant with_payload audit_log
update-IsSingle request grant patch db {after} {db'} h inv =
    elim (Option-cases (find_grant db grant.pk)) [
      | inl e ↦ ground arith
      | inr (g, e) ↦
          let (i, t) = find?-mem (λ g. g.pk == grant.pk) db.grants e in
          let new = with_payload (merged patch g) g in
          let written : db'.grants ≡ update_where (λ x. x.pk == g.pk) (λ x. new) db.grants =
            ground arith in
          let kept : (document user : ℕ)
              → is_open_grant document user new ≡ is_open_grant document user g =
            λ document user. refl in
          subst IsSingle (sym written) (
            traced-IsSingle db.grants _
              (λ document user b m is_open.
                let (a, j, which) = mem-update_where (λ x. x.pk == g.pk) (λ x. new) db.grants m in
                elim which [
                  | inl (q, same) ↦ (
                    g,
                    i,
                    sym (kept document user)
                        ∙ ap (is_open_grant document user) (sym same)
                        ∙ is_open,
                    ap (λ x. x.pk) (sym same),
                  )
                  | inr (q, same) ↦ (
                    a,
                    j,
                    ap (is_open_grant document user) (sym same) ∙ is_open,
                    ap (λ x. x.pk) (sym same),
                  )
                ])
              inv)
    ]

revoke-IsSingle :
    (request : Request) (grant : DocumentGrant) (db : Db) {after : DocumentGrant} {db' : Db}
    → revoke_document_grant request grant db ≡ ok (after, db')
    → IsSingle db.grants
    → IsSingle db'.grants
unfolding revoke_document_grant audit_log
revoke-IsSingle request grant db {after} {db'} h inv =
    elim (Option-cases (find_grant db grant.pk)) [
      | inl e ↦ ground arith
      | inr (g, e) ↦
          let written : db'.grants
              ≡ revoke_row (actor_pk request.actor) (request.now 1) g.pk db.grants =
            ground arith in
          subst IsSingle (sym written)
            (revoke_row-IsSingle (actor_pk request.actor) (request.now 1) g.pk db.grants inv)
    ]

-- One call of the grant service that succeeded.
pub data GrantStep (db db' : Db) : Type 0 where
  give :
      (request : Request) (document user : ℕ) (payload : GrantPayload) {after : DocumentGrant}
      → create_document_grant request document user payload db ≡ ok (after, db')
      → GrantStep db db'
  amend :
      (request : Request) (grant : DocumentGrant) (patch : GrantPatch) {after : DocumentGrant}
      → update_document_grant request grant patch db ≡ ok (after, db')
      → GrantStep db db'
  withdraw :
      (request : Request) (grant : DocumentGrant) {after : DocumentGrant}
      → revoke_document_grant request grant db ≡ ok (after, db')
      → GrantStep db db'

-- Each call of the grant service that succeeds leaves each user at most one grant on each document
-- that is not revoked, if there was at most one before.
pub GrantStep-IsSingle : {db db' : Db} → GrantStep db db' → IsSingle db.grants → IsSingle db'.grants
GrantStep-IsSingle {db} (give request document user payload h) =
    create-IsSingle request document user payload db h
GrantStep-IsSingle {db} (amend request grant patch h) = update-IsSingle request grant patch db h
GrantStep-IsSingle {db} (withdraw request grant h) = revoke-IsSingle request grant db h
