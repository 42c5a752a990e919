-- ===== src/Access/Temporary/Revocation.antt =====
-- Moving a document to the recycle bin ends the temporary access to it for good.
use doc_manage_and_generatio.Prelude.{
  ℕ, String, true, Option, some, List, ◌≡◌, ◌≢◌, sym, ◌∙◌, inl, inr, arith, Memᴰ, Option-cases,
  find?-mem, is_some, update_where, mem-update_where, str_eq,
}
use doc_manage_and_generatio.Outcome.{ok}
use doc_manage_and_generatio.Schema.{
  Db, Request, Document, DocumentVersion, TemporaryAccessGrant, actor_pk,
}
use doc_manage_and_generatio.Audit.{audit_log}
use doc_manage_and_generatio.Documents.Guards.{find_document, locked_document, save_document}
use doc_manage_and_generatio.Documents.Operations.{
  is_access_to, is_open_access, revoked, soft_delete_document, restore_document, save_and_log,
}
use doc_manage_and_generatio.Documents.Rows.{find_document-pk}
use doc_manage_and_generatio.Documents.Files.{System}
use doc_manage_and_generatio.Access.Temporary.{
  find_token, consume_grant, consume_temporary_access_token,
}

revoked_by_update :
    (now : ℕ) (actor : Option ℕ) (key : ℕ) (db : Db) (g : TemporaryAccessGrant)
    → Memᴰ g (update_where (is_open_access db key) (revoked now actor) db.temporary_grants)
    → is_access_to db key g ≡ true
    → is_some g.revoked_at ≡ true
unfolding is_access_to
revoked_by_update now actor key db g m h =
    let (a, n, split) =
      mem-update_where (is_open_access db key) (revoked now actor) db.temporary_grants m in
    ground arith

-- What a deletion does to the grants, and that it leaves the versions alone.
soft_delete-temporary_grants :
    (request : Request) (key expected : ℕ) (db : Db) {after : Document} {db' : Db}
    → soft_delete_document request key expected db ≡ ok (after, db')
    → (db'.temporary_grants
        ≡ update_where
            (is_open_access db key)
            (revoked (request.now 3) (actor_pk request.actor))
            db.temporary_grants)
      × (db'.versions ≡ db.versions)
unfolding soft_delete_document locked_document audit_log save_document
soft_delete-temporary_grants request key expected db {db' = db'} h =
    elim (Option-cases (find_document db key)) [
      | inl e ↦ ground arith
      | inr (d, e) ↦
          let grants : db'.temporary_grants
              ≡ update_where (is_open_access db d.pk)
                  (revoked (request.now 3) (actor_pk request.actor)) db.temporary_grants =
            ground arith in
          (rw (find_document-pk db key e) at grants, ground arith)
    ]

same_access :
    (db db' : Db) (key : ℕ) (g : TemporaryAccessGrant)
    → db'.versions ≡ db.versions
    → is_access_to db' key g ≡ is_access_to db key g
unfolding is_access_to
same_access db db' key g e = rw e

-- After a deletion every grant of temporary access to the document is revoked.
pub soft_delete-revokes :
    (request : Request) (key expected : ℕ) (db : Db) {after : Document} {db' : Db}
    (g : TemporaryAccessGrant)
    → soft_delete_document request key expected db ≡ ok (after, db')
    → Memᴰ g db'.temporary_grants
    → is_access_to db' key g ≡ true
    → is_some g.revoked_at ≡ true
soft_delete-revokes request key expected db g h m acc =
    let (grants, versions) = soft_delete-temporary_grants request key expected db h in
    revoked_by_update (request.now 3) (actor_pk request.actor) key db g (rw grants at m)
      (sym (same_access _ _ key g versions) ∙ acc)

restore-temporary_grants :
    (request : Request) (key expected : ℕ) (db : Db) {after : Document} {db' : Db}
    → restore_document request key expected db ≡ ok (after, db')
    → (db'.temporary_grants ≡ db.temporary_grants) × (db'.versions ≡ db.versions)
unfolding restore_document locked_document save_and_log
restore-temporary_grants request key expected db h = elim (Option-cases (find_document db key)) [
  | inl e ↦ ground arith
  | inr (d, e) ↦ ground arith
]

revoked_is_refused :
    (request : Request) (g : TemporaryAccessGrant) (sys : System) (v : DocumentVersion)
    → is_some g.revoked_at ≡ true
    → (consume_grant request g sys).0 ≢ ok v
unfolding consume_grant
revoked_is_refused request g sys v h = ground arith

-- A token for a document that went to the recycle bin opens nothing any more, also after the
-- document has been restored, whoever brings it and when.
pub restored_document_stays_closed :
    (hash : String → String) (token : String) (deletion restoration request : Request)
    (key expected expected' : ℕ) (db : Db) (files : List String) {deleted restored : Document}
    {db' db'' : Db} (g : TemporaryAccessGrant) (v : DocumentVersion)
    → soft_delete_document deletion key expected db ≡ ok (deleted, db')
    → restore_document restoration key expected' db' ≡ ok (restored, db'')
    → find_token (hash token) db'' ≡ some g
    → is_access_to db'' key g ≡ true
    → (consume_temporary_access_token hash request token (record { db = db''; files = files })).0
      ≢ ok v
unfolding consume_temporary_access_token
restored_document_stays_closed hash token deletion restoration request key expected expected' db
      files {db' = db'} {db'' = db''} g v hd hr found_g acc =
    let (grants, versions) = restore-temporary_grants restoration key expected' db' hr in
    let m = (find?-mem (λ x. str_eq x.token_hash (hash token)) db''.temporary_grants found_g).0 in
    let closed =
      soft_delete-revokes deletion key expected db g hd (rw grants at m)
        (sym (same_access _ _ key g versions) ∙ acc) in
    ground
      (arith, revoked_is_refused request g (record { db = db''; files = files }) v closed, found_g)
