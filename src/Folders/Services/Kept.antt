-- ===== src/Folders/Services/Kept.antt =====
-- Making, changing and disabling a folder keep the parents of the folders free of cycles.
use doc_manage_and_generatio.Prelude.{
  ℕ, suc, false, none, some, List, [], ◌∷◌, ◌++◌, ◌≡◌, refl, ◌⊎◌, inl, inr, Memᴰ, arith, ap, sym,
  subst, ◌∙◌, ◌==◌, ==_iff, some_unique, Bool-cases, Option-cases, find?-mem, find?-concat,
  find?-update_where, mem-update_where, mem-concat, update_where,
}
use doc_manage_and_generatio.Outcome.{ok}
use doc_manage_and_generatio.Schema.{Db, Request, Folder}
use doc_manage_and_generatio.Audit.{audit_log}
use doc_manage_and_generatio.Documents.Guards.{find_folder}
use doc_manage_and_generatio.Folders.Services.{
  create_folder, update_folder, disable_folder, save_folder, NewFolder, FolderPatch,
  lock_folder_scope, new_folder, patch_folder,
}
use doc_manage_and_generatio.Folders.Services.Forest.{row_at, Depth, top, under, IsForest}
use doc_manage_and_generatio.Folders.Services.Moves.{same_chains, found_at}

-- A table that keeps the rows and their parents, and has no other rows, stays a forest.
same_parents :
    {folders folders' : List Folder}
    → ((k : ℕ) (f : Folder)
        → row_at folders k ≡ some f
        → (g : Folder) × (row_at folders' k ≡ some g) × (g.parent ≡ f.parent))
    → ((g : Folder) → Memᴰ g folders' → (f : Folder) × Memᴰ f folders × (g.parent ≡ f.parent))
    → IsForest folders
    → IsForest folders'
same_parents {folders} {folders'} keep back forest = record {
  depth = λ g m.
      let (f, i, same) = back g m in
      let (n, d) = forest.depth f i in (n, same_chains keep (subst (Depth folders n) (sym same) d));
}

-- `change` keeps the key and the parent of the rows with the key `key`.
update_where-IsForest :
    (key : ℕ) (change : Folder → Folder) (folders : List Folder)
    → ((x : Folder) → (change x).pk ≡ x.pk)
    → ((x : Folder) → (change x).parent ≡ x.parent)
    → IsForest folders
    → IsForest (update_where (λ x. x.pk == key) change folders)
update_where-IsForest key change folders same_pk same_parent =
    same_parents
      (λ k f e.
        let at =
          find?-update_where (λ x. x.pk == k) (λ x. x.pk == key) change folders
            (λ a h. ground (arith, same_pk a)) in
        elim (Bool-cases (f.pk == key)) [
          | inl h ↦ (change f, at ∙ ground (arith, e, h), same_parent f)
          | inr h ↦ (f, at ∙ ground (arith, e, h), refl)
        ])
      (λ g m.
        let (a, i, which) = mem-update_where (λ x. x.pk == key) change folders m in
        elim which [
          | inl (h, e) ↦ (a, i, ap (λ x. x.parent) e ∙ same_parent a)
          | inr (h, e) ↦ (a, i, ap (λ x. x.parent) e)
        ])

-- A row saved with the parent that the first row of its key had.
save-IsForest :
    (db : Db) (f after : Folder)
    → find_folder db f.pk ≡ some f
    → after.pk ≡ f.pk
    → after.parent ≡ f.parent
    → IsForest db.folders
    → IsForest (save_folder after db).folders
unfolding save_folder
save-IsForest db f after found same_pk same_parent =
    same_parents
      (λ k x e.
        let at =
          find?-update_where (λ x. x.pk == k) (λ x. x.pk == after.pk) (λ x. after) db.folders
            (λ a h. ground (arith, ==_iff a.pk after.pk)) in
        let (m, q) = find?-mem (λ x. x.pk == k) db.folders e in
        elim (Bool-cases (x.pk == after.pk)) [
          | inl h ↦ (
            after,
            at ∙ ground (arith, e, h),
            same_parent
                ∙ ap (λ x. x.parent)
                    (some_unique found
                      (ap (row_at db.folders) (ground (arith, q, h, same_pk, ==_iff x.pk k)) ∙ e)),
          )
          | inr h ↦ (x, at ∙ ground (arith, e, h), refl)
        ])
      (λ g m.
        let (a, i, which) = mem-update_where (λ x. x.pk == after.pk) (λ x. after) db.folders m in
        elim which [
          | inl (h, e) ↦ (
            f,
            (find?-mem (λ x. x.pk == f.pk) db.folders found).0,
            ap (λ x. x.parent) e ∙ same_parent,
          )
          | inr (h, e) ↦ (a, i, ap (λ x. x.parent) e)
        ])

insert-IsForest :
    {n : ℕ} (folders : List Folder) (f : Folder)
    → Depth folders n f.parent
    → IsForest folders
    → IsForest (folders ++ f ∷ [])
insert-IsForest {n} folders f d forest =
    let keep : (k : ℕ) (x : Folder)
        → row_at folders k ≡ some x
        → (g : Folder) × (row_at (folders ++ f ∷ []) k ≡ some g) × (g.parent ≡ x.parent) =
      λ k x e. (x, find?-concat (λ x. x.pk == k) folders f ∙ ground (arith, e), refl) in
    record {
      depth = λ g m. elim (mem-concat folders f m) [
        | inl i ↦ let (n, d') = forest.depth g i in (n, same_chains keep d')
        | inr e ↦
            (n, subst (λ x. Depth (folders ++ f ∷ []) n x.parent) (sym e) (same_chains keep d))
      ];
    }

-- The parent of a new folder is none, or a folder that the table knows.
record Created (db : Db) (after : Folder) (db' : Db) : Type 0 where
  written : db'.folders ≡ db.folders ++ after ∷ []
  placed :
      (after.parent ≡ none)
      ⊎ ((q : Folder) × (after.parent ≡ some q.pk) × (find_folder db q.pk ≡ some q))

create_folder-Created :
    (request : Request) (data' : NewFolder) (db : Db) {after : Folder} {db' : Db}
    → create_folder request data' db ≡ ok (after, db')
    → Created db after db'
unfolding create_folder lock_folder_scope new_folder audit_log
create_folder-Created request data' db h = elim (Option-cases data'.parent) [
  | inl e ↦ record { written = ground arith; placed = inl (ground arith) }
  | inr (t, e) ↦ elim (Option-cases (find_folder db t.pk)) [
    | inl e' ↦ ground arith
    | inr (q, e') ↦ record {
      written = ground arith;
      placed = inr (q, ground arith, found_at db t.pk e');
    }
  ]
]

pub create_folder-IsForest :
    (request : Request) (data' : NewFolder) (db : Db) {after : Folder} {db' : Db}
    → create_folder request data' db ≡ ok (after, db')
    → IsForest db.folders
    → IsForest db'.folders
create_folder-IsForest request data' db {after} h forest =
    let c = create_folder-Created request data' db h in
    let grown : (n : ℕ) → Depth db.folders n after.parent → IsForest (db.folders ++ after ∷ []) =
      λ n d. insert-IsForest db.folders after d forest in
    subst IsForest (sym c.written) (elim c.placed [
      | inl e ↦ grown 0 (subst (Depth db.folders 0) (sym e) top)
      | inr (q, e, found) ↦
          let (n, d) = forest.depth q (find?-mem (λ x. x.pk == q.pk) db.folders found).0 in
          grown (suc n) (subst (Depth db.folders (suc n)) (sym e) (under found d))
    ])

pub update_folder-IsForest :
    (request : Request) (key : ℕ) (patch : FolderPatch) (db : Db) {after : Folder} {db' : Db}
    → update_folder request key patch db ≡ ok (after, db')
    → IsForest db.folders
    → IsForest db'.folders
unfolding update_folder patch_folder audit_log
update_folder-IsForest request key patch db {after} {db'} h forest =
    elim (Option-cases (find_folder db key)) [
      | inl e ↦ ground arith
      | inr (f, e) ↦
          let kept =
            save-IsForest db f (patch_folder patch f) (found_at db key e) refl refl forest in
          let same : db'.folders ≡ (save_folder (patch_folder patch f) db).folders = ground arith in
          subst IsForest (sym same) kept
    ]

pub disable_folder-IsForest :
    (request : Request) (f : Folder) (db : Db) {after : Folder} {db' : Db}
    → disable_folder request f db ≡ ok (after, db')
    → IsForest db.folders
    → IsForest db'.folders
unfolding disable_folder audit_log
disable_folder-IsForest request f db {after} {db'} h forest =
    let same : db'.folders
        ≡ update_where (λ x. x.pk == f.pk) (λ (x : Folder). record x { is_active = false })
            db.folders =
      ground arith in
    subst IsForest (sym same)
      (update_where-IsForest f.pk _ db.folders (λ x. refl) (λ x. refl) forest)
