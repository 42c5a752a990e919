-- ===== src/Folders/Services/Moves.antt =====
-- No operation of the folder service makes the parents of the folders a cycle.
use doc_manage_and_generatio.Prelude.{
  ℕ, suc, false, Option, none, some, List, ◌≡◌, ◌≢◌, ◌⊎◌, inl, inr, arith, sym, subst, ◌∙◌, ◌==◌,
  ==_iff, Bool-cases, Option-cases, find?, find?-mem, find?-update_where, mem-update_where,
  update_where, length,
}
use doc_manage_and_generatio.Outcome.{ok}
use doc_manage_and_generatio.Schema.{Db, Request, Folder}
use doc_manage_and_generatio.Audit.{audit_log}
use doc_manage_and_generatio.Documents.Guards.{find_folder}
use doc_manage_and_generatio.Folders.Services.{
  validate_parent, is_descendant, save_folder, move_folder, lock_folder_scope,
}
use doc_manage_and_generatio.Folders.Services.Forest.{
  Above-at, row_at, Depth, top, under, IsForest, Above, here, higher, Depth-le, walk_iff,
}

-- A table in which every row is still found, with the same parent, has the same chains.
pub same_chains :
    {folders folders' : List Folder}
    → ((k : ℕ) (f : Folder)
        → row_at folders k ≡ some f
        → (g : Folder) × (row_at folders' k ≡ some g) × (g.parent ≡ f.parent))
    → {n : ℕ} {c : Option ℕ} → Depth folders n c
    → Depth folders' n c
same_chains keep top = top
same_chains {folders' = folders'} keep (under {n = n} {k = k} {f = f} e d) =
    let (g, found, same) = keep k f e in
    under found (subst (Depth folders' n) (sym same) (same_chains keep d))

module _ (folders : List Folder) (moved : Folder) where
  abbrev saved : List Folder
  saved = update_where (λ x. x.pk == moved.pk) (λ x. moved) folders

  row_at-saved :
      (k : ℕ) {f : Folder}
      → row_at folders k ≡ some f
      → ((k ≡ moved.pk) × (row_at saved k ≡ some moved))
        ⊎ ((k ≢ moved.pk) × (row_at saved k ≡ some f))
  row_at-saved k {f} e =
      let at =
        find?-update_where (λ x. x.pk == k) (λ x. x.pk == moved.pk) (λ x. moved) folders
          (λ a h. ground (arith, ==_iff a.pk moved.pk)) in
      let (m, q) = find?-mem (λ x. x.pk == k) folders e in
      elim (Bool-cases (f.pk == moved.pk)) [
        | inl same ↦ inl (ground (arith, q, same), at ∙ ground (arith, e, same))
        | inr other ↦ inr ((λ h. ground (arith, q, other, h)), at ∙ ground (arith, e, other))
      ]

  -- A chain that does not meet the moved folder stays as it is.
  Depth-apart :
      {n : ℕ} {c : Option ℕ} → Depth folders n c → ¬ Above folders moved.pk c → Depth saved n c
  Depth-apart top apart = top
  Depth-apart (under {k = k} e d) apart = elim (row_at-saved k e) [
    | inl (same, found) ↦ absurd (apart (subst (λ a. Above folders a (some k)) same here))
    | inr (other, found) ↦ under found (Depth-apart d (λ a. apart (higher e a)))
  ]

  -- Where the new parent's chain ends, every chain does.
  Depth-saved :
      {p n : ℕ} {c : Option ℕ}
      → Depth saved p moved.parent
      → Depth folders n c
      → (m : ℕ) × Depth saved m c
  Depth-saved {p} target top = (0, top)
  Depth-saved {p} target (under {k = k} e d) = elim (row_at-saved k e) [
    | inl (same, found) ↦ (suc p, under found target)
    | inr (other, found) ↦ let (m, d') = Depth-saved target d in (suc m, under found d')
  ]

  saved-IsForest : {p : ℕ} → IsForest folders → Depth saved p moved.parent → IsForest saved
  saved-IsForest {p} forest target = record {
    depth = λ g m.
        let (a, i, which) = mem-update_where (λ x. x.pk == moved.pk) (λ x. moved) folders m in
        elim which [
          | inl (h, e) ↦ (p, subst (λ x. Depth saved p x.parent) (sym e) target)
          | inr (h, e) ↦
              let (n, d) = forest.depth a i in
              let (m, d') = Depth-saved target d in
              (m, subst (λ x. Depth saved m x.parent) (sym e) d')
        ];
  }

-- What a move that succeeds leaves: the folder below `none` or below a folder that is not the moved
-- one and that the walk up from does not lead to it.
data Placed (db : Db) (after : Folder) : Type 0 where
  on_top : after.parent ≡ none → Placed db after
  below :
      (q : Folder)
      → after.parent ≡ some q.pk
      → find? (λ f. f.pk == q.pk) db.folders ≡ some q
      → (q.pk == after.pk) ≡ false
      → is_descendant (suc (length db.folders)) db q.parent after.pk ≡ false
      → Placed db after

record Moved (db : Db) (after : Folder) (db' : Db) : Type 0 where
  written : db'.folders ≡ saved db.folders after
  placed : Placed db after

pub found_at :
    (db : Db) (key : ℕ) {q : Folder} → find_folder db key ≡ some q → find_folder db q.pk ≡ some q
found_at db key {q} e =
    let (m, h) = find?-mem (λ f. f.pk == key) db.folders e in
    subst (λ k. find_folder db k ≡ some q) (sym (ground (arith, h, ==_iff q.pk key))) e

move_folder-Moved :
    (request : Request) (key : ℕ) (target : Option Folder) (sort_order : Option ℕ) (db : Db)
    {after : Folder} {db' : Db}
    → move_folder request key target sort_order db ≡ ok (after, db')
    → Moved db after db'
unfolding move_folder lock_folder_scope validate_parent save_folder audit_log
move_folder-Moved request key none sort_order db h = elim (Option-cases (find_folder db key)) [
  | inl e ↦ ground arith
  | inr (f, e) ↦ record { written = ground arith; placed = on_top (ground arith) }
]
move_folder-Moved request key (some t) sort_order db h = elim (Option-cases (find_folder db key)) [
  | inl e ↦ ground arith
  | inr (f, e) ↦ elim (Option-cases (find_folder db t.pk)) [
    | inl e' ↦ ground arith
    | inr (q, e') ↦ record {
      written = ground arith;
      placed = below q (ground arith) (found_at db t.pk e') (ground arith) (ground arith);
    }
  ]
]

Placed-Depth :
    (db : Db) (after : Folder)
    → IsForest db.folders
    → Placed db after
    → (p : ℕ) × Depth (saved db.folders after) p after.parent
Placed-Depth db after forest (on_top e) = (0, subst (Depth (saved db.folders after) 0) (sym e) top)
Placed-Depth db after forest (below q e found other apart) =
    let (n, d) = forest.depth q (find?-mem (λ f. f.pk == q.pk) db.folders found).0 in
    let walk = walk_iff (suc (length db.folders)) db after.pk d (omega (arith, Depth-le n d)) in
    (
      suc n,
      subst (Depth (saved db.folders after) (suc n)) (sym e) (
          Depth-apart db.folders after (under found d) (λ a. elim (Above-at found a) [
            | inl same ↦ ground (arith, other, same)
            | inr b ↦ ground (arith, apart, walk.1 b)
          ])),
    )

pub move_folder-IsForest :
    (request : Request) (key : ℕ) (target : Option Folder) (sort_order : Option ℕ) (db : Db)
    {after : Folder} {db' : Db}
    → move_folder request key target sort_order db ≡ ok (after, db')
    → IsForest db.folders
    → IsForest db'.folders
move_folder-IsForest request key target sort_order db {after} h forest =
    let m = move_folder-Moved request key target sort_order db h in
    let (p, d) = Placed-Depth db after forest m.placed in
    subst IsForest (sym m.written) (saved-IsForest db.folders after forest d)
