-- ===== src/Folders/Services/Siblings.antt =====
-- Active folders in the same place bear different names.
use doc_manage_and_generatio.Prelude.{
  ℕ, true, false, Option, none, some, List, [], ◌∷◌, ◌++◌, ◌≡◌, refl, inl, inr, Memᴰ, arith, ap,
  sym, subst, ◌∙◌, ◌==◌, any-false, same_key, same_key→eq, same_key_refl, str_eq_iff, Option-cases,
  find?-mem, mem-update_where, mem-concat, update_where,
}
use doc_manage_and_generatio.Outcome.{ok}
use doc_manage_and_generatio.Schema.{Db, Request, Folder}
use doc_manage_and_generatio.Audit.{audit_log}
use doc_manage_and_generatio.Documents.Guards.{find_folder}
use doc_manage_and_generatio.Folders.Services.{
  create_folder, update_folder, move_folder, disable_folder, NewFolder, FolderPatch, new_folder,
  patch_folder, save_folder, is_namesake, validate_unique_sibling_name,
}

pub record SiblingsAreDistinct (folders : List Folder) : Type 0 where
  pub distinct :
      (a b : Folder)
      → Memᴰ a folders
      → Memᴰ b folders
      → a.is_active ≡ true
      → b.is_active ≡ true
      → a.project ≡ b.project
      → a.parent ≡ b.parent
      → a.name ≡ b.name
      → a.pk ≡ b.pk

-- The folder clashes with no other active one.
record Fits (folders : List Folder) (f : Folder) : Type 0 where
  fits :
      (a : Folder)
      → Memᴰ a folders
      → a.is_active ≡ true
      → f.is_active ≡ true
      → a.project ≡ f.project
      → a.parent ≡ f.parent
      → a.name ≡ f.name
      → a.pk ≡ f.pk

-- A name that is not taken fits, save for the folder that the check leaves out.
free_name :
    (db : Db) (f a : Folder) (exclude : Option ℕ)
    → validate_unique_sibling_name db f.project f.parent f.name exclude ≡ ok tt
    → Memᴰ a db.folders
    → a.is_active ≡ true
    → a.project ≡ f.project
    → a.parent ≡ f.parent
    → a.name ≡ f.name
    → exclude ≡ some a.pk
unfolding validate_unique_sibling_name is_namesake
free_name db f a exclude h m active same_project same_parent same_name =
    same_key→eq exclude (some a.pk) (
      ground (
        arith,
        any-false (is_namesake f.project f.parent f.name exclude) db.folders (ground arith) m,
        subst (λ p. same_key a.project p ≡ true) same_project (same_key_refl a.project),
        subst (λ p. same_key a.parent p ≡ true) same_parent (same_key_refl a.parent),
        (str_eq_iff a.name f.name).1 same_name,
        active,
      ))

save-SiblingsAreDistinct :
    (folders : List Folder) (f : Folder)
    → SiblingsAreDistinct folders
    → Fits folders f
    → SiblingsAreDistinct (update_where (λ x. x.pk == f.pk) (λ x. f) folders)
save-SiblingsAreDistinct folders f inv fit = record {
  distinct = λ a b m n active active' same_project same_parent same_name.
      let (x, i, c) = mem-update_where (λ x. x.pk == f.pk) (λ x. f) folders m in
      let (y, j, d) = mem-update_where (λ x. x.pk == f.pk) (λ x. f) folders n in
      elim c [
        | inl (t, e) ↦ elim d [
          | inl (t', e') ↦ ap (λ z. z.pk) (e ∙ sym e')
          | inr (t', e') ↦ ground (arith, fit.fits y j)
        ]
        | inr (t, e) ↦ elim d [
          | inl (t', e') ↦ ground (arith, fit.fits x i)
          | inr (t', e') ↦ ground (arith, inv.distinct x y i j)
        ]
      ];
}

insert-SiblingsAreDistinct :
    (folders : List Folder) (f : Folder)
    → SiblingsAreDistinct folders
    → Fits folders f
    → SiblingsAreDistinct (folders ++ f ∷ [])
insert-SiblingsAreDistinct folders f inv fit = record {
  distinct = λ a b m n active active' same_project same_parent same_name.
      elim (mem-concat folders f m) [
        | inl i ↦ elim (mem-concat folders f n) [
          | inl j ↦ ground (arith, inv.distinct a b i j)
          | inr e' ↦ ground (arith, fit.fits a i)
        ]
        | inr e ↦ elim (mem-concat folders f n) [
          | inl j ↦ ground (arith, fit.fits b j)
          | inr e' ↦ ap (λ z. z.pk) (e ∙ sym e')
        ]
      ];
}

checked-Fits :
    (db : Db) (f : Folder) (exclude : Option ℕ)
    → ((k : ℕ) → exclude ≡ some k → k ≡ f.pk)
    → validate_unique_sibling_name db f.project f.parent f.name exclude ≡ ok tt
    → Fits db.folders f
checked-Fits db f exclude own h = record {
  fits = λ a m active active' same_project same_parent same_name.
      own a.pk (free_name db f a exclude h m active same_project same_parent same_name);
}

kept-Fits :
    (folders : List Folder) (old new : Folder)
    → SiblingsAreDistinct folders
    → Memᴰ old folders
    → new.pk ≡ old.pk
    → new.is_active ≡ old.is_active
    → new.project ≡ old.project
    → new.parent ≡ old.parent
    → new.name ≡ old.name
    → Fits folders new
kept-Fits folders old new inv m same_pk same_active p q r = record {
  fits = λ a i active active' same_project same_parent same_name.
      ground (arith, inv.distinct a old i m);
}

pub create_folder-SiblingsAreDistinct :
    (request : Request) (data' : NewFolder) (db : Db) {after : Folder} {db' : Db}
    → create_folder request data' db ≡ ok (after, db')
    → SiblingsAreDistinct db.folders
    → SiblingsAreDistinct db'.folders
unfolding create_folder new_folder audit_log
create_folder-SiblingsAreDistinct request data' db {after} {db'} h inv =
    let written : db'.folders ≡ db.folders ++ after ∷ [] = ground arith in
    let free : validate_unique_sibling_name db after.project after.parent after.name none ≡ ok tt =
      ground arith in
    subst SiblingsAreDistinct (sym written) (
      insert-SiblingsAreDistinct db.folders after inv
        (checked-Fits db after none (λ k e. ground arith) free))

update-Fits :
    (request : Request) (key : ℕ) (patch : FolderPatch) (db : Db) {f after : Folder} {db' : Db}
    → update_folder request key patch db ≡ ok (after, db')
    → SiblingsAreDistinct db.folders
    → find_folder db key ≡ some f
    → Fits db.folders (patch_folder patch f)
unfolding update_folder patch_folder
update-Fits request key patch db {f} h inv e = elim (Option-cases patch.name) [
  | inl none_given ↦
      kept-Fits db.folders f (patch_folder patch f) inv
        (find?-mem (λ f. f.pk == key) db.folders e).0 refl refl refl refl (ground arith)
  | inr (name, given) ↦
      checked-Fits db (patch_folder patch f) (some f.pk) (λ k q. ground arith) (ground arith)
]

pub update_folder-SiblingsAreDistinct :
    (request : Request) (key : ℕ) (patch : FolderPatch) (db : Db) {after : Folder} {db' : Db}
    → update_folder request key patch db ≡ ok (after, db')
    → SiblingsAreDistinct db.folders
    → SiblingsAreDistinct db'.folders
unfolding update_folder save_folder audit_log
update_folder-SiblingsAreDistinct request key patch db {after} {db'} h inv =
    elim (Option-cases (find_folder db key)) [
      | inl e ↦ ground arith
      | inr (f, e) ↦
          let written : db'.folders ≡ (save_folder (patch_folder patch f) db).folders =
            ground arith in
          subst SiblingsAreDistinct (sym written) (
            save-SiblingsAreDistinct db.folders (patch_folder patch f) inv
              (update-Fits request key patch db h inv e))
    ]

pub move_folder-SiblingsAreDistinct :
    (request : Request) (key : ℕ) (target : Option Folder) (sort_order : Option ℕ) (db : Db)
    {after : Folder} {db' : Db}
    → move_folder request key target sort_order db ≡ ok (after, db')
    → SiblingsAreDistinct db.folders
    → SiblingsAreDistinct db'.folders
unfolding move_folder save_folder audit_log
move_folder-SiblingsAreDistinct request key target sort_order db {after} {db'} h inv =
    let written : db'.folders ≡ (save_folder after db).folders = ground arith in
    let free : validate_unique_sibling_name db after.project after.parent after.name (some after.pk)
        ≡ ok tt =
      ground arith in
    subst SiblingsAreDistinct (sym written) (
      save-SiblingsAreDistinct db.folders after inv
        (checked-Fits db after (some after.pk) (λ k e. ground arith) free))

pub disable_folder-SiblingsAreDistinct :
    (request : Request) (f : Folder) (db : Db) {after : Folder} {db' : Db}
    → disable_folder request f db ≡ ok (after, db')
    → SiblingsAreDistinct db.folders
    → SiblingsAreDistinct db'.folders
unfolding disable_folder audit_log
disable_folder-SiblingsAreDistinct request f db {after} {db'} h inv =
    let change : Folder → Folder = λ x. record x { is_active = false } in
    let written : db'.folders ≡ update_where (λ x. x.pk == f.pk) change db.folders = ground arith in
    subst SiblingsAreDistinct (sym written) (record {
      distinct = λ a b m n active active' same_project same_parent same_name.
          let (x, i, c) = mem-update_where (λ x. x.pk == f.pk) change db.folders m in
          let (y, j, d) = mem-update_where (λ x. x.pk == f.pk) change db.folders n in
          elim c [
            | inl (t, e) ↦ ground (arith, ap (λ z. z.is_active) e, active)
            | inr (t, e) ↦ elim d [
              | inl (t', e') ↦ ground (arith, ap (λ z. z.is_active) e', active')
              | inr (t', e') ↦ ground (arith, inv.distinct x y i j)
            ]
          ];
    })
