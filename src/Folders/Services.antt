-- ===== src/Folders/Services.antt =====
-- apps/folders/services.py: folders are made, changed, moved and disabled. Each function is one
-- transaction. A folder or a parent that the caller hands over is the object it read; where the
-- source locks it, its row is read again.
pub mod Forest
pub mod Kept
pub mod Moves
pub mod Reachable
pub mod Siblings
use doc_manage_and_generatio.Prelude.{
  ℕ, zero, suc, ◌+◌, String, Bool, true, false, not, ◌&&◌, Option, none, some, List, [], ◌∷◌, ◌++◌,
  is_none, ◌==◌, str_eq, same_key, if◌then◌else◌, find?, any, length, update_where,
}
use doc_manage_and_generatio.Outcome.{
  validation, permission_denied, Result, ok, err, ◌>>=◌, ◌>>◌, raise_if, require, project_archived,
  project_mismatch, system_root, use_move_endpoint, parent_disabled, move_to_self,
  move_to_descendant, public_root_required, sibling_name_taken, has_active_children, has_documents,
}
use doc_manage_and_generatio.Schema.{
  Db, Request, Actor, Folder, Project, success, is_deleted, actor_pk,
}
use doc_manage_and_generatio.Audit.{audit_log}
use doc_manage_and_generatio.Projects.Membership.{project_of, can_manage_folder}
use doc_manage_and_generatio.Documents.Guards.{found, find_folder, project_is_archived}

-- the rows that `select_for_update().get(pk=...)` finds, where there is a key
abbrev pub locked_parent : Db → Option Folder → Result (Option Folder)
locked_parent db none = ok none
locked_parent db (some parent) = do f ← found (find_folder db parent.pk); ok (some f)

abbrev locked_project : Db → Option ℕ → Result (Option Project)
locked_project db none = ok none
locked_project db (some key) = do p ← found (find? (λ p. p.pk == key) db.projects); ok (some p)

-- `_lock_folder_scope`: the parent's row; that of the project has the key that it was found by
unfoldable pub lock_folder_scope : Db → Option ℕ → Option Folder → Result (Option Folder)
lock_folder_scope db project parent = do p ← locked_project db project; locked_parent db parent

abbrev pub parent_key : Option Folder → Option ℕ
parent_key none = none
parent_key (some f) = some f.pk

-- the folder that `folder.parent` reads
abbrev pub parent_row : Db → Folder → Option Folder
parent_row db f = elim f.parent [ none ↦ none | some key ↦ find_folder db key ]

-- `_resolve_project_from_data`
unfoldable pub resolve_project : Option ℕ → Option Folder → Result (Option ℕ)
resolve_project project none = ok project
resolve_project none (some parent) = ok parent.project
resolve_project (some key) (some parent) = do
  require (same_key (some key) parent.project) (validation project_mismatch)
  ok parent.project

unfoldable pub ensure_folder_write_allowed : Db → Actor → Option ℕ → Result (Unit {0})
ensure_folder_write_allowed db actor project = do
  raise_if (project_is_archived db project) (validation project_archived)
  require (can_manage_folder db actor project) permission_denied

-- `_is_descendant`, from the key of the candidate's parent upwards. The source walks as long as there
-- is a parent: among folders whose parents form no cycle it stops after as many steps as there are
-- rows.
unfoldable pub is_descendant : ℕ → Db → Option ℕ → ℕ → Bool
is_descendant zero db current ancestor = false
is_descendant (suc fuel) db none ancestor = false
is_descendant (suc fuel) db (some parent_id) ancestor =
    if parent_id == ancestor then true else elim (find_folder db parent_id) [
      | none ↦ false
      | some f ↦ is_descendant fuel db f.parent ancestor
    ]

-- `_validate_parent` for a folder that is moved, or for a new one
unfoldable pub validate_parent : Db → Option ℕ → Option Folder → Option Folder → Result (Unit {0})
unfolding is_descendant
validate_parent db project none folder = ok tt
validate_parent db project (some parent) folder = do
  require parent.is_active (validation parent_disabled)
  require (same_key parent.project project) (validation project_mismatch)
  elim folder [
    | none ↦ ok tt
    | some f ↦ do
      raise_if (parent.pk == f.pk) (validation move_to_self)
      raise_if (is_descendant (suc (length db.folders)) db parent.parent f.pk)
          (validation move_to_descendant)
  ]

unfoldable pub validate_public_root : Option ℕ → Option Folder → Result (Unit {0})
validate_public_root project parent =
    raise_if (is_none project && is_none parent) (validation public_root_required)

-- the rows that `_validate_unique_sibling_name` looks for
unfoldable pub is_namesake : Option ℕ → Option ℕ → String → Option ℕ → Folder → Bool
is_namesake project parent name exclude f =
    same_key f.project project
    && same_key f.parent parent
    && str_eq f.name name
    && f.is_active
    && not (same_key exclude (some f.pk))

unfoldable pub validate_unique_sibling_name :
    Db → Option ℕ → Option ℕ → String → Option ℕ → Result (Unit {0})
unfolding is_namesake
validate_unique_sibling_name db project parent name exclude =
    raise_if (any (is_namesake project parent name exclude) db.folders)
      (validation sibling_name_taken)

-- the data of a request, validated: `is_active` and `is_system_root` are read-only there
pub record NewFolder : Type 0 where
  pub project : Option ℕ
  pub parent : Option Folder
  pub name : String
  pub code : String
  pub sort_order : ℕ

unfoldable pub new_folder : ℕ → Option ℕ → Option ℕ → Actor → NewFolder → Folder
new_folder pk project parent actor data' = record {
  pk = pk;
  project = project;
  parent = parent;
  name = data'.name;
  code = data'.code;
  sort_order = data'.sort_order;
  is_active = true;
  is_system_root = false;
  created_by = actor_pk actor;
}

unfoldable pub create_folder : Request → NewFolder → Db → Result (Folder × Db)
unfolding lock_folder_scope validate_parent validate_public_root validate_unique_sibling_name
    new_folder audit_log
create_folder request data' db = do
  project ← resolve_project data'.project data'.parent
  parent ← lock_folder_scope db project data'.parent
  ensure_folder_write_allowed db request.actor project
  validate_parent db project parent none
  validate_public_root project parent
  validate_unique_sibling_name db project (parent_key parent) data'.name none
  let f = new_folder db.next_pk project (parent_key parent) request.actor data'
  let inserted = record db { folders = db.folders ++ f ∷ []; next_pk = db.next_pk + 1 }
  ok (f, audit_log request.actor "folder.create" (some f.pk) success inserted)

-- the fields that a request may change; `relocates` is `"project" in data or "parent" in data`
pub record FolderPatch : Type 0 where
  pub relocates : Bool
  pub name : Option String
  pub code : Option String
  pub sort_order : Option ℕ

abbrev pub or_old {ℓ} : {A : Type ℓ} → Option A → A → A
or_old none old = old
or_old (some new) old = new

unfoldable pub patch_folder : FolderPatch → Folder → Folder
patch_folder patch f = record f {
  name = or_old patch.name f.name;
  code = or_old patch.code f.code;
  sort_order = or_old patch.sort_order f.sort_order;
}

-- `folder.save()`
unfoldable pub save_folder : Folder → Db → Db
save_folder f db = record db { folders = update_where (λ x. x.pk == f.pk) (λ x. f) db.folders }

abbrev check_new_name : Db → Folder → Option String → Result (Unit {0})
check_new_name db f none = ok tt
check_new_name db f (some name) =
    validate_unique_sibling_name db f.project f.parent name (some f.pk)

unfoldable pub update_folder : Request → ℕ → FolderPatch → Db → Result (Folder × Db)
unfolding lock_folder_scope validate_unique_sibling_name save_folder audit_log
update_folder request key patch db = do
  f ← found (find_folder db key)
  scope ← lock_folder_scope db f.project (parent_row db f)
  raise_if f.is_system_root (validation system_root)
  ensure_folder_write_allowed db request.actor f.project
  raise_if patch.relocates (validation use_move_endpoint)
  check_new_name db f patch.name
  let saved = patch_folder patch f
  ok (saved, audit_log request.actor "folder.update" (some f.pk) success (save_folder saved db))

unfoldable pub move_folder : Request → ℕ → Option Folder → Option ℕ → Db → Result (Folder × Db)
unfolding lock_folder_scope validate_parent validate_public_root validate_unique_sibling_name
    save_folder audit_log
move_folder request key target sort_order db = do
  f ← found (find_folder db key)
  parent ← lock_folder_scope db f.project target
  raise_if f.is_system_root (validation system_root)
  ensure_folder_write_allowed db request.actor f.project
  validate_public_root f.project parent
  validate_parent db f.project parent (some f)
  validate_unique_sibling_name db f.project (parent_key parent) f.name (some f.pk)
  let saved = record f { parent = parent_key parent; sort_order = or_old sort_order f.sort_order }
  ok (saved, audit_log request.actor "folder.move" (some f.pk) success (save_folder saved db))

-- `folder` is the object that the caller read; only the column `is_active` is written.
unfoldable pub disable_folder : Request → Folder → Db → Result (Folder × Db)
unfolding audit_log
disable_folder request f db = do
  raise_if f.is_system_root (validation system_root)
  ensure_folder_write_allowed db request.actor f.project
  raise_if (any (λ c. same_key c.parent (some f.pk) && c.is_active) db.folders)
      (validation has_active_children)
  raise_if (any (λ d. d.folder == f.pk && not (is_deleted d)) db.documents)
      (validation has_documents)
  let disabled = record db {
    folders =
        update_where (λ x. x.pk == f.pk) (λ (x : Folder). record x { is_active = false })
          db.folders;
  }
  ok (
    record f { is_active = false },
    audit_log request.actor "folder.disable" (some f.pk) success disabled,
  )
