-- ===== src/Folders/Personnel.antt =====
-- apps/folders/personnel.py: the folders of the staff's qualifications, and those of one person.
use doc_manage_and_generatio.Prelude.{
  ℕ, Bool, true, false, ◌&&◌, ◌||◌, String, none, some, List, [], map, is_none, str_eq, any, filter,
}
use doc_manage_and_generatio.Text.{strip}
use doc_manage_and_generatio.Schema.{Actor, anonymous, signed_in, Folder, Db}
use doc_manage_and_generatio.Folders.Defaults.{
  StandardFolderDefinition, names, standard_root_for_code,
}
use doc_manage_and_generatio.Folders.Descendants.{parent_in, folder_and_descendant_ids}

is_root_of : StandardFolderDefinition → Folder → Bool
is_root_of d f =
    (str_eq f.code d.code || any (str_eq f.name) (names d)) && is_none f.project && is_none f.parent

unfoldable pub public_staff_root_ids : Db → List ℕ
unfolding is_root_of
public_staff_root_ids db = elim (standard_root_for_code "PUBLIC-STAFF") [
  | none ↦ []
  | some d ↦ map (λ f. f.pk) (filter (is_root_of d) db.folders)
]

unfoldable pub public_staff_folder_ids : Db → List ℕ
public_staff_folder_ids db = folder_and_descendant_ids db.folders (public_staff_root_ids db)

-- `getattr(user, "real_name", "").strip()`
abbrev pub real_name : Actor → String
real_name anonymous = ""
real_name (signed_in u) = strip u.real_name

unfoldable pub own_root_ids : Db → String → List ℕ
own_root_ids db name =
    map (λ f. f.pk)
      (filter
        (λ f. is_none f.project && parent_in (public_staff_root_ids db) f && str_eq f.name name)
        db.folders)

unfoldable pub own_public_staff_folder_ids : Db → Actor → List ℕ
own_public_staff_folder_ids db actor = elim (str_eq (real_name actor) "") [
  | true ↦ []
  | false ↦ folder_and_descendant_ids db.folders (own_root_ids db (real_name actor))
]
