-- ===== src/Tests/Folders.antt =====
-- The folder searches and the folder service at concrete inputs.
use mathlib.Core.List.Memᴰ.{head, tail}
use doc_manage_and_generatio.Prelude.{
  true, none, some, suc, length, [], ◌∷◌, ◌≡◌, ◌≢◌, ◌↔◌, refl, String, str_eq_iff, arith, Memᴰ, ap,
  sym, ◌∙◌, subst,
}
use doc_manage_and_generatio.Outcome.{ok}
use doc_manage_and_generatio.Schema.{Db, Folder, is_system_admin}
use doc_manage_and_generatio.Audit.{audit_log}
use doc_manage_and_generatio.Projects.Membership.{can_manage_folder}
use doc_manage_and_generatio.Folders.Descendants.{contains, folder_and_descendant_ids}
use doc_manage_and_generatio.Folders.Descendants.Correct.{
  IsBelow, contains-folder_and_descendant_ids,
}
use doc_manage_and_generatio.Folders.Services.{
  NewFolder, create_folder, is_descendant, lock_folder_scope, resolve_project,
  ensure_folder_write_allowed, validate_parent, validate_public_root, validate_unique_sibling_name,
  is_namesake, new_folder,
}
use doc_manage_and_generatio.Folders.Services.Forest.{
  IsForest, Depth, top, under, Above, is_descendant_iff,
}
use doc_manage_and_generatio.Folders.Services.Siblings.{SiblingsAreDistinct}
use doc_manage_and_generatio.Folders.Services.Reachable.{
  start, then_step, create, FolderReach-IsForest, FolderReach-SiblingsAreDistinct,
}
use doc_manage_and_generatio.Tests.Sample.{value_or, request, db, folder, subfolder}

contains-folder_and_descendant_ids_example :
    (contains (folder_and_descendant_ids db.folders (10 ∷ [])) 11 ≡ true)
    ↔ IsBelow db.folders (10 ∷ []) 11
contains-folder_and_descendant_ids_example =
    contains-folder_and_descendant_ids db.folders (10 ∷ []) 11

folders_end : (f : Folder) → Memᴰ f db.folders → (n : _) × Depth db.folders n f.parent
folders_end f (head e) = (0, subst (λ x. Depth db.folders 0 x.parent) (sym e) top)
folders_end f (tail (head e)) =
    (1, subst (λ x. Depth db.folders 1 x.parent) (sym e) (under {f = folder} refl top))
folders_end f (tail (tail m)) = elim m [ ]

db-IsForest : IsForest db.folders
db-IsForest = record { depth = folders_end }

is_descendant_iff_example :
    (is_descendant (suc (length db.folders)) db subfolder.parent 10 ≡ true)
    ↔ Above db.folders 10 subfolder.parent
is_descendant_iff_example = is_descendant_iff db subfolder 10 db-IsForest (tail (head refl))

abbrev maps_data : NewFolder
maps_data = record {
  project = none;
  parent = some folder;
  name = "maps";
  code = "";
  sort_order = 2;
}

abbrev made : Folder × Db
made = value_or (create_folder request maps_data db) (folder, db)

create_succeeds : create_folder request maps_data db ≡ ok (made.0, made.1)
unfolding create_folder resolve_project lock_folder_scope ensure_folder_write_allowed
    can_manage_folder is_system_admin validate_parent validate_public_root
    validate_unique_sibling_name is_namesake new_folder audit_log
create_succeeds = refl

FolderReach-IsForest_example : IsForest made.1.folders
FolderReach-IsForest_example =
    FolderReach-IsForest {db = db} {db' = made.1}
      (then_step start (create request maps_data create_succeeds)) db-IsForest

names_differ : ◌≢◌ {A = String} "reports" "2026"
names_differ e = ground (arith, (str_eq_iff "reports" "2026").1 e)

distinct_names :
    (a b : Folder) → Memᴰ a db.folders → Memᴰ b db.folders → a.name ≡ b.name → a.pk ≡ b.pk
distinct_names a b (head e) (head f) h = ap (λ x. x.pk) (e ∙ sym f)
distinct_names a b (head e) (tail (head f)) h =
    absurd (names_differ (sym (ap (λ x. x.name) e) ∙ h ∙ ap (λ x. x.name) f))
distinct_names a b (tail (head e)) (head f) h =
    absurd (names_differ (sym (ap (λ x. x.name) f) ∙ sym h ∙ ap (λ x. x.name) e))
distinct_names a b (tail (head e)) (tail (head f)) h = ap (λ x. x.pk) (e ∙ sym f)
distinct_names a b (head e) (tail (tail m)) h = elim m [ ]
distinct_names a b (tail (head e)) (tail (tail m)) h = elim m [ ]
distinct_names a b (tail (tail m)) n h = elim m [ ]

db-SiblingsAreDistinct : SiblingsAreDistinct db.folders
db-SiblingsAreDistinct = record {
  distinct = λ a b m n active active' same_project same_parent h. distinct_names a b m n h;
}

FolderReach-SiblingsAreDistinct_example : SiblingsAreDistinct made.1.folders
FolderReach-SiblingsAreDistinct_example =
    FolderReach-SiblingsAreDistinct {db = db} {db' = made.1}
      (then_step start (create request maps_data create_succeeds)) db-SiblingsAreDistinct
