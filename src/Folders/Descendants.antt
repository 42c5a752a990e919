-- ===== src/Folders/Descendants.antt =====
-- `_folder_and_descendant_ids` of apps/folders/personnel.py: the keys of some folders and of all
-- the folders below them, found level by level. A level that finds a new key shrinks the number
-- of rows outside the set, so one round more than there are rows is enough fuel.
pub mod Correct
use doc_manage_and_generatio.Prelude.{
  ℕ, zero, suc, Bool, false, not, ◌&&◌, none, some, List, [], ◌∷◌, ◌++◌, map, ◌==◌, any, filter,
  length,
}
use doc_manage_and_generatio.Schema.{Folder}

-- `key in keys`
abbrev pub contains : List ℕ → ℕ → Bool
contains keys k = any (λ j. j == k) keys

abbrev pub parent_in : List ℕ → Folder → Bool
parent_in keys f = elim f.parent [ none ↦ false | some p ↦ contains keys p ]

-- the keys of `child_ids - folder_ids`, where `child_ids` are those of the rows below `frontier`
unfoldable pub new_ids : List Folder → List ℕ → List ℕ → List ℕ
new_ids folders folder_ids frontier =
    map (λ f. f.pk) (filter (λ f. parent_in frontier f && not (contains folder_ids f.pk)) folders)

unfoldable pub collect : ℕ → List Folder → List ℕ → List ℕ → List ℕ
collect zero folders folder_ids frontier = folder_ids
collect (suc fuel) folders folder_ids frontier = elim (new_ids folders folder_ids frontier) [
  | [] ↦ folder_ids
  | k ∷ rest ↦ collect fuel folders (folder_ids ++ k ∷ rest) (k ∷ rest)
]

unfoldable pub folder_and_descendant_ids : List Folder → List ℕ → List ℕ
unfolding collect new_ids
folder_and_descendant_ids folders root_ids =
    collect (suc (length folders)) folders root_ids root_ids
