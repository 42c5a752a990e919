-- ===== src/Folders/Services/Reachable.antt =====
-- Whatever the folder service does, the parents of the folders form no cycle, and active siblings
-- bear different names.
use doc_manage_and_generatio.Prelude.{ℕ, Option, ◌≡◌}
use doc_manage_and_generatio.Outcome.{ok}
use doc_manage_and_generatio.Schema.{Db, Request, Folder}
use doc_manage_and_generatio.Folders.Services.{
  create_folder, update_folder, move_folder, disable_folder, NewFolder, FolderPatch,
}
use doc_manage_and_generatio.Folders.Services.Forest.{IsForest}
use doc_manage_and_generatio.Folders.Services.Moves.{move_folder-IsForest}
use doc_manage_and_generatio.Folders.Services.Kept.{
  create_folder-IsForest, update_folder-IsForest, disable_folder-IsForest,
}
use doc_manage_and_generatio.Folders.Services.Siblings.{
  SiblingsAreDistinct, create_folder-SiblingsAreDistinct, update_folder-SiblingsAreDistinct,
  move_folder-SiblingsAreDistinct, disable_folder-SiblingsAreDistinct,
}

-- One call of the folder service that succeeded.
pub data FolderStep (db db' : Db) : Type 0 where
  create :
      (request : Request) (data' : NewFolder) {after : Folder}
      → create_folder request data' db ≡ ok (after, db')
      → FolderStep db db'
  update :
      (request : Request) (key : ℕ) (patch : FolderPatch) {after : Folder}
      → update_folder request key patch db ≡ ok (after, db')
      → FolderStep db db'
  move :
      (request : Request) (key : ℕ) (target : Option Folder) (sort_order : Option ℕ)
      {after : Folder}
      → move_folder request key target sort_order db ≡ ok (after, db')
      → FolderStep db db'
  disable :
      (request : Request) (folder : Folder) {after : Folder}
      → disable_folder request folder db ≡ ok (after, db')
      → FolderStep db db'

FolderStep-IsForest : {db db' : Db} → FolderStep db db' → IsForest db.folders → IsForest db'.folders
FolderStep-IsForest {db} (create request data' h) = create_folder-IsForest request data' db h
FolderStep-IsForest {db} (update request key patch h) =
    update_folder-IsForest request key patch db h
FolderStep-IsForest {db} (move request key target sort_order h) =
    move_folder-IsForest request key target sort_order db h
FolderStep-IsForest {db} (disable request folder h) = disable_folder-IsForest request folder db h

pub data FolderReach (db : Db) : Db → Type 0 where
  start : FolderReach db db
  then_step : {db' db'' : Db} → FolderReach db db' → FolderStep db' db'' → FolderReach db db''

-- From folders whose chains of parents end, any calls of the folder service that succeed, one after
-- the other, reach only such folders.
pub FolderReach-IsForest :
    {db db' : Db} → FolderReach db db' → IsForest db.folders → IsForest db'.folders
FolderReach-IsForest start forest = forest
FolderReach-IsForest (then_step r s) forest = FolderStep-IsForest s (FolderReach-IsForest r forest)

FolderStep-SiblingsAreDistinct :
    {db db' : Db}
    → FolderStep db db'
    → SiblingsAreDistinct db.folders
    → SiblingsAreDistinct db'.folders
FolderStep-SiblingsAreDistinct {db} (create request data' h) =
    create_folder-SiblingsAreDistinct request data' db h
FolderStep-SiblingsAreDistinct {db} (update request key patch h) =
    update_folder-SiblingsAreDistinct request key patch db h
FolderStep-SiblingsAreDistinct {db} (move request key target sort_order h) =
    move_folder-SiblingsAreDistinct request key target sort_order db h
FolderStep-SiblingsAreDistinct {db} (disable request folder h) =
    disable_folder-SiblingsAreDistinct request folder db h

-- From folders whose active siblings bear different names, any calls of the folder service that
-- succeed, one after the other, reach only such folders.
pub FolderReach-SiblingsAreDistinct :
    {db db' : Db}
    → FolderReach db db'
    → SiblingsAreDistinct db.folders
    → SiblingsAreDistinct db'.folders
FolderReach-SiblingsAreDistinct start inv = inv
FolderReach-SiblingsAreDistinct (then_step r s) inv =
    FolderStep-SiblingsAreDistinct s (FolderReach-SiblingsAreDistinct r inv)
