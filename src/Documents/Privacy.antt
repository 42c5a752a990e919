-- ===== src/Documents/Privacy.antt =====
-- The files in a person's staff folder are opened by nobody but that person and administrators.
use doc_manage_and_generatio.Prelude.{ℕ, true, ◌≡◌, refl, ◌⊎◌, inl, inr, arith, str_eq, Bool-cases}
use doc_manage_and_generatio.Text.{strip}
use doc_manage_and_generatio.Outcome.{ok}
use doc_manage_and_generatio.Schema.{
  Db, Request, Actor, User, anonymous, signed_in, Document, DocumentVersion, is_system_admin,
}
use doc_manage_and_generatio.Folders.Descendants.{contains}
use doc_manage_and_generatio.Folders.Descendants.Correct.{
  IsBelow, contains-folder_and_descendant_ids,
}
use doc_manage_and_generatio.Folders.Personnel.{
  public_staff_root_ids, public_staff_folder_ids, own_root_ids, own_public_staff_folder_ids,
}
use doc_manage_and_generatio.Documents.Permissions.{can_download_document}
use doc_manage_and_generatio.Documents.Files.{System}
use doc_manage_and_generatio.Documents.Removal.{open_current_version_for_download}

-- A folder of the actor's own belongs to somebody who is signed in and bears the name of it.
own_folder :
    (db : Db) (actor : Actor) (folder : ℕ)
    → contains (own_public_staff_folder_ids db actor) folder ≡ true
    → (u : User) × (actor ≡ signed_in u)
      × IsBelow db.folders (own_root_ids db (strip u.real_name)) folder
unfolding own_public_staff_folder_ids
own_folder db anonymous folder h = ground arith
own_folder db (signed_in u) folder h = elim (Bool-cases (str_eq (strip u.real_name) "")) [
  | inl e ↦ ground arith
  | inr e ↦ (
    u,
    refl,
    (contains-folder_and_descendant_ids db.folders (own_root_ids db (strip u.real_name)) folder).0
        (ground arith),
  )
]

-- A document in a folder of staff: only an administrator, or the person whose folder it is, opens
-- its file, whatever has been granted.
pub staff_file_is_private :
    (request : Request) (d : Document) (sys : System) (v : DocumentVersion)
    → (open_current_version_for_download request d sys).0 ≡ ok v
    → IsBelow sys.db.folders (public_staff_root_ids sys.db) d.folder
    → (is_system_admin request.actor ≡ true)
      ⊎ ((u : User) × (request.actor ≡ signed_in u)
          × IsBelow sys.db.folders (own_root_ids sys.db (strip u.real_name)) d.folder)
unfolding open_current_version_for_download can_download_document public_staff_folder_ids
staff_file_is_private request d sys v h below =
    let inside : contains (public_staff_folder_ids sys.db) d.folder ≡ true =
      (contains-folder_and_descendant_ids sys.db.folders (public_staff_root_ids sys.db) d.folder).1
        below in
    elim (Bool-cases (is_system_admin request.actor)) [
      | inl e ↦ inl e
      | inr e ↦ inr (own_folder sys.db request.actor d.folder (ground arith))
    ]
