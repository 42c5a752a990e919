-- ===== src/Tests/Storage.antt =====
-- Uploads, downloads and permanent deletion at concrete inputs.
use mathlib.Core.List.Memᴰ.{head, tail}
use doc_manage_and_generatio.Prelude.{
  Memᴰ, ap, sym, subst, ◌∙◌, true, false, none, some, [], ◌∷◌, ◌≡◌, refl, ◌⊎◌,
}
use doc_manage_and_generatio.Outcome.{ok, err, validation, extension_not_allowed}
use doc_manage_and_generatio.Uploads.{
  validate_uploaded_file, normalize_upload_filename, windows_reserved_names,
  uploaded_file_extension, allowed_upload_extensions, validate_file_signature, UploadedFile,
  Settings,
}
use doc_manage_and_generatio.Schema.{
  DocumentVersion, Document, Folder, User, Role, Request, signed_in, AccessLevel, SourceType,
  is_system_admin, is_temporary_user, is_authenticated, is_active_user, actor_pk,
}
use doc_manage_and_generatio.Audit.{audit_log}
use doc_manage_and_generatio.Folders.Defaults.{
  archive_root, standard_root_for_code, standard_root_for_name,
}
use doc_manage_and_generatio.Documents.Permissions.{
  can_delete_document, can_permanently_delete_document, can_download_document, can_update_document,
  can_upload_document,
}
use doc_manage_and_generatio.Documents.Guards.{
  ensure_upload_allowed, is_qualification_root_folder, is_archive_folder, is_foreign_staff_folder,
  locked_document, touch_document, ensure_expected_updated_at, ensure_not_deleted,
  ensure_project_write_allowed, save_document,
}
use doc_manage_and_generatio.Text.{
  strip, is_space, path_name, is_one_of, upper, stem, lower, suffix,
}
use doc_manage_and_generatio.Folders.Descendants.{contains, folder_and_descendant_ids}
use doc_manage_and_generatio.Folders.Descendants.Correct.{
  IsBelow, contains-folder_and_descendant_ids,
}
use doc_manage_and_generatio.Folders.Personnel.{
  public_staff_root_ids, own_root_ids, public_staff_folder_ids, own_public_staff_folder_ids,
}
use doc_manage_and_generatio.Documents.Files.{
  System, NewDocument, create_document, create_document_version, file_exists, with_stored_file,
  check_upload, create_version_rows, commit_or_delete, save_file, delete_file, create_version,
  latest_version, safe_content_type,
}
use doc_manage_and_generatio.Documents.Operations.{soft_delete_document}
use doc_manage_and_generatio.Documents.Removal.{
  permanently_delete_document, open_current_version_for_download,
}
use doc_manage_and_generatio.Documents.Storage.{
  IsGone, failed_document_leaves_nothing, failed_version_leaves_nothing,
  permanently_delete_document-IsGone,
}
use doc_manage_and_generatio.Documents.Stored.{IsStored}
use doc_manage_and_generatio.Documents.Stored.Steps.{new_version, FileStep-IsStored}
use doc_manage_and_generatio.Documents.Versions.{IsNewest, create_document_version-IsNewest}
use doc_manage_and_generatio.Documents.Privacy.{staff_file_is_private}
use doc_manage_and_generatio.Tests.Sample.{
  value_or, request, db, document, folder, version, trashed,
}

abbrev settings : Settings
settings = record { max_upload_size_bytes = 1000; validate_upload_file_signatures = true }

abbrev file : UploadedFile
file = record {
  name = "plan2.pdf";
  size = 12;
  header = 37 ∷ 80 ∷ 68 ∷ 70 ∷ 45 ∷ [];
  archive_names = none;
  stored = record { relative_path = "d2/bb.bin"; sha256 = "d2"; size = 12 };
}

abbrev form : NewDocument
form = record {
  title = "plan";
  description = "";
  access_level = AccessLevel.internal;
  source_type = SourceType.project_upload;
}

abbrev system : System
system = record { db = db; files = "d1/aa.bin" ∷ [] }

-- a file of a type that is not allowed
abbrev script : UploadedFile
script = record file { name = "run.sh" }

refused_document :
    (create_document request settings folder script form system).0
    ≡ err (validation extension_not_allowed)
unfolding create_document with_stored_file ensure_upload_allowed is_qualification_root_folder
    is_archive_folder archive_root is_foreign_staff_folder can_upload_document is_authenticated
    is_active_user standard_root_for_code standard_root_for_name is_temporary_user is_system_admin
    check_upload validate_uploaded_file normalize_upload_filename strip is_space path_name is_one_of
    windows_reserved_names upper stem uploaded_file_extension allowed_upload_extensions lower suffix
    public_staff_folder_ids folder_and_descendant_ids public_staff_root_ids
refused_document = refl

failed_document_leaves_nothing_example :
    (create_document request settings folder script form system).1 ≡ system
failed_document_leaves_nothing_example =
    failed_document_leaves_nothing request settings folder script form system refl refused_document

refused_version :
    (create_document_version request settings document script system).0
    ≡ err (validation extension_not_allowed)
unfolding create_document_version with_stored_file can_update_document is_temporary_user
    is_system_admin check_upload validate_uploaded_file normalize_upload_filename strip is_space
    path_name is_one_of windows_reserved_names upper stem uploaded_file_extension
    allowed_upload_extensions lower suffix
refused_version = refl

failed_version_leaves_nothing_example :
    (create_document_version request settings document script system).1 ≡ system
failed_version_leaves_nothing_example =
    failed_version_leaves_nothing request settings document script system refl refused_version

abbrev trashed_system : System
trashed_system = record { db = trashed.1; files = "d1/aa.bin" ∷ [] }

removal_succeeds : (permanently_delete_document false request 20 2001 trashed_system).0 ≡ ok tt
unfolding permanently_delete_document locked_document soft_delete_document ensure_not_deleted
    ensure_project_write_allowed ensure_expected_updated_at can_delete_document is_temporary_user
    is_system_admin save_document touch_document can_permanently_delete_document
removal_succeeds = refl

permanently_delete_document-IsGone_example :
    IsGone 20 trashed_system (permanently_delete_document false request 20 2001 trashed_system).1
permanently_delete_document-IsGone_example =
    permanently_delete_document-IsGone false request 20 2001 trashed_system removal_succeeds

abbrev added : DocumentVersion
added = value_or (create_document_version request settings document file system).0 version

version_succeeds : (create_document_version request settings document file system).0 ≡ ok added
unfolding create_document_version with_stored_file can_update_document is_temporary_user
    is_system_admin check_upload validate_uploaded_file normalize_upload_filename strip is_space
    path_name is_one_of windows_reserved_names upper stem uploaded_file_extension
    allowed_upload_extensions lower suffix validate_file_signature create_version_rows
    commit_or_delete save_file delete_file locked_document ensure_not_deleted
    ensure_project_write_allowed create_version latest_version safe_content_type save_document
    audit_log actor_pk
version_succeeds = refl

create_document_version-IsNewest_example :
    IsNewest 20 file.stored added db
      (create_document_version request settings document file system).1.db
    × (file_exists added.storage_path
          (create_document_version request settings document file system).1.files
        ≡ true)
create_document_version-IsNewest_example =
    create_document_version-IsNewest request settings document file system version_succeeds

-- the root of the staff's folders, the folder of one person, and a document in it
abbrev staff_root : Folder
staff_root = record folder { pk = 50; project = none; name = "staff"; code = "PUBLIC-STAFF" }

abbrev person : Folder
person = record staff_root { pk = 51; parent = some 50; name = "Li"; code = "" }

abbrev certificate : Document
certificate = record document { pk = 22; project = none; folder = 51 }

abbrev staff_system : System
staff_system = record {
  db = record db { folders = staff_root ∷ person ∷ []; documents = certificate ∷ [] };
  files = "d1/aa.bin" ∷ [];
}

-- somebody who bears the name of the folder
abbrev li : User
li = record {
  pk = 8;
  real_name = " Li ";
  role = Role.data_operator;
  is_superuser = false;
  is_active = true;
}

abbrev by_li : Request
by_li = record { actor = signed_in li; now = λ n. 1000 }

li_opens : (open_current_version_for_download by_li certificate staff_system).0 ≡ ok version
unfolding open_current_version_for_download can_download_document is_temporary_user is_system_admin
    public_staff_folder_ids folder_and_descendant_ids public_staff_root_ids standard_root_for_code
    own_public_staff_folder_ids strip is_space own_root_ids
li_opens = refl

is_contained :
    contains
      (folder_and_descendant_ids staff_system.db.folders (public_staff_root_ids staff_system.db))
      51
    ≡ true
unfolding folder_and_descendant_ids public_staff_root_ids standard_root_for_code
is_contained = refl

in_staff_folder : IsBelow staff_system.db.folders (public_staff_root_ids staff_system.db) 51
in_staff_folder =
    (contains-folder_and_descendant_ids staff_system.db.folders
        (public_staff_root_ids staff_system.db) 51).0
      is_contained

staff_file_is_private_example :
    (is_system_admin by_li.actor ≡ true)
    ⊎ ((u : User) × (by_li.actor ≡ signed_in u)
        × IsBelow staff_system.db.folders (own_root_ids staff_system.db (strip u.real_name)) 51)
staff_file_is_private_example =
    staff_file_is_private by_li certificate staff_system version li_opens in_staff_folder

versions_have_files :
    (v : DocumentVersion) → Memᴰ v db.versions → file_exists v.storage_path system.files ≡ true
versions_have_files v (head e) =
    subst (λ x. file_exists x.storage_path system.files ≡ true) (sym e) refl
versions_have_files v (tail m) = elim m [ ]

one_version :
    (v w : DocumentVersion) → Memᴰ v db.versions → Memᴰ w db.versions → v.document ≡ w.document
one_version v w (head e) (head f) = ap (λ x. x.document) (e ∙ sym f)
one_version v w (head e) (tail n) = elim n [ ]
one_version v w (tail m) n = elim m [ ]

FileStep-IsStored_example :
    IsStored (create_document_version request settings document file system).1
FileStep-IsStored_example =
    FileStep-IsStored {s = system}
      {t = (create_document_version request settings document file system).1}
      (new_version request settings document file refl)
      (record { has_file = versions_have_files; one_document = λ v w m n e. one_version v w m n })
