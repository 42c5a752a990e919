-- ===== src/Tests/Sample.antt =====
-- A small database: an administrator, a clerk, one project with a folder, and two documents.
use doc_manage_and_generatio.Prelude.{true, false, none, some, [], ◌∷◌, ◌≡◌, refl}
use doc_manage_and_generatio.Outcome.{Result, ok, err}
use doc_manage_and_generatio.Schema.{
  Role, Actor, signed_in, Project, ProjectStatus, Folder, Document, AccessLevel, SourceType,
  DocumentVersion, TemporaryAccessGrant, Db, Request,
}
use doc_manage_and_generatio.Schema.{is_temporary_user, is_system_admin}
use doc_manage_and_generatio.Audit.{audit_log}
use doc_manage_and_generatio.Documents.Permissions.{can_delete_document}
use doc_manage_and_generatio.Documents.Guards.{
  locked_document, ensure_not_deleted, ensure_project_write_allowed, ensure_expected_updated_at,
  touch_document,
}
use doc_manage_and_generatio.Documents.Operations.{soft_delete_document}

abbrev pub value_or {ℓ} : {A : Type ℓ} → Result A → A → A
value_or (ok a) default = a
value_or (err e) default = default

abbrev pub admin : Actor
admin = signed_in (record {
  pk = 1;
  real_name = "Li";
  role = Role.system_admin;
  is_superuser = false;
  is_active = true;
})

abbrev pub request : Request
request = record { actor = admin; now = λ n. 1000 }

abbrev pub project : Project
project = record {
  pk = 5;
  name = "Dam";
  code = "P-5";
  manager = none;
  status = ProjectStatus.active;
  archived_at = none;
  archived_by = none;
}

abbrev pub folder : Folder
folder = record {
  pk = 10;
  project = some 5;
  parent = none;
  name = "reports";
  code = "R";
  sort_order = 1;
  is_active = true;
  is_system_root = false;
  created_by = none;
}

abbrev pub subfolder : Folder
subfolder = record folder { pk = 11; parent = some 10; name = "2026"; code = "" }

abbrev pub document : Document
document = record {
  pk = 20;
  project = some 5;
  folder = 10;
  title = "plan";
  description = "";
  access_level = AccessLevel.internal;
  source_type = SourceType.project_upload;
  current_version = some 30;
  created_by = some 1;
  updated_at = 2000;
  lock_version = 1;
  deleted_at = none;
  deleted_by = none;
}

abbrev pub other_document : Document
other_document = record document { pk = 21; title = "budget"; current_version = none }

abbrev pub version : DocumentVersion
version = record {
  pk = 30;
  document = 20;
  version_number = 1;
  original_filename = "plan.pdf";
  content_type = "application/pdf";
  file_size = 12;
  sha256 = "d1";
  storage_path = "d1/aa.bin";
  uploaded_by = some 1;
}

abbrev pub access : TemporaryAccessGrant
access = record {
  pk = 40;
  document_version = 30;
  token_hash = "secret";
  max_downloads = 2;
  used_count = 0;
  expires_at = 5000;
  created_by = some 1;
  revoked_at = none;
  revoked_by = none;
  last_used_at = none;
}

abbrev pub db : Db
db = record {
  projects = project ∷ [];
  members = [];
  folders = folder ∷ subfolder ∷ [];
  documents = document ∷ other_document ∷ [];
  versions = version ∷ [];
  grants = [];
  temporary_grants = access ∷ [];
  audit = [];
  next_pk = 100;
}

-- the sample after the first document went to the recycle bin
abbrev pub trashed : Document × Db
trashed = value_or (soft_delete_document request 20 2000 db) (document, db)

pub delete_succeeds : soft_delete_document request 20 2000 db ≡ ok (trashed.0, trashed.1)
unfolding soft_delete_document locked_document ensure_not_deleted ensure_project_write_allowed
    ensure_expected_updated_at can_delete_document is_temporary_user is_system_admin touch_document
    audit_log
delete_succeeds = refl
