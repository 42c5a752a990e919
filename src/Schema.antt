-- ===== src/Schema.antt =====
-- The tables of apps/*/models.py: one record for each model, and the database that holds them. A
-- key is a number, a foreign key that may be null is an `Option`, a time is a number of
-- microseconds. Foreign keys resolve, as the database's constraints demand.
use doc_manage_and_generatio.Prelude.{
  ℕ, ◌-◌, String, Bool, true, false, not, ◌&&◌, ◌||◌, Option, none, some, List, leb, ltb, is_none,
}

-- `User.Role`
pub data Role : Type 0 where
  system_admin project_manager data_operator temporary_user : Role

pub record User : Type 0 where
  pub pk : ℕ
  pub real_name : String
  pub role : Role
  pub is_superuser : Bool
  pub is_active : Bool

-- `request.user`: Django's `AnonymousUser` has none of the attributes of `User`
pub data Actor : Type 0 where
  anonymous : Actor
  signed_in : User → Actor

is_admin_role : Role → Bool
is_admin_role Role.system_admin = true
is_admin_role _ = false

is_temporary_role : Role → Bool
is_temporary_role Role.temporary_user = true
is_temporary_role _ = false

unfoldable pub is_authenticated : Actor → Bool
is_authenticated anonymous = false
is_authenticated (signed_in u) = true

unfoldable pub is_active_user : Actor → Bool
is_active_user anonymous = false
is_active_user (signed_in u) = u.is_active

unfoldable pub is_system_admin : Actor → Bool
unfolding is_admin_role
is_system_admin anonymous = false
is_system_admin (signed_in u) = u.is_superuser || is_admin_role u.role

unfoldable pub is_temporary_user : Actor → Bool
unfolding is_temporary_role
is_temporary_user anonymous = false
is_temporary_user (signed_in u) = is_temporary_role u.role

unfoldable pub is_data_operator : Actor → Bool
is_data_operator anonymous = false
is_data_operator (signed_in u) = elim u.role [ Role.data_operator ↦ true | _ ↦ false ]

-- the value that a nullable `ForeignKey` to the user takes
unfoldable pub actor_pk : Actor → Option ℕ
actor_pk anonymous = none
actor_pk (signed_in u) = some u.pk

-- `Project.Status`
pub data ProjectStatus : Type 0 where
  active archived : ProjectStatus

pub record Project : Type 0 where
  pub pk : ℕ
  pub name : String
  pub code : String
  pub manager : Option ℕ
  pub status : ProjectStatus
  pub archived_at : Option ℕ
  pub archived_by : Option ℕ

abbrev pub is_archived : Project → Bool
is_archived p = elim p.status [ ProjectStatus.archived ↦ true | ProjectStatus.active ↦ false ]

-- `ProjectMember.Role`
pub data MemberRole : Type 0 where
  manager operator viewer : MemberRole

pub record ProjectMember : Type 0 where
  pub pk : ℕ
  pub project : ℕ
  pub user : ℕ
  pub role : MemberRole
  pub can_upload : Bool
  pub can_download_restricted : Bool
  pub can_manage_folder : Bool
  pub can_delete : Bool
  pub can_restore : Bool
  pub can_manage_permission : Bool

pub record Folder : Type 0 where
  pub pk : ℕ
  pub project : Option ℕ
  pub parent : Option ℕ
  pub name : String
  pub code : String
  pub sort_order : ℕ
  pub is_active : Bool
  pub is_system_root : Bool
  pub created_by : Option ℕ

-- `Document.AccessLevel`
pub data AccessLevel : Type 0 where
  internal restricted : AccessLevel

-- `Document.SourceType`
pub data SourceType : Type 0 where
  project_upload entrance_material : SourceType

pub record Document : Type 0 where
  pub pk : ℕ
  pub project : Option ℕ
  pub folder : ℕ
  pub title : String
  pub description : String
  pub access_level : AccessLevel
  pub source_type : SourceType
  pub current_version : Option ℕ
  pub created_by : Option ℕ
  pub updated_at : ℕ
  pub lock_version : ℕ
  pub deleted_at : Option ℕ
  pub deleted_by : Option ℕ

abbrev pub is_deleted : Document → Bool
is_deleted d = elim d.deleted_at [ none ↦ false | some t ↦ true ]

pub record DocumentVersion : Type 0 where
  pub pk : ℕ
  pub document : ℕ
  pub version_number : ℕ
  pub original_filename : String
  pub content_type : String
  pub file_size : ℕ
  pub sha256 : String
  pub storage_path : String
  pub uploaded_by : Option ℕ

pub record DocumentGrant : Type 0 where
  pub pk : ℕ
  pub document : ℕ
  pub user : ℕ
  pub can_view : Bool
  pub can_download : Bool
  pub can_update : Bool
  pub can_delete : Bool
  pub can_restore : Bool
  pub can_manage : Bool
  pub expires_at : Option ℕ
  pub created_by : Option ℕ
  pub revoked_at : Option ℕ
  pub revoked_by : Option ℕ

-- `DocumentGrant.is_expired` at a time
abbrev pub is_expired : ℕ → DocumentGrant → Bool
is_expired now g = elim g.expires_at [ none ↦ false | some t ↦ leb t now ]

pub record TemporaryAccessGrant : Type 0 where
  pub pk : ℕ
  pub document_version : ℕ
  pub token_hash : String
  pub max_downloads : ℕ
  pub used_count : ℕ
  pub expires_at : ℕ
  pub created_by : Option ℕ
  pub revoked_at : Option ℕ
  pub revoked_by : Option ℕ
  pub last_used_at : Option ℕ

-- `max(max_downloads - used_count, 0)`
abbrev pub remaining_downloads : TemporaryAccessGrant → ℕ
remaining_downloads g = g.max_downloads - g.used_count

-- `TemporaryAccessGrant.is_active` at a time
abbrev pub is_active_access : ℕ → TemporaryAccessGrant → Bool
is_active_access now g =
    is_none g.revoked_at && not (leb g.expires_at now) && ltb 0 (remaining_downloads g)

pub data AuditResult : Type 0 where
  success denied failed : AuditResult

-- `AuditLog`, without the snapshots and the fields that come from the HTTP request
pub record AuditEntry : Type 0 where
  pub user : Option ℕ
  pub action : String
  pub resource : Option ℕ
  pub result : AuditResult

pub record Db : Type 0 where
  pub projects : List Project
  pub members : List ProjectMember
  pub folders : List Folder
  pub documents : List Document
  pub versions : List DocumentVersion
  pub grants : List DocumentGrant
  pub temporary_grants : List TemporaryAccessGrant
  pub audit : List AuditEntry
  -- the key that the next inserted row gets
  pub next_pk : ℕ

-- Who asks, and what the clock says: each place of the call that reads it has a number.
pub record Request : Type 0 where
  pub actor : Actor
  pub now : ℕ → ℕ
