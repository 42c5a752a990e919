-- ===== src/Outcome.antt =====
-- The exceptions that the services raise, and fallible code. Inside `transaction.atomic` an
-- exception rolls every write back, so a transaction is a function into `Result` that hands the
-- database on when it succeeds.
use doc_manage_and_generatio.Prelude.{String, Bool, true, false, ◌≡◌, refl, ◌⊎◌, inl, inr}

-- The message of a `ValidationError`.
pub data Reason : Type 0 where
  document_deleted document_not_deleted no_current_version too_many_files : Reason
  folder_disabled target_folder_disabled qualification_root archive_folder : Reason
  project_archived project_not_archived project_mismatch : Reason
  entrance_folder_required entrance_folder_reserved same_name same_content : Reason
  system_root use_move_endpoint parent_disabled move_to_self move_to_descendant : Reason
  public_root_required sibling_name_taken has_active_children has_documents : Reason
  project_has_documents foreign_documents : Reason
  grant_exists grant_target_fixed grant_revoked no_action expiry_not_in_future : Reason
  downloads_below_one downloads_above_limit expiry_above_limit access_revoked : Reason
  filename_empty filename_control filename_separator filename_malformed : Reason
  filename_unsupported filename_ending filename_reserved filename_too_long : Reason
  extension_not_allowed file_empty signature_mismatch openxml_invalid : Reason

pub data Error : Type 0 where
  validation : Reason → Error
  permission_denied does_not_exist document_conflict : Error
  stored_file_missing upload_too_large batch_download_too_large : Error
  temporary_access_invalid backup_running integrity_error task_cancelled : Error
  -- `DocumentGenerationError` with its code
  generation_error : String → Error

-- What a call gives: an exception that it raised, or a value.
pub data Result {ℓ} (A : Type ℓ) : Type ℓ where
  err : Error → Result A
  ok : A → Result A

-- `if test: raise error`
abbrev pub raise_if : Bool → Error → Result (Unit {0})
raise_if false error = ok tt
raise_if true error = err error

-- `if not test: raise error`
abbrev pub require : Bool → Error → Result (Unit {0})
require false error = err error
require true error = ok tt

infixl 5 ◌>>=◌ ◌>>◌
-- An exception leaves the rest of the block out.
abbrev pub ◌>>=◌ {ℓ κ} : {A : Type ℓ} {B : Type κ} → Result A → (A → Result B) → Result B
err error >>= next = err error
ok value >>= next = next value

abbrev pub ◌>>◌ {ℓ} : {B : Type ℓ} → Result (Unit {0}) → Result B → Result B
check >> rest = check >>= λ passed. rest

pub Result-cases {ℓ} :
    {A : Type ℓ} (r : Result A) → ((e : Error) × (r ≡ err e)) ⊎ ((a : A) × (r ≡ ok a))
Result-cases (err e) = inl (e, refl)
Result-cases (ok a) = inr (a, refl)
