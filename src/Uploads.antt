-- ===== src/Uploads.antt =====
-- common/validators.py: what an uploaded file has to be. Reading the upload is input: its name,
-- its size, its first 16 bytes, the names in its zip directory (none if it is no zip file), and
-- what `LocalDocumentStorage.save_uploaded_file` returns for it, are fields of `UploadedFile`.
pub mod Devices
pub mod Names
use doc_manage_and_generatio.Prelude.{
  ℕ, String, Bool, true, false, not, ◌&&◌, ◌||◌, Option, none, some, List, [], ◌∷◌, ltb, ◌==◌, any,
  if◌then◌else◌, str_eq,
}
use text.Mathlib.Text.{starts_with}
use doc_manage_and_generatio.Text.{
  strip, any_char, char_count, last_char, lower, upper, is_one_of, path_name, stem, suffix,
  second_is,
}
use doc_manage_and_generatio.Outcome.{
  validation, upload_too_large, Result, ok, err, ◌>>=◌, ◌>>◌, raise_if, filename_empty,
  filename_control, filename_separator, filename_malformed, filename_unsupported, filename_ending,
  filename_reserved, filename_too_long, extension_not_allowed, file_empty, signature_mismatch,
  openxml_invalid,
}

-- `StoredFile` of common/storage.py
pub record StoredFile : Type 0 where
  pub relative_path : String
  pub sha256 : String
  pub size : ℕ

pub record UploadedFile : Type 0 where
  pub name : String
  pub size : ℕ
  pub header : List ℕ
  pub archive_names : Option (List String)
  pub stored : StoredFile

-- the settings that the checks read
pub record Settings : Type 0 where
  pub max_upload_size_bytes : ℕ
  pub validate_upload_file_signatures : Bool

unfoldable pub allowed_upload_extensions : List String
allowed_upload_extensions =
    ".pdf" ∷ ".doc" ∷ ".docx" ∷ ".xls" ∷ ".xlsx" ∷ ".jpg" ∷ ".jpeg" ∷ ".png" ∷ []

unfoldable pub windows_reserved_names : List String
windows_reserved_names =
    "CON" ∷ "PRN" ∷ "AUX" ∷ "NUL" ∷ "COM1" ∷ "COM2" ∷ "COM3" ∷ "COM4" ∷ "COM5" ∷ "COM6" ∷ "COM7"
    ∷ "COM8" ∷ "COM9" ∷ "LPT1" ∷ "LPT2" ∷ "LPT3" ∷ "LPT4" ∷ "LPT5" ∷ "LPT6" ∷ "LPT7" ∷ "LPT8"
    ∷ "LPT9" ∷ []

abbrev pub is_control : ℕ → Bool
is_control c = ltb c 32 || c == 127

abbrev pub is_separator : ℕ → Bool
is_separator c = c == b'/' || c == b'\\'

-- the class `[<>:"|?*]`
abbrev pub is_unsupported : ℕ → Bool
is_unsupported c =
    c == b'<' || c == b'>' || c == b':' || c == b'"' || c == b'|' || c == b'?' || c == b'*'

unfoldable pub normalize_upload_filename : String → Result String
normalize_upload_filename value = do
  let name = strip value
  raise_if (str_eq name "" || str_eq name "." || str_eq name "..") (validation filename_empty)
  raise_if (any_char is_control name) (validation filename_control)
  raise_if (any_char is_separator name) (validation filename_separator)
  raise_if (not (str_eq (path_name name) name) || second_is b':' name)
      (validation filename_malformed)
  raise_if (any_char is_unsupported name) (validation filename_unsupported)
  raise_if (last_char (λ c. c == b' ' || c == b'.') name) (validation filename_ending)
  raise_if (is_one_of (upper (stem name)) windows_reserved_names) (validation filename_reserved)
  raise_if (ltb 255 (char_count name)) (validation filename_too_long)
  ok name

-- the code points of `PurePath(...).suffix.lower()`
unfoldable pub uploaded_file_extension : UploadedFile → Result (List ℕ)
uploaded_file_extension file = do
  name ← normalize_upload_filename file.name
  ok (lower (suffix name))

unfoldable pub bytes_start_with : List ℕ → List ℕ → Bool
bytes_start_with bytes [] = true
bytes_start_with [] (p ∷ prefix) = false
bytes_start_with (b ∷ bytes) (p ∷ prefix) = b == p && bytes_start_with bytes prefix

abbrev pdf_magic : List ℕ
pdf_magic = 0x25 ∷ 0x50 ∷ 0x44 ∷ 0x46 ∷ 0x2d ∷ []

abbrev png_magic : List ℕ
png_magic = 0x89 ∷ 0x50 ∷ 0x4e ∷ 0x47 ∷ 0x0d ∷ 0x0a ∷ 0x1a ∷ 0x0a ∷ []

abbrev jpeg_magic : List ℕ
jpeg_magic = 0xff ∷ 0xd8 ∷ 0xff ∷ []

abbrev ole_magic : List ℕ
ole_magic = 0xd0 ∷ 0xcf ∷ 0x11 ∷ 0xe0 ∷ 0xa1 ∷ 0xb1 ∷ 0x1a ∷ 0xe1 ∷ []

unfoldable pub validate_openxml : UploadedFile → List ℕ → Result (Unit {0})
validate_openxml file extension = elim file.archive_names [
  | none ↦ err (validation openxml_invalid)
  | some names ↦
      let prefix = if is_one_of extension (".docx" ∷ []) then "word/" else "xl/" in
      raise_if
        (not (any (str_eq "[Content_Types].xml") names)
          || not (any (λ name. starts_with name prefix) names))
        (validation signature_mismatch)
]

unfoldable pub validate_file_signature : UploadedFile → List ℕ → Result (Unit {0})
unfolding bytes_start_with validate_openxml
validate_file_signature file extension = do
  raise_if (is_one_of extension (".pdf" ∷ []) && not (bytes_start_with file.header pdf_magic))
      (validation signature_mismatch)
  raise_if (is_one_of extension (".png" ∷ []) && not (bytes_start_with file.header png_magic))
      (validation signature_mismatch)
  raise_if
      (is_one_of extension (".jpg" ∷ ".jpeg" ∷ []) && not (bytes_start_with file.header jpeg_magic))
      (validation signature_mismatch)
  raise_if
      (is_one_of extension (".doc" ∷ ".xls" ∷ []) && not (bytes_start_with file.header ole_magic))
      (validation signature_mismatch)
  if is_one_of extension (".docx" ∷ ".xlsx" ∷ []) then validate_openxml file extension else ok tt

unfoldable pub validate_uploaded_file : Settings → UploadedFile → Result (Unit {0})
unfolding validate_file_signature
validate_uploaded_file settings file = do
  name ← normalize_upload_filename file.name
  extension ← uploaded_file_extension file
  raise_if (not (is_one_of extension allowed_upload_extensions)) (validation extension_not_allowed)
  raise_if (file.size == 0) (validation file_empty)
  raise_if (ltb settings.max_upload_size_bytes file.size) upload_too_large
  if settings.validate_upload_file_signatures then validate_file_signature file extension else ok tt
