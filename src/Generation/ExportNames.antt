-- ===== src/Generation/ExportNames.antt =====
-- `_normalize_export_filename` of apps/document_generation/services.py: the name of the exported file.
pub mod Bounds
use Prim.Native.String.{[], ◌∷◌, ◌++◌}
use doc_manage_and_generatio.Prelude.{
  ℕ, zero, suc, ◌-◌, ◌+◌, String, Bool, ◌&&◌, ◌||◌, true, false, Option, none, some, leb, ltb, ◌==◌,
  if◌then◌else◌, str_eq, Char, code,
}
use doc_manage_and_generatio.Text.{strip, lower_text, ends_with, any_char, char_count}
use doc_manage_and_generatio.Outcome.{Result, ok, ◌>>=◌, ◌>>◌, raise_if, generation_error}

-- `char in EXPORT_FILENAME_FORBIDDEN_CHARS`
unfoldable pub is_forbidden_char : ℕ → Bool
is_forbidden_char c =
    c == b'\\'
    || c == b'/'
    || c == b':'
    || c == b'*'
    || c == b'?'
    || c == b'"'
    || c == b'<'
    || c == b'>'
    || c == b'|'

abbrev pub is_control_char : ℕ → Bool
is_control_char c = ltb c 32

-- the hyphen, as the character of the text `"-"`
hyphen : Char → String → Char
hyphen c [] = c
hyphen c (h ∷ rest) = h

-- the name of the project, with `-` for what a file name may not hold
unfoldable pub clean_project_name : String → String
unfolding hyphen
clean_project_name [] = []
clean_project_name (c ∷ s) =
    (if is_forbidden_char (code c) || is_control_char (code c) then hyphen c "-" else c)
    ∷ clean_project_name s

-- `s[:n]`
unfoldable pub take_chars : ℕ → String → String
take_chars n [] = []
take_chars zero (c ∷ s) = []
take_chars (suc n) (c ∷ s) = c ∷ take_chars n s

unfoldable pub default_stem : String → String → String
default_stem project short_key =
    let suffix = " 入场四措两案-" ++ short_key in
    take_chars (250 - char_count suffix) (clean_project_name (strip project)) ++ suffix

-- `s[:-len(".docx")]`
unfoldable pub drop_extension : String → String
drop_extension s = take_chars (char_count s - 5) s

unfoldable pub clean_stem : String → String
clean_stem name = if ends_with (lower_text name) ".docx" then strip (drop_extension name) else name

abbrev pub name_or_default : Option String → String → String
name_or_default none default = default
name_or_default (some name) default = strip name

unfoldable pub is_invalid_stem : String → Bool
is_invalid_stem name =
    str_eq name "."
    || str_eq name ".."
    || ends_with name "."
    || any_char is_forbidden_char name
    || any_char is_control_char name

-- the name for a project's name, the first characters of the task's key, and the requested name
unfoldable pub normalize_export_filename : String → String → Option String → Result String
normalize_export_filename project short_key filename = do
  let name = clean_stem (name_or_default filename (default_stem project short_key))
  raise_if (str_eq name "") (generation_error "EXPORT_FILENAME_REQUIRED")
  raise_if (is_invalid_stem name) (generation_error "EXPORT_FILENAME_INVALID")
  raise_if (ltb 255 (char_count (name ++ ".docx"))) (generation_error "EXPORT_FILENAME_TOO_LONG")
  ok (name ++ ".docx")
