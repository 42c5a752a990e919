-- ===== src/Generation/ExportNames/Bounds.antt =====
-- The bounds of an exported file's name.
use Prim.Native.String.append
use Prim.Native.String.{[], ◌∷◌, ◌++◌}
use doc_manage_and_generatio.Prelude.{
  suc, ◌+◌, ◌≤◌, String, false, Option, ◌≡◌, refl, arith, ap, sym, ◌∙◌, ltb, str_eq,
}
use doc_manage_and_generatio.Text.{ends_with, any_char, char_count}
use doc_manage_and_generatio.Outcome.{ok}
use doc_manage_and_generatio.Generation.ExportNames.{
  is_forbidden_char, is_control_char, take_chars, drop_extension, clean_stem, name_or_default,
  default_stem, is_invalid_stem, normalize_export_filename,
}

char_count-append : (s t : String) → char_count (s ++ t) ≡ char_count s + char_count t
char_count-append [] t = ap char_count (append.nil t) ∙ ground arith
char_count-append (c ∷ s) t =
    ap char_count (append.cons c s t) ∙ ap (λ n. suc n) (char_count-append s t) ∙ ground arith

take_chars-none : (t : String) → take_chars 0 t ≡ []
unfolding take_chars
take_chars-none [] = refl
take_chars-none (c ∷ t) = refl

take_chars-append : (s t : String) → take_chars (char_count s) (s ++ t) ≡ s
unfolding take_chars
take_chars-append [] t = take_chars-none ([] ++ t)
take_chars-append (c ∷ s) t =
    ap (take_chars (suc (char_count s))) (append.cons c s t)
    ∙ ap (λ r. c ∷ r) (take_chars-append s t)

drop_extension-append : (title : String) → drop_extension (title ++ ".docx") ≡ title
unfolding drop_extension
drop_extension-append title =
    ap (λ n. take_chars n (title ++ ".docx")) (ground (arith, char_count-append title ".docx"))
    ∙ take_chars-append title ".docx"

-- The name of an exported file has at most 255 characters and is a title with ".docx" behind it; the
-- title is not empty, is what dropping the ending gives back, does not end with a dot, and holds no
-- forbidden and no control character.
pub export_filename_is_safe :
    (project short_key : String) (filename : Option String) {name : String}
    → normalize_export_filename project short_key filename ≡ ok name
    → (char_count name ≤ 255)
      × ((drop_extension name ++ ".docx") ≡ name)
      × (str_eq (drop_extension name) "" ≡ false)
      × (ends_with (drop_extension name) "." ≡ false)
      × (any_char is_forbidden_char (drop_extension name) ≡ false)
      × (any_char is_control_char (drop_extension name) ≡ false)
unfolding normalize_export_filename is_invalid_stem
export_filename_is_safe project short_key filename {name} h =
    let title = clean_stem (name_or_default filename (default_stem project short_key)) in
    let whole : name ≡ (title ++ ".docx") = ground arith in
    let same : drop_extension name ≡ title =
      ap drop_extension whole ∙ drop_extension-append title in
    let test : (str_eq title "" ≡ false)
        × (ends_with title "." ≡ false)
        × (any_char is_forbidden_char title ≡ false)
        × (any_char is_control_char title ≡ false)
        × (ltb 255 (char_count (title ++ ".docx")) ≡ false) =
      ground arith in
    let (a, b, c, d, e) = test in
    (
      ground (arith, ap char_count whole, e),
      ap (λ r. r ++ ".docx") same ∙ sym whole,
      ap (λ r. str_eq r "") same ∙ a,
      ap (λ r. ends_with r ".") same ∙ b,
      ap (any_char is_forbidden_char) same ∙ c,
      ap (any_char is_control_char) same ∙ d,
    )
