-- ===== src/Uploads/Names.antt =====
-- What the accepted file names look like.
use Prim.Native.String.{[], ◌∷◌}
use doc_manage_and_generatio.Prelude.{
  ℕ, List, ◌++◌, String, Bool, false, ◌||◌, inl, inr, ◌↔◌, ◌≡◌, ◌≢◌, ◌≤◌, refl, subst, arith, ◌==◌,
  ==_iff, str_eq_iff, Memᴰ, Bool-cases,
}
use doc_manage_and_generatio.Text.{
  strip, any_char, char_count, last_char, codes, path_name, upper, stem, is_one_of, second_is,
}
use doc_manage_and_generatio.Text.Strip.{strip_idem}
use doc_manage_and_generatio.Text.Chars.{
  mem-any_char, any_char-mem, last_char-append, append-last_char, path_name-plain,
}
use doc_manage_and_generatio.Uploads.Devices.{IsDevice, IsDevice-reserved, is_one_of-IsDevice}
use doc_manage_and_generatio.Outcome.{ok}
use doc_manage_and_generatio.Uploads.{
  normalize_upload_filename, is_control, is_separator, is_unsupported, windows_reserved_names,
}

-- A character that may stand in the name of a file: it is printable, and none of / \ < > : " | ? *
pub record IsFileChar (c : ℕ) : Type 0 where
  pub printable : 32 ≤ c
  pub no_delete : c ≢ 127
  pub no_slash : c ≢ b'/'
  pub no_backslash : c ≢ b'\\'
  pub no_less : c ≢ b'<'
  pub no_greater : c ≢ b'>'
  pub no_colon : c ≢ b':'
  pub no_quote : c ≢ b'"'
  pub no_bar : c ≢ b'|'
  pub no_question : c ≢ b'?'
  pub no_star : c ≢ b'*'

IsFileChar-from :
    (c : ℕ)
    → is_control c ≡ false
    → is_separator c ≡ false
    → is_unsupported c ≡ false
    → IsFileChar c
IsFileChar-from c a b d = record {
  printable = ground arith;
  no_delete = λ e. ground arith;
  no_slash = λ e. ground arith;
  no_backslash = λ e. ground arith;
  no_less = λ e. ground arith;
  no_greater = λ e. ground arith;
  no_colon = λ e. ground arith;
  no_quote = λ e. ground arith;
  no_bar = λ e. ground arith;
  no_question = λ e. ground arith;
  no_star = λ e. ground arith;
}

IsFileChar-tests :
    (c : ℕ)
    → IsFileChar c
    → (is_control c ≡ false) × (is_separator c ≡ false) × (is_unsupported c ≡ false)
IsFileChar-tests c h = ground (
  arith, h.printable, h.no_delete, h.no_slash, h.no_backslash, h.no_less, h.no_greater, h.no_colon,
  h.no_quote, h.no_bar, h.no_question, h.no_star,
)

-- A name that is safe as the name of a file: it is not empty, not the directory itself or the one above,
-- has no space around it and no dot at its end, at most 255 characters, only such that may stand in the
-- name of a file, and is no device's name, with or without an ending.
pub record IsSafeName (name : String) : Type 0 where
  pub stripped : strip name ≡ name
  pub filled : name ≢ ""
  pub characters : (c : ℕ) → Memᴰ c (codes name) → IsFileChar c
  pub good_end :
      (front : List ℕ)
      → (codes name ≢ front ++ List.◌∷◌ b' ' List.[])
        × (codes name ≢ front ++ List.◌∷◌ b'.' List.[])
  pub no_device : ¬ IsDevice (upper (stem name))
  pub short : char_count name ≤ 255

-- An accepted name is the stripped text that was given, and it is safe.
pub normalize_upload_filename-IsSafeName :
    (value : String) {name : String}
    → normalize_upload_filename value ≡ ok name
    → (name ≡ strip value) × IsSafeName name
unfolding normalize_upload_filename
normalize_upload_filename-IsSafeName value {name} h =
    let control : any_char is_control name ≡ false = ground arith in
    let separator : any_char is_separator name ≡ false = ground arith in
    let unsupported : any_char is_unsupported name ≡ false = ground arith in
    let ending : last_char (λ c. c == b' ' || c == b'.') name ≡ false = ground arith in
    let reserved : is_one_of (upper (stem name)) windows_reserved_names ≡ false = ground arith in
    (
      ground arith,
      record {
        stripped = ground (arith, strip_idem value);
        filled = ground (arith, str_eq_iff (strip value) "");
        characters = λ c m.
            IsFileChar-from c (mem-any_char is_control name control m)
              (mem-any_char is_separator name separator m)
              (mem-any_char is_unsupported name unsupported m);
        good_end = λ front. (
          λ e.
              let bad = last_char-append (λ c. c == b' ' || c == b'.') name front e in ground arith,
          λ e.
              let bad = last_char-append (λ c. c == b' ' || c == b'.') name front e in ground arith,
        );
        no_device = λ d. let bad = IsDevice-reserved d in ground arith;
        short = ground arith;
      },
    )

-- A name with no colon has none in the second place.
no_colon-second_is :
    (name : String) → any_char is_unsupported name ≡ false → second_is b':' name ≡ false
no_colon-second_is [] h = refl
no_colon-second_is (a ∷ []) h = refl
no_colon-second_is (a ∷ b ∷ s) h = ground arith

-- no character of a safe name has a test that no character of a file's name has
none_has :
    (test : ℕ → Bool) (name : String)
    → ((c : ℕ) → Memᴰ c (codes name) → test c ≡ false)
    → any_char test name ≡ false
none_has test name h = elim (Bool-cases (any_char test name)) [
  | inr e ↦ e
  | inl e ↦ let (c, m, t) = any_char-mem test name e in let f = h c m in ground arith
]

safe_end : (name : String) → IsSafeName name → last_char (λ c. c == b' ' || c == b'.') name ≡ false
safe_end name s = elim (Bool-cases (last_char (λ c. c == b' ' || c == b'.') name)) [
  | inr e ↦ e
  | inl e ↦
      let (front, c, same, t) = append-last_char (λ c. c == b' ' || c == b'.') name e in
      elim (Bool-cases (c == b' ')) [
        | inl a ↦ absurd (
            (s.good_end front).0
              (subst (λ x. codes name ≡ front ++ List.◌∷◌ x List.[]) ((==_iff c b' ').0 a) same))
        | inr a ↦
            let dot : c ≡ b'.' = (==_iff c b'.').0 (ground arith) in
            absurd (
              (s.good_end front).1 (subst (λ x. codes name ≡ front ++ List.◌∷◌ x List.[]) dot same))
      ]
]

not_dot : (name : String) → name ≡ "." → ¬ (last_char (λ c. c == b' ' || c == b'.') name ≡ false)
not_dot name e h =
    let f : last_char (λ c. c == b' ' || c == b'.') "." ≡ false =
      subst (λ x. last_char (λ c. c == b' ' || c == b'.') x ≡ false) e h in
    ground arith

not_dots : (name : String) → name ≡ ".." → ¬ (last_char (λ c. c == b' ' || c == b'.') name ≡ false)
not_dots name e h =
    let f : last_char (λ c. c == b' ' || c == b'.') ".." ≡ false =
      subst (λ x. last_char (λ c. c == b' ' || c == b'.') x ≡ false) e h in
    ground arith

safe_name_accepted :
    (value : String) → IsSafeName (strip value) → normalize_upload_filename value ≡ ok (strip value)
unfolding normalize_upload_filename
safe_name_accepted value s =
    let name = strip value in
    let control = none_has is_control name (λ c m. (IsFileChar-tests c (s.characters c m)).0) in
    let separator = none_has is_separator name (λ c m. (IsFileChar-tests c (s.characters c m)).1) in
    let unsupported =
      none_has is_unsupported name (λ c m. (IsFileChar-tests c (s.characters c m)).2) in
    let slash =
      none_has (λ c. c == b'/') name
        (λ c m. let (a, b, d) = IsFileChar-tests c (s.characters c m) in ground arith) in
    let ending = safe_end name s in
    let reserved : is_one_of (upper (stem name)) windows_reserved_names ≡ false =
      elim (Bool-cases (is_one_of (upper (stem name)) windows_reserved_names)) [
        | inr e ↦ e
        | inl e ↦ absurd (s.no_device (is_one_of-IsDevice e))
      ] in
    let dot : name ≢ "." = λ e. not_dot name e ending in
    let dots : name ≢ ".." = λ e. not_dots name e ending in
    let component = path_name-plain name slash s.filled dot in
    let second = no_colon-second_is name unsupported in
    ground (
      arith,
      control,
      separator,
      unsupported,
      ending,
      reserved,
      second,
      s.short,
      str_eq_iff name "",
      str_eq_iff name ".",
      str_eq_iff name "..",
      str_eq_iff (path_name name) name,
      s.filled,
      dot,
      dots,
      component,
    )

-- An upload's name is accepted exactly when the text without the space around it is a safe name, and
-- that text is then the result: it is not empty, has at most 255 characters, each of them printable and
-- none of / \ < > : " | ? *, does not end with a space or a dot, and is not CON, PRN, AUX, NUL, or COM or
-- LPT with a digit from 1 to 9, with or without an ending and in small or capital letters.
pub normalize_upload_filename_iff :
    (value name : String)
    → (normalize_upload_filename value ≡ ok name) ↔ ((name ≡ strip value) × IsSafeName name)
normalize_upload_filename_iff value name = (
  λ h. normalize_upload_filename-IsSafeName value h,
  λ (e, s). rw e (safe_name_accepted value (rw e at s)),
)
