-- ===== src/Text.antt =====
-- The methods of Python's `str` and of `PurePath` that the services call, over native texts.
-- `upper` and `lower` convert ASCII letters: the results are only compared with fixed ASCII names,
-- none of which a letter outside ASCII maps to.
pub mod Strip
pub mod Chars
use Prim.Native.String.{[], ◌∷◌, ◌++◌}
use mathlib.Core.List
use text.Mathlib.Text.{starts_with}
use doc_manage_and_generatio.Prelude.{
  ℕ, zero, suc, ◌+◌, ◌-◌, String, Bool, true, false, not, ◌&&◌, ◌||◌, Option, none, some, Char,
  code, leb, ◌==◌, if◌then◌else◌, str_eq, any, filter,
}
use doc_manage_and_generatio.Prelude.{List}

-- `str.isspace` of one character
unfoldable pub is_space : ℕ → Bool
is_space c =
    (leb 9 c && leb c 13)
    || (leb 28 c && leb c 32)
    || c == 133
    || c == 160
    || c == 5760
    || (leb 8192 c && leb c 8202)
    || c == 8232
    || c == 8233
    || c == 8239
    || c == 8287
    || c == 12288

unfoldable pub lstrip : String → String
lstrip [] = []
lstrip (c ∷ s) = if is_space (code c) then lstrip s else c ∷ s

-- keeps a character if it is no space or if something is kept behind it
keep_before : Char → String → String
keep_before c [] = if is_space (code c) then [] else c ∷ []
keep_before c (d ∷ s) = c ∷ d ∷ s

unfoldable pub rstrip : String → String
unfolding keep_before
rstrip [] = []
rstrip (c ∷ s) = keep_before c (rstrip s)

-- `s.strip()`
unfoldable pub strip : String → String
unfolding lstrip rstrip
strip s = rstrip (lstrip s)

-- `any(test(ord(c)) for c in s)`
abbrev pub any_char : (ℕ → Bool) → String → Bool
any_char test [] = false
any_char test (c ∷ s) = test (code c) || any_char test s

-- `len(s)`: the number of characters
abbrev pub char_count : String → ℕ
char_count [] = 0
char_count (c ∷ s) = suc (char_count s)

-- `test(ord(s[-1]))` of a text that is not empty
abbrev pub last_char : (ℕ → Bool) → String → Bool
last_char test [] = false
last_char test (c ∷ []) = test (code c)
last_char test (c ∷ d ∷ s) = last_char test (d ∷ s)

-- `s.endswith(end)`
unfoldable pub ends_with : String → String → Bool
ends_with [] end = str_eq [] end
ends_with (c ∷ s) end = str_eq (c ∷ s) end || ends_with s end

-- the code points of `s.lower()`
unfoldable pub lower : String → List ℕ
lower [] = List.[]
lower (c ∷ s) =
    let n = code c in List.◌∷◌ (if leb b'A' n && leb n b'Z' then n + 32 else n) (lower s)

at_dot : Char → String → Option (String × String) → Option (String × String)
at_dot c s none = if code c == b'.' then some ([], s) else none
at_dot c s (some (before, after)) = some (c ∷ before, after)

-- what stands before and behind the last dot
unfoldable pub split_last_dot : String → Option (String × String)
unfolding at_dot
split_last_dot [] = none
split_last_dot (c ∷ s) = at_dot c s (split_last_dot s)

-- the code points of `s.upper()`
unfoldable pub upper : String → List ℕ
upper [] = List.[]
upper (c ∷ s) =
    let n = code c in List.◌∷◌ (if leb b'a' n && leb n b'z' then n - 32 else n) (upper s)

unfoldable pub codes : String → List ℕ
codes [] = List.[]
codes (c ∷ s) = List.◌∷◌ (code c) (codes s)

unfoldable pub same_codes : List ℕ → List ℕ → Bool
same_codes List.[] List.[] = true
same_codes List.[] (List.◌∷◌ b bs) = false
same_codes (List.◌∷◌ a as') List.[] = false
same_codes (List.◌∷◌ a as') (List.◌∷◌ b bs) = a == b && same_codes as' bs

-- `text in names`, on code points
unfoldable pub is_one_of : List ℕ → List String → Bool
unfolding same_codes codes
is_one_of text names = any (λ n. same_codes text (codes n)) names

push_char : Char → List String → List String
push_char c List.[] = List.◌∷◌ (c ∷ []) List.[]
push_char c (List.◌∷◌ part parts) = List.◌∷◌ (c ∷ part) parts

-- `s.split("/")`
unfoldable pub split_slash : String → List String
unfolding push_char
split_slash [] = List.◌∷◌ [] List.[]
split_slash (c ∷ s) =
    let parts = split_slash s in if code c == b'/' then List.◌∷◌ [] parts else push_char c parts

last_or_empty : List String → String
last_or_empty List.[] = []
last_or_empty (List.◌∷◌ s List.[]) = s
last_or_empty (List.◌∷◌ s (List.◌∷◌ t rest)) = last_or_empty (List.◌∷◌ t rest)

-- `PurePosixPath(s).name`: the last component, where `""` and `"."` are dropped
unfoldable pub path_name : String → String
unfolding split_slash last_or_empty
path_name s =
    last_or_empty (filter (λ part. not (str_eq part "" || str_eq part ".")) (split_slash s))

stem_of : String → Option (String × String) → String
stem_of name none = name
stem_of name (some (before, after)) = if str_eq before "" || str_eq after "" then name else before

suffix_of : Option (String × String) → String
suffix_of none = []
suffix_of (some (before, after)) = if str_eq before "" || str_eq after "" then [] else "." ++ after

-- `PurePath(name).stem` and `PurePath(name).suffix` of a name: the dot that counts is the last
-- one, unless it is the first character or the last
unfoldable pub stem : String → String
unfolding split_last_dot stem_of
stem name = stem_of name (split_last_dot name)

unfoldable pub suffix : String → String
unfolding split_last_dot suffix_of
suffix name = suffix_of (split_last_dot name)

-- the second character of `s` is `c`: with `:`, a Windows path takes the first two for a drive
abbrev pub second_is : ℕ → String → Bool
second_is c [] = false
second_is c (a ∷ []) = false
second_is c (a ∷ b ∷ s) = code b == c

-- the letter that stands in the second text where the first has `c`
letter_at : Char → String → String → Char
letter_at c [] targets = c
letter_at c (a ∷ s) [] = c
letter_at c (a ∷ s) (b ∷ targets) = if code c == code a then b else letter_at c s targets

-- `s.lower()` as a text
unfoldable pub lower_text : String → String
unfolding letter_at
lower_text [] = []
lower_text (c ∷ s) =
    letter_at c "ABCDEFGHIJKLMNOPQRSTUVWXYZ" "abcdefghijklmnopqrstuvwxyz" ∷ lower_text s

-- `part in s`
unfoldable pub has_part : String → String → Bool
has_part part [] = str_eq part ""
has_part part (c ∷ s) = starts_with (c ∷ s) part || has_part part s
