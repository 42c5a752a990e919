-- ===== src/Text/Chars.antt =====
-- Tests of the characters of a text, in terms of its code points.
use Prim.Native.String.{[], ◌∷◌}
use doc_manage_and_generatio.Prelude.{
  ℕ, List, code, String, true, false, not, ◌||◌, Bool, ◌≡◌, ◌≢◌, refl, arith, ◌==◌, ==_iff, str_eq,
  str_eq_iff, filter, ◌++◌, inl, inr, Memᴰ, Bool-cases, any-true, any-of_mem, ap, sym, subst, ◌∙◌,
}
use mathlib.Core.List.Memᴰ.{head, tail}
use doc_manage_and_generatio.Text.{
  any_char, last_char, codes, same_codes, is_one_of, split_slash, push_char, last_or_empty,
  path_name,
}

pub mem-any_char :
    (test : ℕ → Bool) (s : String) {c : ℕ}
    → any_char test s ≡ false
    → Memᴰ c (codes s)
    → test c ≡ false
unfolding codes
mem-any_char test [] h m = elim m [ ]
mem-any_char test (a ∷ s) h (head e) = ground arith
mem-any_char test (a ∷ s) h (tail m) = mem-any_char test s (ground arith) m

pub any_char-mem :
    (test : ℕ → Bool) (s : String)
    → any_char test s ≡ true
    → (c : ℕ) × Memᴰ c (codes s) × (test c ≡ true)
unfolding codes
any_char-mem test [] h = ground arith
any_char-mem test (a ∷ s) h = elim (Bool-cases (test (code a))) [
  | inl e ↦ (code a, head refl, e)
  | inr e ↦ let (c, m, t) = any_char-mem test s (ground arith) in (c, tail m, t)
]

pub last_char-append :
    (test : ℕ → Bool) (s : String) (front : List ℕ) {c : ℕ}
    → codes s ≡ front ++ List.◌∷◌ c List.[]
    → last_char test s ≡ test c
unfolding codes
last_char-append test [] List.[] h = ground arith
last_char-append test [] (List.◌∷◌ b front) h = ground arith
last_char-append test (a ∷ []) List.[] h = ground arith
last_char-append test (a ∷ []) (List.◌∷◌ b List.[]) h = ground arith
last_char-append test (a ∷ []) (List.◌∷◌ b (List.◌∷◌ d front)) h = ground arith
last_char-append test (a ∷ b ∷ s) List.[] h = ground arith
last_char-append test (a ∷ b ∷ s) (List.◌∷◌ d front) h =
    last_char-append test (b ∷ s) front (ground arith)

pub append-last_char :
    (test : ℕ → Bool) (s : String)
    → last_char test s ≡ true
    → (front : List ℕ) × (c : ℕ) × (codes s ≡ front ++ List.◌∷◌ c List.[]) × (test c ≡ true)
unfolding codes
append-last_char test [] h = ground arith
append-last_char test (a ∷ []) h = (List.[], code a, refl, h)
append-last_char test (a ∷ b ∷ s) h =
    let (front, c, e, t) = append-last_char test (b ∷ s) h in
    (List.◌∷◌ (code a) front, c, ap (λ xs. List.◌∷◌ (code a) xs) e, t)

same_codes-equal : (xs ys : List ℕ) → same_codes xs ys ≡ true → xs ≡ ys
unfolding same_codes
same_codes-equal List.[] List.[] h = refl
same_codes-equal List.[] (List.◌∷◌ b bs) h = ground arith
same_codes-equal (List.◌∷◌ a xs) List.[] h = ground arith
same_codes-equal (List.◌∷◌ a xs) (List.◌∷◌ b ys) h =
    ground (arith, ==_iff a b, same_codes-equal xs ys (ground arith))

same_codes_refl : (xs : List ℕ) → same_codes xs xs ≡ true
unfolding same_codes
same_codes_refl List.[] = refl
same_codes_refl (List.◌∷◌ a xs) = ground (arith, ==_iff a a, same_codes_refl xs)

pub is_one_of-mem :
    (text : List ℕ) (names : List String)
    → is_one_of text names ≡ true
    → (n : String) × Memᴰ n names × (text ≡ codes n)
unfolding is_one_of
is_one_of-mem text names h =
    let (n, m, t) = any-true (λ n. same_codes text (codes n)) names h in
    (n, m, same_codes-equal text (codes n) t)

pub mem-is_one_of :
    (text : List ℕ) (names : List String) {n : String}
    → Memᴰ n names
    → text ≡ codes n
    → is_one_of text names ≡ true
unfolding is_one_of
mem-is_one_of text names {n} m e =
    any-of_mem (λ x. same_codes text (codes x)) names m
      (subst (λ x. same_codes x (codes n) ≡ true) (sym e) (same_codes_refl (codes n)))

plain-split_slash :
    (s : String) → any_char (λ c. c == b'/') s ≡ false → split_slash s ≡ List.◌∷◌ s List.[]
unfolding split_slash push_char
plain-split_slash [] h = refl
plain-split_slash (c ∷ s) h = let rest = plain-split_slash s (ground arith) in ground (arith, rest)

-- a text without a slash is its own last component
pub path_name-plain :
    (s : String) → any_char (λ c. c == b'/') s ≡ false → s ≢ "" → s ≢ "." → path_name s ≡ s
unfolding path_name last_or_empty
path_name-plain s h a b =
    let parts = plain-split_slash s h in
    ap (λ ps. last_or_empty (filter (λ part. not (str_eq part "" || str_eq part ".")) ps)) parts
    ∙ ground (arith, str_eq_iff s "", str_eq_iff s ".")
