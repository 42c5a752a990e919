-- ===== src/Prelude/Lists.antt =====
-- Boolean searches of lists, and what they say of the members.
use Prim.Native.Nat.{ℕ, suc, ◌≤◌, ◌<◌}
use mathlib.Core.Path.{◌≡◌, refl}
use mathlib.Core.Logic.{◌⊎◌, inl, inr}
use mathlib.Core.Bool.{Bool, true, false, ◌||◌}
use mathlib.Core.Option.{Option, none, some}
use mathlib.Core.List.{List, [], ◌∷◌, Memᴰ}
use mathlib.Core.List.Memᴰ.{head, tail, cases_cons}
use native.Mathlib.Omega.{arith}
use doc_manage_and_generatio.Prelude.Tests.{if◌then◌else◌, Bool-cases}

module _ {ℓ} {A : Type ℓ} where
  abbrev pub length : List A → ℕ
  length [] = 0
  length (x ∷ xs) = suc (length xs)

  -- `queryset.filter(test).exists()`, `any(test(x) for x in xs)`
  abbrev pub any : (A → Bool) → List A → Bool
  any test [] = false
  any test (x ∷ xs) = test x || any test xs

  -- `queryset.filter(test).first()`
  abbrev pub find? : (A → Bool) → List A → Option A
  find? test [] = none
  find? test (x ∷ xs) = if test x then some x else find? test xs

  -- `queryset.filter(test)`
  abbrev pub filter : (A → Bool) → List A → List A
  filter test [] = []
  filter test (x ∷ xs) = let rest = filter test xs in if test x then x ∷ rest else rest

  pub any-false :
      (test : A → Bool) (xs : List A) {a : A} → any test xs ≡ false → Memᴰ a xs → test a ≡ false
  any-false test [] h m = elim m [ ]
  any-false test (x ∷ xs) {a} h (head e) = ground arith
  any-false test (x ∷ xs) {a} h (tail m) = any-false test xs (ground arith) m

  pub any-true :
      (test : A → Bool) (xs : List A) → any test xs ≡ true → (a : A) × Memᴰ a xs × (test a ≡ true)
  any-true test [] h = ground arith
  any-true test (x ∷ xs) h = elim (Bool-cases (test x)) [
    | inl e ↦ (x, head refl, e)
    | inr e ↦ let (a, m, t) = any-true test xs (ground arith) in (a, tail m, t)
  ]

  pub any-of_mem :
      (test : A → Bool) (xs : List A) {a : A} → Memᴰ a xs → test a ≡ true → any test xs ≡ true
  any-of_mem test [] m h = elim m [ ]
  any-of_mem test (x ∷ xs) (head e) h = ground arith
  any-of_mem test (x ∷ xs) (tail m) h = ground (arith, any-of_mem test xs m h)

  pub find?-mem :
      (test : A → Bool) (xs : List A) {a : A} → find? test xs ≡ some a → Memᴰ a xs × (test a ≡ true)
  find?-mem test [] h = ground arith
  find?-mem test (x ∷ xs) h = elim (Bool-cases (test x)) [
    | inl e ↦ (head (ground arith), ground arith)
    | inr e ↦ let (m, t) = find?-mem test xs (ground arith) in (tail m, t)
  ]

  pub find?-none :
      (test : A → Bool) (xs : List A) {a : A} → find? test xs ≡ none → Memᴰ a xs → test a ≡ false
  find?-none test [] h m = elim m [ ]
  find?-none test (x ∷ xs) h (head e) = ground arith
  find?-none test (x ∷ xs) h (tail m) = find?-none test xs (ground arith) m

  pub mem-filter :
      (test : A → Bool) (xs : List A) {a : A}
      → Memᴰ a (filter test xs)
      → Memᴰ a xs × (test a ≡ true)
  mem-filter test [] m = elim m [ ]
  mem-filter test (x ∷ xs) {a} m = elim (Bool-cases (test x)) [
    | inl e ↦ elim (cases_cons (rw e at m)) [
      | inl q ↦ (head q, ground arith)
      | inr n ↦ let (k, t) = mem-filter test xs n in (tail k, t)
    ]
    | inr e ↦ let (k, t) = mem-filter test xs (rw e at m) in (tail k, t)
  ]

  pub filter-mem :
      (test : A → Bool) (xs : List A) {a : A} → Memᴰ a xs → test a ≡ true → Memᴰ a (filter test xs)
  filter-mem test [] m h = elim m [ ]
  filter-mem test (x ∷ xs) (head e) h = let t : test x ≡ true = ground arith in rw t (head e)
  filter-mem test (x ∷ xs) (tail m) h = elim (Bool-cases (test x)) [
    | inl e ↦ rw e (tail (filter-mem test xs m h))
    | inr e ↦ rw e (filter-mem test xs m h)
  ]

  pub length-filter-le :
      (t u : A → Bool) (xs : List A)
      → ((a : A) → u a ≡ true → t a ≡ true)
      → length (filter u xs) ≤ length (filter t xs)
  length-filter-le t u [] h = omega arith
  length-filter-le t u (x ∷ xs) h = ground (arith, h x, length-filter-le t u xs h)

  pub length-filter-lt :
      (t u : A → Bool) (xs : List A) {a : A}
      → ((a : A) → u a ≡ true → t a ≡ true)
      → Memᴰ a xs
      → t a ≡ true
      → u a ≡ false
      → length (filter u xs) < length (filter t xs)
  length-filter-lt t u [] h m p q = elim m [ ]
  length-filter-lt t u (x ∷ xs) h (head e) p q = ground (arith, h x, length-filter-le t u xs h)
  length-filter-lt t u (x ∷ xs) h (tail m) p q =
      ground (arith, h x, length-filter-lt t u xs h m p q)

  pub List-cases : (xs : List A) → (xs ≡ []) ⊎ ((x : A) × (rest : List A) × (xs ≡ x ∷ rest))
  List-cases [] = inl refl
  List-cases (x ∷ xs) = inr (x, xs, refl)

  pub length-filter_le : (t : A → Bool) (xs : List A) → length (filter t xs) ≤ length xs
  length-filter_le t [] = omega arith
  length-filter_le t (x ∷ xs) = ground (arith, length-filter_le t xs)
