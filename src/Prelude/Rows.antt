-- ===== src/Prelude/Rows.antt =====
-- A table is the list of its rows. `update_where` is `queryset.filter(test).update(change)`, and
-- with a test of the key it is `save()`.
use mathlib.Core.Path.{◌≡◌, refl}
use mathlib.Core.Logic.{◌⊎◌, inl, inr}
use mathlib.Core.Bool.{Bool, true, false}
use mathlib.Core.Option.{none, some}
use mathlib.Core.List.{List, [], ◌∷◌, ◌++◌, Memᴰ}
use mathlib.Core.List.Memᴰ.{head, tail, cases_cons}
use native.Mathlib.Omega.{arith}
use doc_manage_and_generatio.Prelude.Tests.{if◌then◌else◌}
use doc_manage_and_generatio.Prelude.Lists.{find?}

module _ {ℓ} {A : Type ℓ} where
  abbrev pub update_where : (A → Bool) → (A → A) → List A → List A
  update_where test change [] = []
  update_where test change (x ∷ xs) = (if test x then change x else x) ∷ update_where test change xs

  -- A row of the updated table is an updated row, or one that the test left alone.
  pub mem-update_where :
      (test : A → Bool) (change : A → A) (xs : List A) {b : A}
      → Memᴰ b (update_where test change xs)
      → (a : A) × Memᴰ a xs × (((test a ≡ true) × (b ≡ change a)) ⊎ ((test a ≡ false) × (b ≡ a)))
  mem-update_where test change [] m = elim m [ ]
  mem-update_where test change (x ∷ xs) {b} m = elim (cases_cons m) [
    | inl e ↦ (x, head refl, ground arith)
    | inr n ↦ let (a, k, h) = mem-update_where test change xs n in (a, tail k, h)
  ]

  -- Each row is still there, changed if the test holds of it.
  pub update_where-mem :
      (test : A → Bool) (change : A → A) (xs : List A) {a : A}
      → Memᴰ a xs
      → Memᴰ (if test a then change a else a) (update_where test change xs)
  update_where-mem test change [] m = elim m [ ]
  update_where-mem test change (x ∷ xs) (head e) = head (ground arith)
  update_where-mem test change (x ∷ xs) (tail m) = tail (update_where-mem test change xs m)

  -- A search for a row whose test the change does not affect.
  pub find?-update_where :
      (find test : A → Bool) (change : A → A) (xs : List A)
      → ((a : A) → test a ≡ true → find (change a) ≡ find a)
      → find? find (update_where test change xs)
        ≡ elim (find? find xs) [ none ↦ none | some a ↦ some (if test a then change a else a) ]
  find?-update_where find test change [] keep = refl
  find?-update_where find test change (x ∷ xs) keep =
      ground (arith, keep x, find?-update_where find test change xs keep)

  pub mem-concat : (xs : List A) (x : A) {a : A} → Memᴰ a (xs ++ x ∷ []) → Memᴰ a xs ⊎ (a ≡ x)
  mem-concat [] x (head e) = inr e
  mem-concat [] x (tail m) = elim m [ ]
  mem-concat (y ∷ xs) x (head e) = inl (head e)
  mem-concat (y ∷ xs) x (tail m) = elim (mem-concat xs x m) [ inl n ↦ inl (tail n) | inr e ↦ inr e ]

  pub mem_last : (xs : List A) (x : A) → Memᴰ x (xs ++ x ∷ [])
  mem_last [] x = head refl
  mem_last (y ∷ xs) x = tail (mem_last xs x)

  pub mem_before : (xs : List A) (x : A) {a : A} → Memᴰ a xs → Memᴰ a (xs ++ x ∷ [])
  mem_before [] x m = elim m [ ]
  mem_before (y ∷ xs) x (head e) = head e
  mem_before (y ∷ xs) x (tail m) = tail (mem_before xs x m)

  pub find?-concat :
      (test : A → Bool) (xs : List A) (x : A)
      → find? test (xs ++ x ∷ [])
        ≡ elim (find? test xs) [ none ↦ if test x then some x else none | some a ↦ some a ]
  find?-concat test [] x = ground arith
  find?-concat test (y ∷ xs) x = ground (arith, find?-concat test xs x)
