-- ===== src/Folders/Services/Forest.antt =====
-- The parents of the folders form no cycle: what that is, and that the walk up from a folder finds
-- exactly the folders above it.
use doc_manage_and_generatio.Prelude.{
  ℕ, zero, suc, ◌≤◌, ◌<◌, Bool, true, not, Option, none, some, List, [], ◌∷◌, ◌≡◌, refl, ◌↔◌, ◌⊎◌,
  inl, inr, Memᴰ, arith, ap, subst, ◌∙◌, ◌==◌, ==_iff, some_unique, Bool-cases, find?, find?-mem,
  filter, length, length-filter-lt, length-filter_le,
}
use doc_manage_and_generatio.Schema.{Db, Folder}
use doc_manage_and_generatio.Folders.Services.{is_descendant}

abbrev pub row_at : List Folder → ℕ → Option Folder
row_at folders key = find? (λ f. f.pk == key) folders

-- From this key, or from none, the chain of parents has `n` folders and ends.
pub data Depth (folders : List Folder) : ℕ → Option ℕ → Type 0 where
  top : Depth folders zero none
  under :
      {n k : ℕ} {f : Folder}
      → row_at folders k ≡ some f
      → Depth folders n f.parent
      → Depth folders (suc n) (some k)

-- Every folder's chain of parents ends.
pub record IsForest (folders : List Folder) : Type 0 where
  pub depth : (f : Folder) → Memᴰ f folders → (n : ℕ) × Depth folders n f.parent

-- The chain of parents from this key meets `a`.
pub data Above (folders : List Folder) (a : ℕ) : Option ℕ → Type 0 where
  here : Above folders a (some a)
  higher :
      {k : ℕ} {f : Folder}
      → row_at folders k ≡ some f
      → Above folders a f.parent
      → Above folders a (some k)

Depth-unique :
    {folders : List Folder} {n m : ℕ} {c c' : Option ℕ}
    → Depth folders n c
    → Depth folders m c'
    → c ≡ c'
    → n ≡ m
Depth-unique top top h = refl
Depth-unique top (under e d) h = ground arith
Depth-unique (under e d) top h = ground arith
Depth-unique {folders = folders} (under {k = k} {f = f} e d) (under {k = k'} {f = g} e' d') h =
    let same : row_at folders k ≡ row_at folders k' = ap (row_at folders) (ground (arith, h)) in
    let one : f ≡ g = some_unique e (same ∙ e') in
    ap suc (Depth-unique d d' (ap (λ f. f.parent) one))

find?-filter :
    (find keep : Folder → Bool) (xs : List Folder)
    → ((x : Folder) → find x ≡ true → keep x ≡ true)
    → find? find (filter keep xs) ≡ find? find xs
find?-filter find keep [] h = refl
find?-filter find keep (x ∷ xs) h = ground (arith, h x, find?-filter find keep xs h)

abbrev without : ℕ → List Folder → List Folder
without j folders = filter (λ f. not (f.pk == j)) folders

-- A shorter chain does not need the row of a key with a longer one.
Depth-without :
    {folders : List Folder} {n m j : ℕ} {c : Option ℕ}
    → Depth folders n c
    → Depth folders m (some j)
    → n < m
    → Depth (without j folders) n c
Depth-without top d' h = top
Depth-without {folders = folders} {j = j} (under {k = k} e d) d' h = elim (Bool-cases (k == j)) [
  | inl same ↦
      absurd (omega (arith, Depth-unique (under e d) d' (ap some (ground (arith, ==_iff k j))), h))
  | inr other ↦
      under
        (find?-filter (λ f. f.pk == k) (λ f. not (f.pk == j)) folders
            (λ x q. ground (arith, ==_iff x.pk k))
          ∙ e)
        (Depth-without d d' (omega (arith, h)))
]

-- A chain that ends is no longer than the table.
pub Depth-le :
    (n : ℕ) {folders : List Folder} {c : Option ℕ} → Depth folders n c → n ≤ length folders
Depth-le zero d = omega arith
Depth-le (suc n) {folders} (under {k = k} {f = f} e d) =
    let (m, q) = find?-mem (λ f. f.pk == k) folders e in
    omega (
      arith,
      Depth-le n (Depth-without d (under e d) (omega arith)),
      length-filter-lt (λ f. true) (λ f. not (f.pk == k)) folders (λ a q. refl) m refl
          (ground (arith, q)),
      length-filter_le (λ (f : Folder). true) folders,
    )

-- The walk up from a chain that ends meets `ancestor` exactly when the chain does.
pub Above-at :
    {folders : List Folder} {k ancestor : ℕ} {f : Folder}
    → row_at folders k ≡ some f
    → Above folders ancestor (some k)
    → (k ≡ ancestor) ⊎ Above folders ancestor f.parent
Above-at e here = inl refl
Above-at {folders} {k} {ancestor} e (higher e' a) =
    inr (subst (λ g. Above folders ancestor g.parent) (some_unique e' e) a)

pub walk_iff :
    {n : ℕ} (fuel : ℕ) (db : Db) (ancestor : ℕ) {c : Option ℕ}
    → Depth db.folders n c
    → n ≤ fuel
    → (is_descendant fuel db c ancestor ≡ true) ↔ Above db.folders ancestor c
unfolding is_descendant
walk_iff zero db ancestor top h = (λ e. ground arith, λ a. elim a [ ])
walk_iff (suc fuel) db ancestor top h = (λ e. ground arith, λ a. elim a [ ])
walk_iff zero db ancestor (under e d) h = absurd (omega (arith, h))
walk_iff (suc fuel) db ancestor (under {k = k} e d) h =
    let (sound, complete) = walk_iff fuel db ancestor d (omega (arith, h)) in
    (
      λ q. elim (Bool-cases (k == ancestor)) [
        | inl same ↦ subst (λ a. Above db.folders a (some k)) (ground (arith, same)) here
        | inr other ↦ higher e (sound (ground arith))
      ],
      λ a. elim (Above-at e a) [ inl same ↦ ground arith | inr b ↦ ground (arith, complete b) ],
    )

-- Among folders whose chains of parents end, the walk up from a folder finds another exactly when
-- that one is above it.
pub is_descendant_iff :
    (db : Db) (candidate : Folder) (ancestor : ℕ)
    → IsForest db.folders
    → Memᴰ candidate db.folders
    → (is_descendant (suc (length db.folders)) db candidate.parent ancestor ≡ true)
      ↔ Above db.folders ancestor candidate.parent
is_descendant_iff db candidate ancestor forest m =
    let (n, d) = forest.depth candidate m in
    walk_iff (suc (length db.folders)) db ancestor d (omega (arith, Depth-le n d))
