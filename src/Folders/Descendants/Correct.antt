-- ===== src/Folders/Descendants/Correct.antt =====
-- The search finds the folders below the roots, all of them and nothing else, also where the rows
-- form a cycle.
use mathlib.Core.List.Memᴰ.{head, tail, cases_cons, append_cases, append_left, append_right}
use doc_manage_and_generatio.Prelude.{
  ℕ, zero, suc, ◌≤◌, ◌<◌, true, false, not, some, List, [], ◌∷◌, ◌++◌, map, ◌==◌, filter, length,
  ◌≡◌, refl, ◌↔◌, ◌⊎◌, inl, inr, Memᴰ, arith, any-of_mem, ==_refl, Bool-cases, Option-cases,
  length-filter-lt, length-filter_le, List-cases, mem-filter, filter-mem,
}
use doc_manage_and_generatio.Schema.{Folder}
use doc_manage_and_generatio.Folders.Descendants.{
  contains, parent_in, new_ids, collect, folder_and_descendant_ids,
}

-- `k` is the key of a root, or of a folder whose parent is one of these.
pub data IsBelow (folders : List Folder) (roots : List ℕ) : ℕ → Type 0 where
  root : {k : ℕ} → Memᴰ k roots → IsBelow folders roots k
  child :
      {p k : ℕ} (f : Folder)
      → IsBelow folders roots p
      → Memᴰ f folders
      → f.parent ≡ some p
      → f.pk ≡ k
      → IsBelow folders roots k

contains→mem : (keys : List ℕ) (k : ℕ) → contains keys k ≡ true → Memᴰ k keys
contains→mem [] k h = ground arith
contains→mem (j ∷ keys) k h = elim (Bool-cases (j == k)) [
  | inl e ↦ head (ground arith)
  | inr e ↦ tail (contains→mem keys k (ground arith))
]

mem→contains : (keys : List ℕ) (k : ℕ) → Memᴰ k keys → contains keys k ≡ true
mem→contains keys k m = any-of_mem (λ j. j == k) keys m (==_refl k)

mem-map_pk :
    (xs : List Folder) (k : ℕ) → Memᴰ k (map (λ f. f.pk) xs) → (f : Folder) × Memᴰ f xs × (f.pk ≡ k)
mem-map_pk [] k m = elim m [ ]
mem-map_pk (x ∷ xs) k m = elim (cases_cons m) [
  | inl e ↦ (x, head refl, ground arith)
  | inr n ↦ let (f, i, e) = mem-map_pk xs k n in (f, tail i, e)
]

map_pk-mem : (xs : List Folder) (f : Folder) → Memᴰ f xs → Memᴰ f.pk (map (λ f. f.pk) xs)
map_pk-mem [] f m = elim m [ ]
map_pk-mem (x ∷ xs) f m = elim (cases_cons m) [
  | inl e ↦ head (ground arith)
  | inr n ↦ tail (map_pk-mem xs f n)
]

module _ (folders : List Folder) (roots : List ℕ) where
  abbrev AllBelow : List ℕ → Type 0
  AllBelow keys = (k : ℕ) → Memᴰ k keys → IsBelow folders roots k

  new_ids-mem :
      (ids frontier : List ℕ) (k : ℕ)
      → Memᴰ k (new_ids folders ids frontier)
      → (f : Folder) × Memᴰ f folders
        × (f.pk ≡ k)
        × (parent_in frontier f ≡ true)
        × (contains ids k ≡ false)
  unfolding new_ids
  new_ids-mem ids frontier k m =
      let (f, i, e) = mem-map_pk _ k m in
      let (n, t) = mem-filter _ folders i in (f, n, e, ground arith, ground arith)

  -- A row below the frontier is inside already, or it is found now.
  found_now :
      (ids frontier : List ℕ) (f : Folder)
      → Memᴰ f folders
      → parent_in frontier f ≡ true
      → Memᴰ f.pk ids ⊎ Memᴰ f.pk (new_ids folders ids frontier)
  unfolding new_ids
  found_now ids frontier f m h = elim (Bool-cases (contains ids f.pk)) [
    | inl e ↦ inl (contains→mem ids f.pk e)
    | inr e ↦ inr (map_pk-mem _ f (filter-mem _ folders m (ground arith)))
  ]

  parent_in-mem :
      (keys : List ℕ) (f : Folder)
      → parent_in keys f ≡ true
      → (p : ℕ) × (f.parent ≡ some p) × Memᴰ p keys
  parent_in-mem keys f h = elim (Option-cases f.parent) [
    | inl e ↦ ground arith
    | inr (p, e) ↦ (p, e, contains→mem keys p (ground arith))
  ]

  mem-parent_in :
      (keys : List ℕ) (f : Folder) {p : ℕ}
      → f.parent ≡ some p
      → Memᴰ p keys
      → parent_in keys f ≡ true
  mem-parent_in keys f {p} e m = rw e (mem→contains keys p m)

  new_ids-AllBelow :
      (ids frontier : List ℕ) → AllBelow frontier → AllBelow (new_ids folders ids frontier)
  new_ids-AllBelow ids frontier h k m =
      let (f, i, e, t, n) = new_ids-mem ids frontier k m in
      let (p, q, j) = parent_in-mem frontier f t in child f (h p j) i q e

  append-AllBelow : (xs ys : List ℕ) → AllBelow xs → AllBelow ys → AllBelow (xs ++ ys)
  append-AllBelow xs ys hx hy k m = elim (append_cases xs m) [ inl n ↦ hx k n | inr n ↦ hy k n ]

  -- Every row whose parent is inside is inside too, unless its parent stands in the frontier.
  abbrev IsClosed : List ℕ → List ℕ → Type 0
  IsClosed ids frontier =
      (f : Folder) (p : ℕ)
      → Memᴰ f folders
      → f.parent ≡ some p
      → Memᴰ p ids
      → Memᴰ f.pk ids ⊎ Memᴰ p frontier

  abbrev outside : List ℕ → ℕ
  outside ids = length (filter (λ f. not (contains ids f.pk)) folders)

  -- What the search returns: nothing but folders below the roots, everything it began with, and
  -- a row together with its parent.
  abbrev IsAnswer : List ℕ → List ℕ → Type 0
  IsAnswer ids answer =
      AllBelow answer × ((k : ℕ) → Memᴰ k ids → Memᴰ k answer) × IsClosed answer []

  stays_outside :
      (ids new : List ℕ) (f : Folder)
      → not (contains (ids ++ new) f.pk) ≡ true
      → not (contains ids f.pk) ≡ true
  stays_outside ids new f h = elim (Bool-cases (contains ids f.pk)) [
    | inl e ↦
        let m = mem→contains (ids ++ new) f.pk (append_left new (contains→mem ids f.pk e)) in
        ground arith
    | inr e ↦ rw e
  ]

  outside-lt :
      (ids frontier : List ℕ) (k : ℕ)
      → Memᴰ k (new_ids folders ids frontier)
      → outside (ids ++ new_ids folders ids frontier) < outside ids
  outside-lt ids frontier k m =
      let (f, i, e, t, n) = new_ids-mem ids frontier k m in
      let inside = mem→contains _ k (append_right ids m) in
      length-filter-lt _ _ folders (stays_outside ids (new_ids folders ids frontier)) i
        (ground arith) (rw e (rw inside))

  next-IsClosed :
      (ids frontier : List ℕ)
      → IsClosed ids frontier
      → let new = new_ids folders ids frontier in IsClosed (ids ++ new) new
  next-IsClosed ids frontier h f p m e i =
      let new = new_ids folders ids frontier in
      elim (append_cases ids i) [
        | inr n ↦ inr n
        | inl n ↦ elim (h f p m e n) [
          | inl k ↦ inl (append_left new k)
          | inr k ↦ elim (found_now ids frontier f m (mem-parent_in frontier f e k)) [
            | inl j ↦ inl (append_left new j)
            | inr j ↦ inl (append_right ids j)
          ]
        ]
      ]

  done-IsClosed :
      (ids frontier : List ℕ)
      → new_ids folders ids frontier ≡ []
      → IsClosed ids frontier
      → IsClosed ids []
  done-IsClosed ids frontier none_new h f p m e i = elim (h f p m e i) [
    | inl k ↦ inl k
    | inr k ↦ elim (found_now ids frontier f m (mem-parent_in frontier f e k)) [
      | inl j ↦ inl j
      | inr j ↦ let j' = rw none_new at j in elim j' [ ]
    ]
  ]

  collect_more :
      (fuel : ℕ) (ids frontier : List ℕ) {k : ℕ} {rest : List ℕ}
      → new_ids folders ids frontier ≡ k ∷ rest
      → let new = new_ids folders ids frontier in
        collect (suc fuel) folders ids frontier ≡ collect fuel folders (ids ++ new) new
  unfolding collect
  collect_more fuel ids frontier e = rw (e, collect)

  collect_done :
      (fuel : ℕ) (ids frontier : List ℕ)
      → new_ids folders ids frontier ≡ []
      → collect (suc fuel) folders ids frontier ≡ ids
  unfolding collect
  collect_done fuel ids frontier e = rw (e, collect)

  collect-IsAnswer :
      (fuel : ℕ) (ids frontier : List ℕ)
      → outside ids < fuel
      → AllBelow ids
      → AllBelow frontier
      → IsClosed ids frontier
      → IsAnswer ids (collect fuel folders ids frontier)
  collect-IsAnswer zero ids frontier lt hi hf hc = elim lt [ ]
  collect-IsAnswer (suc fuel) ids frontier lt hi hf hc =
      let new = new_ids folders ids frontier in
      elim (List-cases new) [
        | inl e ↦
            rw (collect_done fuel ids frontier e) (hi, (λ k m. m), done-IsClosed ids frontier e hc)
        | inr (k, rest, e) ↦
            let new_below = new_ids-AllBelow ids frontier hf in
            let k_new : Memᴰ k new = rw e (head refl) in
            let (below, kept, closed) =
              collect-IsAnswer fuel (ids ++ new) new
                (omega (arith, outside-lt ids frontier k k_new))
                (append-AllBelow ids new hi new_below) new_below (next-IsClosed ids frontier hc) in
            rw (collect_more fuel ids frontier e)
              (below, (λ j m. kept j (append_left new m)), closed)
      ]

  outside-le : (ids : List ℕ) → outside ids ≤ length folders
  outside-le ids = length-filter_le _ folders

  answer : IsAnswer roots (folder_and_descendant_ids folders roots)
  unfolding folder_and_descendant_ids
  answer =
      collect-IsAnswer (suc (length folders)) roots roots (omega (arith, outside-le roots))
        (λ k m. root m) (λ k m. root m) (λ f p m e i. inr i)

  complete : {k : ℕ} → IsBelow folders roots k → Memᴰ k (folder_and_descendant_ids folders roots)
  complete (root m) = answer.1 _ m
  complete (child f b m e q) = elim (answer.2 f _ m e (complete b)) [
    | inl i ↦ rw q at i
    | inr i ↦ elim i [ ]
  ]

  -- A key is in the computed set exactly when it is that of a root, or of a folder that the
  -- chain of parents leads from to a root. The search ends also where parents form a cycle.
  pub contains-folder_and_descendant_ids :
      (k : ℕ)
      → (contains (folder_and_descendant_ids folders roots) k ≡ true) ↔ IsBelow folders roots k
  contains-folder_and_descendant_ids k =
      (λ h. answer.0 k (contains→mem _ k h), λ b. mem→contains _ k (complete b))
