-- ===== src/Generation/Flow/Revisions.antt =====
-- The text of a section changes only with its revision, through any run.
use doc_manage_and_generatio.Prelude.{
  ℕ, ◌<◌, Bool, true, false, List, [], ◌∷◌, ◌++◌, ◌≡◌, ◌≢◌, refl, ◌⊎◌, inl, inr, Memᴰ, arith, ap,
  sym, subst, ◌∙◌, ◌==◌, ==_iff, if◌then◌else◌, Bool-cases, mem-update_where, update_where-mem,
  mem-concat, mem_before,
}
use doc_manage_and_generatio.Generation.Schema.{GeneratedSection, Store}
use doc_manage_and_generatio.Generation.Guards.{put_section}
use doc_manage_and_generatio.Generation.Sections.{put_locks}
use doc_manage_and_generatio.Generation.Flow.Diagram.{
  Act, SectionWritten, SectionSaved, Change, unchanged, task_saved, task_created, section_saved,
  section_created, sections_locked, tasks_mapped, event_added, Changes, one, both,
}
use doc_manage_and_generatio.Generation.Flow.Steps.{Step-Changes, Run, done, next}

-- the primary key of the table
unfoldable pub HasKeys : List GeneratedSection → Type 0
HasKeys sections =
    (a b : GeneratedSection) → Memᴰ a sections → Memᴰ b sections → a.pk ≡ b.pk → a ≡ b

-- The same section, later.
pub record Later (x y : GeneratedSection) : Type 0 where
  pub same_key : y.pk ≡ x.pk
  pub same_task : y.task ≡ x.task
  pub same_code : y.section_code ≡ x.section_code
  pub text :
      (x.revision < y.revision)
      ⊎ ((y.revision ≡ x.revision)
          × (y.content ≡ x.content)
          × (y.structured_content ≡ x.structured_content)
          × (y.validation_issues ≡ x.validation_issues))

same-Later : (x : GeneratedSection) → Later x x
same-Later x = record {
  same_key = refl;
  same_task = refl;
  same_code = refl;
  text = inr (refl, refl, refl, refl);
}

written-Later : {x y : GeneratedSection} → SectionWritten x y → Later x y
written-Later w = record {
  same_key = w.same_key;
  same_task = w.same_task;
  same_code = w.same_code;
  text = elim w.text [
    | inl (unlocked, open', next') ↦ inl (ground arith)
    | inr (content, structure, issues, revision) ↦ inr (revision, content, structure, issues)
  ];
}

Later-Later : {x y z : GeneratedSection} → Later x y → Later y z → Later x z
Later-Later p q = record {
  same_key = q.same_key ∙ p.same_key;
  same_task = q.same_task ∙ p.same_task;
  same_code = q.same_code ∙ p.same_code;
  text = elim p.text [
    | inl less ↦ elim q.text [
      | inl more ↦ inl (ground arith)
      | inr (revision, content, structure, issues) ↦ inl (ground arith)
    ]
    | inr (revision, content, structure, issues) ↦ elim q.text [
      | inl more ↦ inl (ground arith)
      | inr (revision', content', structure', issues') ↦
          inr (revision' ∙ revision, content' ∙ content, structure' ∙ structure, issues' ∙ issues)
    ]
  ];
}

-- What a change does to the sections: each is still there, and the keys stay unique.
record Keeps (before after : List GeneratedSection) : Type 0 where
  later : (x : GeneratedSection) → Memᴰ x before → (y : GeneratedSection) × Memᴰ y after × Later x y
  keys : HasKeys after

same-Keeps : {xs ys : List GeneratedSection} → ys ≡ xs → HasKeys xs → Keeps xs ys
same-Keeps {xs} {ys} same keys = record {
  later = λ x m. (x, subst (λ zs. Memᴰ x zs) (sym same) m, same-Later x);
  keys = subst HasKeys (sym same) keys;
}

pk_of : {a b : GeneratedSection} → a ≡ b → a.pk ≡ b.pk
pk_of e = ap (λ (x : GeneratedSection). x.pk) e

put_section-HasKeys :
    (after : GeneratedSection) (xs : List GeneratedSection)
    → HasKeys xs
    → HasKeys (put_section after xs)
unfolding HasKeys put_section
put_section-HasKeys after xs keys a b m n same =
    let (a', i, at) = mem-update_where (λ y. y.pk == after.pk) (λ y. after) xs m in
    let (b', j, bt) = mem-update_where (λ y. y.pk == after.pk) (λ y. after) xs n in
    elim at [
      | inl (h, e) ↦ elim bt [
        | inl (h', e') ↦ e ∙ sym e'
        | inr (h', e') ↦ ground (arith, pk_of e, pk_of e', ==_iff b'.pk after.pk)
      ]
      | inr (h, e) ↦ elim bt [
        | inl (h', e') ↦ ground (arith, pk_of e, pk_of e', ==_iff a'.pk after.pk)
        | inr (h', e') ↦ e ∙ keys a' b' i j (sym (pk_of e) ∙ same ∙ pk_of e') ∙ sym e'
      ]
    ]

put_section-mem :
    (after : GeneratedSection) (xs : List GeneratedSection) (x : GeneratedSection) {b : Bool}
    → (x.pk == after.pk) ≡ b
    → Memᴰ x xs
    → Memᴰ (if b then after else x) (put_section after xs)
unfolding put_section
put_section-mem after xs x h m =
    subst (λ b. Memᴰ (if b then after else x) (put_section after xs)) h
      (update_where-mem (λ y. y.pk == after.pk) (λ y. after) xs m)

saved-Keeps :
    (s : Store) {s' : Store} → SectionSaved s s' → HasKeys s.sections → Keeps s.sections s'.sections
unfolding HasKeys
saved-Keeps s c keys =
    let there = λ (y : GeneratedSection) (m : Memᴰ y (put_section c.after s.sections)).
      subst (λ ys. Memᴰ y ys) (sym c.written) m in
    record {
      later = λ x m. elim (Bool-cases (x.pk == c.after.pk)) [
        | inl h ↦
            let pk : x.pk ≡ c.before.pk = (==_iff x.pk c.after.pk).0 h ∙ c.write.same_key in
            let same : x ≡ c.before = keys x c.before m c.known pk in
            (
              c.after,
              there c.after (put_section-mem c.after s.sections x h m),
              subst (λ y. Later y c.after) (sym same) (written-Later c.write),
            )
        | inr h ↦ (x, there x (put_section-mem c.after s.sections x h m), same-Later x)
      ];
      keys = subst HasKeys (sym c.written) (put_section-HasKeys c.after s.sections keys);
    }

abbrev locked_row : GeneratedSection → GeneratedSection
locked_row x = record x { is_locked = true }

put_locks-HasKeys :
    (task : ℕ) (xs : List GeneratedSection) → HasKeys xs → HasKeys (put_locks task xs)
unfolding HasKeys put_locks
put_locks-HasKeys task xs keys a b m n same =
    let (a', i, at) = mem-update_where (λ x. x.task == task) locked_row xs m in
    let (b', j, bt) = mem-update_where (λ x. x.task == task) locked_row xs n in
    elim at [
      | inl (h, e) ↦ elim bt [
        | inl (h', e') ↦
            e ∙ ap locked_row (keys a' b' i j (sym (pk_of e) ∙ same ∙ pk_of e')) ∙ sym e'
        | inr (h', e') ↦
            let one_row = keys a' b' i j (sym (pk_of e) ∙ same ∙ pk_of e') in ground arith
      ]
      | inr (h, e) ↦ elim bt [
        | inl (h', e') ↦
            let one_row = keys a' b' i j (sym (pk_of e) ∙ same ∙ pk_of e') in ground arith
        | inr (h', e') ↦ e ∙ keys a' b' i j (sym (pk_of e) ∙ same ∙ pk_of e') ∙ sym e'
      ]
    ]

locked-Later : (x : GeneratedSection) (b : Bool) → Later x (if b then locked_row x else x)
locked-Later x true = record {
  same_key = refl;
  same_task = refl;
  same_code = refl;
  text = inr (refl, refl, refl, refl);
}
locked-Later x false = same-Later x

put_locks-Keeps :
    (task : ℕ) (xs : List GeneratedSection) → HasKeys xs → Keeps xs (put_locks task xs)
unfolding put_locks
put_locks-Keeps task xs keys = record {
  later = λ x m.
      let b = x.task == task in
      (
        if b then locked_row x else x,
        update_where-mem (λ y. y.task == task) locked_row xs m,
        locked-Later x b,
      );
  keys = put_locks-HasKeys task xs keys;
}

created-Keeps :
    (xs : List GeneratedSection) (x : GeneratedSection)
    → ((y : GeneratedSection) → Memᴰ y xs → y.pk ≢ x.pk)
    → HasKeys xs
    → Keeps xs (xs ++ x ∷ [])
unfolding HasKeys
created-Keeps xs x fresh keys = record {
  later = λ y m. (y, mem_before xs x m, same-Later y);
  keys = λ a b m n same. elim (mem-concat xs x m) [
    | inl i ↦ elim (mem-concat xs x n) [
      | inl j ↦ keys a b i j same
      | inr e ↦ elim (fresh a i (same ∙ pk_of e)) [ ]
    ]
    | inr e ↦ elim (mem-concat xs x n) [
      | inl j ↦ elim (fresh b j (sym same ∙ pk_of e)) [ ]
      | inr e' ↦ e ∙ sym e'
    ]
  ];
}

change-Keeps :
    {act : Act} (s : Store) {s' : Store}
    → Change act s s'
    → HasKeys s.sections
    → Keeps s.sections s'.sections
change-Keeps s (unchanged tasks sections events) keys = same-Keeps sections keys
change-Keeps s (task_saved c) keys = same-Keeps c.same_sections keys
change-Keeps s (task_created x status progress tasks sections events) keys =
    same-Keeps sections keys
change-Keeps s (section_saved c) keys = saved-Keeps s c keys
change-Keeps s (section_created x fresh locked revision sections tasks events) keys =
    subst (Keeps s.sections) (sym sections) (created-Keeps s.sections x fresh keys)
change-Keeps s (sections_locked task sections tasks events) keys =
    subst (Keeps s.sections) (sym sections) (put_locks-Keeps task s.sections keys)
change-Keeps s (tasks_mapped c) keys = same-Keeps c.same_sections keys
change-Keeps s (event_added c) keys = same-Keeps c.same_sections keys

then-Keeps : {xs ys zs : List GeneratedSection} → Keeps xs ys → Keeps ys zs → Keeps xs zs
then-Keeps k l = record {
  later =
      λ x m. let (y, i, p) = k.later x m in let (z, j, q) = l.later y i in (z, j, Later-Later p q);
  keys = l.keys;
}

Changes-Keeps :
    {act : Act} {s s' : Store}
    → Changes act s s'
    → HasKeys s.sections
    → Keeps s.sections s'.sections
Changes-Keeps (one {s} c) keys = change-Keeps s c keys
Changes-Keeps (both c d) keys =
    let k = Changes-Keeps c keys in then-Keeps k (Changes-Keeps d k.keys)

Run-Keeps : {s s' : Store} → Run s s' → HasKeys s.sections → Keeps s.sections s'.sections
Run-Keeps (done s) keys = same-Keeps refl keys
Run-Keeps (next {s} step run) keys =
    let k = Changes-Keeps (Step-Changes s step) keys in then-Keeps k (Run-Keeps run k.keys)

-- If no two sections have the same key, a section is still in the table after any run, with its task
-- and its code; and if its revision is the old one, so are its content, its structure and the issues
-- of its validation. The revision never falls.
pub sections_change_with_revision :
    {s s' : Store}
    → Run s s'
    → HasKeys s.sections
    → (x : GeneratedSection) → Memᴰ x s.sections
    → (y : GeneratedSection) × Memᴰ y s'.sections × Later x y
sections_change_with_revision run keys = (Run-Keeps run keys).later
