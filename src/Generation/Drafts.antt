-- ===== src/Generation/Drafts.antt =====
-- apps/document_generation/repositories.py: `ORMSectionRepository`, through which the worker writes
-- the sections of a draft.
use doc_manage_and_generatio.Prelude.{
  ℕ, ◌+◌, String, true, false, ◌&&◌, none, some, List, [], ◌∷◌, ◌++◌, is_none, if◌then◌else◌,
}
use doc_manage_and_generatio.Outcome.{Result, ok, ◌>>=◌, ◌>>◌, require, task_cancelled}
use doc_manage_and_generatio.Generation.Schema.{Structure, Issue, GeneratedSection, Store}
use doc_manage_and_generatio.Generation.Guards.{locked_task, is_generating, save_section}
use doc_manage_and_generatio.Generation.Sections.{find_section, locked_section}

-- What the worker hands to `ORMSectionRepository.save`: the section, its plain text, its issues.
pub record Draft : Type 0 where
  pub section : Structure
  pub plain_text : String
  pub issues : List Issue

-- the columns of `defaults`
unfoldable pub redrafted : Draft → GeneratedSection → GeneratedSection
redrafted draft x = record x {
  title = draft.section.title;
  content = draft.plain_text;
  structured_content = some draft.section;
  citations = draft.section.citations;
  validation_issues = draft.issues;
}

unfoldable pub new_section : ℕ → ℕ → Draft → GeneratedSection
new_section pk task draft = record {
  pk = pk;
  task = task;
  section_code = draft.section.section_code;
  title = draft.section.title;
  content = draft.plain_text;
  structured_content = some draft.section;
  citations = draft.section.citations;
  validation_issues = draft.issues;
  revision = 1;
  is_locked = false;
}

-- `ORMSectionRepository.save`
unfoldable pub save_draft : ℕ → Draft → Store → Result (GeneratedSection × Store)
unfolding new_section
save_draft key draft s = do
  t ← locked_task s key
  require (is_generating t.status && is_none t.deleted_at) task_cancelled
  elim (find_section s t.pk draft.section.section_code) [
    | none ↦
        let x = new_section s.next_pk t.pk draft in
        ok (x, record s { sections = s.sections ++ x ∷ []; next_pk = s.next_pk + 1 })
    | some x ↦
        let saved = record (redrafted draft x) { revision = x.revision + 1 } in
        if x.is_locked then ok (x, s) else ok (saved, save_section saved s)
  ]

-- `ORMSectionRepository.lock`
unfoldable pub lock_draft : ℕ → String → Store → Result (GeneratedSection × Store)
lock_draft task code s = do
  x ← locked_section s task code
  let saved = record x { is_locked = true }
  if x.is_locked then ok (x, s) else ok (saved, save_section saved s)
