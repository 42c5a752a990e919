-- ===== src/Generation/Flow/Sections.antt =====
-- The writes of sections change the tables of the tasks and of the sections as the diagram says.
use doc_manage_and_generatio.Prelude.{
  ℕ, ◌+◌, String, Bool, true, false, List, ◌≡◌, ◌≢◌, Memᴰ, refl, inl, inr, arith, Bool-cases,
  Option-cases,
}
use doc_manage_and_generatio.Outcome.{ok, Result-cases}
use doc_manage_and_generatio.Schema.{Request}
use doc_manage_and_generatio.Generation.Schema.{GenerationTask, GeneratedSection, Structure, Store}
use doc_manage_and_generatio.Generation.Guards.{
  find_task, locked_task, ensure_status, log, on_commit, add_review,
}
use doc_manage_and_generatio.Generation.Sections.{
  Edit, edited, edited_structure, find_section, locked_section, edit_generated_section,
  set_section_lock, request_section_regeneration, lock_all_valid_sections,
}
use doc_manage_and_generatio.Generation.Drafts.{
  Draft, redrafted, new_section, save_draft, lock_draft,
}
use doc_manage_and_generatio.Generation.Flow.Diagram.{
  Act, section_sent_back, SectionWritten, unchanged, section_created, sections_locked, Changes, one,
  saves, saves_section,
}

-- a write of the lock alone
lock-SectionWritten :
    (locked : Bool) (x : GeneratedSection) → SectionWritten x (record x { is_locked = locked })
lock-SectionWritten locked x = record {
  same_key = refl;
  same_task = refl;
  same_code = refl;
  text = inr (refl, refl, refl, refl);
}

edited-SectionWritten :
    (edit : Edit) (structure : Structure) (x : GeneratedSection)
    → x.is_locked ≡ false
    → SectionWritten x (edited edit structure x)
unfolding edited
edited-SectionWritten edit structure x h = record {
  same_key = refl;
  same_task = refl;
  same_code = refl;
  text = inl (h, h, refl);
}

redrafted-SectionWritten :
    (draft : Draft) (x : GeneratedSection)
    → x.is_locked ≡ false
    → SectionWritten x (record (redrafted draft x) { revision = x.revision + 1 })
unfolding redrafted
redrafted-SectionWritten draft x h = record {
  same_key = refl;
  same_task = refl;
  same_code = refl;
  text = inl (h, h, refl);
}

pub edit_generated_section-Changes :
    (request : Request) (key : ℕ) (code : String) (edit : Edit) (s : Store) {y : GeneratedSection}
    {s' : Store}
    → edit_generated_section request key code edit s ≡ ok (y, s')
    → Changes Act.writing s s'
unfolding edit_generated_section locked_task ensure_status locked_section log add_review
edit_generated_section-Changes request key code edit s h = elim (Option-cases (find_task s key)) [
  | inl e ↦ ground arith
  | inr (t, e) ↦ elim (Option-cases (find_section s t.pk code)) [
    | inl f ↦ ground arith
    | inr (x, f) ↦ elim (Result-cases (edited_structure x edit)) [
      | inl (error, g) ↦ ground arith
      | inr (structure, g) ↦
          saves_section s t.pk code (edited edit structure x) f
            (edited-SectionWritten edit structure x (ground arith)) (ground arith) (ground arith)
            (ground arith)
    ]
  ]
]

pub set_section_lock-Changes :
    (request : Request) (key : ℕ) (code : String) (locked : Bool) (s : Store) {y : GeneratedSection}
    {s' : Store}
    → set_section_lock request key code locked s ≡ ok (y, s')
    → Changes Act.writing s s'
unfolding set_section_lock locked_task ensure_status locked_section log add_review
set_section_lock-Changes request key code locked s h = elim (Option-cases (find_task s key)) [
  | inl e ↦ ground arith
  | inr (t, e) ↦ elim (Option-cases (find_section s t.pk code)) [
    | inl f ↦ ground arith
    | inr (x, f) ↦
        saves_section s t.pk code (record x { is_locked = locked }) f (lock-SectionWritten locked x)
          (ground arith) (ground arith) (ground arith)
  ]
]

pub request_section_regeneration-Changes :
    (request : Request) (key : ℕ) (code instruction : String) (chunks : List String) (s : Store)
    {t : GenerationTask} {s' : Store}
    → request_section_regeneration request key code instruction chunks s ≡ ok (t, s')
    → Changes Act.sending_back s s'
unfolding request_section_regeneration locked_task ensure_status locked_section log on_commit
    add_review
request_section_regeneration-Changes request key code instruction chunks s {t} h =
    elim (Option-cases (find_task s key)) [
      | inl e ↦ ground arith
      | inr (x, e) ↦ elim (Option-cases (find_section s x.pk code)) [
        | inl f ↦ ground arith
        | inr (y, f) ↦
            saves s key t e (ground arith) (ground arith)
              (inr (section_sent_back (ground arith) (ground arith))) (λ p. ground arith)
              (ground arith) (ground arith)
      ]
    ]

-- The database draws a key for a new section that no section has.
pub save_draft-Changes :
    (key : ℕ) (draft : Draft) (s : Store) {y : GeneratedSection} {s' : Store}
    → ((x : GeneratedSection) → Memᴰ x s.sections → x.pk ≢ s.next_pk)
    → save_draft key draft s ≡ ok (y, s')
    → Changes Act.writing s s'
unfolding save_draft locked_task new_section
save_draft-Changes key draft s {y} {s'} fresh h = elim (Option-cases (find_task s key)) [
  | inl e ↦ ground arith
  | inr (t, e) ↦ elim (Option-cases (find_section s t.pk draft.section.section_code)) [
    | inl f ↦ one (
        section_created (new_section s.next_pk t.pk draft) fresh refl refl (ground arith)
          (ground arith) (ground arith))
    | inr (x, f) ↦ elim (Bool-cases x.is_locked) [
      | inl l ↦ one (unchanged (ground arith) (ground arith) (ground arith))
      | inr l ↦
          saves_section s t.pk draft.section.section_code
            (record (redrafted draft x) { revision = x.revision + 1 }) f
            (redrafted-SectionWritten draft x l) (ground arith) (ground arith) (ground arith)
    ]
  ]
]

pub lock_draft-Changes :
    (task : ℕ) (code : String) (s : Store) {y : GeneratedSection} {s' : Store}
    → lock_draft task code s ≡ ok (y, s')
    → Changes Act.writing s s'
unfolding lock_draft locked_section
lock_draft-Changes task code s h = elim (Option-cases (find_section s task code)) [
  | inl f ↦ ground arith
  | inr (x, f) ↦ elim (Bool-cases x.is_locked) [
    | inl l ↦ one (unchanged (ground arith) (ground arith) (ground arith))
    | inr l ↦
        saves_section s task code (record x { is_locked = true }) f (lock-SectionWritten true x)
          (ground arith) (ground arith) (ground arith)
  ]
]

pub lock_all_valid_sections-Changes :
    (request : Request) (key : ℕ) (s : Store) {t : GenerationTask} {s' : Store}
    → lock_all_valid_sections request key s ≡ ok (t, s')
    → Changes Act.writing s s'
unfolding lock_all_valid_sections locked_task ensure_status log add_review
lock_all_valid_sections-Changes request key s {t} h = elim (Option-cases (find_task s key)) [
  | inl e ↦ ground arith
  | inr (x, e) ↦ one (sections_locked x.pk (ground arith) (ground arith) (ground arith))
]
