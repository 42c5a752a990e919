-- ===== src/Generation/Laws/Gates.antt =====
-- A draft is approved and exported only when its sections are complete, locked and valid, and only by
-- those who may.
use doc_manage_and_generatio.Prelude.{
  ℕ, String, true, false, not, ◌&&◌, Option, some, List, ◌≡◌, inl, inr, Memᴰ, arith, ◌==◌,
  any-false, Option-cases, ==_refl,
}
use doc_manage_and_generatio.Text.{strip}
use doc_manage_and_generatio.Outcome.{ok}
use doc_manage_and_generatio.Schema.{Request}
use doc_manage_and_generatio.Generation.Schema.{
  Status, GenerationTask, DocumentTemplate, GeneratedSection, Store,
}
use doc_manage_and_generatio.Generation.Guards.{
  can_use_generation, can_review_generation, find_task, find_template, locked_task, template_of,
  ensure_review_user, ensure_task_user, ensure_status, is_exported, has_error,
}
use doc_manage_and_generatio.Generation.Review.{
  section_codes, is_among, lacks, differs, has_unlocked, has_invalid, approve_generation_task,
}
use doc_manage_and_generatio.Generation.Export.{
  Exporter, effective_order, is_exportable, export_checked, export_generation_task, publish,
}
use doc_manage_and_generatio.Generation.Flow.Composite.{publish-Published}

-- Every section of the order is written; every section is locked and without an error.
pub record IsFinished (order : List String) (t : GenerationTask) (s : Store) : Type 0 where
  pub complete : (code : String) → Memᴰ code order → is_among (section_codes t s) code ≡ true
  pub locked : (x : GeneratedSection) → Memᴰ x s.sections → x.task ≡ t.pk → x.is_locked ≡ true
  pub valid : (x : GeneratedSection) → Memᴰ x s.sections → x.task ≡ t.pk → has_error x ≡ false

finished :
    (order : List String) (t : GenerationTask) (s : Store)
    → lacks order (section_codes t s) ≡ false
    → has_unlocked t s ≡ false
    → has_invalid t s ≡ false
    → IsFinished order t s
unfolding lacks has_unlocked has_invalid
finished order t s a b c = record {
  complete =
      λ code m. ground (arith, any-false (λ k. not (is_among (section_codes t s) k)) order a m);
  locked = λ x m h.
      ground
        (arith, any-false (λ y. y.task == t.pk && not y.is_locked) s.sections b m, ==_refl t.pk);
  valid = λ x m h.
      ground (arith, any-false (λ y. y.task == t.pk && has_error y) s.sections c m, ==_refl t.pk);
}

-- If an approval goes through, the task waited for it, the actor is a manager of the project or an
-- administrator, every section of the template is written, and all sections are locked and have no
-- error.
pub approval_needs_whole_draft :
    (request : Request) (key : ℕ) (comment : String) (s : Store) {t : GenerationTask} {s' : Store}
    → approve_generation_task request key comment s ≡ ok (t, s')
    → (x : GenerationTask) × (template : DocumentTemplate) × (find_task s key ≡ some x)
      × (x.status ≡ Status.pending_approval)
      × (can_review_generation s request.actor x.project ≡ true)
      × (find_template s x.template ≡ some template)
      × IsFinished template.section_order x s
unfolding approve_generation_task locked_task ensure_review_user ensure_status template_of
approval_needs_whole_draft request key comment s h = elim (Option-cases (find_task s key)) [
  | inl e ↦ ground arith
  | inr (x, e) ↦ elim (Option-cases (find_template s x.template)) [
    | inl d ↦ ground arith
    | inr (template, d) ↦ (
      x,
      template,
      e,
      ground arith,
      ground arith,
      d,
      finished template.section_order x s (ground arith) (ground arith) (ground arith),
    )
  ]
]

-- If an export of a task that is not exported yet goes through, the task was in review, waited for
-- approval or was approved, the actor may use the project's tasks, every section that the file of the
-- task's own template shows is written, all sections are locked and have no error; and the task is then
-- exported, complete, under the key of the call.
pub export_needs_whole_draft :
    (exporter : Exporter) (request : Request) (key : ℕ) (idempotency_key : String)
    (filename : Option String) (s : Store) {x t : GenerationTask} {s' : Store}
    → find_task s key ≡ some x
    → is_exported x.status ≡ false
    → export_generation_task exporter request key idempotency_key filename s ≡ ok (t, s')
    → (template : DocumentTemplate) × (order : List String) × (find_template s x.template
        ≡ some template)
      × (is_exportable x.status ≡ true)
      × (can_use_generation s request.actor x.project ≡ true)
      × (exporter.template_order template ≡ some order)
      × IsFinished (effective_order order template) x s
      × (t.status ≡ Status.exported)
      × (t.progress ≡ 100)
      × (t.export_idempotency_key ≡ strip idempotency_key)
unfolding export_generation_task export_checked locked_task ensure_task_user template_of
    ensure_status differs
export_needs_whole_draft exporter request key idempotency_key filename s {x} {t} {s'} e b h =
    elim (Option-cases (find_template s x.template)) [
      | inl d ↦ ground arith
      | inr (template, d) ↦ elim (Option-cases (exporter.template_order template)) [
        | inl o ↦ ground arith
        | inr (order, o) ↦
            let through : publish exporter request x template filename (strip idempotency_key) s
                ≡ ok (t, s') =
              ground arith in
            let p =
              publish-Published exporter request x template filename (strip idempotency_key) s
                through in
            (
              template,
              order,
              d,
              ground arith,
              ground arith,
              o,
              finished (effective_order order template) x s (ground arith) (ground arith)
                  (ground arith),
              p.exported,
              p.complete,
              p.idempotency_key,
            )
      ]
    ]
