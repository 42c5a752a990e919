-- ===== src/Generation/Laws/Repeats.antt =====
-- A request that is sent twice with one key has one effect.
use doc_manage_and_generatio.Prelude.{
  ℕ, String, true, false, Option, some, List, ◌≡◌, inl, inr, arith, ap, ◌∙◌, str_eq, str_eq_iff,
  find?, Option-cases, Bool-cases, Bool-cases, ◌==◌,
}
use doc_manage_and_generatio.Prelude.{same_key}
use doc_manage_and_generatio.Text.{strip}
use doc_manage_and_generatio.Outcome.{ok}
use doc_manage_and_generatio.Schema.{Request}
use doc_manage_and_generatio.Generation.Schema.{GenerationTask, Store}
use doc_manage_and_generatio.Generation.Guards.{
  find_task, locked_task, can_use_generation, ensure_active_project, ensure_task_user, is_exported,
}
use doc_manage_and_generatio.Generation.Export.{
  Exporter, export_checked, publish, export_generation_task,
}
use doc_manage_and_generatio.Generation.Flow.Composite.{publish-Published}
use doc_manage_and_generatio.Generation.Laws.Stops.{put_task-found}
use doc_manage_and_generatio.Generation.Guards.{find_template, template_of, ensure_status}
use doc_manage_and_generatio.Generation.Laws.Alike.{Alike}

-- What an export that goes through leaves, be it the first one or a repeat.
export-Exported :
    (exporter : Exporter) (request : Request) (key : ℕ) (idempotency_key : String)
    (filename : Option String) (s : Store) {t : GenerationTask} {s' : Store}
    → export_generation_task exporter request key idempotency_key filename s ≡ ok (t, s')
    → (find_task s' key ≡ some t)
      × (is_exported t.status ≡ true)
      × (str_eq t.export_idempotency_key (strip idempotency_key) ≡ true)
      × (str_eq (strip idempotency_key) "" ≡ false)
unfolding export_generation_task export_checked locked_task template_of ensure_status
export-Exported exporter request key idempotency_key filename s {t} {s'} h =
    elim (Option-cases (find_task s key)) [
      | inl e ↦ ground arith
      | inr (x, e) ↦ elim (Bool-cases (is_exported x.status)) [
        | inl b ↦ (ground arith, ground arith, ground arith, ground arith)
        | inr b ↦ elim (Option-cases (find_template s x.template)) [
          | inl d ↦ ground arith
          | inr (template, d) ↦ elim (Option-cases (exporter.template_order template)) [
            | inl o ↦ ground arith
            | inr (order, o) ↦
                let through : publish exporter request x template filename (strip idempotency_key) s
                    ≡ ok (t, s') =
                  ground arith in
                let p = publish-Published exporter request x template filename _ s through in
                (
                  ap (λ (xs : List GenerationTask). find? (λ y. y.pk == key) xs) p.written
                      ∙ put_task-found s key t e p.same_key,
                  ap is_exported p.exported,
                  ground (
                    arith,
                    p.idempotency_key,
                    str_eq_iff t.export_idempotency_key (strip idempotency_key),
                  ),
                  ground arith,
                )
          ]
        ]
      ]
    ]

-- An export that goes through, sent again later with the same key by someone who may still use the
-- project's tasks, gives the same task and leaves the store as the first one left it, whatever file
-- name it asks for.
pub export_is_idempotent :
    (exporter : Exporter) (request later : Request) (key : ℕ) (idempotency_key : String)
    (filename filename' : Option String) (s : Store) {t : GenerationTask} {s' : Store}
    → export_generation_task exporter request key idempotency_key filename s ≡ ok (t, s')
    → can_use_generation s' later.actor t.project ≡ true
    → ensure_active_project s' t.project ≡ ok tt
    → export_generation_task exporter later key idempotency_key filename' s' ≡ ok (t, s')
unfolding export_generation_task locked_task ensure_task_user
export_is_idempotent exporter request later key idempotency_key filename filename' s h u a =
    let (found, exported, same, given) =
      export-Exported exporter request key idempotency_key filename s h in
    ground arith
