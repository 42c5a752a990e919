-- ===== src/Generation/Flow/Composite.antt =====
-- The operations that are made of others, and the export, change the tables along the diagram.
use doc_manage_and_generatio.Prelude.{
  ℕ, String, Bool, refl, not, ◌&&◌, Option, List, [], ◌∷◌, ◌≡◌, inl, inr, arith, Bool-cases,
  Option-cases, subst,
}
use doc_manage_and_generatio.Text.{strip}
use doc_manage_and_generatio.Outcome.{Result, err, ok, Result-cases}
use doc_manage_and_generatio.Schema.{Request, Document}
use doc_manage_and_generatio.Documents.Files.{System, create_document}
use doc_manage_and_generatio.Generation.Schema.{
  Status, ConfirmedFact, GenerationTask, DocumentTemplate, Store,
}
use doc_manage_and_generatio.Generation.Guards.{
  find_task, find_template, locked_task, template_of, ensure_status, is_draft, is_exported, log,
  put_task, add_review,
}
use doc_manage_and_generatio.Generation.Requests.{Creator, create_generation_task}
use doc_manage_and_generatio.Generation.Context.{NewTask, unique_keys}
use doc_manage_and_generatio.Generation.Sources.{
  visible_source_version, get_or_create_source, add_sources, add_generation_sources,
  prepare_fact_confirmation, start_compilation_pipeline,
}
use doc_manage_and_generatio.Generation.Compile.{
  Checks, confirm_generation_facts, request_generation, confirm_and_request_generation,
}
use doc_manage_and_generatio.Generation.Export.{
  Exporter, exported_task, stored_output, publish, export_checked, export_generation_task,
  prepare_output,
}
use doc_manage_and_generatio.Generation.Flow.Diagram.{
  Act, draft_exported, unchanged, Changes, one, both, saves,
}
use doc_manage_and_generatio.Generation.Flow.Requests.{
  confirm_generation_facts-Changes, request_generation-Changes,
}
use doc_manage_and_generatio.Generation.Flow.Retry.{create_generation_task-Changes}
use doc_manage_and_generatio.Generation.Flow.Events.{prepare_fact_confirmation-Changes}

pub confirm_and_request_generation-Changes :
    (checks : Checks) (request : Request) (key : ℕ) (items : List (Option ConfirmedFact))
    (s : Store) {t : GenerationTask} {s' : Store}
    → confirm_and_request_generation checks request key items s ≡ ok (t, s')
    → Changes Act.confirming_and_requesting s s'
unfolding confirm_and_request_generation
confirm_and_request_generation-Changes checks request key items s {t} {s'} h =
    elim (Result-cases (confirm_generation_facts checks request key items s)) [
      | inl (error, e) ↦ ground arith
      | inr ((x, mid), e) ↦
          let next : request_generation request x.pk mid ≡ ok (t, s') = ground arith in
          both
            (confirm_generation_facts-Changes {act = Act.confirming_and_requesting} refl checks
              request key items s e)
            (request_generation-Changes {act = Act.confirming_and_requesting} refl request x.pk mid
              next)
    ]

-- The loop writes sources only.
add_sources-unchanged :
    (request : Request) (t : GenerationTask) (keys : List ℕ) (s : Store) {s' : Store}
    → add_sources request t keys s ≡ ok s'
    → (s'.tasks ≡ s.tasks) × (s'.sections ≡ s.sections) × (s'.events ≡ s.events)
unfolding add_sources get_or_create_source
add_sources-unchanged request t [] s h = ground arith
add_sources-unchanged request t (key ∷ rest) s {s'} h =
    elim (Option-cases (visible_source_version request s.db t.project key)) [
      | inl e ↦ ground arith
      | inr ((v, d), e) ↦
          let next : add_sources request t rest (get_or_create_source t v s) ≡ ok s' =
            ground arith in
          let (a, b, c) = add_sources-unchanged request t rest (get_or_create_source t v s) next in
          ground arith
    ]

pub add_generation_sources-Changes :
    {act : Act} (request : Request) (key : ℕ) (versions : List ℕ) (s : Store) {t : GenerationTask}
    {s' : Store}
    → add_generation_sources request key versions s ≡ ok (t, s')
    → Changes act s s'
unfolding add_generation_sources locked_task ensure_status log
add_generation_sources-Changes request key versions s h = elim (Option-cases (find_task s key)) [
  | inl e ↦ ground arith
  | inr (x, e) ↦ elim (Result-cases (add_sources request x (unique_keys [] versions) s)) [
    | inl (error, f) ↦ ground arith
    | inr (added, f) ↦
        let (a, b, c) = add_sources-unchanged request x (unique_keys [] versions) s f in
        one (unchanged (ground arith) (ground arith) (ground arith))
  ]
]

pub start_compilation_pipeline-Changes :
    (creator : Creator) (request : Request) (data' : NewTask) (versions : List ℕ) (s : Store)
    {made : GenerationTask × Bool} {s' : Store}
    → start_compilation_pipeline creator request data' versions s ≡ ok (made, s')
    → Changes Act.requesting_extraction s s'
unfolding start_compilation_pipeline
start_compilation_pipeline-Changes creator request data' versions s {made} {s'} h =
    elim (Result-cases (create_generation_task creator request data' s)) [
      | inl (error, e) ↦ ground arith
      | inr (((t, created), mid), e) ↦
          let begun : Changes Act.requesting_extraction s mid =
            create_generation_task-Changes creator request data' s e in
          elim (Bool-cases (not created && not (is_draft t.status))) [
            | inl c ↦
                let same : mid ≡ s' = ground arith in
                subst (Changes Act.requesting_extraction s) same begun
            | inr c ↦ elim (Result-cases (add_generation_sources request t.pk versions mid)) [
              | inl (error, f) ↦ ground arith
              | inr ((x, added), f) ↦
                  elim (Result-cases (prepare_fact_confirmation request t.pk added)) [
                    | inl (error, g) ↦ ground arith
                    | inr ((y, ready), g) ↦
                        let same : ready ≡ s' = ground arith in
                        subst (Changes Act.requesting_extraction s) same (
                          both begun (
                            both (add_generation_sources-Changes request t.pk versions mid f)
                              (prepare_fact_confirmation-Changes request t.pk added g)))
                  ]
            ]
          ]
    ]

stored_output-same :
    (r : Result Document × System) (s : Store) {d : Document} {stored : Store}
    → stored_output r s ≡ ok (d, stored)
    → (stored.tasks ≡ s.tasks) × (stored.sections ≡ s.sections) × (stored.events ≡ s.events)
unfolding stored_output
stored_output-same (err e, sys) s h = ground arith
stored_output-same (ok d, sys) s h = ground arith

-- What an export that goes through leaves.
pub record Published (x t : GenerationTask) (key : String) (s s' : Store) : Type 0 where
  pub same_key : t.pk ≡ x.pk
  pub exported : t.status ≡ Status.exported
  pub complete : t.progress ≡ 100
  pub idempotency_key : t.export_idempotency_key ≡ key
  pub written : s'.tasks ≡ put_task t s.tasks
  pub same_sections : s'.sections ≡ s.sections
  pub same_events : s'.events ≡ s.events

pub publish-Published :
    (exporter : Exporter) (request : Request) (x : GenerationTask) (template : DocumentTemplate)
    (filename : Option String) (key : String) (s : Store) {t : GenerationTask} {s' : Store}
    → publish exporter request x template filename key s ≡ ok (t, s')
    → Published x t key s s'
unfolding publish exported_task log add_review
publish-Published exporter request x template filename key s {t} {s'} h =
    elim (Result-cases (prepare_output exporter request x template filename s)) [
      | inl (error, e) ↦ ground arith
      | inr ((folder, upload, fields, pending), e) ↦
          let sys : System = record { db = s.db; files = s.files } in
          let created = create_document request exporter.settings folder upload fields sys in
          elim (Result-cases (stored_output created s)) [
            | inl (error, f) ↦ ground arith
            | inr ((d, stored), f) ↦
                let (a, b, c) = stored_output-same created s f in
                record {
                  same_key = ground arith;
                  exported = ground arith;
                  complete = ground arith;
                  idempotency_key = ground arith;
                  written = ground arith;
                  same_sections = ground arith;
                  same_events = ground arith;
                }
          ]
    ]

pub export_generation_task-Changes :
    (exporter : Exporter) (request : Request) (key : ℕ) (idempotency_key : String)
    (filename : Option String) (s : Store) {t : GenerationTask} {s' : Store}
    → export_generation_task exporter request key idempotency_key filename s ≡ ok (t, s')
    → Changes Act.exporting s s'
unfolding export_generation_task export_checked locked_task template_of ensure_status
export_generation_task-Changes exporter request key idempotency_key filename s {t} {s'} h =
    elim (Option-cases (find_task s key)) [
      | inl e ↦ ground arith
      | inr (x, e) ↦ elim (Bool-cases (is_exported x.status)) [
        | inl b ↦ one (unchanged (ground arith) (ground arith) (ground arith))
        | inr b ↦ elim (Option-cases (find_template s x.template)) [
          | inl d ↦ ground arith
          | inr (template, d) ↦ elim (Option-cases (exporter.template_order template)) [
            | inl o ↦ ground arith
            | inr (order, o) ↦
                let through : publish exporter request x template filename (strip idempotency_key) s
                    ≡ ok (t, s') =
                  ground arith in
                let p = publish-Published exporter request x template filename _ s through in
                saves s key t e p.same_key p.written
                  (inr (draft_exported (ground arith) p.exported)) (λ q. ground (arith, p.complete))
                  p.same_sections p.same_events
          ]
        ]
      ]
    ]
