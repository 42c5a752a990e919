-- ===== src/Generation/Flow/Events.antt =====
-- An event changes the tables as the diagram says; so do the operations that report one.
use doc_manage_and_generatio.Prelude.{
  ℕ, ◌+◌, ◌≤◌, String, false, some, List, [], ◌∷◌, ◌++◌, ◌≡◌, refl, inl, any, subst, inr, arith,
  ltb, str_eq, Bool-cases, Option-cases,
}
use doc_manage_and_generatio.Outcome.{ok, Result-cases}
use doc_manage_and_generatio.Schema.{Request}
use doc_manage_and_generatio.Generation.Schema.{
  Operation, GenerationTask, GenerationTraceEvent, Store,
}
use doc_manage_and_generatio.Generation.Guards.{
  find_task, locked_task, ensure_status, log, on_commit, put_task,
}
use doc_manage_and_generatio.Generation.Events.{
  Event, extract_progress, generate_progress, progress_at, next_progress, max_sequence, sequences,
  new_event, advance, emit,
}
use doc_manage_and_generatio.Generation.Sources.{extraction_queued, prepare_fact_confirmation}
use doc_manage_and_generatio.Generation.Flow.Diagram.{
  Act, extraction_requested, unchanged, event_added, Changes, one, both, saves,
}

progress_at-le :
    (bound : ℕ) (table : List (String × ℕ)) (stage : String) {n : ℕ}
    → any (λ r. ltb bound r.1) table ≡ false
    → progress_at table stage ≡ some n
    → n ≤ bound
unfolding progress_at
progress_at-le bound [] stage below h = ground arith
progress_at-le bound ((name, m) ∷ rest) stage below h = elim (Bool-cases (str_eq name stage)) [
  | inl e ↦ ground arith
  | inr e ↦ progress_at-le bound rest stage (ground arith) (ground arith)
]

-- No stage is further than 90.
next_progress-le :
    (operation : Operation) (stage : String) {n : ℕ}
    → next_progress operation stage ≡ some n
    → n ≤ 90
unfolding next_progress
next_progress-le Operation.extract stage h = progress_at-le 90 extract_progress stage refl h
next_progress-le Operation.generate stage h = progress_at-le 90 generate_progress stage refl h

advance-Changes :
    {act : Act} (now key : ℕ) (s : Store) {t : GenerationTask} (event : Event)
    → find_task s key ≡ some t
    → Changes act s (advance now t event s)
unfolding advance
advance-Changes now key s {t} event e = elim (Bool-cases (str_eq event.status "failed")) [
  | inl f ↦ one (unchanged (ground arith) (ground arith) (ground arith))
  | inr f ↦ elim (Option-cases (next_progress t.operation event.stage)) [
    | inl p ↦ one (unchanged (ground arith) (ground arith) (ground arith))
    | inr (n, p) ↦ elim (Bool-cases (ltb t.progress n)) [
      | inr l ↦ one (unchanged (ground arith) (ground arith) (ground arith))
      | inl l ↦
          saves s key (record t { progress = n; updated_at = now }) e refl (ground arith) (inl refl)
            (λ q. ground (arith, next_progress-le t.operation event.stage p)) (ground arith)
            (ground arith)
    ]
  ]
]

new_event-next :
    (s : Store) (t : GenerationTask) (event : Event)
    → (new_event s t event).sequence
      ≡ max_sequence (sequences (new_event s t event).task s.events) + 1
unfolding new_event
new_event-next s t event = refl

pub emit-Changes :
    {act : Act} (request : Request) (key : ℕ) (event : Event) (s : Store)
    {row : GenerationTraceEvent} {s' : Store}
    → emit request key event s ≡ ok (row, s')
    → Changes act s s'
unfolding emit locked_task
emit-Changes {act} request key event s {row} {s'} h = elim (Option-cases (find_task s key)) [
  | inl e ↦ ground arith
  | inr (t, e) ↦
      let inserted : Store = record s { events = s.events ++ new_event s t event ∷ [] } in
      let added : Changes act s inserted = one (
        event_added (record {
          event = new_event s t event;
          next = new_event-next s t event;
          added = refl;
          same_tasks = refl;
          same_sections = refl;
        })) in
      let end : advance (request.now 0) t event inserted ≡ s' = ground arith in
      subst (Changes act s) end (both added (advance-Changes (request.now 0) key inserted event e))
]

pub prepare_fact_confirmation-Changes :
    (request : Request) (key : ℕ) (s : Store) {t : GenerationTask} {s' : Store}
    → prepare_fact_confirmation request key s ≡ ok (t, s')
    → Changes Act.requesting_extraction s s'
unfolding prepare_fact_confirmation locked_task ensure_status log on_commit
prepare_fact_confirmation-Changes request key s {t} {s'} h = elim (Option-cases (find_task s key)) [
  | inl e ↦ ground arith
  | inr (x, e) ↦
      let saved : Store = record s { tasks = put_task t s.tasks } in
      elim (Result-cases (emit request x.pk extraction_queued saved)) [
        | inl (error, f) ↦ ground arith
        | inr ((row, traced), f) ↦
            both
              (saves s key t e (ground arith) refl
                (inr (extraction_requested (ground arith) (ground arith))) (λ p. ground arith) refl
                refl)
              (both (emit-Changes request x.pk extraction_queued saved f)
                (one (unchanged (ground arith) (ground arith) (ground arith))))
      ]
]
