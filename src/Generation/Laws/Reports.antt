-- ===== src/Generation/Laws/Reports.antt =====
-- The progress of a task over the events that its worker reports.
use doc_manage_and_generatio.Prelude.{
  ℕ, ◌≤◌, true, false, Option, none, some, List, [], ◌∷◌, ◌≡◌, refl, inl, inr, ◌⊎◌, Memᴰ, arith, ap,
  ◌∙◌, ◌==◌, ltb, str_eq, if◌then◌else◌, find?, Bool-cases, Option-cases, subst, sym,
}
use mathlib.Core.List.Memᴰ.{head, tail}
use doc_manage_and_generatio.Outcome.{ok}
use doc_manage_and_generatio.Schema.{Request}
use doc_manage_and_generatio.Generation.Schema.{
  Operation, GenerationTask, GenerationTraceEvent, Store,
}
use doc_manage_and_generatio.Generation.Guards.{find_task, locked_task, put_task}
use doc_manage_and_generatio.Generation.Events.{
  Event, extract_progress, generate_progress, progress_at, next_progress, advance, emit,
}
use doc_manage_and_generatio.Generation.Laws.Stops.{put_task-found}

-- Events that are reported one after another, each in a transaction of its own.
pub data Reports (key : ℕ) : List Event → Store → Store → Type 0 where
  nothing : {s : Store} → Reports key [] s s
  report :
      (request : Request) (event : Event) {events : List Event} {row : GenerationTraceEvent}
      {s mid s' : Store}
      → emit request key event s ≡ ok (row, mid)
      → Reports key events mid s'
      → Reports key (event ∷ events) s s'

-- the progress that an event stands for: none if it reports a failure or its stage has none
unfoldable pub stands_for : Operation → Event → Option ℕ
stands_for operation event = if str_eq event.status "failed" then none else elim operation [
  | Operation.extract ↦ progress_at extract_progress event.stage
  | Operation.generate ↦ progress_at generate_progress event.stage
]

-- `n` is the greatest of `first` and what the events stand for.
pub record IsFurthest (operation : Operation) (events : List Event) (first n : ℕ) : Type 0 where
  pub kept : first ≤ n
  pub reached :
      (event : Event) → Memᴰ event events → (m : ℕ) → stands_for operation event ≡ some m → m ≤ n
  pub reason :
      (n ≡ first) ⊎ ((event : Event) × Memᴰ event events × (stands_for operation event ≡ some n))

stands_for-next_progress :
    (operation : Operation) (event : Event)
    → str_eq event.status "failed" ≡ false
    → stands_for operation event ≡ next_progress operation event.stage
unfolding stands_for next_progress
stands_for-next_progress Operation.extract event h = ground arith
stands_for-next_progress Operation.generate event h = ground arith

stands_for-failed :
    (operation : Operation) (event : Event)
    → str_eq event.status "failed" ≡ true
    → stands_for operation event ≡ none
unfolding stands_for
stands_for-failed operation event h = ground arith

-- an event that leaves the tasks alone, since it stands for nothing or the task is as far already
still-IsFurthest :
    (operation : Operation) (event : Event) (n : ℕ)
    → (stands_for operation event ≡ none)
      ⊎ ((m : ℕ) × (stands_for operation event ≡ some m) × (m ≤ n))
    → IsFurthest operation (event ∷ []) n n
still-IsFurthest operation event n which = record {
  kept = ground arith;
  reached = go;
  reason = inl refl;
}
  where
    go :
        (other : Event)
        → Memᴰ other (event ∷ [])
        → (m : ℕ) → stands_for operation other ≡ some m
        → m ≤ n
    go other (head e) m h =
        let h' : stands_for operation event ≡ some m =
          subst (λ x. stands_for operation x ≡ some m) e h in
        ground (arith, which)
    go other (tail x) m h = elim x [ ]

ahead-IsFurthest :
    (operation : Operation) (event : Event) (first n : ℕ)
    → stands_for operation event ≡ some n
    → first ≤ n
    → IsFurthest operation (event ∷ []) first n
ahead-IsFurthest operation event first n e l = record {
  kept = l;
  reached = go;
  reason = inr (event, head refl, e);
}
  where
    go :
        (other : Event)
        → Memᴰ other (event ∷ [])
        → (m : ℕ) → stands_for operation other ≡ some m
        → m ≤ n
    go other (head same) m h =
        let h' : stands_for operation event ≡ some m =
          subst (λ x. stands_for operation x ≡ some m) same h in
        ground arith
    go other (tail x) m h = elim x [ ]

-- What one event does to its task.
emit-progress :
    (request : Request) (key : ℕ) (event : Event) (s : Store) {t : GenerationTask}
    {row : GenerationTraceEvent} {mid : Store}
    → find_task s key ≡ some t
    → emit request key event s ≡ ok (row, mid)
    → (m : GenerationTask) × (find_task mid key ≡ some m)
      × (m.operation ≡ t.operation)
      × (m.status ≡ t.status)
      × IsFurthest t.operation (event ∷ []) t.progress m.progress
unfolding emit locked_task advance
emit-progress request key event s {t} {row} {mid} e h =
    let unwritten : mid.tasks ≡ s.tasks → find_task mid key ≡ some t =
      λ same. ap (λ (xs : List GenerationTask). find? (λ x. x.pk == key) xs) same ∙ e in
    elim (Bool-cases (str_eq event.status "failed")) [
      | inl f ↦ (
        t,
        unwritten (ground arith),
        refl,
        refl,
        still-IsFurthest t.operation event t.progress (inl (stands_for-failed t.operation event f)),
      )
      | inr f ↦
          let same = stands_for-next_progress t.operation event f in
          elim (Option-cases (next_progress t.operation event.stage)) [
            | inl p ↦ (
              t,
              unwritten (ground arith),
              refl,
              refl,
              still-IsFurthest t.operation event t.progress (inl (same ∙ p)),
            )
            | inr (n, p) ↦ elim (Bool-cases (ltb t.progress n)) [
              | inr l ↦ (
                t,
                unwritten (ground arith),
                refl,
                refl,
                still-IsFurthest t.operation event t.progress (inr (n, same ∙ p, ground arith)),
              )
              | inl l ↦
                  let m : GenerationTask = record t { progress = n; updated_at = request.now 0 } in
                  let written : mid.tasks ≡ put_task m s.tasks = ground arith in
                  (
                    m,
                    ap (λ (xs : List GenerationTask). find? (λ x. x.pk == key) xs) written
                        ∙ put_task-found s key m e refl,
                    refl,
                    refl,
                    ahead-IsFurthest t.operation event t.progress n (same ∙ p) (ground arith),
                  )
            ]
          ]
    ]

-- the greatest of one event and of those behind it
both-IsFurthest :
    (operation : Operation) (event : Event) (events : List Event) (first mid n : ℕ)
    → IsFurthest operation (event ∷ []) first mid
    → IsFurthest operation events mid n
    → IsFurthest operation (event ∷ events) first n
both-IsFurthest operation event events first mid n a b = record {
  kept = ground (arith, a.kept, b.kept);
  reached = go;
  reason = elim b.reason [
    | inr (other, m, e) ↦ inr (other, tail m, e)
    | inl same ↦ elim a.reason [
      | inl first_same ↦ inl (same ∙ first_same)
      | inr (other, head k, e) ↦ inr (other, head k, e ∙ ap (λ x. some x) (sym same))
      | inr (other, tail m, e) ↦ elim m [ ]
    ]
  ];
}
  where
    go :
        (other : Event)
        → Memᴰ other (event ∷ events)
        → (m : ℕ) → stands_for operation other ≡ some m
        → m ≤ n
    go other (head k) m h = ground (arith, a.reached other (head k) m h, b.kept)
    go other (tail k) m h = b.reached other k m h

-- After any events of a task that are reported one after another, its progress is the greatest of what
-- it was and of what the events stand for that report no failure, in whatever order they come, and its
-- status is the same.
pub progress-IsFurthest :
    (key : ℕ) (events : List Event) {s s' : Store} {t : GenerationTask}
    → find_task s key ≡ some t
    → Reports key events s s'
    → (later : GenerationTask) × (find_task s' key ≡ some later)
      × (later.operation ≡ t.operation)
      × (later.status ≡ t.status)
      × IsFurthest t.operation events t.progress later.progress
progress-IsFurthest key [] {t = t} e nothing = (
  t,
  e,
  refl,
  refl,
  record { kept = ground arith; reached = λ event m. elim m [ ]; reason = inl refl },
)
progress-IsFurthest key (event ∷ events) {s} {t = t} e (report request _ h rest) =
    let (m, found, operation, status, a) = emit-progress request key event s e h in
    let (later, there, operation', status', b) = progress-IsFurthest key events found rest in
    (
      later,
      there,
      operation' ∙ operation,
      status' ∙ status,
      both-IsFurthest t.operation event events t.progress m.progress later.progress a
          (subst (λ o. IsFurthest o events m.progress later.progress) operation b),
    )
