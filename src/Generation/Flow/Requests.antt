-- ===== src/Generation/Flow/Requests.antt =====
-- The operations on a task that the users call change the tables along the diagram.
use doc_manage_and_generatio.Prelude.{
  true, ℕ, String, Option, some, List, ◌≡◌, refl, inl, inr, arith, Option-cases,
}
use doc_manage_and_generatio.Outcome.{ok, Result-cases}
use doc_manage_and_generatio.Schema.{Request, actor_pk}
use doc_manage_and_generatio.Generation.Schema.{ConfirmedFact, GenerationTask, Store}
use doc_manage_and_generatio.Generation.Guards.{
  find_task, find_template, locked_task, template_of, ensure_status, log, on_commit, add_review,
}
use doc_manage_and_generatio.Generation.Compile.{
  Checks, validate_facts, confirm_generation_facts, request_generation, stop_generation_task,
  delete_generation_task,
}
use doc_manage_and_generatio.Generation.Review.{submit_generation_review, approve_generation_task}
use doc_manage_and_generatio.Generation.Flow.Diagram.{
  Act, confirms, requests, facts_confirmed, generation_requested, review_submitted, draft_approved,
  user_stopped, unchanged, Changes, one, saves,
}

pub request_generation-Changes :
    {act : Act}
    → requests act ≡ true
    → (request : Request) (key : ℕ) (s : Store) {t : GenerationTask} {s' : Store}
    → request_generation request key s ≡ ok (t, s')
    → Changes act s s'
unfolding request_generation locked_task ensure_status log on_commit
request_generation-Changes move request key s {t} h = elim (Option-cases (find_task s key)) [
  | inl e ↦ ground arith
  | inr (x, e) ↦
      saves s key t e (ground arith) (ground arith)
        (inr (generation_requested move (ground arith) (ground arith))) (λ p. ground arith)
        (ground arith) (ground arith)
]

pub submit_generation_review-Changes :
    (request : Request) (key : ℕ) (comment : String) (s : Store) {t : GenerationTask} {s' : Store}
    → submit_generation_review request key comment s ≡ ok (t, s')
    → Changes Act.submitting s s'
unfolding submit_generation_review locked_task ensure_status template_of log add_review
submit_generation_review-Changes request key comment s {t} h =
    elim (Option-cases (find_task s key)) [
      | inl e ↦ ground arith
      | inr (x, e) ↦ elim (Option-cases (find_template s x.template)) [
        | inl d ↦ ground arith
        | inr (y, d) ↦
            saves s key t e (ground arith) (ground arith)
              (inr (review_submitted (ground arith) (ground arith))) (λ p. ground arith)
              (ground arith) (ground arith)
      ]
    ]

pub approve_generation_task-Changes :
    (request : Request) (key : ℕ) (comment : String) (s : Store) {t : GenerationTask} {s' : Store}
    → approve_generation_task request key comment s ≡ ok (t, s')
    → Changes Act.approving s s'
unfolding approve_generation_task locked_task ensure_status template_of log add_review
approve_generation_task-Changes request key comment s {t} h =
    elim (Option-cases (find_task s key)) [
      | inl e ↦ ground arith
      | inr (x, e) ↦ elim (Option-cases (find_template s x.template)) [
        | inl d ↦ ground arith
        | inr (y, d) ↦
            saves s key t e (ground arith) (ground arith)
              (inr (draft_approved (ground arith) (ground arith))) (λ p. ground arith)
              (ground arith) (ground arith)
      ]
    ]

pub stop_generation_task-Changes :
    (request : Request) (key : ℕ) (s : Store) {t : GenerationTask} {s' : Store}
    → stop_generation_task request key s ≡ ok (t, s')
    → Changes Act.stopping s s'
unfolding stop_generation_task locked_task ensure_status log add_review on_commit
stop_generation_task-Changes request key s {t} h = elim (Option-cases (find_task s key)) [
  | inl e ↦ ground arith
  | inr (x, e) ↦
      saves s key t e (ground arith) (ground arith)
        (inr (user_stopped (ground arith) (ground arith))) (λ p. ground arith) (ground arith)
        (ground arith)
]

pub delete_generation_task-Changes :
    (request : Request) (key : ℕ) (s : Store) {s' : Store}
    → delete_generation_task request key s ≡ ok s'
    → Changes Act.writing s s'
unfolding delete_generation_task locked_task log on_commit
delete_generation_task-Changes request key s {s'} h = elim (Option-cases (find_task s key)) [
  | inl e ↦ ground arith
  | inr (x, e) ↦ elim (Option-cases x.deleted_at) [
    | inr (time, d) ↦ one (unchanged (ground arith) (ground arith) (ground arith))
    | inl d ↦
        let marked : GenerationTask = record x {
          deleted_at = some (request.now 0);
          deleted_by = actor_pk request.actor;
          updated_at = request.now 1;
        } in
        saves s key marked e refl (ground arith) (inl refl) (λ p. p) (ground arith) (ground arith)
  ]
]

pub confirm_generation_facts-Changes :
    {act : Act}
    → confirms act ≡ true
    → (checks : Checks) (request : Request) (key : ℕ) (items : List (Option ConfirmedFact))
      (s : Store) {t : GenerationTask} {s' : Store}
    → confirm_generation_facts checks request key items s ≡ ok (t, s')
    → Changes act s s'
unfolding confirm_generation_facts locked_task ensure_status template_of log add_review
confirm_generation_facts-Changes move checks request key items s {t} h =
    elim (Option-cases (find_task s key)) [
      | inl e ↦ ground arith
      | inr (x, e) ↦ elim (Result-cases (validate_facts s x request.actor items)) [
        | inl (error, v) ↦ ground arith
        | inr (facts, v) ↦ elim (Option-cases (find_template s x.template)) [
          | inl d ↦ ground arith
          | inr (y, d) ↦
              saves s key t e (ground arith) (ground arith)
                (inr (facts_confirmed move (ground arith) (ground arith))) (λ p. ground arith)
                (ground arith) (ground arith)
        ]
      ]
    ]
