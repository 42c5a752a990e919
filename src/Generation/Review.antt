-- ===== src/Generation/Review.antt =====
-- apps/document_generation/services.py: a finished draft is submitted, approved and exported.
use doc_manage_and_generatio.Prelude.{
  ℕ, String, Bool, not, ◌&&◌, ◌||◌, none, some, List, map, ◌==◌, str_eq, any, filter,
}
use doc_manage_and_generatio.Text.{strip}
use doc_manage_and_generatio.Outcome.{Result, ok, ◌>>=◌, ◌>>◌, raise_if, generation_error}
use doc_manage_and_generatio.Schema.{Request, success, actor_pk}
use doc_manage_and_generatio.Generation.Schema.{Status, GenerationTask, ReviewAction, Store}
use doc_manage_and_generatio.Generation.Guards.{
  locked_task, template_of, ensure_active_project, ensure_task_user, ensure_review_user,
  ensure_status, is_in_review, is_pending_approval, has_error, save_task, add_review, plain_review,
  log,
}

abbrev pub section_codes : GenerationTask → Store → List String
section_codes t s = map (λ x. x.section_code) (filter (λ x. x.task == t.pk) s.sections)

-- `value in values`
abbrev pub is_among : List String → String → Bool
is_among values value = any (str_eq value) values

-- `expected - actual`
unfoldable pub lacks : List String → List String → Bool
lacks expected actual = any (λ code. not (is_among actual code)) expected

-- `expected != actual`, on sets
unfoldable pub differs : List String → List String → Bool
unfolding lacks
differs expected actual = lacks expected actual || lacks actual expected

unfoldable pub has_unlocked : GenerationTask → Store → Bool
has_unlocked t s = any (λ x. x.task == t.pk && not x.is_locked) s.sections

unfoldable pub has_invalid : GenerationTask → Store → Bool
has_invalid t s = any (λ x. x.task == t.pk && has_error x) s.sections

unfoldable pub submit_generation_review :
    Request → ℕ → String → Store → Result (GenerationTask × Store)
unfolding plain_review log
submit_generation_review request key comment s = do
  t ← locked_task s key
  ensure_task_user s request.actor t
  ensure_active_project s t.project
  ensure_status t is_in_review
  template ← template_of s t
  raise_if (differs template.section_order (section_codes t s) || has_unlocked t s)
      (generation_error "REVIEW_INCOMPLETE")
  let changed = record t { status = Status.pending_approval; updated_at = request.now 0 }
  let review = plain_review t.pk none ReviewAction.submitted (strip comment) request.actor
  ok (
    changed,
    log request.actor "document_generation.review.submit" (some t.pk) success
        (add_review review (save_task changed s)),
  )

unfoldable pub approve_generation_task :
    Request → ℕ → String → Store → Result (GenerationTask × Store)
unfolding plain_review log
approve_generation_task request key comment s = do
  t ← locked_task s key
  ensure_review_user s request.actor t
  ensure_active_project s t.project
  ensure_status t is_pending_approval
  template ← template_of s t
  raise_if (lacks template.section_order (section_codes t s))
      (generation_error "SECTIONS_INCOMPLETE")
  raise_if (has_unlocked t s) (generation_error "SECTIONS_NOT_LOCKED")
  raise_if (has_invalid t s) (generation_error "VALIDATION_FAILED")
  let changed = record t {
    status = Status.approved;
    progress = 95;
    reviewed_by = actor_pk request.actor;
    approved_at = some (request.now 0);
    updated_at = request.now 1;
  }
  let review = plain_review t.pk none ReviewAction.approval (strip comment) request.actor
  ok (
    changed,
    log request.actor "document_generation.review.approve" (some t.pk) success
        (add_review review (save_task changed s)),
  )
