-- ===== src/Generation/Laws/Alike.antt =====
-- Stores in which a creation of a task finds the same users, projects, persons, files and prompts.
use doc_manage_and_generatio.Prelude.{
  ℕ, ◌+◌, String, some, List, [], ◌∷◌, ◌++◌, ◌≡◌, refl, inl, inr, arith, ap, ◌∙◌, find?,
  Option-cases, ◌==◌,
}
use doc_manage_and_generatio.Prelude.{◌&&◌}
use doc_manage_and_generatio.Schema.{Request, success, Actor}
use doc_manage_and_generatio.Audit.{audit_log}
use doc_manage_and_generatio.Projects.Membership.{get_project_membership}
use doc_manage_and_generatio.Generation.Schema.{DocumentTemplate, GenerationTask, Store}
use doc_manage_and_generatio.Generation.Guards.{can_use_generation, ensure_active_project, log}
use doc_manage_and_generatio.Generation.Context.{
  persons_of, person_of, personnel_profile_for, unread_layout, keep_layout, with_layout,
  is_personnel_folder, chosen_personnel,
}

-- the store after the insertion of a task
unfoldable pub with_task : Request → GenerationTask → Store → Store
with_task request t s =
    log request.actor "document_generation.task.create" (some t.pk) success
      (record s { tasks = s.tasks ++ t ∷ []; next_pk = s.next_pk + 1 })

-- What a creation reads besides the tasks is the same in both stores.
pub record Alike (s s' : Store) : Type 0 where
  pub allows :
      (actor : Actor) (project : ℕ)
      → can_use_generation s' actor project ≡ can_use_generation s actor project
  pub active : (project : ℕ) → ensure_active_project s' project ≡ ensure_active_project s project
  pub chosen : (ids : List ℕ) → chosen_personnel s'.db ids ≡ chosen_personnel s.db ids
  pub persons : (keys : List ℕ) → persons_of s' keys ≡ persons_of s keys
  pub version :
      (template : DocumentTemplate)
      → find? (λ v. v.pk == template.document_version) s'.db.versions
        ≡ find? (λ v. v.pk == template.document_version) s.db.versions
  pub files : s'.files ≡ s.files
  pub prompts : s'.prompts ≡ s.prompts

pub both-Alike : {s mid s' : Store} → Alike s mid → Alike mid s' → Alike s s'
both-Alike a b = record {
  allows = λ actor project. b.allows actor project ∙ a.allows actor project;
  active = λ project. b.active project ∙ a.active project;
  chosen = λ ids. b.chosen ids ∙ a.chosen ids;
  persons = λ keys. b.persons keys ∙ a.persons keys;
  version = λ template. b.version template ∙ a.version template;
  files = b.files ∙ a.files;
  prompts = b.prompts ∙ a.prompts;
}

pub same-Alike : {s s' : Store} → s' ≡ s → Alike s s'
same-Alike e = record {
  allows = λ actor project. ap (λ x. can_use_generation x actor project) e;
  active = λ project. ap (λ x. ensure_active_project x project) e;
  chosen = λ ids. ap (λ (x : Store). chosen_personnel x.db ids) e;
  persons = λ keys. ap (λ x. persons_of x keys) e;
  version = λ template.
      ap (λ (x : Store). find? (λ v. v.pk == template.document_version) x.db.versions) e;
  files = ap (λ (x : Store). x.files) e;
  prompts = ap (λ (x : Store). x.prompts) e;
}

with_templates : Store → List DocumentTemplate → Store
with_templates s rows = record s { templates = rows }

with_templates-persons_of :
    (s : Store) (rows : List DocumentTemplate) (keys : List ℕ)
    → persons_of (with_templates s rows) keys ≡ persons_of s keys
unfolding with_templates persons_of person_of personnel_profile_for
with_templates-persons_of s rows [] = refl
with_templates-persons_of s rows (k ∷ rest) =
    let same = with_templates-persons_of s rows rest in
    elim (Option-cases (find? (λ f. f.pk == k && is_personnel_folder s.db f) s.db.folders)) [
      | inl e ↦ ground (arith, e, same)
      | inr (f, e) ↦ ground (arith, e, same)
    ]

with_templates-Alike : (s : Store) (rows : List DocumentTemplate) → Alike s (with_templates s rows)
unfolding with_templates can_use_generation ensure_active_project
with_templates-Alike s rows = record {
  allows = λ actor project. refl;
  active = λ project. refl;
  chosen = λ ids. refl;
  persons = with_templates-persons_of s rows;
  version = λ template. refl;
  files = refl;
  prompts = refl;
}

with_task-persons_of :
    (request : Request) (t : GenerationTask) (s : Store) (keys : List ℕ)
    → persons_of (with_task request t s) keys ≡ persons_of s keys
unfolding with_task log audit_log persons_of person_of personnel_profile_for is_personnel_folder
with_task-persons_of request t s [] = refl
with_task-persons_of request t s (k ∷ rest) =
    let same = with_task-persons_of request t s rest in
    elim (Option-cases (find? (λ f. f.pk == k && is_personnel_folder s.db f) s.db.folders)) [
      | inl e ↦ ground (arith, e, same)
      | inr (f, e) ↦ ground (arith, e, same)
    ]

with_task-can_use_generation :
    (request : Request) (t : GenerationTask) (s : Store) (actor : Actor) (project : ℕ)
    → can_use_generation (with_task request t s) actor project ≡ can_use_generation s actor project
unfolding with_task log audit_log can_use_generation get_project_membership
with_task-can_use_generation request t s Actor.anonymous project = refl
with_task-can_use_generation request t s (Actor.signed_in u) project = refl

pub with_task-Alike :
    (request : Request) (t : GenerationTask) (s : Store) → Alike s (with_task request t s)
unfolding with_task log audit_log ensure_active_project chosen_personnel is_personnel_folder
with_task-Alike request t s = record {
  allows = with_task-can_use_generation request t s;
  active = λ project. refl;
  chosen = λ ids. refl;
  persons = with_task-persons_of request t s;
  version = λ template. refl;
  files = refl;
  prompts = refl;
}

pub with_layout-Alike :
    (infer_layout : String → String) (s : Store) (template : DocumentTemplate)
    → Alike s (with_layout infer_layout s template)
unfolding with_layout with_templates
with_layout-Alike infer_layout s template =
    elim (Option-cases (unread_layout infer_layout s template)) [
      | inl e ↦ same-Alike (ground (arith, e))
      | inr (path, e) ↦
          let rows = keep_layout infer_layout template (infer_layout path) s.templates in
          both-Alike (with_templates-Alike s rows) (same-Alike (ground (arith, e)))
    ]
