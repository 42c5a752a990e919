-- ===== src/Generation/Flow/Progress.antt =====
-- The progress of the tasks stays within the database's constraint, through any run.
use doc_manage_and_generatio.Prelude.{
  ◌≤◌, List, [], ◌∷◌, ◌++◌, ◌≡◌, inl, inr, Memᴰ, arith, ap, sym, subst, ◌==◌, find?-mem,
  mem-update_where, mem-concat,
}
use doc_manage_and_generatio.Generation.Schema.{GenerationTask, Store}
use doc_manage_and_generatio.Generation.Guards.{put_task}
use doc_manage_and_generatio.Generation.Flow.Diagram.{
  Act, TaskSaved, TasksMapped, Change, unchanged, task_saved, task_created, section_saved,
  section_created, sections_locked, tasks_mapped, event_added, Changes, one, both,
}
use doc_manage_and_generatio.Generation.Flow.Steps.{Step-Changes, Run, done, next}

-- `docgen_task_progress_ck`
unfoldable pub HasProgress : List GenerationTask → Type 0
HasProgress tasks = (t : GenerationTask) → Memᴰ t tasks → t.progress ≤ 100

saved-HasProgress :
    {act : Act} {s s' : Store} → TaskSaved act s s' → HasProgress s.tasks → HasProgress s'.tasks
unfolding put_task HasProgress
saved-HasProgress {s} c all t m =
    let (a, i, which) =
      mem-update_where (λ x. x.pk == c.after.pk) (λ x. c.after) s.tasks
        (subst (λ xs. Memᴰ t xs) c.written m) in
    elim which [
      | inl (h, e) ↦
          subst (λ (x : GenerationTask). x.progress ≤ 100) (sym e)
            (c.progress (all c.before (find?-mem (λ x. x.pk == c.before.pk) s.tasks c.found).0))
      | inr (h, e) ↦ subst (λ (x : GenerationTask). x.progress ≤ 100) (sym e) (all a i)
    ]

mapped-HasProgress :
    {act : Act} {s s' : Store} → TasksMapped act s s' → HasProgress s.tasks → HasProgress s'.tasks
unfolding HasProgress
mapped-HasProgress {s} c all t m =
    let (a, i, which) =
      mem-update_where c.test c.change s.tasks (subst (λ xs. Memᴰ t xs) c.written m) in
    elim which [
      | inl (h, e) ↦
          ground (arith, all a i, c.progress a, ap (λ (x : GenerationTask). x.progress) e)
      | inr (h, e) ↦ subst (λ (x : GenerationTask). x.progress ≤ 100) (sym e) (all a i)
    ]

created-HasProgress :
    (tasks : List GenerationTask) (x : GenerationTask)
    → x.progress ≡ 0
    → HasProgress tasks
    → HasProgress (tasks ++ x ∷ [])
unfolding HasProgress
created-HasProgress tasks x zero_progress all t m = elim (mem-concat tasks x m) [
  | inl i ↦ all t i
  | inr e ↦ ground (arith, zero_progress, ap (λ (y : GenerationTask). y.progress) e)
]

change-HasProgress :
    {act : Act} {s s' : Store} → Change act s s' → HasProgress s.tasks → HasProgress s'.tasks
change-HasProgress (unchanged tasks sections events) all = subst HasProgress (sym tasks) all
change-HasProgress (task_saved c) all = saved-HasProgress c all
change-HasProgress {s} (task_created x status progress tasks sections events) all =
    subst HasProgress (sym tasks) (created-HasProgress s.tasks x progress all)
change-HasProgress (section_saved c) all = subst HasProgress (sym c.same_tasks) all
change-HasProgress (section_created x fresh locked revision sections tasks events) all =
    subst HasProgress (sym tasks) all
change-HasProgress (sections_locked task sections tasks events) all =
    subst HasProgress (sym tasks) all
change-HasProgress (tasks_mapped c) all = mapped-HasProgress c all
change-HasProgress (event_added c) all = subst HasProgress (sym c.same_tasks) all

Changes-HasProgress :
    {act : Act} {s s' : Store} → Changes act s s' → HasProgress s.tasks → HasProgress s'.tasks
Changes-HasProgress (one c) all = change-HasProgress c all
Changes-HasProgress (both c d) all = Changes-HasProgress d (Changes-HasProgress c all)

-- If every task's progress is at most 100, it still is after any run.
pub progress_stays_within_bounds :
    {s s' : Store} → Run s s' → HasProgress s.tasks → HasProgress s'.tasks
progress_stays_within_bounds (done s) all = all
progress_stays_within_bounds (next {s} step run) all =
    progress_stays_within_bounds run (Changes-HasProgress (Step-Changes s step) all)
