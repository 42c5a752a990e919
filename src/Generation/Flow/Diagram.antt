-- ===== src/Generation/Flow/Diagram.antt =====
-- The diagram of the statuses of a task, and the changes of the tables that follow it.
use doc_manage_and_generatio.Prelude.{
  ◌+◌, ◌≤◌, Bool, true, false, [], ◌∷◌, ◌++◌, ◌≡◌, ◌≢◌, ◌⊎◌, Memᴰ, ℕ, String, some, ◌==◌, find?-mem,
  update_where, subst, sym, ==_iff,
}
use doc_manage_and_generatio.Generation.Schema.{
  Status, GenerationTask, GeneratedSection, GenerationTraceEvent, Store,
}
use doc_manage_and_generatio.Generation.Guards.{
  is_active_status, is_cancelled, put_task, put_section, find_task, is_section,
}
use doc_manage_and_generatio.Generation.Events.{sequences, max_sequence}
use doc_manage_and_generatio.Generation.Sections.{find_section, put_locks}
use doc_manage_and_generatio.Generation.Export.{is_exportable}

-- where a failure of the worker leaves a task
unfoldable pub is_after_failure : Status → Bool
is_after_failure Status.needs_confirmation = true
is_after_failure Status.review_required = true
is_after_failure Status.queued = true
is_after_failure Status.extracting = true
is_after_failure Status.failed = true
is_after_failure status = false

-- The kinds of transactions. `writing` stands for all that move no status.
pub data Act : Type 0 where
  requesting_extraction confirming requesting confirming_and_requesting retrying stopping
        sending_back submitting approving exporting claiming_extraction completing_extraction
        claiming_generation completing_generation failing recovering writing :
      Act

abbrev pub confirms : Act → Bool
confirms Act.confirming = true
confirms Act.confirming_and_requesting = true
confirms act = false

abbrev pub requests : Act → Bool
requests Act.requesting = true
requests Act.confirming_and_requesting = true
requests act = false

-- where a retry leaves a task
unfoldable pub is_after_retry : Status → Bool
is_after_retry Status.needs_confirmation = true
is_after_retry Status.queued = true
is_after_retry Status.extracting = true
is_after_retry status = false

-- Which kind of transaction moves a task from one status to another one.
pub data Edge (a b : Status) : Act → Type 0 where
  extraction_requested :
      a ≡ Status.draft → b ≡ Status.extracting → Edge a b Act.requesting_extraction
  facts_extracted :
      a ≡ Status.extracting → b ≡ Status.needs_confirmation → Edge a b Act.completing_extraction
  facts_confirmed :
      {act : Act}
      → confirms act ≡ true
      → a ≡ Status.needs_confirmation
      → b ≡ Status.ready
      → Edge a b act
  generation_requested :
      {act : Act} → requests act ≡ true → a ≡ Status.ready → b ≡ Status.queued → Edge a b act
  generation_claimed : a ≡ Status.queued → b ≡ Status.generating → Edge a b Act.claiming_generation
  draft_completed :
      a ≡ Status.generating → b ≡ Status.review_required → Edge a b Act.completing_generation
  section_sent_back : a ≡ Status.review_required → b ≡ Status.queued → Edge a b Act.sending_back
  review_submitted :
      a ≡ Status.review_required → b ≡ Status.pending_approval → Edge a b Act.submitting
  draft_approved : a ≡ Status.pending_approval → b ≡ Status.approved → Edge a b Act.approving
  draft_exported : is_exportable a ≡ true → b ≡ Status.exported → Edge a b Act.exporting
  failure_retried : a ≡ Status.failed → is_after_retry b ≡ true → Edge a b Act.retrying
  extraction_retried : a ≡ Status.needs_confirmation → b ≡ Status.extracting → Edge a b Act.retrying
  user_stopped : is_active_status a ≡ true → b ≡ Status.cancelled → Edge a b Act.stopping
  worker_interrupted : a ≡ Status.generating → b ≡ Status.queued → Edge a b Act.recovering
  generation_archived : a ≡ Status.queued → b ≡ Status.failed → Edge a b Act.claiming_generation
  extraction_archived : a ≡ Status.extracting → b ≡ Status.failed → Edge a b Act.claiming_extraction
  worker_raised : is_cancelled a ≡ false → is_after_failure b ≡ true → Edge a b Act.failing

-- One row of the tasks is written, along an edge or with its old status; the sections and the events
-- stay.
pub record TaskSaved (act : Act) (s s' : Store) : Type 0 where
  pub before : GenerationTask
  pub after : GenerationTask
  pub found : find_task s before.pk ≡ some before
  pub same_key : after.pk ≡ before.pk
  pub written : s'.tasks ≡ put_task after s.tasks
  pub follows : (after.status ≡ before.status) ⊎ Edge before.status after.status act
  pub progress : before.progress ≤ 100 → after.progress ≤ 100
  pub same_sections : s'.sections ≡ s.sections
  pub same_events : s'.events ≡ s.events

-- What one write does to a section. Its revision grows unless only the lock changes, and a locked
-- section keeps its text.
pub record SectionWritten (before after : GeneratedSection) : Type 0 where
  pub same_key : after.pk ≡ before.pk
  pub same_task : after.task ≡ before.task
  pub same_code : after.section_code ≡ before.section_code
  pub text :
      (before.is_locked ≡ false)
        × (after.is_locked ≡ false)
        × (after.revision ≡ before.revision + 1)
      ⊎ ((after.content ≡ before.content)
          × (after.structured_content ≡ before.structured_content)
          × (after.validation_issues ≡ before.validation_issues)
          × (after.revision ≡ before.revision))

pub record SectionSaved (s s' : Store) : Type 0 where
  pub before : GeneratedSection
  pub after : GeneratedSection
  pub known : Memᴰ before s.sections
  pub write : SectionWritten before after
  pub written : s'.sections ≡ put_section after s.sections
  pub same_tasks : s'.tasks ≡ s.tasks
  pub same_events : s'.events ≡ s.events

-- an event with the next number of its task
pub record EventAdded (s s' : Store) : Type 0 where
  pub event : GenerationTraceEvent
  pub next : event.sequence ≡ max_sequence (sequences event.task s.events) + 1
  pub added : s'.events ≡ s.events ++ event ∷ []
  pub same_tasks : s'.tasks ≡ s.tasks
  pub same_sections : s'.sections ≡ s.sections

-- Some rows of the tasks are changed, each along an edge or with its old status.
pub record TasksMapped (act : Act) (s s' : Store) : Type 0 where
  pub test : GenerationTask → Bool
  pub change : GenerationTask → GenerationTask
  pub same_key : (t : GenerationTask) → (change t).pk ≡ t.pk
  pub follows :
      (t : GenerationTask)
      → test t ≡ true
      → ((change t).status ≡ t.status) ⊎ Edge t.status (change t).status act
  pub progress : (t : GenerationTask) → (change t).progress ≡ t.progress
  pub written : s'.tasks ≡ update_where test change s.tasks
  pub same_sections : s'.sections ≡ s.sections
  pub same_events : s'.events ≡ s.events

pub data Change (act : Act) (s s' : Store) : Type 0 where
  unchanged : s'.tasks ≡ s.tasks → s'.sections ≡ s.sections → s'.events ≡ s.events → Change act s s'
  task_saved : TaskSaved act s s' → Change act s s'
  task_created :
      (t : GenerationTask)
      → t.status ≡ Status.draft
      → t.progress ≡ 0
      → s'.tasks ≡ s.tasks ++ t ∷ []
      → s'.sections ≡ s.sections
      → s'.events ≡ s.events
      → Change act s s'
  section_saved : SectionSaved s s' → Change act s s'
  section_created :
      (x : GeneratedSection)
      → ((y : GeneratedSection) → Memᴰ y s.sections → y.pk ≢ x.pk)
      → x.is_locked ≡ false
      → x.revision ≡ 1
      → s'.sections ≡ s.sections ++ x ∷ []
      → s'.tasks ≡ s.tasks
      → s'.events ≡ s.events
      → Change act s s'
  sections_locked :
      (task : ℕ)
      → s'.sections ≡ put_locks task s.sections
      → s'.tasks ≡ s.tasks
      → s'.events ≡ s.events
      → Change act s s'
  tasks_mapped : TasksMapped act s s' → Change act s s'
  event_added : EventAdded s s' → Change act s s'

-- changes one after another
pub data Changes (act : Act) : Store → Store → Type 0 where
  one : {s s' : Store} → Change act s s' → Changes act s s'
  both : {s mid s' : Store} → Changes act s mid → Changes act mid s' → Changes act s s'

-- The row that a key finds is found by its own key.
pub found_own :
    (s : Store) (key : ℕ) {x : GenerationTask}
    → find_task s key ≡ some x
    → find_task s x.pk ≡ some x
found_own s key {x} e =
    let (m, k) = find?-mem (λ y. y.pk == key) s.tasks e in
    subst (λ n. find_task s n ≡ some x) (sym ((==_iff x.pk key).0 k)) e

-- A transaction that found a row by its key and wrote it.
pub saves :
    {act : Act} (s : Store) (key : ℕ) (t : GenerationTask) {x : GenerationTask} {s' : Store}
    → find_task s key ≡ some x
    → t.pk ≡ x.pk
    → s'.tasks ≡ put_task t s.tasks
    → (t.status ≡ x.status) ⊎ Edge x.status t.status act
    → (x.progress ≤ 100 → t.progress ≤ 100)
    → s'.sections ≡ s.sections
    → s'.events ≡ s.events
    → Changes act s s'
saves s key t {x} e same written follows progress sections events = one (
    task_saved (record {
      before = x;
      after = t;
      found = found_own s key e;
      same_key = same;
      written = written;
      follows = follows;
      progress = progress;
      same_sections = sections;
      same_events = events;
    }))

pub saves_section :
    {act : Act} (s : Store) (task : ℕ) (code : String) (y : GeneratedSection) {x : GeneratedSection}
    {s' : Store}
    → find_section s task code ≡ some x
    → SectionWritten x y
    → s'.sections ≡ put_section y s.sections
    → s'.tasks ≡ s.tasks
    → s'.events ≡ s.events
    → Changes act s s'
saves_section s task code y {x} e write written tasks events = one (
    section_saved (record {
      before = x;
      after = y;
      known = (find?-mem (is_section task code) s.sections e).0;
      write = write;
      written = written;
      same_tasks = tasks;
      same_events = events;
    }))
