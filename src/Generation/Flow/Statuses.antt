-- ===== src/Generation/Flow/Statuses.antt =====
-- A task stays in the table through any run, and its status follows the diagram.
use doc_manage_and_generatio.Prelude.{
  ℕ, refl, none, some, List, [], ◌∷◌, ◌++◌, ◌≡◌, ◌⊎◌, inl, inr, arith, ap, sym, subst, ◌∙◌, ◌==◌,
  ==_iff, some_unique, if◌then◌else◌, find?, Bool-cases, find?-mem, find?-concat,
  find?-update_where,
}
use doc_manage_and_generatio.Generation.Schema.{Status, GenerationTask, Store}
use doc_manage_and_generatio.Generation.Guards.{find_task, put_task}
use doc_manage_and_generatio.Generation.Flow.Diagram.{
  Act, Edge, extraction_requested, facts_extracted, facts_confirmed, generation_requested,
  generation_claimed, draft_completed, section_sent_back, review_submitted, draft_approved,
  draft_exported, failure_retried, extraction_retried, user_stopped, worker_interrupted,
  generation_archived, extraction_archived, worker_raised, TaskSaved, TasksMapped, Change,
  unchanged, task_saved, task_created, section_saved, section_created, sections_locked,
  tasks_mapped, event_added, Changes, one, both,
}
use doc_manage_and_generatio.Generation.Flow.Steps.{kind, Step-Changes, Run, done, next}

-- edges of one kind, one after another
pub data Route (act : Act) : Status → Status → Type 0 where
  stay : (a : Status) → Route act a a
  move : {a b c : Status} → Route act a b → Edge b c act → Route act a c

join : {act : Act} {a b c : Status} → Route act a b → Route act b c → Route act a c
join p (stay b) = p
join p (move q e) = move (join p q) e

one_move : {act : Act} {a b : Status} → (b ≡ a) ⊎ Edge a b act → Route act a b
one_move {act} {a} {b} (inl h) = subst (λ c. Route act a c) (sym h) (stay a)
one_move {act} {a} {b} (inr e) = move (stay a) e

-- The task with the key `key` in the table that one transaction leaves.
pub record Continues (act : Act) (key : ℕ) (t : GenerationTask) (s' : Store) : Type 0 where
  pub later : GenerationTask
  pub found : find_task s' key ≡ some later
  pub path : Route act t.status later.status

same-Continues :
    {act : Act} (s : Store) {s' : Store} (key : ℕ) {t : GenerationTask}
    → s'.tasks ≡ s.tasks
    → find_task s key ≡ some t
    → Continues act key t s'
same-Continues s key {t} same e = record {
  later = t;
  found = ap (λ (xs : List GenerationTask). find? (λ x. x.pk == key) xs) same ∙ e;
  path = stay t.status;
}

saved-Continues :
    {act : Act} {s s' : Store} (key : ℕ) {t : GenerationTask}
    → TaskSaved act s s'
    → find_task s key ≡ some t
    → Continues act key t s'
unfolding put_task
saved-Continues {act} {s} {s'} key {t} c e =
    let at : find_task s' key ≡ elim (find_task s key) [
      | none ↦ none
      | some a ↦ some (if a.pk == c.after.pk then c.after else a)
    ] =
      ap (λ (xs : List GenerationTask). find? (λ x. x.pk == key) xs) c.written
      ∙ find?-update_where (λ x. x.pk == key) (λ x. x.pk == c.after.pk) (λ x. c.after) s.tasks
          (λ a h. ground (arith, ==_iff a.pk c.after.pk)) in
    let own : t.pk ≡ key = (==_iff t.pk key).0 (find?-mem (λ x. x.pk == key) s.tasks e).1 in
    elim (Bool-cases (t.pk == c.after.pk)) [
      | inr h ↦ record { later = t; found = at ∙ ground (arith, e, h); path = stay t.status }
      | inl h ↦
          let same_pk : key ≡ c.before.pk = sym own ∙ (==_iff t.pk c.after.pk).0 h ∙ c.same_key in
          let same : t ≡ c.before =
            some_unique (subst (λ n. find_task s n ≡ some t) same_pk e) c.found in
          record {
            later = c.after;
            found = at ∙ ground (arith, e, h);
            path =
                subst (λ (x : GenerationTask). Route act x.status c.after.status) (sym same)
                  (one_move c.follows);
          }
    ]

mapped-Continues :
    {act : Act} {s s' : Store} (key : ℕ) {t : GenerationTask}
    → TasksMapped act s s'
    → find_task s key ≡ some t
    → Continues act key t s'
mapped-Continues {act} {s} {s'} key {t} c e =
    let at : find_task s' key ≡ elim (find_task s key) [
      | none ↦ none
      | some a ↦ some (if c.test a then c.change a else a)
    ] =
      ap (λ (xs : List GenerationTask). find? (λ x. x.pk == key) xs) c.written
      ∙ find?-update_where (λ x. x.pk == key) c.test c.change s.tasks
          (λ a h. ap (λ n. n == key) (c.same_key a)) in
    elim (Bool-cases (c.test t)) [
      | inr h ↦ record { later = t; found = at ∙ ground (arith, e, h); path = stay t.status }
      | inl h ↦ record {
        later = c.change t;
        found = at ∙ ground (arith, e, h);
        path = one_move (c.follows t h);
      }
    ]

created-Continues :
    {act : Act} (s : Store) {s' : Store} (key : ℕ) {t : GenerationTask} (x : GenerationTask)
    → s'.tasks ≡ s.tasks ++ x ∷ []
    → find_task s key ≡ some t
    → Continues act key t s'
created-Continues s key {t} x written e = record {
  later = t;
  found =
      ap (λ (xs : List GenerationTask). find? (λ y. y.pk == key) xs) written
      ∙ find?-concat (λ y. y.pk == key) s.tasks x
      ∙ ground (arith, e);
  path = stay t.status;
}

change-Continues :
    {act : Act} {s s' : Store} (key : ℕ) {t : GenerationTask}
    → Change act s s'
    → find_task s key ≡ some t
    → Continues act key t s'
change-Continues {act} {s} key (unchanged tasks sections events) e = same-Continues s key tasks e
change-Continues {act} {s} key (task_saved c) e = saved-Continues key c e
change-Continues {act} {s} key (task_created x status progress tasks sections events) e =
    created-Continues s key x tasks e
change-Continues {act} {s} key (section_saved c) e = same-Continues s key c.same_tasks e
change-Continues {act} {s} key (section_created x fresh locked revision sections tasks events) e =
    same-Continues s key tasks e
change-Continues {act} {s} key (sections_locked task sections tasks events) e =
    same-Continues s key tasks e
change-Continues {act} {s} key (tasks_mapped c) e = mapped-Continues key c e
change-Continues {act} {s} key (event_added c) e = same-Continues s key c.same_tasks e

and_then :
    {act : Act} {key : ℕ} {t : GenerationTask} {mid s' : Store} (c : Continues act key t mid)
    → Continues act key c.later s'
    → Continues act key t s'
and_then c d = record { later = d.later; found = d.found; path = join c.path d.path }

Changes-Continues :
    {act : Act} {s s' : Store} (key : ℕ) {t : GenerationTask}
    → Changes act s s'
    → find_task s key ≡ some t
    → Continues act key t s'
Changes-Continues key (one c) e = change-Continues key c e
Changes-Continues key (both c d) e =
    let first = Changes-Continues key c e in and_then first (Changes-Continues key d first.found)

-- The way of a task through a run: each transaction leaves it in the table, and moves it along edges
-- of the transaction's own kind only.
unfoldable pub Follows :
    (key : ℕ) {s s' : Store} → Run s s' → GenerationTask → GenerationTask → Type 0
Follows key (done s) t later = later ≡ t
Follows key (next {mid = mid} step run) t later =
    (m : GenerationTask) × (find_task mid key ≡ some m)
    × Route (kind step) t.status m.status
    × Follows key run m later

-- A task that is in the table stays there through any run, which is whatever the users and the workers
-- do in any order and number of transactions while the queue is reachable, and each transaction of the
-- run moves its status only along the edges of the diagram that belong to the kind of the transaction.
pub statuses_follow_diagram :
    {s s' : Store} (key : ℕ) {t : GenerationTask} (run : Run s s')
    → find_task s key ≡ some t
    → (later : GenerationTask) × (find_task s' key ≡ some later) × Follows key run t later
unfolding Follows
statuses_follow_diagram key {t} (done s) e = (t, e, refl)
statuses_follow_diagram key (next {s} step run) e =
    let first = Changes-Continues key (Step-Changes s step) e in
    let (later, found, way) = statuses_follow_diagram key run first.found in
    (later, found, (first.later, first.found, first.path, way))

cancelled-Edge :
    {act : Act} {a b : Status} → Edge a b act → a ≡ Status.cancelled → b ≡ Status.cancelled
cancelled-Edge (extraction_requested f g) h = ground arith
cancelled-Edge (facts_extracted f g) h = ground arith
cancelled-Edge (facts_confirmed c f g) h = ground arith
cancelled-Edge (generation_requested c f g) h = ground arith
cancelled-Edge (generation_claimed f g) h = ground arith
cancelled-Edge (draft_completed f g) h = ground arith
cancelled-Edge (section_sent_back f g) h = ground arith
cancelled-Edge (review_submitted f g) h = ground arith
cancelled-Edge (draft_approved f g) h = ground arith
cancelled-Edge (draft_exported f g) h = ground arith
cancelled-Edge (failure_retried f g) h = ground arith
cancelled-Edge (extraction_retried f g) h = ground arith
cancelled-Edge (user_stopped f g) h = ground arith
cancelled-Edge (worker_interrupted f g) h = ground arith
cancelled-Edge (generation_archived f g) h = ground arith
cancelled-Edge (extraction_archived f g) h = ground arith
cancelled-Edge (worker_raised f g) h = ground arith

cancelled-Route :
    {act : Act} {a b : Status} → Route act a b → a ≡ Status.cancelled → b ≡ Status.cancelled
cancelled-Route (stay a) h = h
cancelled-Route (move p e) h = cancelled-Edge e (cancelled-Route p h)

cancelled-Follows :
    (key : ℕ) {s s' : Store} (run : Run s s') (t later : GenerationTask)
    → Follows key run t later
    → t.status ≡ Status.cancelled
    → later.status ≡ Status.cancelled
unfolding Follows
cancelled-Follows key (done s) t later same h = ap (λ (x : GenerationTask). x.status) same ∙ h
cancelled-Follows key (next step run) t later (m, found, path, way) h =
    cancelled-Follows key run m later way (cancelled-Route path h)

-- A task that a user stopped is still in the table after any run in which the queue is reachable, with
-- the status "cancelled".
pub cancelled_stays_cancelled :
    {s s' : Store} (key : ℕ) {t : GenerationTask}
    → Run s s'
    → find_task s key ≡ some t
    → t.status ≡ Status.cancelled
    → (later : GenerationTask) × (find_task s' key ≡ some later) × (later.status ≡ Status.cancelled)
cancelled_stays_cancelled key {t} run e h =
    let (later, found, way) = statuses_follow_diagram key run e in
    (later, found, cancelled-Follows key run t later way h)
