-- ===== src/Generation/Flow/Trace.antt =====
-- The events of a task are numbered 1, 2, 3 and so on, through any run.
use doc_manage_and_generatio.Prelude.{
  ℕ, zero, suc, ◌+◌, List, [], ◌∷◌, ◌++◌, ◌≡◌, refl, inl, inr, arith, ap, sym, subst, ◌∙◌, ◌==◌,
  max, if◌then◌else◌, length, Bool-cases, ==_iff,
}
use doc_manage_and_generatio.Generation.Schema.{GenerationTraceEvent, Store}
use doc_manage_and_generatio.Generation.Events.{sequences, max_sequence}
use doc_manage_and_generatio.Generation.Flow.Diagram.{
  Act, EventAdded, Change, unchanged, task_saved, task_created, section_saved, section_created,
  sections_locked, tasks_mapped, event_added, Changes, one, both,
}
use doc_manage_and_generatio.Generation.Flow.Steps.{Step-Changes, Run, done, next}

-- 1, ..., n
unfoldable pub one_to : ℕ → List ℕ
one_to zero = []
one_to (suc n) = one_to n ++ suc n ∷ []

-- `docgen_trace_task_seq_uq`, and more: no number is left out
unfoldable pub IsNumbered : List GenerationTraceEvent → Type 0
IsNumbered events = (task : ℕ) → sequences task events ≡ one_to (length (sequences task events))

length-snoc : (xs : List ℕ) (n : ℕ) → length (xs ++ n ∷ []) ≡ suc (length xs)
length-snoc [] n = refl
length-snoc (x ∷ xs) n = ap (λ k. suc k) (length-snoc xs n)

max_sequence-snoc : (xs : List ℕ) (n : ℕ) → max_sequence (xs ++ n ∷ []) ≡ max (max_sequence xs) n
unfolding max_sequence
max_sequence-snoc [] n = ground arith
max_sequence-snoc (x ∷ xs) n = ground (arith, max_sequence-snoc xs n)

max_sequence-one_to : (n : ℕ) → max_sequence (one_to n) ≡ n
unfolding max_sequence one_to
max_sequence-one_to zero = refl
max_sequence-one_to (suc n) =
    ground (arith, max_sequence-snoc (one_to n) (suc n), max_sequence-one_to n)

sequences-snoc :
    (task : ℕ) (xs : List GenerationTraceEvent) (e : GenerationTraceEvent)
    → sequences task (xs ++ e ∷ [])
      ≡ (if e.task == task then sequences task xs ++ e.sequence ∷ [] else sequences task xs)
unfolding sequences
sequences-snoc task [] e = ground arith
sequences-snoc task (x ∷ xs) e = ground (arith, sequences-snoc task xs e)

-- The next number of a task whose events are numbered.
snoc-numbered :
    (xs : List ℕ) (n : ℕ)
    → xs ≡ one_to (length xs)
    → n ≡ max_sequence xs + 1
    → (xs ++ n ∷ []) ≡ one_to (length (xs ++ n ∷ []))
unfolding one_to
snoc-numbered xs n numbered h =
    let top : max_sequence xs ≡ length xs =
      ap max_sequence numbered ∙ max_sequence-one_to (length xs) in
    let count : n ≡ suc (length xs) = ground arith in
    ap (λ ys. ys ++ n ∷ []) numbered
    ∙ ap (λ k. one_to (length xs) ++ k ∷ []) count
    ∙ ap one_to (sym (length-snoc xs n))

added-IsNumbered :
    (s : Store) {s' : Store} → EventAdded s s' → IsNumbered s.events → IsNumbered s'.events
unfolding IsNumbered
added-IsNumbered s c numbered task =
    let at = ap (sequences task) c.added ∙ sequences-snoc task s.events c.event in
    elim (Bool-cases (c.event.task == task)) [
      | inr h ↦
          let same =
            at
            ∙ ap
                (λ b.
                  if b
                  then sequences task s.events ++ c.event.sequence ∷ []
                  else sequences task s.events)
                h in
          subst (λ ys. ys ≡ one_to (length ys)) (sym same) (numbered task)
      | inl h ↦
          let same =
            at
            ∙ ap
                (λ b.
                  if b
                  then sequences task s.events ++ c.event.sequence ∷ []
                  else sequences task s.events)
                h in
          subst (λ ys. ys ≡ one_to (length ys)) (sym same)
            (snoc-numbered (sequences task s.events) c.event.sequence (numbered task) (
              subst (λ k. c.event.sequence ≡ max_sequence (sequences k s.events) + 1)
                ((==_iff c.event.task task).0 h) c.next))
    ]

change-IsNumbered :
    {act : Act} (s : Store) {s' : Store}
    → Change act s s'
    → IsNumbered s.events
    → IsNumbered s'.events
change-IsNumbered s (unchanged tasks sections events) all = subst IsNumbered (sym events) all
change-IsNumbered s (task_saved c) all = subst IsNumbered (sym c.same_events) all
change-IsNumbered s (task_created x status progress tasks sections events) all =
    subst IsNumbered (sym events) all
change-IsNumbered s (section_saved c) all = subst IsNumbered (sym c.same_events) all
change-IsNumbered s (section_created x fresh locked revision sections tasks events) all =
    subst IsNumbered (sym events) all
change-IsNumbered s (sections_locked task sections tasks events) all =
    subst IsNumbered (sym events) all
change-IsNumbered s (tasks_mapped c) all = subst IsNumbered (sym c.same_events) all
change-IsNumbered s (event_added c) all = added-IsNumbered s c all

Changes-IsNumbered :
    {act : Act} {s s' : Store} → Changes act s s' → IsNumbered s.events → IsNumbered s'.events
Changes-IsNumbered (one {s} c) all = change-IsNumbered s c all
Changes-IsNumbered (both c d) all = Changes-IsNumbered d (Changes-IsNumbered c all)

-- If the events of each task are numbered 1, 2, ..., n in the order of the table, they still are
-- after any run: no number is used twice or left out.
pub events_have_consecutive_numbers :
    {s s' : Store} → Run s s' → IsNumbered s.events → IsNumbered s'.events
events_have_consecutive_numbers (done s) all = all
events_have_consecutive_numbers (next {s} step run) all =
    events_have_consecutive_numbers run (Changes-IsNumbered (Step-Changes s step) all)
