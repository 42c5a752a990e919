-- ===== src/Generation/Laws/Recovers.antt =====
-- The recovery requeues the tasks whose worker died, and leaves every waiting task in the queue.
use doc_manage_and_generatio.Prelude.{
  ℕ, ◌+◌, ◌-◌, Bool, true, false, List, [], ◌∷◌, ◌++◌, map, ◌≡◌, refl, inl, inr, ◌⊎◌, Memᴰ, arith,
  ap, sym, subst, ◌==◌, ==_refl, ==_iff, if◌then◌else◌, filter, length, Bool-cases,
}
use mathlib.Core.List.Memᴰ.{head, tail}
use doc_manage_and_generatio.Outcome.{Result, err, ok}
use doc_manage_and_generatio.Schema.{Request}
use doc_manage_and_generatio.Folders.Descendants.{contains}
use doc_manage_and_generatio.Generation.Schema.{Status, GenerationTask, Store}
use doc_manage_and_generatio.Prelude.{
  ◌≤◌, ◌<◌, ◌≢◌, ◌∙◌, some, str_eq, find?-mem, find?-update_where,
}
use doc_manage_and_generatio.Generation.Guards.{find_task, is_generating}
use doc_manage_and_generatio.Generation.Context.{unique_keys}
use doc_manage_and_generatio.Generation.Queue.{
  Queue, jobs, queue_generation_task, is_stale, interrupted, keys_where, requeue_stale,
  is_waiting_task, Recovery, queue_all, recover_generation_tasks,
}

-- the keys that a loop over `unique_keys` sees
unique_keys-contains :
    (seen keys : List ℕ) (k : ℕ)
    → contains keys k ≡ true
    → (contains seen k ≡ true) ⊎ (contains (unique_keys seen keys) k ≡ true)
unfolding unique_keys
unique_keys-contains seen [] k h = ground arith
unique_keys-contains seen (j ∷ rest) k h = elim (Bool-cases (contains seen j)) [
  | inl s ↦ elim (Bool-cases (j == k)) [
    | inl e ↦ inl (subst (λ n. contains seen n ≡ true) ((==_iff j k).0 e) s)
    | inr e ↦ elim (unique_keys-contains seen rest k (ground arith)) [
      | inl p ↦ inl p
      | inr p ↦ inr (ground arith)
    ]
  ]
  | inr s ↦ elim (Bool-cases (j == k)) [
    | inl e ↦ inr (ground arith)
    | inr e ↦ elim (unique_keys-contains (j ∷ seen) rest k (ground arith)) [
      | inl p ↦ inl (ground arith)
      | inr p ↦ inr (ground arith)
    ]
  ]
]

contains-append :
    (xs ys : List ℕ) (k : ℕ)
    → (contains xs k ≡ true) ⊎ (contains ys k ≡ true)
    → contains (xs ++ ys) k ≡ true
contains-append [] ys k (inl h) = ground arith
contains-append [] ys k (inr h) = h
contains-append (x ∷ xs) ys k (inl h) = elim (Bool-cases (x == k)) [
  | inl e ↦ ground arith
  | inr e ↦ ground (arith, contains-append xs ys k (inl (ground arith)))
]
contains-append (x ∷ xs) ys k (inr h) = ground (arith, contains-append xs ys k (inr h))

-- The loop with a queue that answers: it writes nothing, fails for no key, and leaves all of them in
-- the queue beside those that were there.
record Queued (keys before : List ℕ) (count : Recovery) (s : Store)
    (result : Recovery × Queue × Store) : Type 0 where
  after : List ℕ
  queue : result.1 ≡ jobs after
  kept : (k : ℕ) → contains before k ≡ true → contains after k ≡ true
  added : (k : ℕ) → contains keys k ≡ true → contains after k ≡ true
  failures : result.0.queue_failures ≡ count.queue_failures
  counted : result.0.queued ≡ count.queued + length keys
  store : result.2 ≡ s

-- the jobs after a key was queued
enqueued : ℕ → List ℕ → List ℕ
enqueued key keys = if contains keys key then keys else (keys ++ key ∷ [])

enqueued-kept :
    (key : ℕ) (keys : List ℕ) (k : ℕ)
    → contains keys k ≡ true
    → contains (enqueued key keys) k ≡ true
unfolding enqueued
enqueued-kept key keys k h = elim (Bool-cases (contains keys key)) [
  | inl e ↦ ground (arith, e, h)
  | inr e ↦ ground (arith, e, contains-append keys (key ∷ []) k (inl h))
]

enqueued-added : (key : ℕ) (keys : List ℕ) → contains (enqueued key keys) key ≡ true
unfolding enqueued
enqueued-added key keys = elim (Bool-cases (contains keys key)) [
  | inl e ↦ ground (arith, e)
  | inr e ↦
      ground (arith, e, contains-append keys (key ∷ []) key (inr (ground (arith, ==_refl key))))
]

queue_all-step :
    (request : Request) (j : ℕ) (rest before : List ℕ) (count : Recovery) (s : Store)
    → queue_all request (j ∷ rest) count (jobs before) s
      ≡ queue_all request rest
          (record count { queued = count.queued + 1 })
          (jobs (enqueued j before))
          s
unfolding queue_all queue_generation_task enqueued
queue_all-step request j rest before count s = go (contains before j)
  where
    go :
        (b : Bool)
        → (let (result, left, s') : Result (Unit {0}) × Queue × Store =
              if b then (ok tt, jobs before, s) else (ok tt, jobs (before ++ j ∷ []), s) in
            elim result [
              | ok done ↦
                  queue_all request rest (record count { queued = count.queued + 1 }) left s'
              | err e ↦
                  queue_all request rest
                    (record count { queue_failures = count.queue_failures + 1 })
                    left
                    s'
            ])
          ≡ queue_all request rest
              (record count { queued = count.queued + 1 })
              (jobs (if b then before else (before ++ j ∷ [])))
              s
    go true = refl
    go false = refl

queue_all-Queued :
    (request : Request) (keys before : List ℕ) (count : Recovery) (s : Store)
    → Queued keys before count s (queue_all request keys count (jobs before) s)
unfolding queue_all
queue_all-Queued request [] before count s = record {
  after = before;
  queue = refl;
  kept = λ k h. h;
  added = λ k h. ground arith;
  failures = refl;
  counted = ground arith;
  store = refl;
}
queue_all-Queued request (j ∷ rest) before count s =
    let q =
      queue_all-Queued request rest (enqueued j before) (record count { queued = count.queued + 1 })
        s in
    subst (Queued (j ∷ rest) before count s) (sym (queue_all-step request j rest before count s))
      (record {
        after = q.after;
        queue = q.queue;
        kept = λ k h. q.kept k (enqueued-kept j before k h);
        added = λ k h. elim (Bool-cases (j == k)) [
          | inl e ↦ q.kept k (
              subst (λ n. contains (enqueued j before) n ≡ true) ((==_iff j k).0 e)
                (enqueued-added j before))
          | inr e ↦ q.added k (ground arith)
        ];
        failures = q.failures;
        counted = ground (arith, q.counted);
        store = q.store;
      })

keys_where-contains :
    (test : GenerationTask → Bool) (tasks : List GenerationTask) {t : GenerationTask}
    → Memᴰ t tasks
    → test t ≡ true
    → contains (map (λ x. x.pk) (filter test tasks)) t.pk ≡ true
keys_where-contains test [] m h = elim m [ ]
keys_where-contains test (x ∷ rest) {t} (head e) h =
    ground (arith, ==_refl t.pk, ap (λ (y : GenerationTask). y.pk) e)
keys_where-contains test (x ∷ rest) (tail m) h = elim (Bool-cases (test x)) [
  | inl e ↦ ground (arith, keys_where-contains test rest m h)
  | inr e ↦ ground (arith, keys_where-contains test rest m h)
]

-- With a queue that answers, a recovery leaves every task that is queued or being extracted in the
-- queue, with the tasks that it requeued among them; it reports no failure and writes nothing else.
pub recovery_queues_waiting_tasks :
    (request : Request) (stale_seconds : ℕ) (before : List ℕ) (s : Store) (t : GenerationTask)
    → Memᴰ t (requeue_stale request stale_seconds s).tasks
    → is_waiting_task t ≡ true
    → let result = recover_generation_tasks request stale_seconds (jobs before) s in
      (after : List ℕ) × (result.1 ≡ jobs after)
      × (result.2 ≡ requeue_stale request stale_seconds s)
      × (result.0.queue_failures ≡ 0)
      × (contains after t.pk ≡ true)
unfolding recover_generation_tasks
recovery_queues_waiting_tasks request stale_seconds before s t m h =
    let requeued = requeue_stale request stale_seconds s in
    let recovered = keys_where (is_stale (request.now 0 - stale_seconds)) s in
    let keys = recovered ++ keys_where is_waiting_task requeued in
    let q =
      queue_all-Queued request (unique_keys [] keys) before
        (record { recovered = length recovered; queued = 0; queue_failures = 0 }) requeued in
    (
      q.after,
      q.queue,
      q.store,
      q.failures,
      let there =
            contains-append recovered (keys_where is_waiting_task requeued) t.pk
              (inr (keys_where-contains is_waiting_task requeued.tasks m h)) in
          elim (unique_keys-contains [] keys t.pk there) [
            | inl none' ↦ ground arith
            | inr u ↦ q.added t.pk u
          ],
    )

-- With a queue that answers, the requeuing is all that a recovery writes.
recover-store :
    (request : Request) (stale_seconds : ℕ) (before : List ℕ) (s : Store)
    → (recover_generation_tasks request stale_seconds (jobs before) s).2
      ≡ requeue_stale request stale_seconds s
unfolding recover_generation_tasks
recover-store request stale_seconds before s =
    let requeued = requeue_stale request stale_seconds s in
    let recovered = keys_where (is_stale (request.now 0 - stale_seconds)) s in
    (queue_all-Queued request (unique_keys [] (recovered ++ keys_where is_waiting_task requeued))
      before (record { recovered = length recovered; queued = 0; queue_failures = 0 })
      requeued).store

not_stale :
    (now stale_seconds : ℕ) (t : GenerationTask)
    → is_stale (now - stale_seconds) t ≡ false
    → (t.status ≢ Status.generating) ⊎ (now ≤ t.updated_at + stale_seconds)
unfolding is_stale
not_stale now stale_seconds t h = elim (Bool-cases (is_generating t.status)) [
  | inl g ↦ inr (ground arith)
  | inr g ↦ inl (λ e. ground arith)
]

-- With a queue that answers, a recovery leaves every task in the table. A task that was generating and
-- was not touched for longer than the limit is queued again, with the code "WORKER_INTERRUPTED" and a
-- job in the queue; any other task stays as it is.
pub recovery_requeues_stale :
    (request : Request) (stale_seconds : ℕ) (before : List ℕ) (s : Store) (key : ℕ)
    {t : GenerationTask}
    → find_task s key ≡ some t
    → let result = recover_generation_tasks request stale_seconds (jobs before) s in
      (later : GenerationTask) × (find_task result.2 key ≡ some later)
      × (((t.status ≡ Status.generating)
            × (t.updated_at + stale_seconds < request.now 0)
            × (later.status ≡ Status.queued)
            × (str_eq later.error_code "WORKER_INTERRUPTED" ≡ true)
            × ((after : List ℕ) × (result.1 ≡ jobs after) × (contains after key ≡ true)))
          ⊎ (((t.status ≢ Status.generating) ⊎ (request.now 0 ≤ t.updated_at + stale_seconds))
              × (later ≡ t)))
unfolding requeue_stale is_stale interrupted
recovery_requeues_stale request stale_seconds before s key {t} e =
    let limit = request.now 0 - stale_seconds in
    let requeued = requeue_stale request stale_seconds s in
    let found : find_task requeued key
        ≡ some (if is_stale limit t then interrupted (request.now 1) t else t) =
      find?-update_where (λ x. x.pk == key) (is_stale limit) (interrupted (request.now 1)) s.tasks
        (λ a h. refl)
      ∙ ground (arith, e) in
    let result = recover_generation_tasks request stale_seconds (jobs before) s in
    let there : find_task result.2 key
        ≡ some (if is_stale limit t then interrupted (request.now 1) t else t) =
      ap (λ x. find_task x key) (recover-store request stale_seconds before s) ∙ found in
    let (i, own) = find?-mem (λ x. x.pk == key) requeued.tasks found in
    elim (Bool-cases (is_stale limit t)) [
      | inr h ↦ (t, there ∙ ground arith, inr (not_stale (request.now 0) stale_seconds t h, refl))
      | inl h ↦
          let later = interrupted (request.now 1) t in
          let m : Memᴰ later requeued.tasks = subst (λ x. Memᴰ x requeued.tasks) (ground arith) i in
          let (after, queue, store, failures, queued) =
            recovery_queues_waiting_tasks request stale_seconds before s later m refl in
          let same : t.pk ≡ key = (==_iff t.pk key).0 (find?-mem (λ x. x.pk == key) s.tasks e).1 in
          (
            later,
            there ∙ ground arith,
            inl (
              ground arith,
              ground arith,
              refl,
              refl,
              (after, queue, subst (λ n. contains after n ≡ true) same queued),
            ),
          )
    ]
