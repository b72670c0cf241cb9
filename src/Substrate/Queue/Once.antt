-- ===== src/Substrate/Queue/Once.antt =====
-- Idempotency keys, and the number of jobs that were created.
use cite_delta_rag.Prelude.{
  ℕ, ◌+◌, ◌≡◌, refl, subst, inl, inr, Bool, true, List, [], ◌∷◌, ◌++◌, arith, String, Option, none,
  some, Bool-cases, any, length, length-append, ==_iff, string_eq,
}
use cite_delta_rag.Substrate.Queue.Models.{Job, Jobs, JobSpec, JobQueue}
use cite_delta_rag.Substrate.Queue.Table.{update_where}
use cite_delta_rag.Substrate.Queue.Enqueue.{
  enqueue, enqueue_many, count_created, new_job, conflicts, same_key, queue_name,
}
use cite_delta_rag.Substrate.Queue.Claim.{reap, bury, lease, claim_rows}
use cite_delta_rag.Substrate.Queue.Finish.{
  heartbeat, extend, ack, succeed, nack_row, fail, requeue_dead, revive,
}
use cite_delta_rag.Substrate.Queue.History.{
  Statement, enqueues, reaps, claims, heartbeats, acks, nacks, requeues, step, run,
}

any-append {ℓ} :
    {A : Type ℓ} (p : A → Bool) (xs ys : List A) → any p ys ≡ true → any p (xs ++ ys) ≡ true
any-append p [] ys h = h
any-append p (x ∷ xs) ys h = ground (arith, any-append p xs ys h)

any-append_left {ℓ} :
    {A : Type ℓ} (p : A → Bool) (xs ys : List A) → any p xs ≡ true → any p (xs ++ ys) ≡ true
any-append_left p [] ys h = absurd (cc h)
any-append_left p (x ∷ xs) ys h = ground (arith, any-append_left p xs ys)

-- A change of rows that keeps queues and keys keeps the conflicts.
any-update :
    (queue : String) (key : Option String) (p : Job → Bool) (f : Job → Job) (rows : List Job)
    → ((j : Job) → conflicts queue key (f j) ≡ conflicts queue key j)
    → any (conflicts queue key) rows ≡ true
    → any (conflicts queue key) (update_where p f rows) ≡ true
unfolding update_where
any-update queue key p f [] keep h = h
any-update queue key p f (j ∷ js) keep h = ground (arith, keep j, any-update queue key p f js keep)

module _ (queue : String) (key : Option String) where
  step-conflicts :
      (t : Jobs) (s : Statement)
      → any (conflicts queue key) t.rows ≡ true
      → any (conflicts queue key) (step t s).rows ≡ true
  unfolding step enqueue reap claim_rows heartbeat ack nack_row requeue_dead conflicts
  step-conflicts t (enqueues q now spec) h =
      elim (Bool-cases (any (conflicts (queue_name q spec) spec.idempotency_key) t.rows)) [
        | inl e ↦ rw (e, step, enqueue) h
        | inr e ↦ rw (e, step, enqueue) (any-append_left (conflicts queue key) t.rows _ h)
      ]
  step-conflicts t (reaps q now) h =
      any-update queue key _ (bury now) t.rows (λ j. unfold bury in refl) h
  step-conflicts t (claims q now worker limit locked) h =
      any-update queue key _ (lease q now worker) t.rows (λ j. unfold lease in refl) h
  step-conflicts t (heartbeats q now c) h =
      any-update queue key _ (extend q now) t.rows (λ j. unfold extend in refl) h
  step-conflicts t (acks now c) h =
      any-update queue key _ (succeed now) t.rows (λ j. unfold succeed in refl) h
  step-conflicts t (nacks now delay c error) h =
      any-update queue key _ (fail now delay _) t.rows (λ j. unfold fail in ground arith) h
  step-conflicts t (requeues q now limit) h =
      any-update queue key _ (revive now) t.rows (λ j. unfold revive in refl) h

  run-conflicts :
      (t : Jobs) (ss : List Statement)
      → any (conflicts queue key) t.rows ≡ true
      → any (conflicts queue key) (run t ss).rows ≡ true
  unfolding run
  run-conflicts t [] h = h
  run-conflicts t (s ∷ ss) h = run-conflicts (step t s) ss (step-conflicts t s h)

enqueue-conflicts :
    (q : JobQueue) (now : ℕ) (spec : JobSpec) (key : String) (t : Jobs)
    → spec.idempotency_key ≡ some key
    → any (conflicts (queue_name q spec) (some key)) (enqueue q now spec t).0.rows ≡ true
unfolding enqueue
enqueue-conflicts q now spec key t k =
    elim (Bool-cases (any (conflicts (queue_name q spec) spec.idempotency_key) t.rows)) [
      | inl e ↦
          rw (e, enqueue) (subst (λ x. any (conflicts (queue_name q spec) x) t.rows ≡ true) k e)
      | inr e ↦
          rw (e, enqueue)
            (any-append (conflicts (queue_name q spec) (some key)) t.rows
              (new_job q now spec t.next_id ∷ [])
              (unfold conflicts new_job same_key in
                ground (arith, k, ==_iff (queue_name q spec) (queue_name q spec), ==_iff key key)))
    ]

-- Once a spec with a key was enqueued, an enqueue of that key on that queue makes no job and leaves
-- the rows as they are, whatever statements ran between: the job may have been claimed, have ended
-- or have been requeued.
pub enqueue_once :
    (q q' : JobQueue) (now now' : ℕ) (spec spec' : JobSpec) (key : String) (t : Jobs)
    (between : List Statement)
    → spec.idempotency_key ≡ some key
    → spec'.idempotency_key ≡ some key
    → queue_name q' spec' ≡ queue_name q spec
    → ((enqueue q' now' spec' (run (enqueue q now spec t).0 between)).1 ≡ none)
      × ((enqueue q' now' spec' (run (enqueue q now spec t).0 between)).0.rows
          ≡ (run (enqueue q now spec t).0 between).rows)
unfolding enqueue
enqueue_once q q' now now' spec spec' key t between k k' same =
    let e =
      run-conflicts (queue_name q spec) (some key) _ between
        (enqueue-conflicts q now spec key t k) in
    let there : any (conflicts (queue_name q' spec') spec'.idempotency_key)
          (run (enqueue q now spec t).0 between).rows
        ≡ true =
      rw (same, k') e in
    (rw (there, enqueue), rw (there, enqueue))

enqueue-counts :
    (q : JobQueue) (now : ℕ) (spec : JobSpec) (t : Jobs) (created : ℕ)
    → count_created (enqueue q now spec t).1 created + length t.rows
      ≡ created + length (enqueue q now spec t).0.rows
unfolding enqueue count_created
enqueue-counts q now spec t created =
    ground (arith, length-append t.rows (new_job q now spec t.next_id ∷ []))

-- The number that `enqueue_many` returns is the number of rows that it added, counted from `created`.
pub enqueue_many_counts :
    (q : JobQueue) (now : ℕ) (specs : List JobSpec) (t : Jobs) (created : ℕ)
    → (enqueue_many q now specs t created).1 + length t.rows
      ≡ created + length (enqueue_many q now specs t created).0.rows
unfolding enqueue_many
enqueue_many_counts q now [] t created = refl
enqueue_many_counts q now (spec ∷ specs) t created = omega (
  arith,
  enqueue-counts q now spec t created,
  enqueue_many_counts q now specs (enqueue q now spec t).0
      (count_created (enqueue q now spec t).1 created),
)
