-- ===== src/Substrate/Queue/Invariant.antt =====
-- What each row of the table looks like in each state.
use cite_delta_rag.Prelude.{
  ℕ, ◌≤◌, ◌<◌, ◌≡◌, refl, sym, subst, ◌∙◌, inl, inr, Bool, true, false, List, [], ◌∷◌, ◌++◌, arith,
  Option, none, some, In, Bool-cases, any, In-append, All, String, take,
}
use cite_delta_rag.Text.{Text}
use cite_delta_rag.Substrate.Queue.Models.{
  JobState, pending, running, succeeded, failed, dead, Job, Jobs, JobSpec, JobQueue, ClaimedJob,
}
use cite_delta_rag.Substrate.Queue.Table.{update_where}
use cite_delta_rag.Substrate.Queue.Table.Updates.{In-update}
use cite_delta_rag.Substrate.Queue.Table.Picks.{picked-meets}
use cite_delta_rag.Substrate.Queue.Enqueue.{enqueue, new_job, conflicts, queue_name}
use cite_delta_rag.Substrate.Queue.Claim.{reap, is_exhausted, bury, lease, claim_rows, is_claimable}
use cite_delta_rag.Substrate.Queue.Finish.{
  heartbeat, extend, ack, succeed, nack_row, fail, requeue_dead, revive, is_held, finished_first,
  is_dead_in,
}
use cite_delta_rag.Substrate.Queue.Identity.{HasIds, step-HasIds}
use cite_delta_rag.Substrate.Queue.Leases.{claimable-meets}
use cite_delta_rag.Substrate.Queue.History.{
  Statement, enqueues, reaps, claims, heartbeats, acks, nacks, requeues, step, run,
}

abbrev is_some {ℓ} : {A : Type ℓ} → Option A → Bool
is_some none = false
is_some (some a) = true

-- A pending job has an attempt left and no owner; a running one has an owner; one that ended has
-- the time of its end. No row is ever `failed`.
abbrev pub Fits : JobState → Job → Type 0
Fits pending j =
    (j.attempts < j.max_attempts) × (is_some j.claimed_by ≡ false) × (is_some j.finished_at ≡ false)
Fits running j =
    (j.attempts ≤ j.max_attempts) × (is_some j.claimed_by ≡ true) × (is_some j.finished_at ≡ false)
Fits succeeded j =
    (j.attempts ≤ j.max_attempts) × (is_some j.claimed_by ≡ false) × (is_some j.finished_at ≡ true)
Fits failed j = ⊥
Fits dead j =
    (j.attempts ≤ j.max_attempts) × (is_some j.claimed_by ≡ false) × (is_some j.finished_at ≡ true)

abbrev pub IsSound : Job → Type 0
IsSound j = (1 ≤ j.max_attempts) × Fits j.state j

pub record IsValid (t : Jobs) : Type 0 where
  pub has_ids : HasIds t
  pub sound : (j : Job) → In j t.rows → IsSound j

-- `max_attempts: int = Field(default=5, ge=1)`
abbrev pub IsWellFormed : Statement → Type 0
IsWellFormed (enqueues q now spec) = 1 ≤ spec.max_attempts
IsWellFormed (reaps q now) = Unit {0}
IsWellFormed _ = Unit {0}

update-IsSound :
    (rows : List Job) (p : Job → Bool) (f : Job → Job)
    → ((j : Job) → In j rows → p j ≡ true → IsSound j → IsSound (f j))
    → ((j : Job) → In j rows → IsSound j)
    → (j : Job) → In j (update_where p f rows)
    → IsSound j
update-IsSound rows p f keep h j at =
    let (old, place, made) = In-update p f rows j at in
    elim (Bool-cases (p old)) [
      | inl e ↦
          let was : j ≡ f old = made ∙ rw e in
          subst IsSound (sym was) (keep old place e (h old place))
      | inr e ↦ let was : j ≡ old = made ∙ rw e in subst IsSound (sym was) (h old place)
    ]

bury-IsSound :
    (q : JobQueue) (now : ℕ) (j : Job)
    → is_exhausted q now j ≡ true
    → IsSound j
    → IsSound (bury now j)
unfolding is_exhausted bury
bury-IsSound q now j e s = ground arith

lease-IsSound :
    (q : JobQueue) (now : ℕ) (worker : String) (locked : List ℕ) (j : Job)
    → is_claimable q now locked j ≡ true
    → IsSound j
    → IsSound (lease q now worker j)
unfolding is_claimable lease
lease-IsSound q now worker locked j e s = ground arith

extend-IsSound :
    (q : JobQueue) (now : ℕ) (c : ClaimedJob) (j : Job)
    → is_held c j ≡ true
    → IsSound j
    → IsSound (extend q now j)
unfolding is_held extend
extend-IsSound q now c j e s = ground arith

succeed-IsSound :
    (now : ℕ) (c : ClaimedJob) (j : Job) → is_held c j ≡ true → IsSound j → IsSound (succeed now j)
unfolding is_held succeed
succeed-IsSound now c j e s = ground arith

revive-IsSound :
    (q : JobQueue) (now : ℕ) (j : Job) → is_dead_in q j ≡ true → IsSound j → IsSound (revive now j)
unfolding revive
revive-IsSound q now j e s = ground arith

fail-IsSound :
    (now delay : ℕ) (error : Text) (c : ClaimedJob) (j : Job)
    → is_held c j ≡ true
    → IsSound j
    → IsSound (fail now delay error j)
unfolding is_held fail
fail-IsSound now delay error c j e s = ground arith

new_job-IsSound :
    (q : JobQueue) (now : ℕ) (spec : JobSpec) (i : ℕ)
    → 1 ≤ spec.max_attempts
    → IsSound (new_job q now spec i)
unfolding new_job
new_job-IsSound q now spec i h = (h, (omega (arith, h), refl, refl))

-- Every statement keeps the rows sound.
step-IsSound :
    (t : Jobs) (s : Statement)
    → IsWellFormed s
    → IsValid t
    → (j : Job) → In j (step t s).rows
    → IsSound j
unfolding step enqueue reap claim_rows heartbeat ack nack_row requeue_dead
step-IsSound t (enqueues q now spec) w v =
    elim (Bool-cases (any (conflicts (queue_name q spec) spec.idempotency_key) t.rows)) [
      | inl e ↦ rw (e, step, enqueue) v.sound
      | inr e ↦
          rw (e, step, enqueue)
            (λ (j : Job) (at : In j (t.rows ++ (new_job q now spec t.next_id ∷ []))).
              elim (In-append t.rows _ j at) [
                | inl old ↦ v.sound j old
                | inr (inl new) ↦ subst IsSound (sym new) (new_job-IsSound q now spec t.next_id w)
                | inr (inr none_left) ↦ absurd none_left
              ])
    ]
step-IsSound t (reaps q now) w v =
    update-IsSound t.rows (is_exhausted q now) (bury now) (λ j at. bury-IsSound q now j) v.sound
step-IsSound t (claims q now worker limit locked) w v =
    update-IsSound t.rows _ (lease q now worker)
      (λ j at picked.
        lease-IsSound q now worker locked j
          (claimable-meets q now limit locked t j v.has_ids at picked))
      v.sound
step-IsSound t (heartbeats q now c) w v =
    update-IsSound t.rows (is_held c) (extend q now) (λ j at. extend-IsSound q now c j) v.sound
step-IsSound t (acks now c) w v =
    update-IsSound t.rows (is_held c) (succeed now) (λ j at. succeed-IsSound now c j) v.sound
step-IsSound t (nacks now delay c error) w v =
    update-IsSound t.rows (is_held c) _ (λ j at. fail-IsSound now delay (take 4000 error) c j)
      v.sound
step-IsSound t (requeues q now limit) w v =
    update-IsSound t.rows _ (revive now)
      (λ j at picked.
        revive-IsSound q now j
          (picked-meets finished_first (is_dead_in q) limit t.rows j v.has_ids.distinct at picked))
      v.sound

-- Every statement keeps the table valid.
pub step-IsValid : (t : Jobs) (s : Statement) → IsWellFormed s → IsValid t → IsValid (step t s)
step-IsValid t s w v = record { has_ids = step-HasIds t s v.has_ids; sound = step-IsSound t s w v }

-- Any sequence of well-formed statements keeps a valid table valid: ids stay apart, a pending job has
-- an attempt left and no owner, a running one has an owner and no time of its end, one that ended has
-- a time of its end and no owner, and no row is `failed`.
pub run-IsValid :
    (t : Jobs) (ss : List Statement) → All IsWellFormed ss → IsValid t → IsValid (run t ss)
unfolding run
run-IsValid t [] w v = v
run-IsValid t (s ∷ ss) w v = run-IsValid (step t s) ss w.1 (step-IsValid t s w.0 v)
