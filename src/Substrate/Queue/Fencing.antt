-- ===== src/Substrate/Queue/Fencing.antt =====
-- The fencing token: handles whose epoch is past.
use cite_delta_rag.Prelude.{
  ℕ, ◌≤◌, ◌<◌, ◌≡◌, refl, sym, ap, subst, ◌∙◌, inl, inr, Bool, true, false, List, [], ◌∷◌, arith,
  none, take, In, Bool-cases, any, select, nat_eq, String, In-append, In-select,
}
use cite_delta_rag.Text.{Text}
use cite_delta_rag.Substrate.Queue.Models.{Job, Jobs, JobQueue, ClaimedJob}
use cite_delta_rag.Substrate.Queue.Table.{update_where, is_picked}
use cite_delta_rag.Substrate.Queue.Table.Updates.{In-map, In-update, update-none, row_of_id}
use cite_delta_rag.Substrate.Queue.Enqueue.{enqueue, conflicts, queue_name}
use cite_delta_rag.Substrate.Queue.Claim.{reap, bury, lease, claim_rows, claimable, handle}
use cite_delta_rag.Substrate.Queue.Finish.{
  heartbeat, extend, ack, succeed, nack_row, fail, requeue_dead, revive, is_held,
}
use cite_delta_rag.Substrate.Queue.Identity.{HasIds, run-HasIds, step-HasIds}
use cite_delta_rag.Substrate.Queue.History.{
  Statement, enqueues, reaps, claims, heartbeats, acks, nacks, requeues, step, run,
}

-- The id was given out, and its row's epoch is `m` or higher.
pub record HasReached (i m : ℕ) (t : Jobs) : Type 0 where
  pub given : i < t.next_id
  pub epoch : (j : Job) → In j t.rows → j.id ≡ i → m ≤ j.lease_epoch

-- A change of a row that keeps its id and never lowers its epoch.
abbrev Advances : (Job → Job) → Type 0
Advances f = (j : Job) → ((f j).id ≡ j.id) × (j.lease_epoch ≤ (f j).lease_epoch)

update-HasReached :
    (i m : ℕ) (t : Jobs) (p : Job → Bool) (f : Job → Job)
    → Advances f
    → HasReached i m t
    → HasReached i m (record t { rows = update_where p f t.rows })
update-HasReached i m t p f adv h = record {
  given = h.given;
  epoch = λ j at e.
      let (old, place, same) = In-update p f t.rows j at in
      ground (
        arith,
        h.epoch old place,
        adv old,
        ap (λ (x : Job). x.id) same,
        ap (λ (x : Job). x.lease_epoch) same,
      );
}

step-HasReached :
    (i m : ℕ) (t : Jobs) (s : Statement) → HasReached i m t → HasReached i m (step t s)
unfolding step enqueue reap claim_rows heartbeat ack nack_row requeue_dead
step-HasReached i m t (enqueues q now spec) h =
    elim (Bool-cases (any (conflicts (queue_name q spec) spec.idempotency_key) t.rows)) [
      | inl e ↦ rw (e, step, enqueue) (record { given = omega (arith, h.given); epoch = h.epoch })
      | inr e ↦
          rw (e, step, enqueue)
            (record {
              given = omega (arith, h.given);
              epoch = λ j at same. elim (In-append t.rows _ j at) [
                | inl old ↦ h.epoch j old same
                | inr new ↦ absurd (ground (arith, h.given, new))
              ];
            })
    ]
step-HasReached i m t (reaps q now) h =
    update-HasReached i m t _ (bury now) (λ j. unfold bury in (refl, omega arith)) h
step-HasReached i m t (claims q now worker limit locked) h =
    update-HasReached i m t _ (lease q now worker) (λ j. unfold lease in (refl, omega arith)) h
step-HasReached i m t (heartbeats q now c) h =
    update-HasReached i m t _ (extend q now) (λ j. (refl, omega arith)) h
step-HasReached i m t (acks now c) h =
    update-HasReached i m t _ (succeed now) (λ j. (refl, omega arith)) h
step-HasReached i m t (nacks now delay c error) h =
    update-HasReached i m t _ (fail now delay _) (λ j. ground arith) h
step-HasReached i m t (requeues q now limit) h =
    update-HasReached i m t _ (revive now) (λ j. (refl, omega arith)) h

pub run-HasReached :
    (i m : ℕ) (t : Jobs) (ss : List Statement) → HasReached i m t → HasReached i m (run t ss)
unfolding run
run-HasReached i m t [] h = h
run-HasReached i m t (s ∷ ss) h = run-HasReached i m (step t s) ss (step-HasReached i m t s h)

-- A claimed job's row, before the claim.
pub claimed_row :
    (q : JobQueue) (now : ℕ) (worker : String) (limit : ℕ) (locked : List ℕ) (t : Jobs)
    (h : ClaimedJob)
    → In h (claim_rows q now worker limit locked t).1
    → (old : Job) × In old t.rows
      × (h ≡ handle (lease q now worker old))
      × (is_picked (claimable q now limit locked t.rows) old ≡ true)
unfolding claim_rows
claimed_row q now worker limit locked t h m =
    let picked = claimable q now limit locked t.rows in
    let (old, place, e) =
      In-map (λ j. handle (lease q now worker j)) (select (is_picked picked) t.rows) h m in
    let (at, test) = In-select (is_picked picked) t.rows old place in (old, at, e, test)

claim-exceeds :
    (q : JobQueue) (now : ℕ) (worker : String) (limit : ℕ) (locked : List ℕ) (t : Jobs)
    (h : ClaimedJob) (m : ℕ)
    → In h (claim_rows q now worker limit locked t).1
    → HasReached h.id m t
    → m < h.lease_epoch
claim-exceeds q now worker limit locked t h m at r =
    let (old, place, e, _) = claimed_row q now worker limit locked t h at in
    unfold lease in
    omega (
      arith,
      r.epoch old place (ap (λ (x : ClaimedJob). x.id) (sym e)),
      ap (λ (x : ClaimedJob). x.lease_epoch) e,
    )

-- After a claim the row of a claimed id is the leased one.
pub claimed_after :
    (q : JobQueue) (now : ℕ) (worker : String) (limit : ℕ) (locked : List ℕ) (t : Jobs)
    (h : ClaimedJob) (j : Job)
    → HasIds t
    → In h (claim_rows q now worker limit locked t).1
    → In j (claim_rows q now worker limit locked t).0.rows
    → j.id ≡ h.id
    → (old : Job) × In old t.rows
      × (j ≡ lease q now worker old)
      × (h ≡ handle (lease q now worker old))
unfolding claim_rows
claimed_after q now worker limit locked t h j v at m same =
    let (old, place, e, picked) = claimed_row q now worker limit locked t h at in
    let (row, spot, made) =
      In-update (is_picked (claimable q now limit locked t.rows)) (lease q now worker) t.rows j m in
    let here : row ≡ old =
      row_of_id t.rows row old v.distinct spot place
        (ground (arith, ap (λ (x : Job). x.id) made, same, ap (λ (x : ClaimedJob). x.id) e)) in
    (old, place, made ∙ rw (here, picked), e)

claim-HasReached :
    (q : JobQueue) (now : ℕ) (worker : String) (limit : ℕ) (locked : List ℕ) (t : Jobs)
    (h : ClaimedJob)
    → HasIds t
    → In h (claim_rows q now worker limit locked t).1
    → HasReached h.id h.lease_epoch (claim_rows q now worker limit locked t).0
claim-HasReached q now worker limit locked t h v at =
    let (old, place, e, _) = claimed_row q now worker limit locked t h at in
    record {
      given =
          unfold claim_rows lease in
          omega (arith, v.below old place, ap (λ (x : ClaimedJob). x.id) e);
      epoch = λ j m same.
          let (row, _, made, from) = claimed_after q now worker limit locked t h j v at m same in
          omega (
            arith,
            ap (λ (x : Job). x.lease_epoch) made,
            ap (λ (x : ClaimedJob). x.lease_epoch) from,
          );
    }

-- Nothing in the table is held by a handle whose epoch is past.
stale-not-held :
    (t : Jobs) (h : ClaimedJob) (m : ℕ)
    → HasReached h.id m t
    → h.lease_epoch < m
    → (j : Job) → In j t.rows
    → is_held h j ≡ false
unfolding is_held
stale-not-held t h m r lt j at = ground (arith, r.epoch j at)

-- The three reports of a holder that changes nothing.
abbrev pub Refused : Jobs → ClaimedJob → Type 0
Refused t h =
    ((now : ℕ) → ack now h t ≡ (t, false))
    × ((q : JobQueue) (now : ℕ) → heartbeat q now h t ≡ (t, false))
    × ((now delay : ℕ) (error : Text) → nack_row now delay h error t ≡ (t, none))

stale-Refused :
    (t : Jobs) (h : ClaimedJob) (m : ℕ) → HasReached h.id m t → h.lease_epoch < m → Refused t h
unfolding ack heartbeat nack_row
stale-Refused t h m r lt =
    let free = stale-not-held t h m r lt in
    (
      λ now.
          let (same, quiet, _) = update-none (is_held h) (succeed now) t.rows free in
          rw (same, quiet),
      λ q now.
          let (same, quiet, _) = update-none (is_held h) (extend q now) t.rows free in
          rw (same, quiet),
      λ now delay error.
          let (same, _, gone) =
            update-none (is_held h) (fail now delay (take 4000 error)) t.rows free in
          rw (same, gone),
    )

-- Once a job was claimed again, whatever statements ran between and afterwards, the first holder's
-- ack, heartbeat and nack are refused and leave the table as it is.
pub zombie-Refused :
    (t : Jobs) (q q' : JobQueue) (now now' : ℕ) (worker worker' : String) (limit limit' : ℕ)
    (locked locked' : List ℕ) (between after : List Statement) (h h' : ClaimedJob)
    → HasIds t
    → In h (claim_rows q now worker limit locked t).1
    → In h'
        (claim_rows q' now' worker' limit' locked'
          (run (claim_rows q now worker limit locked t).0 between)).1
    → h'.id ≡ h.id
    → Refused
        (run
          (claim_rows q' now' worker' limit' locked'
            (run (claim_rows q now worker limit locked t).0 between)).0
          after)
        h
zombie-Refused t q q' now now' worker worker' limit limit' locked locked' between after h h' v at
      at' same =
    let claimed = (claim_rows q now worker limit locked t).0 in
    let middle = run claimed between in
    let reached =
      run-HasReached h.id h.lease_epoch claimed between
        (claim-HasReached q now worker limit locked t h v at) in
    let valid : HasIds middle =
      run-HasIds claimed between
        (unfold step in step-HasIds t (claims q now worker limit locked) v) in
    let later = claim-HasReached q' now' worker' limit' locked' middle h' valid at' in
    let ended = run-HasReached h'.id h'.lease_epoch _ after later in
    stale-Refused _ h h'.lease_epoch
      (subst
        (λ i.
          HasReached i h'.lease_epoch
            (run (claim_rows q' now' worker' limit' locked' middle).0 after))
        same ended)
      (claim-exceeds q' now' worker' limit' locked' middle h' h.lease_epoch at'
        (subst (λ i. HasReached i h.lease_epoch middle) (sym same) reached))
