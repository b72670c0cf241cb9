-- ===== src/Substrate/Queue/Accepted.antt =====
-- The visibility timeout of a claim, and the holder's reports.
use cite_delta_rag.Prelude.{
  ℕ, ◌+◌, ◌≡◌, refl, sym, ap, subst, inl, inr, Bool, true, List, [], ◌∷◌, ◌++◌, arith, String, In,
  append-In, Bool-cases, any, nat_eq, ==_iff, All,
}
use cite_delta_rag.Substrate.Queue.Models.{Job, Jobs, JobQueue, ClaimedJob}
use cite_delta_rag.Substrate.Queue.Table.{update_where, ids_of}
use cite_delta_rag.Substrate.Queue.Table.Updates.{In-map, map-In, ids-update}
use cite_delta_rag.Substrate.Queue.Enqueue.{enqueue, new_job, conflicts, queue_name}
use cite_delta_rag.Substrate.Queue.Claim.{reap, bury, lease, claim_rows}
use cite_delta_rag.Substrate.Queue.Finish.{
  heartbeat, extend, ack, succeed, nack_row, fail, requeue_dead, revive, is_held,
}
use cite_delta_rag.Substrate.Queue.Identity.{HasIds, step-HasIds}
use cite_delta_rag.Substrate.Queue.Fencing.{claimed_row}
use cite_delta_rag.Substrate.Queue.Leases.{IsLeased, Respects, run-IsLeased, claim-IsLeased}
use cite_delta_rag.Substrate.Queue.History.{
  Statement, enqueues, reaps, claims, heartbeats, acks, nacks, requeues, step, run,
}

-- A row with the id is in the table.
abbrev pub HasRow : ℕ → Jobs → Type 0
HasRow i t = In i (ids_of t.rows)

pub update-HasRow :
    (i : ℕ) (t : Jobs) (p : Job → Bool) (f : Job → Job)
    → ((j : Job) → (f j).id ≡ j.id)
    → HasRow i t
    → HasRow i (record t { rows = update_where p f t.rows })
update-HasRow i t p f keep h = subst (In i) (sym (ids-update p f keep t.rows)) h

pub step-HasRow : (i : ℕ) (t : Jobs) (s : Statement) → HasRow i t → HasRow i (step t s)
unfolding step enqueue reap claim_rows heartbeat ack nack_row requeue_dead
step-HasRow i t (enqueues q now spec) h =
    elim (Bool-cases (any (conflicts (queue_name q spec) spec.idempotency_key) t.rows)) [
      | inl e ↦ rw (e, step, enqueue) h
      | inr e ↦
          let (j, place, same) = In-map (λ (x : Job). x.id) t.rows i h in
          rw (e, step, enqueue)
            (subst (λ k. In k (ids_of (t.rows ++ (new_job q now spec t.next_id ∷ [])))) (sym same)
              (map-In (λ (x : Job). x.id) (t.rows ++ (new_job q now spec t.next_id ∷ [])) j
                (append-In t.rows _ j (inl place))))
    ]
step-HasRow i t (reaps q now) h = update-HasRow i t _ (bury now) (λ j. unfold bury in refl) h
step-HasRow i t (claims q now worker limit locked) h =
    update-HasRow i t _ (lease q now worker) (λ j. refl) h
step-HasRow i t (heartbeats q now c) h = update-HasRow i t _ (extend q now) (λ j. refl) h
step-HasRow i t (acks now c) h = update-HasRow i t _ (succeed now) (λ j. refl) h
step-HasRow i t (nacks now delay c error) h =
    update-HasRow i t _ (fail now delay _) (λ j. ground arith) h
step-HasRow i t (requeues q now limit) h = update-HasRow i t _ (revive now) (λ j. refl) h

pub run-HasRow : (i : ℕ) (t : Jobs) (ss : List Statement) → HasRow i t → HasRow i (run t ss)
unfolding run
run-HasRow i t [] h = h
run-HasRow i t (s ∷ ss) h = run-HasRow i (step t s) ss (step-HasRow i t s h)

any-In : (p : Job → Bool) (rows : List Job) (j : Job) → In j rows → p j ≡ true → any p rows ≡ true
any-In p [] j m e = absurd m
any-In p (x ∷ xs) j m e = ground (arith, any-In p xs j)

pub held :
    (t : Jobs) (h : ClaimedJob) (until : ℕ)
    → IsLeased h.id h.lease_epoch until t
    → HasRow h.id t
    → any (is_held h) t.rows ≡ true
unfolding is_held
held t h until leased there =
    let (j, place, same) = In-map (λ (x : Job). x.id) t.rows h.id there in
    any-In (is_held h) t.rows j place (
      ground (
        arith,
        leased.running_row j place (sym same),
        leased.same_epoch j place (sym same),
        ==_iff j.id h.id,
        ==_iff j.lease_epoch h.lease_epoch,
        same,
      ))

-- Until the visibility timeout of a claim has passed, whatever others do, the holder's ack and
-- heartbeat are accepted: neither claims and reapers before that time, nor reports under other
-- leases, nor new jobs and requeues take the job away.
pub lease_accepted :
    (t : Jobs) (q q' : JobQueue) (now now' : ℕ) (worker : String) (limit : ℕ) (locked : List ℕ)
    (between : List Statement) (h : ClaimedJob)
    → HasIds t
    → In h (claim_rows q now worker limit locked t).1
    → All (Respects h.id h.lease_epoch (now + q.visibility_timeout)) between
    → ((ack now' h (run (claim_rows q now worker limit locked t).0 between)).1 ≡ true)
      × ((heartbeat q' now' h (run (claim_rows q now worker limit locked t).0 between)).1 ≡ true)
unfolding ack heartbeat lease
lease_accepted t q q' now now' worker limit locked between h v at r =
    let claimed = (claim_rows q now worker limit locked t).0 in
    let (leased, _) =
      run-IsLeased h.id h.lease_epoch (now + q.visibility_timeout) claimed between
        (claim-IsLeased q now worker limit locked t h v at)
        (unfold step in step-HasIds t (claims q now worker limit locked) v) r in
    let (old, place, e, _) = claimed_row q now worker limit locked t h at in
    let before : HasRow h.id t =
      subst (λ i. In i (ids_of t.rows)) (sym (ap (λ (x : ClaimedJob). x.id) e))
        (map-In (λ (x : Job). x.id) t.rows old place) in
    let there =
      run-HasRow h.id claimed between
        (unfold step in step-HasRow h.id t (claims q now worker limit locked) before) in
    let yes_held = held (run claimed between) h (now + q.visibility_timeout) leased there in
    (yes_held, yes_held)
