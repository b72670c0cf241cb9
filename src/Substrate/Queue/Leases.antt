-- ===== src/Substrate/Queue/Leases.antt =====
-- The visibility timeout of a claim, and the claims of others.
use cite_delta_rag.Prelude.{
  ℕ, ◌+◌, ◌≤◌, ◌<◌, ◌≡◌, ◌≢◌, refl, sym, ap, subst, ◌∙◌, inl, inr, Bool, true, false, List, [], ◌∷◌,
  ◌++◌, arith, In, Bool-cases, any, select, take, nat_eq, String, In-append, All,
}
use cite_delta_rag.Prelude.Sorting.{sort_by}
use cite_delta_rag.Substrate.Queue.Models.{
  JobState, pending, running, succeeded, failed, dead, Job, Jobs, JobQueue, ClaimedJob, is_running,
  is_dead,
}
use cite_delta_rag.Substrate.Queue.Table.{update_where, is_picked}
use cite_delta_rag.Substrate.Queue.Table.Updates.{In-update}
use cite_delta_rag.Substrate.Queue.Table.Picks.{picked-meets}
use cite_delta_rag.Substrate.Queue.Enqueue.{enqueue, new_job, conflicts, queue_name}
use cite_delta_rag.Substrate.Queue.Claim.{
  reap, is_exhausted, bury, lease, claim_rows, claimable, is_claimable, comes_first,
}
use cite_delta_rag.Substrate.Queue.Finish.{
  heartbeat, extend, ack, succeed, nack_row, fail, requeue_dead, revive, finished_first, is_dead_in,
}
use cite_delta_rag.Substrate.Queue.Identity.{HasIds, step-HasIds}
use cite_delta_rag.Substrate.Queue.History.{
  Statement, enqueues, reaps, claims, heartbeats, acks, nacks, requeues, step, run,
}
use cite_delta_rag.Substrate.Queue.Fencing.{claimed_row, claimed_after}

-- In a table with distinct ids, a row that a claim picks may be claimed.
pub claimable-meets :
    (q : JobQueue) (now limit : ℕ) (locked : List ℕ) (t : Jobs) (j : Job)
    → HasIds t
    → In j t.rows
    → is_picked (claimable q now limit locked t.rows) j ≡ true
    → is_claimable q now locked j ≡ true
unfolding claimable
claimable-meets q now limit locked t j v at e =
    picked-meets comes_first (is_claimable q now locked) limit t.rows j v.distinct at e

-- The row of the id is leased under the epoch until `until` at least.
pub record IsLeased (i epoch until : ℕ) (t : Jobs) : Type 0 where
  pub given : i < t.next_id
  pub running_row : (j : Job) → In j t.rows → j.id ≡ i → is_running j.state ≡ true
  pub same_epoch : (j : Job) → In j t.rows → j.id ≡ i → j.lease_epoch ≡ epoch
  pub until_then : (j : Job) → In j t.rows → j.id ≡ i → until ≤ j.available_at

-- What others may do: claims and reapers run before the lease ends, and reports are made under
-- other leases.
abbrev pub Respects : ℕ → ℕ → ℕ → Statement → Type 0
Respects i epoch until (enqueues q now spec) = Unit {0}
Respects i epoch until (reaps q now) = now < until
Respects i epoch until (claims q now worker limit locked) = now < until
Respects i epoch until (heartbeats q now c) = c.id ≡ i → c.lease_epoch ≢ epoch
Respects i epoch until (acks now c) = c.id ≡ i → c.lease_epoch ≢ epoch
Respects i epoch until (nacks now delay c error) = c.id ≡ i → c.lease_epoch ≢ epoch
Respects i epoch until (requeues q now limit) = Unit {0}

dead-not-running : (s : JobState) → is_dead s ≡ true → is_running s ≡ false
dead-not-running pending d = refl
dead-not-running running d = absurd (cc d)
dead-not-running succeeded d = refl
dead-not-running failed d = refl
dead-not-running dead d = refl

module _ (i epoch until : ℕ) (t : Jobs) (h : IsLeased i epoch until t) where
  update-IsLeased :
      (p : Job → Bool) (f : Job → Job)
      → ((j : Job) → (f j).id ≡ j.id)
      → ((j : Job) → In j t.rows → j.id ≡ i → p j ≡ false)
      → IsLeased i epoch until (record t { rows = update_where p f t.rows })
  update-IsLeased p f keep off = record {
    given = h.given;
    running_row = λ j at e. let (k, e') = unchanged j at e in h.running_row j k e;
    same_epoch = λ j at e. let (k, e') = unchanged j at e in h.same_epoch j k e;
    until_then = λ j at e. let (k, e') = unchanged j at e in h.until_then j k e;
  }
    where
      unchanged : (j : Job) → In j (update_where p f t.rows) → j.id ≡ i → In j t.rows × (j.id ≡ i)
      unchanged j at e =
          let (old, place, made) = In-update p f t.rows j at in
          elim (Bool-cases (p old)) [
            | inl y ↦
                let was : j ≡ f old = made ∙ rw y in
                absurd (cc (off old place (sym (keep old) ∙ sym (ap (λ x. x.id) was) ∙ e), y))
            | inr n ↦
                let was : j ≡ old = made ∙ rw n in (subst (λ x. In x t.rows) (sym was) place, e)
          ]

  step-IsLeased :
      (s : Statement) → HasIds t → Respects i epoch until s → IsLeased i epoch until (step t s)
  unfolding step enqueue reap claim_rows heartbeat ack nack_row requeue_dead
  step-IsLeased (enqueues q now spec) v r =
      elim (Bool-cases (any (conflicts (queue_name q spec) spec.idempotency_key) t.rows)) [
        | inl e ↦
            rw (e, step, enqueue)
              (record {
                given = omega (arith, h.given);
                running_row = h.running_row;
                same_epoch = h.same_epoch;
                until_then = h.until_then;
              })
        | inr e ↦
            rw (e, step, enqueue)
              (record {
                given = omega (arith, h.given);
                running_row = λ j at same. h.running_row j (old j at same) same;
                same_epoch = λ j at same. h.same_epoch j (old j at same) same;
                until_then = λ j at same. h.until_then j (old j at same) same;
              })
      ]
    where
      old :
          (j : Job) → In j (t.rows ++ (new_job q now spec t.next_id ∷ [])) → j.id ≡ i → In j t.rows
      old j at same = elim (In-append t.rows _ j at) [
        | inl m ↦ m
        | inr new ↦ absurd (ground (arith, h.given, new))
      ]
  step-IsLeased (reaps q now) v r =
      update-IsLeased _ (bury now) (λ j. unfold bury in refl)
        (λ j at same. unfold is_exhausted in ground (arith, h.until_then j at same))
  step-IsLeased (claims q now worker limit locked) v r =
      update-IsLeased _ (lease q now worker) (λ j. refl)
        λ j at same. elim (Bool-cases (is_picked (claimable q now limit locked t.rows) j)) [
          | inl e ↦
              let meets = claimable-meets q now limit locked t j v at e in
              absurd (unfold is_claimable in ground (arith, h.until_then j at same, meets))
          | inr e ↦ e
        ]
  step-IsLeased (heartbeats q now c) v r =
      update-IsLeased _ (extend q now) (λ j. refl)
        (λ j at same. ground (arith, h.same_epoch j at same))
  step-IsLeased (acks now c) v r =
      update-IsLeased _ (succeed now) (λ j. refl)
        (λ j at same. ground (arith, h.same_epoch j at same))
  step-IsLeased (nacks now delay c error) v r =
      update-IsLeased _ (fail now delay _) (λ j. ground arith)
        (λ j at same. ground (arith, h.same_epoch j at same))
  step-IsLeased (requeues q now limit) v r =
      update-IsLeased _ (revive now) (λ j. refl)
        λ j at same.
          elim (Bool-cases
            (is_picked (take limit (sort_by finished_first (select (is_dead_in q) t.rows))) j)) [
              | inl e ↦
                  let meets =
                    picked-meets finished_first (is_dead_in q) limit t.rows j v.distinct at e in
                  absurd (ground (arith, dead-not-running j.state, h.running_row j at same, meets))
              | inr e ↦ e
            ]

pub run-IsLeased :
    (i epoch until : ℕ) (t : Jobs) (ss : List Statement)
    → IsLeased i epoch until t
    → HasIds t
    → All (Respects i epoch until) ss
    → IsLeased i epoch until (run t ss) × HasIds (run t ss)
unfolding run
run-IsLeased i epoch until t [] h v r = (h, v)
run-IsLeased i epoch until t (s ∷ ss) h v r =
    run-IsLeased i epoch until (step t s) ss (step-IsLeased i epoch until t h s v r.0)
      (step-HasIds t s v) r.1

pub claim-IsLeased :
    (q : JobQueue) (now : ℕ) (worker : String) (limit : ℕ) (locked : List ℕ) (t : Jobs)
    (h : ClaimedJob)
    → HasIds t
    → In h (claim_rows q now worker limit locked t).1
    → IsLeased h.id h.lease_epoch
        (now + q.visibility_timeout)
        (claim_rows q now worker limit locked t).0
unfolding lease
claim-IsLeased q now worker limit locked t h v at =
    let (old, place, e, _) = claimed_row q now worker limit locked t h at in
    let after = claimed_after q now worker limit locked t h in
    record {
      given =
          unfold claim_rows lease in
          omega (arith, v.below old place, ap (λ (x : ClaimedJob). x.id) e);
      running_row = λ j m same.
          let (row, _, made, from) = after j v at m same in
          ap (λ (x : Job). is_running x.state) made;
      same_epoch = λ j m same.
          let (row, _, made, from) = after j v at m same in
          ap (λ (x : Job). x.lease_epoch) made ∙ sym (ap (λ (x : ClaimedJob). x.lease_epoch) from);
      until_then = λ j m same.
          let (row, _, made, from) = after j v at m same in
          unfold lease in omega (arith, ap (λ (x : Job). x.available_at) made);
    }

-- Until the visibility timeout of a claim has passed, whatever others do, no claim takes the same
-- job: neither claims and reapers before that time, nor reports under other leases, nor new jobs and
-- requeues.
pub lease_exclusive :
    (t : Jobs) (q q' : JobQueue) (now now' : ℕ) (worker worker' : String) (limit limit' : ℕ)
    (locked locked' : List ℕ) (between : List Statement) (h h' : ClaimedJob)
    → HasIds t
    → In h (claim_rows q now worker limit locked t).1
    → All (Respects h.id h.lease_epoch (now + q.visibility_timeout)) between
    → now' < now + q.visibility_timeout
    → In h'
        (claim_rows q' now' worker' limit' locked'
          (run (claim_rows q now worker limit locked t).0 between)).1
    → h'.id ≢ h.id
unfolding lease
lease_exclusive t q q' now now' worker worker' limit limit' locked locked' between h h' v at r early
      at' same =
    let claimed = (claim_rows q now worker limit locked t).0 in
    let (leased, valid) =
      run-IsLeased h.id h.lease_epoch (now + q.visibility_timeout) claimed between
        (claim-IsLeased q now worker limit locked t h v at)
        (unfold step in step-HasIds t (claims q now worker limit locked) v) r in
    let (old, place, e, picked) =
      claimed_row q' now' worker' limit' locked' (run claimed between) h' at' in
    let meets =
      claimable-meets q' now' limit' locked' (run claimed between) old valid place picked in
    unfold is_claimable in
    ground (
      arith,
      meets,
      early,
      leased.until_then old place (sym (ap (λ (x : ClaimedJob). x.id) e) ∙ same),
    )
