-- ===== src/Substrate/Queue/Final.antt =====
-- Jobs that ended, and jobs that are due.
use cite_delta_rag.Prelude.{
  ℕ, zero, suc, ◌≤◌, ◌<◌, ◌≡◌, refl, sym, ap, subst, ◌∙◌, inl, inr, Bool, true, false, ◌||◌, List,
  [], ◌∷◌, arith, String, In, append-In, Bool-cases, any, if◌then◌else◌, length, select, select-In,
  take, nat_eq, ==_iff, string_eq,
}
use cite_delta_rag.Prelude.Sorting.{insert_by, sort_by, sort_by-In}
use cite_delta_rag.Substrate.Queue.Models.{succeeded, Job, Jobs, JobQueue, is_pending, is_running}
use cite_delta_rag.Substrate.Queue.Table.{update_where, is_picked}
use cite_delta_rag.Substrate.Queue.Table.Updates.{In-update, update-In}
use cite_delta_rag.Substrate.Queue.Table.Picks.{picked-meets, In-picked}
use cite_delta_rag.Substrate.Queue.Enqueue.{enqueue, conflicts, queue_name}
use cite_delta_rag.Substrate.Queue.Claim.{
  reap, is_exhausted, bury, lease, claim_rows, claim, claimable, is_claimable, comes_first,
}
use cite_delta_rag.Substrate.Queue.Finish.{
  heartbeat, extend, ack, succeed, nack_row, requeue_dead, revive, is_held, finished_first,
  is_dead_in,
}
use cite_delta_rag.Substrate.Queue.Identity.{HasIds, step-HasIds}
use cite_delta_rag.Substrate.Queue.Invariant.{IsValid, IsSound}
use cite_delta_rag.Substrate.Queue.History.{
  Statement, enqueues, reaps, claims, heartbeats, acks, nacks, requeues, step, run,
}

update-stays :
    (p : Job → Bool) (f : Job → Job) (rows : List Job) (j : Job)
    → In j rows
    → p j ≡ false
    → In j (update_where p f rows)
update-stays p f rows j at e =
    subst (λ b. In (if b then f j else j) (update_where p f rows)) e (update-In p f rows j at)

unpicked :
    (first : Job → Job → Bool) (p : Job → Bool) (limit : ℕ) (t : Jobs) (j : Job)
    → HasIds t
    → In j t.rows
    → p j ≡ false
    → is_picked (take limit (sort_by first (select p t.rows))) j ≡ false
unpicked first p limit t j v at e =
    elim (Bool-cases (is_picked (take limit (sort_by first (select p t.rows))) j)) [
      | inl y ↦ absurd (cc (picked-meets first p limit t.rows j v.distinct at y, e))
      | inr n ↦ n
    ]

step-final :
    (t : Jobs) (s : Statement) (j : Job)
    → HasIds t
    → In j t.rows
    → j.state ≡ succeeded
    → In j (step t s).rows
unfolding step enqueue reap claim_rows heartbeat ack nack_row requeue_dead
step-final t (enqueues q now spec) j v at e =
    elim (Bool-cases (any (conflicts (queue_name q spec) spec.idempotency_key) t.rows)) [
      | inl there ↦ rw (there, step, enqueue) at
      | inr new ↦ rw (new, step, enqueue) (append-In t.rows _ j (inl at))
    ]
step-final t (reaps q now) j v at e =
    update-stays (is_exhausted q now) (bury now) t.rows j at
      (unfold is_exhausted in ground (arith, e))
step-final t (claims q now worker limit locked) j v at e =
    update-stays _ (lease q now worker) t.rows j at (
      unfold claimable in
      unpicked comes_first (is_claimable q now locked) limit t j v at
        (unfold is_claimable in ground (arith, e)))
step-final t (heartbeats q now c) j v at e =
    update-stays (is_held c) (extend q now) t.rows j at (unfold is_held in ground (arith, e))
step-final t (acks now c) j v at e =
    update-stays (is_held c) (succeed now) t.rows j at (unfold is_held in ground (arith, e))
step-final t (nacks now delay c error) j v at e =
    update-stays (is_held c) _ t.rows j at (unfold is_held in ground (arith, e))
step-final t (requeues q now limit) j v at e =
    update-stays _ (revive now) t.rows j at
      (unpicked finished_first (is_dead_in q) limit t j v at (ground (arith, e)))

-- The row of a job that succeeded stays in the table as it is, whatever statements run.
pub succeeded_final :
    (t : Jobs) (ss : List Statement) (j : Job)
    → HasIds t
    → In j t.rows
    → j.state ≡ succeeded
    → In j (run t ss).rows
unfolding run
succeeded_final t [] j v at e = at
succeeded_final t (s ∷ ss) j v at e =
    succeeded_final (step t s) ss j (step-HasIds t s v) (step-final t s j v at e) e

length-insert_by :
    (first : Job → Job → Bool) (j : Job) (js : List Job)
    → length (insert_by first j js) ≡ suc (length js)
unfolding insert_by
length-insert_by first j [] = refl
length-insert_by first j (x ∷ xs) = ground (arith, length-insert_by first j xs)

length-sort_by : (first : Job → Job → Bool) (js : List Job) → length (sort_by first js) ≡ length js
unfolding sort_by
length-sort_by first [] = refl
length-sort_by first (j ∷ js) =
    omega (arith, length-insert_by first j (sort_by first js), length-sort_by first js)

length-select : (p : Job → Bool) (js : List Job) → length (select p js) ≤ length js
length-select p [] = omega arith
length-select p (j ∷ js) = ground (arith, length-select p js)

length-update :
    (p : Job → Bool) (f : Job → Job) (js : List Job) → length (update_where p f js) ≡ length js
unfolding update_where
length-update p f [] = refl
length-update p f (j ∷ js) = ap suc (length-update p f js)

take-all : (n : ℕ) (js : List Job) → length js ≤ n → take n js ≡ js
take-all zero [] h = refl
take-all zero (j ∷ js) h = absurd (omega (arith, h))
take-all (suc n) [] h = refl
take-all (suc n) (j ∷ js) h = ap (◌∷◌ j) (take-all n js (omega (arith, h)))

-- A claim with room for every row picks all that is claimable.
claimable-all :
    (q : JobQueue) (now limit : ℕ) (t : Jobs) (j : Job)
    → length t.rows ≤ limit
    → In j t.rows
    → is_claimable q now [] j ≡ true
    → is_picked (claimable q now limit [] t.rows) j ≡ true
unfolding claimable
claimable-all q now limit t j room at able =
    let due = select (is_claimable q now []) t.rows in
    let all : take limit (sort_by comes_first due) ≡ sort_by comes_first due =
      take-all limit (sort_by comes_first due) (
        omega (
          arith,
          length-sort_by comes_first due,
          length-select (is_claimable q now []) t.rows,
          room,
        )) in
    rw all (
      In-picked comes_first (sort_by comes_first due) j
        (sort_by-In comes_first j due (select-In (is_claimable q now []) t.rows j at able)))

-- A row that is neither exhausted nor claimable is not due.
left_over :
    (q : JobQueue) (now : ℕ) (j : Job)
    → IsSound j
    → j.queue ≡ q.queue
    → (is_pending j.state || is_running j.state) ≡ true
    → is_exhausted q now j ≡ false
    → is_claimable q now [] j ≡ false
    → now < j.available_at
unfolding is_exhausted is_claimable
left_over q now j s mine live e c = ground (arith, ==_iff j.queue q.queue)

-- In a valid table, a claim with room for every row and nothing locked leaves no job behind: each
-- pending or running row of the queue is then due only later, so that due jobs were leased or, with
-- no attempt left, buried.
pub claim_drains :
    (q : JobQueue) (now : ℕ) (worker : String) (limit : ℕ) (t : Jobs) (j : Job)
    → IsValid t
    → length t.rows ≤ limit
    → 0 < q.visibility_timeout
    → In j (claim q now worker limit [] t).0.rows
    → j.queue ≡ q.queue
    → (is_pending j.state || is_running j.state) ≡ true
    → now < j.available_at
unfolding claim claim_rows reap
claim_drains q now worker limit t j v room timeout at mine live =
    let t' = reap q now t in
    let (old, place, made) =
      In-update (is_picked (claimable q now limit [] t'.rows)) (lease q now worker) t'.rows j at in
    let (first, start, from) = In-update (is_exhausted q now) (bury now) t.rows old place in
    elim (Bool-cases (is_picked (claimable q now limit [] t'.rows) old)) [
      | inl y ↦
          let was : j ≡ lease q now worker old = made ∙ rw y in
          unfold lease in omega (arith, timeout, ap (λ (x : Job). x.available_at) was)
      | inr n ↦
          let was : j ≡ old = made ∙ rw n in
          elim (Bool-cases (is_exhausted q now first)) [
            | inl y ↦
                let buried : old ≡ bury now first = from ∙ rw y in
                absurd (
                  unfold bury in
                  ground
                    (arith, ap (λ (x : Job). x.state) buried, ap (λ (x : Job). x.state) was, live))
            | inr m ↦
                let same : old ≡ first = from ∙ rw m in
                let here : j ≡ first = was ∙ same in
                subst (λ (x : Job). now < x.available_at) (sym here)
                  (left_over q now first (v.sound first start)
                    (ap (λ (x : Job). x.queue) (sym here) ∙ mine)
                    (subst (λ (x : Job). (is_pending x.state || is_running x.state) ≡ true) here
                      live)
                    m (not_able old first place n same))
          ]
    ]
  where
    not_able :
        (old : Job) (first : Job)
        → In old (reap q now t).rows
        → is_picked (claimable q now limit [] (reap q now t).rows) old ≡ false
        → old ≡ first
        → is_claimable q now [] first ≡ false
    not_able old first place n same = elim (Bool-cases (is_claimable q now [] first)) [
      | inr e ↦ e
      | inl able ↦ absurd (
          cc (
            claimable-all q now limit (reap q now t) old
                (rw (length-update (is_exhausted q now) (bury now) t.rows) room) place
                (subst (λ x. is_claimable q now [] x ≡ true) (sym same) able),
            n,
          ))
    ]
