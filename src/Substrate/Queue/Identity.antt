-- ===== src/Substrate/Queue/Identity.antt =====
-- The ids of the rows.
use cite_delta_rag.Prelude.{
  ◌<◌, ◌≡◌, refl, sym, ap, subst, inl, inr, Bool, false, List, [], ◌∷◌, ◌++◌, arith, In, Bool-cases,
  any, elem, elem→In, Distinct, Distinct-append_one, nat_eq, In-append,
}
use cite_delta_rag.Substrate.Queue.Models.{Job, Jobs}
use cite_delta_rag.Substrate.Queue.Table.{update_where, ids_of}
use cite_delta_rag.Substrate.Queue.Table.Updates.{In-map, In-update, ids-update}
use cite_delta_rag.Substrate.Queue.Enqueue.{enqueue, new_job, conflicts, queue_name}
use cite_delta_rag.Substrate.Queue.Claim.{reap, bury, lease, claim_rows}
use cite_delta_rag.Substrate.Queue.Finish.{
  heartbeat, extend, ack, succeed, nack_row, fail, requeue_dead, revive,
}
use cite_delta_rag.Substrate.Queue.History.{
  Statement, enqueues, reaps, claims, heartbeats, acks, nacks, requeues, step, run,
}

pub record HasIds (t : Jobs) : Type 0 where
  pub distinct : Distinct (ids_of t.rows)
  pub below : (j : Job) → In j t.rows → j.id < t.next_id

update-HasIds :
    (t : Jobs) (p : Job → Bool) (f : Job → Job)
    → ((j : Job) → (f j).id ≡ j.id)
    → HasIds t
    → HasIds (record t { rows = update_where p f t.rows })
update-HasIds t p f keep h = record {
  distinct = subst Distinct (sym (ids-update p f keep t.rows)) h.distinct;
  below = λ j at.
      let (old, place, same) = In-update p f t.rows j at in
      ground (arith, h.below old place, keep old, ap (λ (x : Job). x.id) same);
}

ids-append : (rows : List Job) (j : Job) → ids_of (rows ++ (j ∷ [])) ≡ ids_of rows ++ (j.id ∷ [])
ids-append [] j = refl
ids-append (x ∷ xs) j = ap (◌∷◌ x.id) (ids-append xs j)

fresh_id : (t : Jobs) → HasIds t → elem t.next_id (ids_of t.rows) ≡ false
fresh_id t h = elim (Bool-cases (elem t.next_id (ids_of t.rows))) [
  | inl e ↦
      let (j, place, same) = In-map (λ (x : Job). x.id) t.rows t.next_id (elem→In _ _ e) in
      absurd (omega (arith, h.below j place, same))
  | inr e ↦ e
]

-- Every statement keeps the ids apart and below the next one to be given out.
pub step-HasIds : (t : Jobs) (s : Statement) → HasIds t → HasIds (step t s)
unfolding step enqueue reap claim_rows heartbeat ack nack_row requeue_dead
step-HasIds t (enqueues q now spec) h =
    elim (Bool-cases (any (conflicts (queue_name q spec) spec.idempotency_key) t.rows)) [
      | inl e ↦
          rw (e, step, enqueue)
            (record { distinct = h.distinct; below = λ j at. omega (arith, h.below j at) })
      | inr e ↦
          rw (e, step, enqueue)
            (record {
              distinct =
                  subst Distinct (sym (ids-append t.rows (new_job q now spec t.next_id)))
                    (Distinct-append_one (ids_of t.rows) t.next_id h.distinct (fresh_id t h));
              below = λ j at. elim (In-append t.rows _ j at) [
                | inl old ↦ omega (arith, h.below j old)
                | inr new ↦ ground (arith, new)
              ];
            })
    ]
step-HasIds t (reaps q now) h = update-HasIds t _ (bury now) (λ j. unfold bury in refl) h
step-HasIds t (claims q now worker limit locked) h =
    update-HasIds t _ (lease q now worker) (λ j. refl) h
step-HasIds t (heartbeats q now c) h = update-HasIds t _ (extend q now) (λ j. refl) h
step-HasIds t (acks now c) h = update-HasIds t _ (succeed now) (λ j. refl) h
step-HasIds t (nacks now delay c error) h =
    update-HasIds t _ (fail now delay _) (λ j. ground arith) h
step-HasIds t (requeues q now limit) h = update-HasIds t _ (revive now) (λ j. refl) h

pub run-HasIds : (t : Jobs) (ss : List Statement) → HasIds t → HasIds (run t ss)
unfolding run
run-HasIds t [] h = h
run-HasIds t (s ∷ ss) h = run-HasIds (step t s) ss (step-HasIds t s h)
