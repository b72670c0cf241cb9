-- ===== src/Substrate/Queue/Examples.antt =====
-- Two jobs and two workers, with the theorems applied to them.
mod RetryRuns
use cite_delta_rag.Prelude.{
  ap, ◌+◌, ◌<◌, ◌≡◌, ◌≢◌, refl, inl, inr, true, false, List, [], ◌∷◌, length, arith, none, some, In,
  nat_eq,
}
use cite_delta_rag.Prelude.Int.{ℤ, pos, beq_ℤ}
use cite_delta_rag.Text.{codes}
use cite_delta_rag.Substrate.Queue.Models.{
  pending, succeeded, Job, Jobs, JobSpec, JobQueue, ClaimedJob,
}
use cite_delta_rag.Substrate.Queue.Table.{is_picked, update_where}
use cite_delta_rag.Substrate.Queue.Enqueue.{enqueue, enqueue_many, conflicts}
use cite_delta_rag.Substrate.Queue.Claim.{
  reap, is_exhausted, claim_rows, claim, claimable, is_claimable, comes_first, lease, handle,
}
use cite_delta_rag.Substrate.Queue.Finish.{ack, heartbeat, is_held}
use cite_delta_rag.Substrate.Queue.History.{
  Statement, enqueues, reaps, claims, heartbeats, acks, requeues, step, run,
}
use cite_delta_rag.Substrate.Queue.Identity.{HasIds}
use cite_delta_rag.Substrate.Queue.Fencing.{Refused, zombie-Refused}
use cite_delta_rag.Substrate.Queue.Leases.{lease_exclusive}
use cite_delta_rag.Substrate.Queue.Accepted.{lease_accepted}
use cite_delta_rag.Substrate.Queue.Invariant.{IsValid, run-IsValid}
use cite_delta_rag.Substrate.Queue.Picking.{IsDue, IsBefore, claim_ordered}
use cite_delta_rag.Substrate.Queue.Once.{enqueue_once, enqueue_many_counts}
use cite_delta_rag.Substrate.Queue.Final.{succeeded_final, claim_drains}

abbrev q : JobQueue
q = record { queue = "embed"; visibility_timeout = 60; retry_base = 1; retry_cap = 60 }

abbrev spec : ℤ → JobSpec
spec priority = record {
  kind = "embed_section";
  payload = codes "{}";
  queue = "";
  idempotency_key = some "214.2";
  priority = priority;
  max_attempts = 3;
  available_at = none;
}

-- A job that waits, and one that ended.
abbrev waiting : Job
waiting = record {
  id = 1;
  queue = "embed";
  kind = "embed_section";
  payload = codes "{}";
  idempotency_key = some "214.2";
  state = pending;
  priority = pos 0;
  attempts = 0;
  max_attempts = 3;
  available_at = 10;
  lease_epoch = 0;
  claimed_by = none;
  last_error = none;
  created_at = 10;
  updated_at = 10;
  finished_at = none;
}

abbrev urgent : Job
urgent = record waiting { id = 2; priority = pos 5; idempotency_key = none }

abbrev finished : Job
finished = record waiting {
  id = 3;
  idempotency_key = none;
  state = succeeded;
  attempts = 1;
  lease_epoch = 1;
  finished_at = some 12;
}

abbrev table : Jobs
table = record { rows = waiting ∷ urgent ∷ finished ∷ []; next_id = 4 }

table-HasIds : HasIds table
table-HasIds = record { distinct = (refl, (refl, (refl, tt))); below = λ j at. ground (arith, at) }

table-IsValid : IsValid table
table-IsValid = record { has_ids = table-HasIds; sound = λ j at. ground (arith, at) }

-- What the first worker is given, and what a second one is given once the lease has run out.
abbrev first_handle : ClaimedJob
first_handle = handle (lease q 20 "a" urgent)

abbrev second_handle : ClaimedJob
second_handle = handle (lease q 100 "b" (lease q 20 "a" urgent))

first_claim : In first_handle (claim_rows q 20 "a" 1 [] table).1
unfolding claim_rows claimable lease beq_ℤ
first_claim = inl refl

-- A stale heartbeat and a new job, between two claims.
abbrev between : List Statement
between = heartbeats q 50 second_handle ∷ enqueues q 51 (spec (pos 1)) ∷ []

abbrev after : List Statement
after = reaps q 300 ∷ []

abbrev claimed : Jobs
claimed = (claim_rows q 20 "a" 1 [] table).0

second_claim : In second_handle (claim_rows q 100 "b" 1 [] (run claimed between)).1
unfolding run step claim_rows claimable lease beq_ℤ heartbeat is_held enqueue conflicts update_where
second_claim = inl refl

abbrev other_handle : ClaimedJob
other_handle = handle (lease q 52 "b" waiting)

other_claim : In other_handle (claim_rows q 52 "b" 2 [] (run claimed between)).1
unfolding run step claim_rows claimable lease beq_ℤ heartbeat is_held enqueue conflicts update_where
other_claim = inl refl

lease_exclusive_example : other_handle.id ≢ first_handle.id
unfolding lease
lease_exclusive_example =
    lease_exclusive table q q 20 52 "a" "b" 1 2 [] [] between first_handle other_handle table-HasIds
      first_claim ((λ e. cc, (tt, tt))) (omega arith) other_claim

lease_accepted_example :
    ((ack 70 first_handle (run claimed between)).1 ≡ true)
    × ((heartbeat q 70 first_handle (run claimed between)).1 ≡ true)
unfolding lease
lease_accepted_example =
    lease_accepted table q q 20 70 "a" 1 [] between first_handle table-HasIds first_claim
      ((λ e. cc, (tt, tt)))

zombie-Refused_example :
    Refused (run (claim_rows q 100 "b" 1 [] (run claimed between)).0 after) first_handle
unfolding lease
zombie-Refused_example =
    zombie-Refused table q q 20 100 "a" "b" 1 1 [] [] between after first_handle second_handle
      table-HasIds first_claim second_claim refl

run-IsValid_example :
    IsValid
      (run table (claims q 20 "a" 1 [] ∷ enqueues q 21 (spec (pos 1)) ∷ acks 22 first_handle ∷ []))
run-IsValid_example =
    run-IsValid table
      (claims q 20 "a" 1 [] ∷ enqueues q 21 (spec (pos 1)) ∷ acks 22 first_handle ∷ [])
      (tt, (omega arith, (tt, tt))) table-IsValid

waiting-IsDue : IsDue q 20 [] waiting
waiting-IsDue = record {
  in_queue = refl;
  not_ended = inl refl;
  due = omega arith;
  attempts_left = omega arith;
  unlocked = refl;
}

waiting_left : (g : ClaimedJob) → In g (claim_rows q 20 "a" 1 [] table).1 → g.id ≢ waiting.id
unfolding claim_rows claimable lease beq_ℤ
waiting_left g (inl e) same = absurd (omega (arith, ap (λ (x : ClaimedJob). x.id) e, same))
waiting_left g (inr m) same = m

claim_ordered_example :
    (taken : Job) × In taken table.rows
    × (first_handle ≡ handle (lease q 20 "a" taken))
    × IsDue q 20 [] taken
    × IsBefore taken waiting
claim_ordered_example =
    claim_ordered q 20 "a" 1 [] table first_handle waiting table-HasIds first_claim (inl refl)
      waiting-IsDue waiting_left

-- The key is enqueued, its job runs and ends, and the key is enqueued again.
abbrev empty_table : Jobs
empty_table = record { rows = []; next_id = 1 }

abbrev working : List Statement
working = claims q 20 "a" 1 [] ∷ acks 22 (record first_handle { id = 1 }) ∷ []

enqueue_once_example :
    ((enqueue q 30 (spec (pos 9)) (run (enqueue q 10 (spec (pos 0)) empty_table).0 working)).1
      ≡ none)
    × ((enqueue q 30
          (spec (pos 9))
          (run (enqueue q 10 (spec (pos 0)) empty_table).0 working)).0.rows
        ≡ (run (enqueue q 10 (spec (pos 0)) empty_table).0 working).rows)
enqueue_once_example =
    enqueue_once q q 10 30 (spec (pos 0)) (spec (pos 9)) "214.2" empty_table working refl refl refl

-- The second spec has the key of the first.
one_created : (enqueue_many q 10 (spec (pos 0) ∷ spec (pos 9) ∷ []) empty_table 0).1 ≡ 1
unfolding enqueue_many enqueue conflicts
one_created = refl

succeeded_final_example :
    In finished (run table (claims q 200 "a" 5 [] ∷ requeues q 201 5 ∷ [])).rows
succeeded_final_example =
    succeeded_final table (claims q 200 "a" 5 [] ∷ requeues q 201 5 ∷ []) finished table-HasIds
      (inr (inr (inl refl))) refl

drained : In (lease q 20 "a" urgent) (claim q 20 "a" 5 [] table).0.rows
unfolding claim claim_rows reap is_exhausted update_where claimable lease beq_ℤ
drained = inr (inl refl)

claim_drains_example : 20 < 80
unfolding lease
claim_drains_example =
    claim_drains q 20 "a" 5 table (lease q 20 "a" urgent) table-IsValid (omega arith) (omega arith)
      drained refl refl
