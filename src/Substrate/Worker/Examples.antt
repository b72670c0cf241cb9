-- ===== src/Substrate/Worker/Examples.antt =====
-- One job in an empty queue's table, and a worker that runs it.
use cite_delta_rag.Prelude.{
  ℕ, ◌+◌, ◌/◌, In, inl, ◌≡◌, refl, true, Bool, none, some, List, [], ◌∷◌, arith,
}
use cite_delta_rag.Prelude.Int.{pos, beq_ℤ}
use cite_delta_rag.Text.{codes}
use cite_delta_rag.Substrate.Queue.Models.{pending, Job, Jobs, JobQueue, ClaimedJob}
use cite_delta_rag.Substrate.Queue.Claim.{claim, claim_rows, reap, claimable, lease, is_exhausted}
use cite_delta_rag.Substrate.Queue.History.{reaps, run, step}
use cite_delta_rag.Substrate.Queue.Table.{update_where}
use cite_delta_rag.Substrate.Queue.Finish.{heartbeat, ack}
use cite_delta_rag.Substrate.Queue.Invariant.{IsValid}
use cite_delta_rag.Substrate.Worker.{finished, Worker, Counters, Beat, Round, execute, worker_loop}
use cite_delta_rag.Substrate.Worker.Reports.{Reported, Returns, execute_reports}

abbrev q : JobQueue
q = record { queue = "embed"; visibility_timeout = 60; retry_base = 1; retry_cap = 60 }

abbrev waiting : Job
waiting = record {
  id = 1;
  queue = "embed";
  kind = "embed_section";
  payload = codes "{}";
  idempotency_key = none;
  state = pending;
  priority = pos 0;
  attempts = 0;
  max_attempts = 3;
  available_at = 10;
  lease_epoch = 0;
  claimed_by = none;
  last_error = none;
  created_at = 10;
  updated_at = 10;
  finished_at = none;
}

abbrev table : Jobs
table = record { rows = waiting ∷ []; next_id = 2 }

table-IsValid : IsValid table
table-IsValid = record {
  has_ids = record { distinct = (refl, tt); below = λ j at. ground (arith, at) };
  sound = λ j at. ground (arith, at);
}

abbrev worker : Worker
worker = record {
  queue = q;
  handlers = λ kind. some (λ job. finished);
  uniform = λ c. c / 2;
  repr = λ s. codes s;
}

abbrev no_counts : Counters
no_counts = record { processed = 0; failed = 0 }

abbrev job : ClaimedJob
job = record {
  id = 1;
  queue = "embed";
  kind = "embed_section";
  payload = codes "{}";
  attempts = 1;
  max_attempts = 3;
  lease_epoch = 1;
}

abbrev beats : List Beat
beats = (reaps q 25 ∷ [], 30) ∷ []

job_claimed : In job (claim_rows q 20 "a#0" 1 [] table).1
unfolding claim_rows claimable lease beq_ℤ
job_claimed = inl refl

execute_reports_example :
    Reported finished job 40 no_counts
      (execute worker job beats [] 40 (claim_rows q 20 "a#0" 1 [] table).0 no_counts).0
    × Returns finished
        (execute worker job beats [] 40 (claim_rows q 20 "a#0" 1 [] table).0 no_counts).1
execute_reports_example =
    execute_reports worker 20 "a#0" 1 [] table job beats [] 40 no_counts table-IsValid.has_ids
      job_claimed ((omega arith, tt), tt)

abbrev round : ℕ → Round
round now = record {
  stopping = Bool.false;
  others = reaps q now ∷ [];
  locked = [];
  now = now;
  beats = beats;
  meanwhile = [];
  ended = now + 20;
}

-- The job is run in the first round, and then the queue is empty.
one_processed :
    (worker_loop worker "a#0" true 0 table no_counts
      (round 20 ∷ round 90 ∷ round 91 ∷ [])).1.processed
    ≡ 1
unfolding worker_loop claim claim_rows reap is_exhausted update_where claimable lease beq_ℤ execute
    heartbeat ack run step
one_processed = refl
