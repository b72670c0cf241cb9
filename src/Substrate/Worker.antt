-- ===== src/Substrate/Worker.antt =====
-- queue/worker.py: claim, run, report, with heartbeats. What the handler does, when each call runs
-- and what others do to the table meanwhile are arguments.
pub mod Effects
pub mod Kept
pub mod Reports
mod Examples
use cite_delta_rag.Prelude.{
  ℕ, suc, ◌+◌, String, Bool, true, false, ◌&&◌, Option, none, some, List, [], ◌∷◌, ◌++◌, leb,
  if◌then◌else◌,
}
use cite_delta_rag.Text.{Text, codes}
use cite_delta_rag.Substrate.Queue.Models.{Jobs, JobQueue, ClaimedJob}
use cite_delta_rag.Substrate.Queue.Claim.{claim}
use cite_delta_rag.Substrate.Queue.Finish.{heartbeat, ack, nack}
use cite_delta_rag.Substrate.Queue.History.{Statement, run}

-- How a handler ends: an `Exception` is its `repr`, and `interrupted` is a cancellation or another
-- `BaseException` that `except Exception` lets through.
pub data Completion : Type 0 where
  finished : Completion
  raised : Text → Completion
  interrupted : Completion

-- The worker's collaborators: its queue, the registered handlers by kind, the draws of the random
-- number generator, and `repr` of a string.
pub record Worker : Type 0 where
  pub queue : JobQueue
  pub handlers : String → Option (ClaimedJob → Completion)
  pub uniform : ℕ → ℕ
  pub repr : String → Text

pub record Counters : Type 0 where
  pub processed : ℕ
  pub failed : ℕ

-- A heartbeat's time, after what others do before it.
abbrev pub Beat : Type 0
Beat = List Statement × ℕ

-- What others do goes on when the heartbeat has stopped.
others_only : Jobs → List Beat → Jobs
others_only t [] = t
others_only t ((others, now) ∷ beats) = others_only (run t others) beats

-- `_heartbeat` until the task is cancelled: it returns at the first heartbeat that is refused.
unfoldable pub heartbeat_loop : JobQueue → ClaimedJob → Jobs → List Beat → Jobs
unfolding others_only
heartbeat_loop q job t [] = t
heartbeat_loop q job t ((others, now) ∷ beats) =
    let (t', kept) = heartbeat q now job (run t others) in
    let renewed = heartbeat_loop q job t' beats in
    let lost = others_only t' beats in if kept then renewed else lost

-- The report of a handler that ended, and the counters, which do not read whether it was accepted.
unfoldable pub report : Worker → ClaimedJob → ℕ → Completion → Jobs → Counters → Jobs × Counters
report w job now finished t c = ((ack now job t).0, record c { processed = c.processed + 1 })
report w job now (raised error) t c =
    ((nack w.uniform w.queue now job error t).0, record c { failed = c.failed + 1 })
report w job now interrupted t c = (t, c)

-- Whether the loop goes on; an interruption ends the slot.
unfoldable pub goes_on : Completion → Bool
goes_on finished = true
goes_on (raised error) = true
goes_on interrupted = false

-- A kind without a handler is reported as a failure.
abbrev no_handler : Worker → ClaimedJob → Completion
no_handler w job = raised (codes "no handler registered for kind=" ++ w.repr job.kind)

execute_with :
    Worker
    → ClaimedJob
    → List Beat
    → List Statement
    → ℕ
    → Option (ClaimedJob → Completion)
    → Jobs
    → Counters
    → (Jobs × Counters) × Bool
unfolding heartbeat_loop report goes_on
execute_with w job beats others now none t c =
    (report w job now (no_handler w job) (run t others) c, true)
execute_with w job beats others now (some handler) t c = (
  report w job now (handler job) (run (heartbeat_loop w.queue job t beats) others) c,
  goes_on (handler job),
)

-- `_execute`, and whether it returns; `others` run after the last heartbeat, and `now` is the time of
-- the report.
unfoldable pub execute :
    Worker
    → ClaimedJob
    → List Beat
    → List Statement
    → ℕ
    → Jobs
    → Counters
    → (Jobs × Counters) × Bool
unfolding execute_with
execute w job beats others now t c = execute_with w job beats others now (w.handlers job.kind) t c

-- One round of `_loop`: whether the worker is stopping, what others do before the claim, the rows they
-- lock, the times of the claim and of the report, the beats between, and what others do after them.
pub record Round : Type 0 where
  pub stopping : Bool
  pub others : List Statement
  pub locked : List ℕ
  pub now : ℕ
  pub beats : List Beat
  pub meanwhile : List Statement
  pub ended : ℕ

-- What a round does with the claimed jobs, before it goes on with `go`.
take_job :
    Worker
    → Bool
    → ℕ
    → Round
    → (ℕ → Jobs → Counters → Jobs × Counters)
    → Jobs
    → Counters
    → List ClaimedJob
    → Jobs × Counters
unfolding execute
take_job w drain idle r go t c [] =
    let next = go (idle + 1) t c in if drain && leb 2 (idle + 1) then (t, c) else next
take_job w drain idle r go t c (job ∷ jobs) =
    let ((t', c'), returns) = execute w job r.beats r.meanwhile r.ended t c in
    let next = go 0 t' c' in if returns then next else (t', c')

-- `_loop` of one slot, over the rounds it comes to; `slot` is the name under which it claims.
unfoldable pub worker_loop :
    Worker → String → Bool → ℕ → Jobs → Counters → List Round → Jobs × Counters
unfolding take_job claim
worker_loop w slot drain idle t c [] = (t, c)
worker_loop w slot drain idle t c (r ∷ rounds) =
    let (t', jobs) = claim w.queue r.now slot 1 r.locked (run t r.others) in
    let next = take_job w drain idle r (λ i u d. worker_loop w slot drain i u d rounds) t' c jobs in
    if r.stopping then (t, c) else next
