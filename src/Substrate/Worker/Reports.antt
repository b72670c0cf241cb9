-- ===== src/Substrate/Worker/Reports.antt =====
-- What becomes of a job that a worker executes while it keeps its lease.
use cite_delta_rag.Prelude.{
  ℕ, suc, ◌+◌, ◌≤◌, ◌<◌, ◌≡◌, ◌⊎◌, refl, subst, inl, inr, String, Bool, true, false, Option, none,
  some, List, arith, All, In, Bool-cases, leb, take, if◌then◌else◌, nat_eq,
}
use cite_delta_rag.Substrate.Queue.Models.{
  succeeded, pending, dead, is_running, Job, Jobs, JobQueue, ClaimedJob,
}
use cite_delta_rag.Substrate.Queue.Table.{update_where}
use cite_delta_rag.Substrate.Queue.Table.Updates.{update-In}
use cite_delta_rag.Substrate.Queue.Claim.{claim_rows}
use cite_delta_rag.Substrate.Queue.Finish.{ack, succeed, nack, fail, is_held}
use cite_delta_rag.Substrate.Queue.History.{Statement, run}
use cite_delta_rag.Substrate.Queue.Identity.{HasIds}
use cite_delta_rag.Substrate.Queue.Leases.{Respects}
use cite_delta_rag.Substrate.Resilience.{full_jitter_delay}
use cite_delta_rag.Substrate.Queue.Retry.{nack_row-held}
use cite_delta_rag.Substrate.Worker.{
  Completion, finished, raised, interrupted, Worker, Counters, Beat, report, no_handler,
  execute_with, execute, goes_on,
}
use cite_delta_rag.Substrate.Worker.Kept.{
  IsKept, InTime, run-IsKept, heartbeat_loop-IsKept, kept_row, claim-IsKept,
}

-- What is left of a job's row and of the counters when the execution has ended as it did: a job that
-- finished has succeeded, one that raised waits for another attempt or is dead if there is none, with
-- its error, and one that was interrupted is running under the same lease.
abbrev pub Reported : Completion → ClaimedJob → ℕ → Counters → Jobs × Counters → Type 0
Reported finished job now c (t, counts) =
    ((k : Job) × In k t.rows × (k.id ≡ job.id) × (k.state ≡ succeeded) × (k.finished_at ≡ some now))
    × (counts.processed ≡ suc c.processed)
    × (counts.failed ≡ c.failed)
Reported (raised error) job now c (t, counts) =
    ((k : Job) × In k t.rows
      × (k.id ≡ job.id)
      × (k.last_error ≡ some (take 4000 error))
      × (((k.max_attempts ≤ k.attempts) × (k.state ≡ dead))
          ⊎ ((k.attempts < k.max_attempts) × (k.state ≡ pending) × (now ≤ k.available_at))))
    × (counts.processed ≡ c.processed)
    × (counts.failed ≡ suc c.failed)
Reported interrupted job now c (t, counts) =
    ((k : Job) × In k t.rows
      × (k.id ≡ job.id)
      × (is_running k.state ≡ true)
      × (k.lease_epoch ≡ job.lease_epoch))
    × (counts.processed ≡ c.processed)
    × (counts.failed ≡ c.failed)

report-Reported :
    (w : Worker) (job : ClaimedJob) (now until : ℕ) (o : Completion) (t : Jobs) (c : Counters)
    → IsKept job until t
    → Reported o job now c (report w job now o t c)
unfolding report
report-Reported w job now until finished t c kept =
    let (j, place, same, mine) = kept_row job until t kept in
    let put : In (succeed now j) (ack now job t).0.rows =
      unfold ack in
      subst
        (λ b. In (if b then succeed now j else j) (update_where (is_held job) (succeed now) t.rows))
        mine (update-In (is_held job) (succeed now) t.rows j place) in
    (
      (succeed now j, put, unfold succeed in same, unfold succeed in refl, unfold succeed in refl),
      omega arith,
      refl,
    )
report-Reported w job now until (raised error) t c kept =
    let (j, place, same, mine) = kept_row job until t kept in
    let delay = full_jitter_delay w.uniform job.attempts w.queue.retry_base w.queue.retry_cap in
    let (state, put) = nack_row-held now delay job error t j kept.1.1 place mine in
    let row = fail now delay (take 4000 error) j in
    elim (Bool-cases (leb j.max_attempts j.attempts)) [
      | inl e ↦
          unfold nack in
          (
            (
              row,
              put,
              unfold fail in rw e same,
              unfold fail in rw e refl,
              inl (unfold fail in rw e (ground (arith, e)), unfold fail in rw e refl),
            ),
            refl,
            omega arith,
          )
      | inr e ↦
          unfold nack in
          (
            (
              row,
              put,
              unfold fail in rw e same,
              unfold fail in rw e refl,
              inr (
                unfold fail in rw e (ground (arith, e)),
                unfold fail in rw e refl,
                unfold fail in rw e (omega arith),
              ),
            ),
            refl,
            omega arith,
          )
    ]
report-Reported w job now until interrupted t c kept =
    let (j, place, same, mine) = kept_row job until t kept in
    ((j, place, same, kept.0.running_row j place same, kept.0.same_epoch j place same), refl, refl)

-- How a handler of a job ends, or what stands for it if there is none.
abbrev pub completion_of : Worker → ClaimedJob → Option (ClaimedJob → Completion) → Completion
completion_of w job none = no_handler w job
completion_of w job (some handler) = handler job

-- What others do meanwhile respects the lease, which heartbeats extend while a handler runs.
abbrev pub Meanwhile :
    JobQueue
    → ClaimedJob
    → Option (ClaimedJob → Completion)
    → ℕ
    → List Beat
    → List Statement
    → Type 0
Meanwhile q job none until beats others = All (Respects job.id job.lease_epoch until) others
Meanwhile q job (some handler) until beats others = InTime q job until beats others

-- Only an interruption is passed on to the loop.
abbrev pub Returns : Completion → Bool → Type 0
Returns finished returns = returns ≡ true
Returns (raised error) returns = returns ≡ true
Returns interrupted returns = returns ≡ false

Returns-goes_on : (o : Completion) → Returns o (goes_on o)
unfolding goes_on
Returns-goes_on finished = refl
Returns-goes_on (raised error) = refl
Returns-goes_on interrupted = refl

execute_with-Reported :
    (w : Worker) (job : ClaimedJob) (h : Option (ClaimedJob → Completion)) (until : ℕ)
    (beats : List Beat) (others : List Statement) (now : ℕ) (t : Jobs) (c : Counters)
    → IsKept job until t
    → Meanwhile w.queue job h until beats others
    → Reported (completion_of w job h) job now c (execute_with w job beats others now h t c).0
      × Returns (completion_of w job h) (execute_with w job beats others now h t c).1
unfolding execute_with
execute_with-Reported w job none until beats others now t c kept r = (
  report-Reported w job now until (no_handler w job) (run t others) c
      (run-IsKept job until t others kept r),
  refl,
)
execute_with-Reported w job (some handler) until beats others now t c kept r =
    let (later, ends) = heartbeat_loop-IsKept w.queue job until t beats others kept r in
    (report-Reported w job now later (handler job) _ c ends, Returns-goes_on (handler job))

-- A worker executes a job that it claimed. If each heartbeat comes before the lease would be taken,
-- that is, if what others do before it respects the lease as the last heartbeat left it, and so does
-- what they do before the report, then a job whose handler finished has succeeded and is counted as
-- processed; one whose handler raised an Exception, or that has no handler, has its error, waits if it
-- has an attempt left and is dead otherwise, and is counted as failed; and one that was interrupted is
-- running under the same lease, counted as neither, and ends the slot.
pub execute_reports :
    (w : Worker) (claimed_at : ℕ) (slot : String) (limit : ℕ) (locked : List ℕ) (t : Jobs)
    (job : ClaimedJob) (beats : List Beat) (others : List Statement) (now : ℕ) (c : Counters)
    → HasIds t
    → In job (claim_rows w.queue claimed_at slot limit locked t).1
    → Meanwhile w.queue job
        (w.handlers job.kind)
        (claimed_at + w.queue.visibility_timeout)
        beats
        others
    → let done =
        execute w job beats others now (claim_rows w.queue claimed_at slot limit locked t).0 c in
      Reported (completion_of w job (w.handlers job.kind)) job now c done.0
      × Returns (completion_of w job (w.handlers job.kind)) done.1
unfolding execute
execute_reports w claimed_at slot limit locked t job beats others now c v at r =
    execute_with-Reported w job (w.handlers job.kind) (claimed_at + w.queue.visibility_timeout)
      beats others now (claim_rows w.queue claimed_at slot limit locked t).0 c
      (claim-IsKept w.queue claimed_at slot limit locked t job v at) r
