-- ===== src/Substrate/Worker/Effects.antt =====
-- A worker and the invariant of the table.
use cite_delta_rag.Prelude.{
  ℕ, suc, inl, inr, String, Bool, Option, none, some, List, [], ◌∷◌, arith, All, Bool-cases,
}
use cite_delta_rag.Substrate.Queue.Models.{Jobs, JobQueue, ClaimedJob}
use cite_delta_rag.Substrate.Queue.Claim.{reap, claim}
use cite_delta_rag.Substrate.Queue.Finish.{heartbeat, nack}
use cite_delta_rag.Substrate.Queue.History.{
  Statement, reaps, claims, heartbeats, acks, nacks, step, run,
}
use cite_delta_rag.Substrate.Queue.Invariant.{IsValid, IsWellFormed, step-IsValid, run-IsValid}
use cite_delta_rag.Substrate.Resilience.{full_jitter_delay}
use cite_delta_rag.Substrate.Worker.{
  Completion, finished, raised, interrupted, Worker, Counters, Beat, others_only, heartbeat_loop,
  report, no_handler, execute_with, execute, Round, take_job, worker_loop,
}

-- What others do between is well formed.
abbrev pub AreWellFormed : List Beat → Type 0
AreWellFormed [] = Unit {0}
AreWellFormed ((others, now) ∷ beats) = All IsWellFormed others × AreWellFormed beats

abbrev pub RoundIsWellFormed : Round → Type 0
RoundIsWellFormed r =
    All IsWellFormed r.others × AreWellFormed r.beats × All IsWellFormed r.meanwhile

others_only-IsValid :
    (t : Jobs) (beats : List Beat) → AreWellFormed beats → IsValid t → IsValid (others_only t beats)
unfolding others_only
others_only-IsValid t [] w v = v
others_only-IsValid t ((others, now) ∷ beats) w v =
    others_only-IsValid (run t others) beats w.1 (run-IsValid t others w.0 v)

heartbeat_loop-IsValid :
    (q : JobQueue) (job : ClaimedJob) (t : Jobs) (beats : List Beat)
    → AreWellFormed beats
    → IsValid t
    → IsValid (heartbeat_loop q job t beats)
unfolding heartbeat_loop step
heartbeat_loop-IsValid q job t [] w v = v
heartbeat_loop-IsValid q job t ((others, now) ∷ beats) w v =
    let after =
      step-IsValid (run t others) (heartbeats q now job) tt (run-IsValid t others w.0 v) in
    elim (Bool-cases (heartbeat q now job (run t others)).1) [
      | inl e ↦
          rw e (heartbeat_loop-IsValid q job (heartbeat q now job (run t others)).0 beats w.1 after)
      | inr e ↦ rw e (others_only-IsValid (heartbeat q now job (run t others)).0 beats w.1 after)
    ]

report-IsValid :
    (w : Worker) (job : ClaimedJob) (now : ℕ) (o : Completion) (t : Jobs) (c : Counters)
    → IsValid t
    → IsValid (report w job now o t c).0
unfolding report step nack
report-IsValid w job now finished t c v = step-IsValid t (acks now job) tt v
report-IsValid w job now (raised error) t c v =
    step-IsValid t
      (nacks now (full_jitter_delay w.uniform job.attempts w.queue.retry_base w.queue.retry_cap) job
        error)
      tt v
report-IsValid w job now interrupted t c v = v

execute_with-IsValid :
    (w : Worker) (job : ClaimedJob) (beats : List Beat) (others : List Statement) (now : ℕ)
    (h : Option (ClaimedJob → Completion)) (t : Jobs) (c : Counters)
    → AreWellFormed beats
    → All IsWellFormed others
    → IsValid t
    → IsValid (execute_with w job beats others now h t c).0.0
unfolding execute_with
execute_with-IsValid w job beats others now none t c k o v =
    report-IsValid w job now (no_handler w job) (run t others) c (run-IsValid t others o v)
execute_with-IsValid w job beats others now (some handler) t c k o v =
    report-IsValid w job now (handler job) _ c (
      run-IsValid (heartbeat_loop w.queue job t beats) others o
        (heartbeat_loop-IsValid w.queue job t beats k v))

claim-IsValid :
    (q : JobQueue) (now : ℕ) (worker : String) (limit : ℕ) (locked : List ℕ) (t : Jobs)
    → IsValid t
    → IsValid (claim q now worker limit locked t).0
unfolding claim step
claim-IsValid q now worker limit locked t v =
    step-IsValid (reap q now t) (claims q now worker limit locked) tt
      (step-IsValid t (reaps q now) tt v)

take_job-IsValid :
    (w : Worker) (drain : Bool) (idle : ℕ) (r : Round) (go : ℕ → Jobs → Counters → Jobs × Counters)
    (t : Jobs) (c : Counters) (jobs : List ClaimedJob)
    → ((i : ℕ) (u : Jobs) (d : Counters) → IsValid u → IsValid (go i u d).0)
    → AreWellFormed r.beats
    → All IsWellFormed r.meanwhile
    → IsValid t
    → IsValid (take_job w drain idle r go t c jobs).0
unfolding take_job execute
take_job-IsValid w drain idle r go t c [] keep k o v = ground (arith, keep (suc idle) t c v, v)
take_job-IsValid w drain idle r go t c (job ∷ jobs) keep k o v =
    let valid =
      execute_with-IsValid w job r.beats r.meanwhile r.ended (w.handlers job.kind) t c k o v in
    elim (Bool-cases (execute w job r.beats r.meanwhile r.ended t c).1) [
      | inl e ↦ rw (e, take_job) (keep 0 _ _ valid)
      | inr e ↦ rw (e, take_job) valid
    ]

-- If what others do is well formed, a slot of a worker keeps a valid table valid, for as many rounds
-- as it runs.
pub worker_loop-IsValid :
    (w : Worker) (slot : String) (drain : Bool) (idle : ℕ) (t : Jobs) (c : Counters)
    (rounds : List Round)
    → All RoundIsWellFormed rounds
    → IsValid t
    → IsValid (worker_loop w slot drain idle t c rounds).0
unfolding worker_loop
worker_loop-IsValid w slot drain idle t c [] k v = v
worker_loop-IsValid w slot drain idle t c (r ∷ rounds) k v =
    let claimed =
      claim-IsValid w.queue r.now slot 1 r.locked (run t r.others)
        (run-IsValid t r.others k.0.0 v) in
    let went =
      take_job-IsValid w drain idle r (λ i u d. worker_loop w slot drain i u d rounds)
        (claim w.queue r.now slot 1 r.locked (run t r.others)).0 c
        (claim w.queue r.now slot 1 r.locked (run t r.others)).1
        (λ i u d. worker_loop-IsValid w slot drain i u d rounds k.1) k.0.1 k.0.2 claimed in
    elim (Bool-cases r.stopping) [ inl e ↦ rw e v | inr e ↦ rw e went ]
