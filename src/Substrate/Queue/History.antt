-- ===== src/Substrate/Queue/History.antt =====
-- Any interleaving of the queue's statements, by any number of queues and workers.
use cite_delta_rag.Prelude.{ℕ, String, List, [], ◌∷◌}
use cite_delta_rag.Text.{Text}
use cite_delta_rag.Substrate.Queue.Models.{Jobs, JobSpec, ClaimedJob, JobQueue}
use cite_delta_rag.Substrate.Queue.Enqueue.{enqueue}
use cite_delta_rag.Substrate.Queue.Claim.{reap, claim_rows}
use cite_delta_rag.Substrate.Queue.Finish.{heartbeat, ack, nack_row, requeue_dead}

-- A statement, with the time at which it runs.
pub data Statement : Type 0 where
  enqueues : JobQueue → ℕ → JobSpec → Statement
  reaps : JobQueue → ℕ → Statement
  claims : JobQueue → ℕ → String → ℕ → List ℕ → Statement
  heartbeats : JobQueue → ℕ → ClaimedJob → Statement
  acks : ℕ → ClaimedJob → Statement
  nacks : ℕ → ℕ → ClaimedJob → Text → Statement
  requeues : JobQueue → ℕ → ℕ → Statement

unfoldable pub step : Jobs → Statement → Jobs
step t (enqueues q now spec) = (enqueue q now spec t).0
step t (reaps q now) = reap q now t
step t (claims q now worker limit locked) = (claim_rows q now worker limit locked t).0
step t (heartbeats q now h) = (heartbeat q now h t).0
step t (acks now h) = (ack now h t).0
step t (nacks now delay h error) = (nack_row now delay h error t).0
step t (requeues q now limit) = (requeue_dead q now limit t).0

unfoldable pub run : Jobs → List Statement → Jobs
run t [] = t
run t (s ∷ ss) = run (step t s) ss
