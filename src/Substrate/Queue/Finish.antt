-- ===== src/Substrate/Queue/Finish.antt =====
-- queue/queue.py: `heartbeat`, `ack`, `nack` and `requeue_dead`.
use cite_delta_rag.Prelude.{
  ℕ, ◌+◌, Bool, true, false, ◌&&◌, Option, none, some, List, [], ◌∷◌, map, leb, ◌==◌, nat_eq,
  string_eq, if◌then◌else◌, take, select, any,
}
use cite_delta_rag.Text.{Text}
use cite_delta_rag.Prelude.Sorting.{sort_by}
use cite_delta_rag.Substrate.Resilience.{full_jitter_delay}
use cite_delta_rag.Substrate.Queue.Models.{
  JobState, pending, succeeded, dead, is_running, is_dead, Job, Jobs, ClaimedJob, JobQueue,
}
use cite_delta_rag.Substrate.Queue.Table.{update_where, is_picked, count}

-- `WHERE id = $1 AND lease_epoch = $2 AND state = 'running'`
unfoldable pub is_held : ClaimedJob → Job → Bool
is_held h j = j.id == h.id && j.lease_epoch == h.lease_epoch && is_running j.state

unfoldable pub extend : JobQueue → ℕ → Job → Job
extend q now j = record j { available_at = now + q.visibility_timeout; updated_at = now }

unfoldable pub heartbeat : JobQueue → ℕ → ClaimedJob → Jobs → Jobs × Bool
unfolding extend is_held update_where
heartbeat q now h t =
    (record t { rows = update_where (is_held h) (extend q now) t.rows }, any (is_held h) t.rows)

unfoldable pub succeed : ℕ → Job → Job
succeed now j = record j {
  state = succeeded;
  claimed_by = none;
  last_error = none;
  finished_at = some now;
  updated_at = now;
}

unfoldable pub ack : ℕ → ClaimedJob → Jobs → Jobs × Bool
unfolding succeed is_held update_where
ack now h t =
    (record t { rows = update_where (is_held h) (succeed now) t.rows }, any (is_held h) t.rows)

-- The `CASE`s of `nack`'s statement, on the row's own counts.
unfoldable pub fail : ℕ → ℕ → Text → Job → Job
fail now delay error j =
    if leb j.max_attempts j.attempts
    then record j {
      state = dead;
      finished_at = some now;
      last_error = some error;
      claimed_by = none;
      updated_at = now;
    }
    else record j {
      state = pending;
      available_at = now + delay;
      finished_at = none;
      last_error = some error;
      claimed_by = none;
      updated_at = now;
    }

abbrev pub first_state : List Job → Option JobState
first_state [] = none
first_state (j ∷ js) = some j.state

-- The statement of `nack`: `delay` is what `full_jitter_delay` gave for `job.attempts`.
unfoldable pub nack_row : ℕ → ℕ → ClaimedJob → Text → Jobs → Jobs × Option JobState
unfolding fail is_held update_where
nack_row now delay h error t = (
  record t { rows = update_where (is_held h) (fail now delay (take 4000 error)) t.rows },
  first_state (map (fail now delay (take 4000 error)) (select (is_held h) t.rows)),
)

-- `nack`, with the draws of the random number generator.
unfoldable pub nack : (ℕ → ℕ) → JobQueue → ℕ → ClaimedJob → Text → Jobs → Jobs × Option JobState
unfolding nack_row full_jitter_delay
nack uniform q now h error t =
    nack_row now (full_jitter_delay uniform h.attempts q.retry_base q.retry_cap) h error t

-- `ORDER BY finished_at`, where a missing time comes last.
unfoldable pub finished_first : Job → Job → Bool
finished_first a b = elim a.finished_at [
  | none ↦ false
  | some s ↦ elim b.finished_at [ none ↦ true | some u ↦ leb s u ]
]

unfoldable pub revive : ℕ → Job → Job
revive now j = record j {
  state = pending;
  attempts = 0;
  available_at = now;
  finished_at = none;
  last_error = none;
  updated_at = now;
}

abbrev pub is_dead_in : JobQueue → Job → Bool
is_dead_in q j = j.queue == q.queue && is_dead j.state

unfoldable pub requeue_dead : JobQueue → ℕ → ℕ → Jobs → Jobs × ℕ
unfolding sort_by finished_first revive update_where
requeue_dead q now limit t =
    let picked = take limit (sort_by finished_first (select (is_dead_in q) t.rows)) in
    (
      record t { rows = update_where (is_picked picked) (revive now) t.rows },
      count (select (is_picked picked) t.rows),
    )
