-- ===== src/Substrate/Queue/Enqueue.antt =====
-- queue/queue.py: `enqueue` and `enqueue_many`.
use cite_delta_rag.Prelude.{
  ℕ, ◌+◌, String, Bool, false, ◌&&◌, Option, none, some, List, [], ◌∷◌, ◌++◌, ◌==◌, nat_eq,
  string_eq, if◌then◌else◌, any,
}
use cite_delta_rag.Substrate.Queue.Models.{pending, Job, Jobs, JobSpec, JobQueue}

-- `spec.queue or self._queue`
abbrev pub queue_name : JobQueue → JobSpec → String
queue_name q spec = if spec.queue == "" then q.queue else spec.queue

unfoldable pub same_key : Option String → Option String → Bool
same_key none k = false
same_key (some a) none = false
same_key (some a) (some b) = a == b

-- The partial unique index on (queue, idempotency_key).
unfoldable pub conflicts : String → Option String → Job → Bool
unfolding same_key
conflicts queue key j = j.queue == queue && same_key j.idempotency_key key

or_now : ℕ → Option ℕ → ℕ
or_now now none = now
or_now now (some t) = t

unfoldable pub new_job : JobQueue → ℕ → JobSpec → ℕ → Job
unfolding or_now
new_job q now spec i = record {
  id = i;
  queue = queue_name q spec;
  kind = spec.kind;
  payload = spec.payload;
  idempotency_key = spec.idempotency_key;
  state = pending;
  priority = spec.priority;
  attempts = 0;
  max_attempts = spec.max_attempts;
  available_at = or_now now spec.available_at;
  lease_epoch = 0;
  claimed_by = none;
  last_error = none;
  created_at = now;
  updated_at = now;
  finished_at = none;
}

-- `ON CONFLICT … DO NOTHING`; the identity column has given out its value either way.
unfoldable pub enqueue : JobQueue → ℕ → JobSpec → Jobs → Jobs × Option ℕ
unfolding new_job conflicts
enqueue q now spec t =
    if any (conflicts (queue_name q spec) spec.idempotency_key) t.rows
    then (record t { next_id = t.next_id + 1 }, none)
    else (
      record { rows = t.rows ++ (new_job q now spec t.next_id ∷ []); next_id = t.next_id + 1 },
      some t.next_id,
    )

unfoldable pub count_created : Option ℕ → ℕ → ℕ
count_created none n = n
count_created (some i) n = n + 1

-- One transaction; no statement of it fails.
unfoldable pub enqueue_many : JobQueue → ℕ → List JobSpec → Jobs → ℕ → Jobs × ℕ
unfolding count_created
enqueue_many q now [] t created = (t, created)
enqueue_many q now (spec ∷ specs) t created =
    let (t', i) = enqueue q now spec t in enqueue_many q now specs t' (count_created i created)
