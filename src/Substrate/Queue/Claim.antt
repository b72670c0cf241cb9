-- ===== src/Substrate/Queue/Claim.antt =====
-- queue/queue.py: the reaper and `claim`.
use cite_delta_rag.Prelude.{
  ℕ, ◌+◌, String, Bool, true, false, not, ◌&&◌, ◌||◌, Option, none, some, List, map, ltb, leb, ◌==◌,
  nat_eq, string_eq, if◌then◌else◌, take, select, elem,
}
use cite_delta_rag.Prelude.Int.{ltb_ℤ, int_eq}
use cite_delta_rag.Text.{Text, codes}
use cite_delta_rag.Prelude.Sorting.{sort_by}
use cite_delta_rag.Substrate.Queue.Models.{
  running, dead, is_pending, is_running, Job, Jobs, ClaimedJob, JobQueue,
}
use cite_delta_rag.Substrate.Queue.Table.{update_where, is_picked}

-- `_REAP_SQL`
unfoldable pub is_exhausted : JobQueue → ℕ → Job → Bool
is_exhausted q now j =
    j.queue == q.queue
    && is_running j.state
    && leb j.available_at now
    && leb j.max_attempts j.attempts

or_expired : Option Text → Text
or_expired none = codes "lease expired with no attempts remaining"
or_expired (some e) = e

unfoldable pub bury : ℕ → Job → Job
unfolding or_expired
bury now j = record j {
  state = dead;
  claimed_by = none;
  finished_at = some now;
  updated_at = now;
  last_error = some (or_expired j.last_error);
}

unfoldable pub reap : JobQueue → ℕ → Jobs → Jobs
reap q now t = record t { rows = update_where (is_exhausted q now) (bury now) t.rows }

-- `_CLAIM_SQL`: the rows that may be claimed; `locked` are ids that other statements hold.
unfoldable pub is_claimable : JobQueue → ℕ → List ℕ → Job → Bool
is_claimable q now locked j =
    j.queue == q.queue
    && (is_pending j.state || is_running j.state)
    && leb j.available_at now
    && ltb j.attempts j.max_attempts
    && not (elem j.id locked)

-- `ORDER BY priority DESC, available_at, id`
unfoldable pub comes_first : Job → Job → Bool
comes_first a b =
    if ltb_ℤ b.priority a.priority
    then true
    else if ltb_ℤ a.priority b.priority
    then false
    else if ltb a.available_at b.available_at
    then true
    else if ltb b.available_at a.available_at
    then false
    else leb a.id b.id

unfoldable pub claimable : JobQueue → ℕ → ℕ → List ℕ → List Job → List Job
unfolding sort_by comes_first is_claimable
claimable q now limit locked rows =
    take limit (sort_by comes_first (select (is_claimable q now locked) rows))

unfoldable pub lease : JobQueue → ℕ → String → Job → Job
lease q now worker j = record j {
  state = running;
  attempts = j.attempts + 1;
  lease_epoch = j.lease_epoch + 1;
  claimed_by = some worker;
  available_at = now + q.visibility_timeout;
  updated_at = now;
}

abbrev pub handle : Job → ClaimedJob
handle j = record {
  id = j.id;
  queue = j.queue;
  kind = j.kind;
  payload = j.payload;
  attempts = j.attempts;
  max_attempts = j.max_attempts;
  lease_epoch = j.lease_epoch;
}

-- The statement `_CLAIM_SQL` with its returned rows.
unfoldable pub claim_rows : JobQueue → ℕ → String → ℕ → List ℕ → Jobs → Jobs × List ClaimedJob
unfolding lease update_where
claim_rows q now worker limit locked t =
    let picked = claimable q now limit locked t.rows in
    (
      record t { rows = update_where (is_picked picked) (lease q now worker) t.rows },
      map (λ j. handle (lease q now worker j)) (select (is_picked picked) t.rows),
    )

-- `claim`: the reaper, then the claim, as two statements with nothing between them.
unfoldable pub claim : JobQueue → ℕ → String → ℕ → List ℕ → Jobs → Jobs × List ClaimedJob
unfolding reap claim_rows
claim q now worker limit locked t = claim_rows q now worker limit locked (reap q now t)
