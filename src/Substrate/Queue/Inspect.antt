-- ===== src/Substrate/Queue/Inspect.antt =====
-- queue/queue.py: `stats` and `dead_letters`.
use cite_delta_rag.Prelude.{
  ℕ, ◌+◌, ◌≡◌, arith, refl, String, Bool, true, false, Option, none, some, List, [], ◌∷◌, map, leb,
  ◌==◌, string_eq, take, select, In, In-select, inl, inr,
}
use cite_delta_rag.Text.{Text}
use cite_delta_rag.Prelude.Sorting.{sort_by}
use cite_delta_rag.Substrate.Queue.Models.{JobState, Job, Jobs, JobQueue}
use cite_delta_rag.Substrate.Queue.Table.{count}
use cite_delta_rag.Substrate.Queue.Finish.{is_dead_in}
use cite_delta_rag.Substrate.Queue.Invariant.{IsValid, IsSound}

pub record QueueStats : Type 0 where
  pub pending : ℕ
  pub running : ℕ
  pub succeeded : ℕ
  pub failed : ℕ
  pub dead : ℕ

unfoldable pub outstanding : QueueStats → ℕ
outstanding s = s.pending + s.running

abbrev no_jobs : QueueStats
no_jobs = record { pending = 0; running = 0; succeeded = 0; failed = 0; dead = 0 }

unfoldable tally : JobState → QueueStats → QueueStats
tally JobState.pending s = record s { pending = s.pending + 1 }
tally JobState.running s = record s { running = s.running + 1 }
tally JobState.succeeded s = record s { succeeded = s.succeeded + 1 }
tally JobState.failed s = record s { failed = s.failed + 1 }
tally JobState.dead s = record s { dead = s.dead + 1 }

tally_all : List Job → QueueStats
unfolding tally
tally_all [] = no_jobs
tally_all (j ∷ js) = tally j.state (tally_all js)

-- `SELECT state, count(*) … GROUP BY state`
unfoldable pub stats : JobQueue → Jobs → QueueStats
unfolding tally_all
stats q t = tally_all (select (λ j. j.queue == q.queue) t.rows)

pub record DeadLetter : Type 0 where
  pub id : ℕ
  pub kind : String
  pub payload : Text
  pub attempts : ℕ
  pub last_error : Option Text
  pub finished_at : Option ℕ

-- `ORDER BY finished_at DESC`, where a missing time comes first.
unfoldable finished_last : Job → Job → Bool
finished_last a b = elim a.finished_at [
  | none ↦ true
  | some s ↦ elim b.finished_at [ none ↦ false | some u ↦ leb u s ]
]

abbrev letter : Job → DeadLetter
letter j = record {
  id = j.id;
  kind = j.kind;
  payload = j.payload;
  attempts = j.attempts;
  last_error = j.last_error;
  finished_at = j.finished_at;
}

unfoldable pub dead_letters : JobQueue → ℕ → Jobs → List DeadLetter
unfolding sort_by finished_last
dead_letters q limit t =
    map letter (take limit (sort_by finished_last (select (is_dead_in q) t.rows)))

tally_all_total :
    (js : List Job)
    → outstanding (tally_all js)
        + ((tally_all js).succeeded + ((tally_all js).failed + (tally_all js).dead))
      ≡ count js
unfolding outstanding tally_all tally
tally_all_total [] = refl
tally_all_total (j ∷ js) = ground (arith, tally_all_total js)

tally_all_failed : (js : List Job) → ((j : Job) → In j js → IsSound j) → (tally_all js).failed ≡ 0
unfolding tally_all tally
tally_all_failed [] h = refl
tally_all_failed (j ∷ js) h =
    ground (arith, h j (inl refl), tally_all_failed js (λ k m. h k (inr m)))

-- The counts of `stats` add up to the number of the queue's rows, and in a valid table no row is
-- counted as failed: the state is never entered.
pub stats_total :
    (q : JobQueue) (t : Jobs)
    → IsValid t
    → (outstanding (stats q t) + ((stats q t).succeeded + (stats q t).dead)
        ≡ count (select (λ j. j.queue == q.queue) t.rows))
      × ((stats q t).failed ≡ 0)
unfolding stats
stats_total q t v =
    let mine = select (λ j. j.queue == q.queue) t.rows in
    let failed_none =
      tally_all_failed mine (λ j m. v.sound j (In-select (λ j. j.queue == q.queue) t.rows j m).0) in
    (omega (arith, tally_all_total mine, failed_none), failed_none)
