-- ===== src/Substrate/Queue/Table.antt =====
-- What the statements of queue/queue.py do to the rows of the table.
pub mod Updates
pub mod Picks
use cite_delta_rag.Prelude.{
  ℕ, suc, ◌+◌, String, Bool, true, false, not, ◌&&◌, ◌||◌, Option, none, some, List, [], ◌∷◌, ◌++◌,
  map, ltb, leb, ◌==◌, nat_eq, string_eq, if◌then◌else◌, take, select, any, elem,
}
use cite_delta_rag.Substrate.Queue.Models.{
  JobState, pending, running, succeeded, failed, dead, is_pending, is_running, is_dead, Job, Jobs,
  JobSpec, ClaimedJob, JobQueue,
}

-- `UPDATE jobs SET … WHERE …`, and whether it returned a row.
unfoldable pub update_where : (Job → Bool) → (Job → Job) → List Job → List Job
update_where p f rows = map (λ j. if p j then f j else j) rows

abbrev pub ids_of : List Job → List ℕ
ids_of = map (λ j. j.id)

abbrev pub is_picked : List Job → Job → Bool
is_picked picked j = elem j.id (ids_of picked)

abbrev pub count : List Job → ℕ
count [] = 0
count (j ∷ js) = suc (count js)
