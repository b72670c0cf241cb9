-- ===== src/Substrate/Queue/Models.antt =====
-- queue/models.py, and the table `jobs` of
-- alembic/versions/94fa233b236b_substrate_durable_job_queue.py. A payload is its JSON text.
use cite_delta_rag.Prelude.{◌-◌, ℕ, String, Bool, true, false, Option, List, nat_eq, string_eq}
use cite_delta_rag.Prelude.Int.{ℤ, int_eq}
use cite_delta_rag.Text.{Text}

pub data JobState : Type 0 where
  pending running succeeded failed dead : JobState

abbrev pub is_pending : JobState → Bool
is_pending pending = true
is_pending _ = false

abbrev pub is_running : JobState → Bool
is_running running = true
is_running pending = false
is_running _ = false

abbrev pub is_dead : JobState → Bool
is_dead dead = true
is_dead pending = false
is_dead _ = false

pub record Job : Type 0 where
  pub id : ℕ
  pub queue : String
  pub kind : String
  pub payload : Text
  pub idempotency_key : Option String
  pub state : JobState
  pub priority : ℤ
  pub attempts : ℕ
  pub max_attempts : ℕ
  pub available_at : ℕ
  pub lease_epoch : ℕ
  pub claimed_by : Option String
  pub last_error : Option Text
  pub created_at : ℕ
  pub updated_at : ℕ
  pub finished_at : Option ℕ

-- The table, and the next value of its identity column.
pub record Jobs : Type 0 where
  pub rows : List Job
  pub next_id : ℕ

pub record JobSpec : Type 0 where
  pub kind : String
  pub payload : Text
  pub queue : String
  pub idempotency_key : Option String
  pub priority : ℤ
  pub max_attempts : ℕ
  pub available_at : Option ℕ

pub record ClaimedJob : Type 0 where
  pub id : ℕ
  pub queue : String
  pub kind : String
  pub payload : Text
  pub attempts : ℕ
  pub max_attempts : ℕ
  pub lease_epoch : ℕ

-- `max(0, self.max_attempts - self.attempts)`, where the subtraction stops at 0.
abbrev pub attempts_remaining : ClaimedJob → ℕ
attempts_remaining h = h.max_attempts - h.attempts

-- `JobQueue`'s fields; `visibility_timeout` is in ticks.
pub record JobQueue : Type 0 where
  pub queue : String
  pub visibility_timeout : ℕ
  pub retry_base : ℕ
  pub retry_cap : ℕ
