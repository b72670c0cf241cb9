-- ===== src/Substrate/Queue/Picking.antt =====
-- The order in which `claim` takes jobs.
use cite_delta_rag.Prelude.{
  ℕ, ◌≡◌, ◌≢◌, ◌⊎◌, ◌<◌, ◌≤◌, ◌||◌, refl, inl, inr, true, false, List, arith, In, select, nat_eq,
  String, select-In, elem, ==_iff, string_eq,
}
use cite_delta_rag.Prelude.Sorting.{sort_by, sort_by-In, sort_by-Ordered, take-first}
use cite_delta_rag.Prelude.Int.{ltb_ℤ, ◌<ℤ◌}
use cite_delta_rag.Substrate.Queue.Table.Updates.{map-In}
use cite_delta_rag.Substrate.Queue.Models.{
  JobState, pending, running, succeeded, failed, dead, is_pending, is_running, Job, Jobs, JobQueue,
  ClaimedJob,
}
use cite_delta_rag.Substrate.Queue.Table.{is_picked}
use cite_delta_rag.Substrate.Queue.Table.Picks.{picked-In, In-picked}
use cite_delta_rag.Substrate.Queue.Claim.{
  is_claimable, comes_first, claimable, claim_rows, lease, handle,
}
use cite_delta_rag.Substrate.Queue.Identity.{HasIds}
use cite_delta_rag.Substrate.Queue.Fencing.{claimed_row}
use cite_delta_rag.Substrate.Queue.Leases.{claimable-meets}

comes_first_total : (a b : Job) → comes_first a b ≡ false → comes_first b a ≡ true
unfolding comes_first
comes_first_total a b h = ground arith

comes_first_trans :
    (a b c : Job) → comes_first a b ≡ true → comes_first b c ≡ true → comes_first a c ≡ true
unfolding comes_first
comes_first_trans a b c h k = ground arith

-- A job that may be claimed: of the queue, pending or with a lease that ran out, due, with an attempt
-- left, and not locked by others.
pub record IsDue (q : JobQueue) (now : ℕ) (locked : List ℕ) (j : Job) : Type 0 where
  pub in_queue : j.queue ≡ q.queue
  pub not_ended : (j.state ≡ pending) ⊎ (j.state ≡ running)
  pub due : j.available_at ≤ now
  pub attempts_left : j.attempts < j.max_attempts
  pub unlocked : elem j.id locked ≡ false

-- Higher priority first, then the earlier time, then the smaller id.
abbrev pub IsBefore : Job → Job → Type 0
IsBefore a b =
    (b.priority <ℤ a.priority)
    ⊎ ((ltb_ℤ a.priority b.priority ≡ false)
        × ((a.available_at < b.available_at) ⊎ ((a.available_at ≡ b.available_at) × (a.id ≤ b.id))))

state_open : (s : JobState) → (is_pending s || is_running s) ≡ true → (s ≡ pending) ⊎ (s ≡ running)
state_open pending e = inl refl
state_open running e = inr refl
state_open succeeded e = absurd (cc e)
state_open failed e = absurd (cc e)
state_open dead e = absurd (cc e)

open_state : (s : JobState) → (s ≡ pending) ⊎ (s ≡ running) → (is_pending s || is_running s) ≡ true
open_state s (inl e) = rw e refl
open_state s (inr e) = rw e refl

IsDue-claimable :
    (q : JobQueue) (now : ℕ) (locked : List ℕ) (j : Job)
    → is_claimable q now locked j ≡ true
    → IsDue q now locked j
unfolding is_claimable
IsDue-claimable q now locked j e = record {
  in_queue = ground (arith, e, ==_iff j.queue q.queue);
  not_ended = state_open j.state (ground (arith, e));
  due = ground (arith, e);
  attempts_left = ground (arith, e);
  unlocked = ground (arith, e);
}

claimable-IsDue :
    (q : JobQueue) (now : ℕ) (locked : List ℕ) (j : Job)
    → IsDue q now locked j
    → is_claimable q now locked j ≡ true
unfolding is_claimable
claimable-IsDue q now locked j d = ground (
  arith,
  ==_iff j.queue q.queue,
  d.in_queue,
  open_state j.state d.not_ended,
  d.due,
  d.attempts_left,
  d.unlocked,
)

first-IsBefore : (a b : Job) → comes_first a b ≡ true → IsBefore a b
unfolding comes_first
first-IsBefore a b h = ground (arith, h)

-- A row that a claim takes is due, unlocked, in this queue, not ended and with an attempt left. And it
-- comes before every other such row that the claim did not take, in the order of priority, time and
-- id.
pub claim_ordered :
    (q : JobQueue) (now : ℕ) (worker : String) (limit : ℕ) (locked : List ℕ) (t : Jobs)
    (h : ClaimedJob) (j : Job)
    → HasIds t
    → In h (claim_rows q now worker limit locked t).1
    → In j t.rows
    → IsDue q now locked j
    → ((g : ClaimedJob) → In g (claim_rows q now worker limit locked t).1 → g.id ≢ j.id)
    → (taken : Job) × In taken t.rows
      × (h ≡ handle (lease q now worker taken))
      × IsDue q now locked taken
      × IsBefore taken j
unfolding claimable claim_rows
claim_ordered q now worker limit locked t h j v at m able left_out =
    let (taken, place, made, picked) = claimed_row q now worker limit locked t h at in
    let due = select (is_claimable q now locked) t.rows in
    let rows = claimable q now limit locked t.rows in
    (
      taken,
      place,
      made,
      IsDue-claimable q now locked taken
          (claimable-meets q now limit locked t taken v place picked),
      elim (take-first comes_first limit (sort_by comes_first due) taken j
          (sort_by-Ordered comes_first comes_first_total comes_first_trans due)
          (picked-In comes_first (is_claimable q now locked) limit t.rows taken v.distinct place
            picked)
          (sort_by-In comes_first j due (
            select-In (is_claimable q now locked) t.rows j m
              (claimable-IsDue q now locked j able)))) [
                | inl kept ↦ absurd (
                    left_out (handle (lease q now worker j))
                      (map-In (λ x. handle (lease q now worker x)) (select (is_picked rows) t.rows)
                        j
                        (select-In (is_picked rows) t.rows j m (In-picked comes_first rows j kept)))
                      (unfold lease in refl))
                | inr first ↦ first-IsBefore taken j first
              ],
    )
