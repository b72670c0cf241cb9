-- ===== src/Substrate/Worker/Kept.antt =====
-- A job whose worker keeps its lease, from the claim over the heartbeats.
use cite_delta_rag.Prelude.{
  ℕ, ◌+◌, ◌≡◌, sym, ap, subst, ◌∙◌, inl, inr, String, true, List, [], ◌∷◌, arith, All, In,
  Bool-cases, nat_eq, ==_iff,
}
use cite_delta_rag.Substrate.Queue.Models.{is_running, Job, Jobs, JobQueue, ClaimedJob}
use cite_delta_rag.Substrate.Queue.Table.{ids_of}
use cite_delta_rag.Substrate.Queue.Table.Updates.{In-map, map-In, In-update}
use cite_delta_rag.Substrate.Queue.Claim.{claim_rows, lease}
use cite_delta_rag.Substrate.Queue.Finish.{heartbeat, extend, is_held}
use cite_delta_rag.Substrate.Queue.History.{Statement, claims, heartbeats, step, run}
use cite_delta_rag.Substrate.Queue.Identity.{HasIds, step-HasIds}
use cite_delta_rag.Substrate.Queue.Leases.{IsLeased, Respects, run-IsLeased, claim-IsLeased}
use cite_delta_rag.Substrate.Queue.Fencing.{claimed_row}
use cite_delta_rag.Substrate.Queue.Accepted.{HasRow, step-HasRow, run-HasRow, held}
use cite_delta_rag.Substrate.Worker.{Beat, heartbeat_loop}

-- The lease is held until `until`, and the table has the row.
abbrev pub IsKept : ClaimedJob → ℕ → Jobs → Type 0
IsKept job until t = IsLeased job.id job.lease_epoch until t × (HasRow job.id t × HasIds t)

-- What others do between respects the lease, which each heartbeat extends.
abbrev pub InTime : JobQueue → ClaimedJob → ℕ → List Beat → List Statement → Type 0
InTime q job until [] others = All (Respects job.id job.lease_epoch until) others
InTime q job until ((before, now) ∷ beats) others =
    All (Respects job.id job.lease_epoch until) before
    × InTime q job (now + q.visibility_timeout) beats others

pub run-IsKept :
    (job : ClaimedJob) (until : ℕ) (t : Jobs) (ss : List Statement)
    → IsKept job until t
    → All (Respects job.id job.lease_epoch until) ss
    → IsKept job until (run t ss)
run-IsKept job until t ss (leased, (there, ids)) r =
    let (later, kept) = run-IsLeased job.id job.lease_epoch until t ss leased ids r in
    (later, (run-HasRow job.id t ss there, kept))

-- A heartbeat of the holder.
extended :
    (q : JobQueue) (job : ClaimedJob) (now until : ℕ) (t : Jobs) (j : Job)
    → IsLeased job.id job.lease_epoch until t
    → In j (heartbeat q now job t).0.rows
    → j.id ≡ job.id
    → (old : Job) × In old t.rows × (old.id ≡ job.id) × (j ≡ extend q now old)
unfolding heartbeat
extended q job now until t j leased m same =
    let (old, place, made) = In-update (is_held job) (extend q now) t.rows j m in
    elim (Bool-cases (is_held job old)) [
      | inl y ↦
          let was : j ≡ extend q now old = made ∙ rw y in
          (old, place, (unfold extend in sym (ap (λ (x : Job). x.id) was) ∙ same), was)
      | inr n ↦
          let was : j ≡ old = made ∙ rw n in
          let id_eq : old.id ≡ job.id = sym (ap (λ (x : Job). x.id) was) ∙ same in
          absurd (
            unfold is_held in
            ground (
              arith,
              n,
              id_eq,
              ==_iff old.id job.id,
              ==_iff old.lease_epoch job.lease_epoch,
              leased.running_row old place id_eq,
              leased.same_epoch old place id_eq,
            ))
    ]

heartbeat-IsKept :
    (q : JobQueue) (job : ClaimedJob) (now until : ℕ) (t : Jobs)
    → IsKept job until t
    → IsKept job (now + q.visibility_timeout) (heartbeat q now job t).0
      × ((heartbeat q now job t).1 ≡ true)
unfolding step
heartbeat-IsKept q job now until t (leased, (there, ids)) = (
  (
    record {
      given = unfold heartbeat in leased.given;
      running_row = λ j m same.
          let (old, place, id_eq, was) = extended q job now until t j leased m same in
          unfold extend in
          (ap (λ (x : Job). is_running x.state) was ∙ leased.running_row old place id_eq);
      same_epoch = λ j m same.
          let (old, place, id_eq, was) = extended q job now until t j leased m same in
          unfold extend in
          (ap (λ (x : Job). x.lease_epoch) was ∙ leased.same_epoch old place id_eq);
      until_then = λ j m same.
          let (old, place, id_eq, was) = extended q job now until t j leased m same in
          unfold extend in omega (arith, ap (λ (x : Job). x.available_at) was);
    },
    (step-HasRow job.id t (heartbeats q now job) there, step-HasIds t (heartbeats q now job) ids),
  ),
  unfold heartbeat in held t job until leased there,
)

pub heartbeat_loop-IsKept :
    (q : JobQueue) (job : ClaimedJob) (until : ℕ) (t : Jobs) (beats : List Beat)
    (others : List Statement)
    → IsKept job until t
    → InTime q job until beats others
    → (later : ℕ) × IsKept job later (run (heartbeat_loop q job t beats) others)
unfolding heartbeat_loop
heartbeat_loop-IsKept q job until t [] others kept r = (until, run-IsKept job until t others kept r)
heartbeat_loop-IsKept q job until t ((before, now) ∷ beats) others kept r =
    let (renewed, accepted) =
      heartbeat-IsKept q job now until (run t before) (run-IsKept job until t before kept r.0) in
    let (later, ends) =
      heartbeat_loop-IsKept q job (now + q.visibility_timeout)
        (heartbeat q now job (run t before)).0 beats others renewed r.1 in
    (later, rw (accepted, heartbeat_loop) ends)

-- The row of a kept job is held.
pub kept_row :
    (job : ClaimedJob) (until : ℕ) (t : Jobs)
    → IsKept job until t
    → (j : Job) × In j t.rows × (j.id ≡ job.id) × (is_held job j ≡ true)
unfolding is_held
kept_row job until t (leased, (there, ids)) =
    let (j, place, same) = In-map (λ (x : Job). x.id) t.rows job.id there in
    (
      j,
      place,
      sym same,
      ground (
        arith,
        leased.running_row j place (sym same),
        leased.same_epoch j place (sym same),
        ==_iff j.id job.id,
        ==_iff j.lease_epoch job.lease_epoch,
        same,
      ),
    )

pub claim-IsKept :
    (q : JobQueue) (now : ℕ) (worker : String) (limit : ℕ) (locked : List ℕ) (t : Jobs)
    (job : ClaimedJob)
    → HasIds t
    → In job (claim_rows q now worker limit locked t).1
    → IsKept job (now + q.visibility_timeout) (claim_rows q now worker limit locked t).0
unfolding lease step
claim-IsKept q now worker limit locked t job v at =
    let (old, place, e, _) = claimed_row q now worker limit locked t job at in
    let before : HasRow job.id t =
      subst (λ i. In i (ids_of t.rows)) (sym (ap (λ (x : ClaimedJob). x.id) e))
        (map-In (λ (x : Job). x.id) t.rows old place) in
    (
      claim-IsLeased q now worker limit locked t job v at,
      (
        step-HasRow job.id t (claims q now worker limit locked) before,
        step-HasIds t (claims q now worker limit locked) v,
      ),
    )
