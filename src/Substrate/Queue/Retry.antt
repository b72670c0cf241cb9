-- ===== src/Substrate/Queue/Retry.antt =====
-- What becomes of a job whose holder reports a failure.
use cite_delta_rag.Prelude.{
  ℕ, ◌+◌, ◌*◌, ◌^◌, ◌-◌, ◌≤◌, ◌<◌, ◌⊎◌, min, ◌≡◌, sym, ap, subst, inl, inr, true, List, [], ◌∷◌,
  arith, take, Option, some, In, Bool-cases, select, nat_eq, if◌then◌else◌, Distinct, leb,
}
use cite_delta_rag.Text.{Text}
use cite_delta_rag.Substrate.Resilience.{full_jitter_delay}
use cite_delta_rag.Substrate.Resilience.Bounds.{full_jitter_delay_within}
use cite_delta_rag.Substrate.Queue.Models.{Job, Jobs, JobState, pending, dead, JobQueue, ClaimedJob}
use cite_delta_rag.Substrate.Queue.Table.{update_where, ids_of}
use cite_delta_rag.Substrate.Queue.Table.Updates.{update-In, other_row, update-none}
use cite_delta_rag.Substrate.Queue.Finish.{nack_row, nack, fail, is_held}
use cite_delta_rag.Substrate.Queue.Identity.{HasIds}

-- In a table with distinct ids, a handle holds one row at most.
select_held :
    (h : ClaimedJob) (rows : List Job) (j : Job)
    → Distinct (ids_of rows)
    → In j rows
    → is_held h j ≡ true
    → select (is_held h) rows ≡ j ∷ []
select_held h [] j d m e = absurd m
select_held h (x ∷ xs) j d (inl same) e =
    let here : is_held h x ≡ true = subst (λ y. is_held h y ≡ true) same e in
    let (_, _, rest) =
      update-none (is_held h) (λ y. y) xs
        (λ k mk. elim (Bool-cases (is_held h k)) [
          | inl held ↦ absurd (other_row x xs k d mk (unfold is_held in ground (arith, here, held)))
          | inr free ↦ free
        ]) in
    rw (here, rest) (ap (λ y. y ∷ []) (sym same))
select_held h (x ∷ xs) j d (inr m) e = elim (Bool-cases (is_held h x)) [
  | inl held ↦ absurd (other_row x xs j d m (unfold is_held in ground (arith, held, e)))
  | inr free ↦ rw free (select_held h xs j d.1 m e)
]

pub nack_row-held :
    (now delay : ℕ) (h : ClaimedJob) (error : Text) (t : Jobs) (j : Job)
    → HasIds t
    → In j t.rows
    → is_held h j ≡ true
    → ((nack_row now delay h error t).1 ≡ some (fail now delay (take 4000 error) j).state)
      × In (fail now delay (take 4000 error) j) (nack_row now delay h error t).0.rows
unfolding nack_row
nack_row-held now delay h error t j v m e = (
  rw (select_held h t.rows j v.distinct m e),
  subst
      (λ b.
        In (if b then fail now delay (take 4000 error) j else j)
          (update_where (is_held h) (fail now delay (take 4000 error)) t.rows))
      e (update-In (is_held h) (fail now delay (take 4000 error)) t.rows j m),
)

-- What a nack makes of the row `j`: dead if no attempt is left, and otherwise pending again, due
-- before `latest`.
abbrev pub Retried : Job → ℕ → Jobs × Option JobState → Type 0
Retried j latest result =
    (k : Job) × In k result.0.rows
    × (k.id ≡ j.id)
    × (k.attempts ≡ j.attempts)
    × (result.1 ≡ some k.state)
    × (((j.max_attempts ≤ j.attempts) × (k.state ≡ dead))
        ⊎ ((j.attempts < j.max_attempts) × (k.state ≡ pending) × (k.available_at ≤ latest)))

-- A nack of a job that its handle holds dead-letters the job if it has no attempt left, and
-- otherwise makes it pending, due after at most the cap, and after at most the base doubled with
-- every earlier attempt; it reports the state that the row then has, and keeps the count of
-- attempts. The generator is to stay within its window.
pub nack_retries :
    (uniform : ℕ → ℕ) (q : JobQueue) (now : ℕ) (h : ClaimedJob) (error : Text) (t : Jobs) (j : Job)
    → ((c : ℕ) → uniform c ≤ c)
    → 1 ≤ h.attempts
    → HasIds t
    → In j t.rows
    → is_held h j ≡ true
    → Retried j
        (now + min q.retry_cap (q.retry_base * 2 ^ (h.attempts - 1)))
        (nack uniform q now h error t)
unfolding nack fail
nack_retries uniform q now h error t j u some_attempt v m e =
    let delay = full_jitter_delay uniform h.attempts q.retry_base q.retry_cap in
    let (state, place) = nack_row-held now delay h error t j v m e in
    let (capped, doubled) =
      full_jitter_delay_within uniform h.attempts q.retry_base q.retry_cap u some_attempt in
    elim (Bool-cases (leb j.max_attempts j.attempts)) [
      | inl y ↦ (
        fail now delay (take 4000 error) j,
        place,
        rw y,
        rw y,
        state,
        inl (ground (arith, y), rw y),
      )
      | inr n ↦ (
        fail now delay (take 4000 error) j,
        place,
        rw n,
        rw n,
        state,
        inr (ground (arith, n), rw n, rw n (omega (arith, capped, doubled))),
      )
    ]
