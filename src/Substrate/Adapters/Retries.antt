-- ===== src/Substrate/Adapters/Retries.antt =====
-- How often an adapter calls its provider, and what it makes of the reply.
use cite_delta_rag.Prelude.{
  ℕ, zero, suc, ◌+◌, ◌≤◌, ◌<◌, ◌≡◌, ◌⊎◌, refl, ap, ◌∙◌, subst, List, [], ◌∷◌, ◌++◌, inl, inr, arith,
  min,
}
use cite_delta_rag.Substrate.Pricing.{CostLedger}
use cite_delta_rag.Substrate.Adapters.{
  Reaction, retryable, failed, replied, completion_error, Event, called, slept, Trail, pause,
  attempts,
}

-- The calls among the events, and the sleeps.
abbrev pub calls : List Event → ℕ
calls [] = 0
calls (called n ∷ es) = suc (calls es)
calls (slept d ∷ es) = calls es

abbrev pub sleeps : List Event → ℕ
sleeps [] = 0
sleeps (called n ∷ es) = sleeps es
sleeps (slept d ∷ es) = suc (sleeps es)

Reaction-cases :
    {R : Type 0} (r : Reaction R)
    → (r ≡ retryable) ⊎ ((r ≡ failed) ⊎ ((raw : R) × (r ≡ replied raw)))
Reaction-cases retryable = inl refl
Reaction-cases failed = inr (inl refl)
Reaction-cases (replied raw) = inr (inr (raw, refl))

paused_calls :
    (delay : ℕ → ℕ) (n left : ℕ) (es : List Event)
    → calls (called n ∷ (pause delay n left ++ es)) ≡ suc (calls es)
unfolding pause
paused_calls delay n zero es = refl
paused_calls delay n (suc left) es = refl

paused_sleeps :
    (delay : ℕ → ℕ) (n left : ℕ) (es : List Event)
    → sleeps (called n ∷ (pause delay n left ++ es)) ≡ min 1 left + sleeps es
unfolding pause
paused_sleeps delay n zero es = omega arith
paused_sleeps delay n (suc left) es = omega arith

-- The calls of `left` attempts from `first` on, with a sleep between each two.
abbrev pub spaced : (ℕ → ℕ) → ℕ → ℕ → List Event
spaced delay first zero = []
spaced delay first (suc zero) = called first ∷ []
spaced delay first (suc (suc left)) =
    called first ∷ slept (delay first) ∷ spaced delay (suc first) (suc left)

spaced-pause :
    (delay : ℕ → ℕ) (first left : ℕ)
    → called first ∷ (pause delay first left ++ spaced delay (suc first) left)
      ≡ spaced delay first (suc left)
unfolding pause
spaced-pause delay first zero = refl
spaced-pause delay first (suc left) = refl

module _ {R : Type 0} (react : ℕ → Reaction R) (delay : ℕ → ℕ) (respond : R → Trail)
    (ledger : CostLedger) where
  -- The attempts before the k-th, counted from `first`, are repeated.
  abbrev pub AllRetryable : ℕ → ℕ → Type 0
  AllRetryable first k = (i : ℕ) → i < k → react (first + i) ≡ retryable

  later : (first k : ℕ) → AllRetryable first (suc k) → AllRetryable (suc first) k
  later first k h i l =
      subst (λ n. react n ≡ retryable) (omega arith) (h (suc i) (omega (arith, l)))

  now_retryable : (first k : ℕ) → AllRetryable first (suc k) → react first ≡ retryable
  now_retryable first k h = subst (λ n. react n ≡ retryable) (omega arith) (h 0 (omega arith))

  at_first : (first : ℕ) (r : Reaction R) → react (first + 0) ≡ r → react first ≡ r
  at_first first r h = subst (λ n. react n ≡ r) (omega arith) h

  -- When every attempt is to be repeated, each is made, with a sleep between each two, and the end is a
  -- CompletionError with nothing recorded.
  pub attempts_exhausted :
      (first left : ℕ)
      → AllRetryable first left
      → let t = attempts react delay respond ledger first left in
        (t.ending ≡ completion_error) × (t.ledger ≡ ledger) × (t.events ≡ spaced delay first left)
  unfolding attempts
  attempts_exhausted first zero h = (refl, refl, refl)
  attempts_exhausted first (suc left) h =
      let (e, l, s) = attempts_exhausted (suc first) left (later first left h) in
      rw (now_retryable first left h, attempts)
        (
          e,
          l,
          ap (λ es. called first ∷ (pause delay first left ++ es)) s
              ∙ spaced-pause delay first left,
        )

  -- When the reply comes after k repeated attempts, the provider was called k + 1 times, with a sleep
  -- after each but the last, and the end is what the reply comes to.
  pub attempts_replied :
      (first k left : ℕ) (raw : R)
      → AllRetryable first k
      → react (first + k) ≡ replied raw
      → k < left
      → let t = attempts react delay respond ledger first left in
        (t.ending ≡ (respond raw).ending)
        × (t.ledger ≡ (respond raw).ledger)
        × (calls t.events ≡ suc k + calls (respond raw).events)
        × (sleeps t.events ≡ k + sleeps (respond raw).events)
  unfolding attempts
  attempts_replied first k zero raw h r l = absurd (omega (arith, l))
  attempts_replied first zero (suc left) raw h r l =
      rw (at_first first (replied raw) r, attempts) (refl, refl, omega arith, omega arith)
  attempts_replied first (suc k) (suc left) raw h r l =
      let (e, g, c, s) =
        attempts_replied (suc first) k left raw (later first k h)
          (subst (λ n. react n ≡ replied raw) (omega arith) r) (omega (arith, l)) in
      let es = (attempts react delay respond ledger (suc first) left).events in
      rw (now_retryable first k h, attempts)
        (
          e,
          g,
          omega (arith, c, paused_calls delay first left es),
          omega (arith, s, l, paused_sleeps delay first left es),
        )

  -- A failure that is not to be repeated ends the attempts with nothing recorded.
  pub attempts_failed :
      (first k left : ℕ)
      → AllRetryable first k
      → react (first + k) ≡ failed
      → k < left
      → let t = attempts react delay respond ledger first left in
        (t.ending ≡ completion_error) × (t.ledger ≡ ledger) × (calls t.events ≡ suc k)
  unfolding attempts
  attempts_failed first k zero h r l = absurd (omega (arith, l))
  attempts_failed first zero (suc left) h r l =
      rw (at_first first failed r, attempts) (refl, refl, refl)
  attempts_failed first (suc k) (suc left) h r l =
      let (e, g, c) =
        attempts_failed (suc first) k left (later first k h)
          (subst (λ n. react n ≡ failed) (omega arith) r) (omega (arith, l)) in
      let es = (attempts react delay respond ledger (suc first) left).events in
      rw (now_retryable first k h, attempts)
        (e, g, omega (arith, c, paused_calls delay first left es))

  -- However the provider reacts, it is called at most as often as there are attempts.
  pub attempts_bounded :
      ((raw : R) → calls (respond raw).events ≡ 0)
      → (first left : ℕ) → calls (attempts react delay respond ledger first left).events ≤ left
  unfolding attempts
  attempts_bounded quiet first zero = omega arith
  attempts_bounded quiet first (suc left) =
      let rest = attempts_bounded quiet (suc first) left in
      let es = (attempts react delay respond ledger (suc first) left).events in
      elim (Reaction-cases (react first)) [
        | inl e ↦ rw (e, attempts) (omega (arith, rest, paused_calls delay first left es))
        | inr (inl e) ↦ rw (e, attempts) (omega arith)
        | inr (inr (raw, e)) ↦ rw (e, attempts) (omega (arith, quiet raw))
      ]
