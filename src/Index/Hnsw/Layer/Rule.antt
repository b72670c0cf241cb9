-- ===== src/Index/Hnsw/Layer/Rule.antt =====
-- The rule for the loop of `_search_layer`: what its rounds keep holds where it ends, and it ends.
use cite_delta_rag.Prelude.{
  ℕ, zero, suc, ◌+◌, ◌≤◌, ◌<◌, ◌≡◌, refl, subst, Bool, true, false, Option, some, List, [], ◌∷◌,
  inl, inr, arith, length, Bool-cases,
}
use cite_delta_rag.Index.Hnsw.Layer.{
  Adjacency, Search, offer_all, popped, marked, unvisited, is_done, is_spent, search_loop, expand,
  take_round,
}
use cite_delta_rag.Index.Hnsw.Layer.Fuel.{IsGraph, fresh, measure, measure-step}

module _ (dist : ℕ → ℕ) (allowed : ℕ → Bool) (ef size : ℕ) (adjacency : Adjacency)
    (budget : Option ℕ) where
  -- The state after a round that visits the neighbours of `node`.
  abbrev pub round : Search → ℕ → List (ℕ × ℕ) → Search
  round st node rest =
      offer_all dist allowed ef (marked st rest (unvisited adjacency st node))
        (unvisited adjacency st node)

  -- `I` is kept by each round, and gives `Post` where the loop ends.
  pub record IsLoop (I Post : Search → Type 0) : Type 0 where
    pub empty : (st : Search) → I st → st.candidates ≡ [] → Post st
    pub stop :
        (st : Search) (d node : ℕ) (rest : List (ℕ × ℕ))
        → I st
        → st.candidates ≡ (d, node) ∷ rest
        → is_done ef st.results d ≡ true
        → Post (popped st rest)
    pub skip :
        (st : Search) (d node : ℕ) (rest : List (ℕ × ℕ))
        → I st
        → st.candidates ≡ (d, node) ∷ rest
        → is_done ef st.results d ≡ false
        → unvisited adjacency st node ≡ []
        → I (popped st rest)
    pub step :
        (st : Search) (d node : ℕ) (rest : List (ℕ × ℕ))
        → I st
        → st.candidates ≡ (d, node) ∷ rest
        → is_done ef st.results d ≡ false
        → I (round st node rest)
    pub spent : (st : Search) → I st → is_spent budget st.visits ≡ true → Post st

  module _ (I Post : Search → Type 0) (loop : IsLoop I Post) (g : IsGraph size adjacency) where
    -- What is found from a state.
    abbrev Ends : Option Search → Type 0
    Ends o = (out : Search) × ((o ≡ some out) × Post out)

    expand-Ends :
        (again : Search → Option Search) (bound : ℕ)
        → ((s : Search) → I s → measure size s < bound → Ends (again s))
        → (st : Search) (d node : ℕ) (rest : List (ℕ × ℕ)) (ns : List ℕ) → I st
        → st.candidates ≡ (d, node) ∷ rest
        → is_done ef st.results d ≡ false
        → unvisited adjacency st node ≡ ns
        → length rest + fresh size st.visited < bound
        → Ends (expand dist allowed ef budget again st rest ns)
    unfolding expand
    expand-Ends again bound ends st d node rest [] i e goes u h =
        ends (popped st rest) (loop.skip st d node rest i e goes u) h
    expand-Ends again bound ends st d node rest (n ∷ ns) i e goes u h =
        let next = offer_all dist allowed ef (marked st rest (n ∷ ns)) (n ∷ ns) in
        let kept =
          subst (λ l. I (offer_all dist allowed ef (marked st rest l) l)) u
            (loop.step st d node rest i e goes) in
        let less =
          subst
            (λ l.
              measure size (offer_all dist allowed ef (marked st rest l) l)
              ≤ length rest + fresh size st.visited)
            u (measure-step dist allowed ef size adjacency st node rest g) in
        elim (Bool-cases (is_spent budget next.visits)) [
          | inl e ↦ rw (e, expand) (next, (refl, loop.spent next kept e))
          | inr e ↦ rw (e, expand) (ends next kept (omega (arith, less, h)))
        ]

    take_round-Ends :
        (again : Search → Option Search) (bound : ℕ)
        → ((s : Search) → I s → measure size s < bound → Ends (again s))
        → (st : Search) (cs : List (ℕ × ℕ)) → I st
        → st.candidates ≡ cs
        → length cs + fresh size st.visited < suc bound
        → Ends (take_round dist allowed ef adjacency budget again st cs)
    unfolding take_round
    take_round-Ends again bound ends st [] i e h = (st, (refl, loop.empty st i e))
    take_round-Ends again bound ends st ((d, node) ∷ rest) i e h =
        elim (Bool-cases (is_done ef st.results d)) [
          | inl stops ↦
              rw (stops, take_round) (popped st rest, (refl, loop.stop st d node rest i e stops))
          | inr goes ↦
              rw (goes, take_round)
                (expand-Ends again bound ends st d node rest (unvisited adjacency st node) i e goes
                  refl (omega (arith, h)))
        ]

    pub search_loop_rule :
        (fuel : ℕ) (st : Search)
        → I st
        → measure size st < fuel
        → (out : Search) × ((search_loop dist allowed ef adjacency budget fuel st ≡ some out)
            × Post out)
    unfolding search_loop
    search_loop_rule zero st i h = absurd (omega (arith, h))
    search_loop_rule (suc fuel) st i h =
        take_round-Ends (λ s. search_loop dist allowed ef adjacency budget fuel s) fuel
          (search_loop_rule fuel) st st.candidates i refl h
