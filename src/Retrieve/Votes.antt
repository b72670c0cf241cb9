-- ===== src/Retrieve/Votes.antt =====
-- What the votes of ranked lists leave in the dictionaries of the fusion.
use cite_delta_rag.Prelude.{
  ℕ, suc, ◌+◌, ◌≡◌, refl, ap, String, Bool, true, false, ◌||◌, some, Option-cases, List, [], ◌∷◌,
  inl, inr, arith, map, leb, ==_iff, ◌==◌, nat_eq, string_eq, elem, Distinct, Bool-cases,
}
use cite_delta_rag.Prelude.Int.{ℤ, int_eq}
use cite_delta_rag.Prelude.Dict
use cite_delta_rag.Prelude.Dict.{Dict, keys, Distinct-keys-put}
use cite_delta_rag.Answer.Models.{FusedHit}
use cite_delta_rag.Retrieve.{
  RankedList, Scoring, Tally, ranks_of, with_share, vote, vote_list, vote_lists, hits_of,
}

abbrev pub chunk_ids : List FusedHit → List ℤ
chunk_ids = map (λ h. h.chunk_id)

-- The ids of all lists.
abbrev pub listed : ℤ → List RankedList → Bool
listed id [] = false
listed id (ranked ∷ lists) = elem id ranked.ids || listed id lists

elem-keys-put :
    {S : Type 0} (d : Dict ℤ S) (k j : ℤ) (v : S)
    → elem j (keys (Dict.put d k v)) ≡ ((k == j) || elem j (keys d))
unfolding Dict.put
elem-keys-put [] k j v = ground arith
elem-keys-put ((i, w) ∷ d) k j v =
    ground (arith, elem-keys-put d k j v, ==_iff k j, ==_iff i k, ==_iff i j)

module _ {S : Type 0} (scoring : Scoring S) (k : ℕ) where
  -- Who has a rank has a score.
  abbrev Scored : Tally S → Type 0
  Scored t =
      (id : ℤ) (name : String) (p : ℕ)
      → Dict.get (ranks_of scoring k t id) name ≡ some p
      → elem id (keys t.scores) ≡ true

  share_scores :
      (t : Tally S) (scores : Dict ℤ S) (name : String) (position : ℕ) (id j : ℤ)
      → elem j (keys (with_share scoring k t scores name position id).scores)
        ≡ ((id == j) || elem j (keys scores))
  unfolding with_share
  share_scores t scores name position id j =
      elem-keys-put scores id j
        (scoring.plus (Dict.get_or scores id scoring.nothing) (scoring.share (k + position)))

  share-Scored :
      (t : Tally S) (scores : Dict ℤ S) (name : String) (position : ℕ) (id : ℤ)
      → ((j : ℤ) → elem j (keys t.scores) ≡ true → elem j (keys scores) ≡ true)
      → Scored t
      → Scored (with_share scoring k t scores name position id)
  unfolding with_share ranks_of
  share-Scored t scores name position id more h j n p e =
      let there = share_scores t scores name position id j in
      elim (Bool-cases (id == j)) [
        | inl same ↦ ground (arith, there, same)
        | inr different ↦ ground (
          arith,
          there,
          more j (
              h j n p (
                ground (
                  arith,
                  e,
                  different,
                  Dict.get-put t.ranks id j (Dict.put (ranks_of scoring k t id) name position),
                ))),
        )
      ]

  vote_scores :
      (t : Tally S) (name : String) (position : ℕ) (id : ℤ)
      → Scored t
      → Scored (vote scoring k t name position id)
        × ((j : ℤ)
            → elem j (keys (vote scoring k t name position id).scores)
              ≡ ((id == j) || elem j (keys t.scores)))
  unfolding vote
  vote_scores t name position id h = elim (Option-cases (Dict.get (ranks_of scoring k t id) name)) [
    | inl e ↦
        rw (e, vote)
          (
            share-Scored t t.scores name position id (λ j at. at) h,
            λ j. share_scores t t.scores name position id j,
          )
    | inr (previous, e) ↦ elim (Bool-cases (leb previous position)) [
      | inl kept ↦
          rw (e, kept, vote)
            (h, λ j. ground (arith, ==_iff id j, h id name previous e, Bool-cases (id == j)))
      | inr worse ↦
          let less =
            scoring.minus (Dict.get_or t.scores id scoring.nothing)
              (scoring.share (k + previous)) in
          rw (e, worse, vote)
            (
              share-Scored t (Dict.put t.scores id less) name position id
                  (λ j at. ground (arith, at, elem-keys-put t.scores id j less)) h,
              λ j. ground (
                arith,
                share_scores t (Dict.put t.scores id less) name position id j,
                elem-keys-put t.scores id j less,
              ),
            )
    ]
  ]

  vote_list_scores :
      (ids : List ℤ) (t : Tally S) (name : String) (position : ℕ)
      → Scored t
      → Scored (vote_list scoring k t name position ids)
        × ((j : ℤ)
            → elem j (keys (vote_list scoring k t name position ids).scores)
              ≡ (elem j ids || elem j (keys t.scores)))
  unfolding vote_list
  vote_list_scores [] t name position h = (h, λ j. refl)
  vote_list_scores (id ∷ ids) t name position h =
      let (scored, first) = vote_scores t name position id h in
      let (end, rest) =
        vote_list_scores ids (vote scoring k t name position id) name (suc position) scored in
      (end, λ j. ground (arith, rest j, first j))

  pub vote_lists_scores :
      (lists : List RankedList) (t : Tally S)
      → Scored t
      → (j : ℤ)
      → elem j (keys (vote_lists scoring k t lists).scores)
        ≡ (listed j lists || elem j (keys t.scores))
  unfolding vote_lists
  vote_lists_scores [] t h j = refl
  vote_lists_scores (ranked ∷ lists) t h j =
      let (scored, first) = vote_list_scores ranked.ids t ranked.name 1 h in
      let rest =
        vote_lists_scores lists (vote_list scoring k t ranked.name 1 ranked.ids) scored j in
      ground (arith, rest, first j)

  vote-Distinct :
      (t : Tally S) (name : String) (position : ℕ) (id : ℤ)
      → Distinct (keys t.scores)
      → Distinct (keys (vote scoring k t name position id).scores)
  unfolding vote with_share
  vote-Distinct t name position id d =
      elim (Option-cases (Dict.get (ranks_of scoring k t id) name)) [
        | inl e ↦ rw (e, vote) (Distinct-keys-put t.scores id _ d)
        | inr (previous, e) ↦ elim (Bool-cases (leb previous position)) [
          | inl kept ↦ rw (e, kept, vote) d
          | inr worse ↦
              rw (e, worse, vote)
                (Distinct-keys-put (Dict.put t.scores id _) id _
                  (Distinct-keys-put t.scores id _ d))
        ]
      ]

  votes-Distinct :
      (ids : List ℤ) (t : Tally S) (name : String) (position : ℕ)
      → Distinct (keys t.scores)
      → Distinct (keys (vote_list scoring k t name position ids).scores)
  unfolding vote_list
  votes-Distinct [] t name position d = d
  votes-Distinct (id ∷ ids) t name position d =
      votes-Distinct ids (vote scoring k t name position id) name (suc position)
        (vote-Distinct t name position id d)

  pub lists-Distinct :
      (lists : List RankedList) (t : Tally S)
      → Distinct (keys t.scores)
      → Distinct (keys (vote_lists scoring k t lists).scores)
  unfolding vote_lists
  lists-Distinct [] t d = d
  lists-Distinct (ranked ∷ lists) t d =
      lists-Distinct lists (vote_list scoring k t ranked.name 1 ranked.ids)
        (votes-Distinct ranked.ids t ranked.name 1 d)

  pub ids-hits_of :
      (ranks : Dict ℤ (Dict String ℕ)) (scores : Dict ℤ S)
      → chunk_ids (hits_of scoring k ranks scores) ≡ keys scores
  unfolding hits_of
  ids-hits_of ranks [] = refl
  ids-hits_of ranks ((id, s) ∷ rest) = ap (◌∷◌ id) (ids-hits_of ranks rest)
