-- ===== src/Index/Postings/Examples.antt =====
-- A number and a postings list in a blob that holds another term's bytes.
use cite_delta_rag.Prelude.{ℕ, ◌-◌, ◌≡◌, refl, some, List, [], ◌∷◌, ◌++◌, arith, length}
use cite_delta_rag.Prelude.Int.{pos}
use cite_delta_rag.Index.Varint.{write_varint}
use cite_delta_rag.Index.Postings.{write_postings, postings}
use cite_delta_rag.Index.Postings.RoundTrip.{postings_round_trip}

-- 300 takes two bytes.
written_300 : write_varint (pos 300) (9 ∷ []) ≡ some (9 ∷ 172 ∷ 2 ∷ [])
unfolding write_varint
written_300 = refl

abbrev plist : List (ℕ × ℕ)
plist = (0, 2) ∷ (5, 1) ∷ (300, 4) ∷ []

postings_round_trip_example :
    (written : List ℕ) × (write_postings plist 0 (9 ∷ []) ≡ some written)
    × (postings (written ++ (7 ∷ [])) 3 1 (length written - 1) ≡ some plist)
postings_round_trip_example =
    postings_round_trip plist (9 ∷ []) (7 ∷ []) (omega arith, (omega arith, (omega arith, tt)))
