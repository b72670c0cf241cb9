-- ===== src/Index/Hnsw/Layer/Room.antt =====
-- A search of a layer that has room for every node, and a budget for it.
use cite_delta_rag.Prelude.{
  ℕ, ◌≤◌, ◌<◌, ◌≡◌, refl, ap, true, false, Option, none, some, List, [], ◌∷◌, inl, inr, arith,
  nat_eq, length, In, Distinct,
}
use cite_delta_rag.Index.Hnsw.Layer.{is_promising, is_done, is_spent}
use cite_delta_rag.Index.Hnsw.Layer.Fuel.{fresh-append}
use cite_delta_rag.Index.Hnsw.Layer.Kept.{nodes}
use cite_delta_rag.Index.Hnsw.Layer.Found.{fresh_le}

-- Distinct numbers below `size` are at most that many.
pub Distinct-length :
    (size : ℕ) (xs : List ℕ) → Distinct xs → ((n : ℕ) → In n xs → n < size) → length xs ≤ size
Distinct-length size xs d b =
    omega (arith, fresh-append size [] xs b d (λ n m. refl), fresh_le size [])

pub length-nodes : (rs : List (ℕ × ℕ)) → length (nodes rs) ≡ length rs
length-nodes [] = refl
length-nodes (r ∷ rs) = omega (arith, length-nodes rs)

pub In_nodes : (rs : List (ℕ × ℕ)) (n : ℕ) → In n (nodes rs) → (d : ℕ) × In (d, n) rs
In_nodes [] n m = absurd m
In_nodes ((d, i) ∷ rs) n (inl e) = (d, inl (ap (λ x. (d, x)) e))
In_nodes ((d, i) ∷ rs) n (inr m) = let (e, at) = In_nodes rs n m in (e, inr at)

pub roomy_promising : (ef d : ℕ) (rs : List (ℕ × ℕ)) → length rs < ef → is_promising ef rs d ≡ true
unfolding is_promising
roomy_promising ef d [] h = ground (arith, h)
roomy_promising ef d ((w, i) ∷ rs) h = ground (arith, h)

pub roomy_goes : (ef d : ℕ) (rs : List (ℕ × ℕ)) → length rs < ef → is_done ef rs d ≡ false
unfolding is_done
roomy_goes ef d [] h = ground (arith, h)
roomy_goes ef d ((w, i) ∷ rs) h = ground (arith, h)

pub unspent :
    (budget : Option ℕ) (n m : ℕ) → n ≤ m → is_spent budget m ≡ false → is_spent budget n ≡ false
unfolding is_spent
unspent none n m h e = refl
unspent (some b) n m h e = ground (arith, h, e)
