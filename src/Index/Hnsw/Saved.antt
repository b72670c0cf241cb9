-- ===== src/Index/Hnsw/Saved.antt =====
-- index/hnsw.py, `save` and `load`: each layer as the rows of a sparse matrix. The file itself, and the
-- vectors and levels that pass through it as they are, are numpy's.
use cite_delta_rag.Prelude.{
  ℕ, zero, suc, ◌+◌, ◌-◌, ◌≤◌, ◌<◌, ◌≡◌, refl, sym, subst, ap, ◌∙◌, Option, none, some, List, [],
  ◌∷◌, ◌++◌, inl, inr, arith, ltb, ==_iff, ◌==◌, nat_eq, if◌then◌else◌, length, length-append, take,
  drop, take-append, drop-append, map, Bool-cases,
}
use mathlib.Core.List.{append_assoc}
use cite_delta_rag.Prelude.Int.{ℤ, pos, negsuc}
use cite_delta_rag.Prelude.Dict
use cite_delta_rag.Prelude.Dict.{get-put}
use cite_delta_rag.Index.Hnsw.{HnswIndex, size, layer_at}
use cite_delta_rag.Index.Hnsw.Layer.{Adjacency, neighbours_of}

-- The loop over the nodes from `node`, `count` of them: the ends of their rows, and the flat list.
unfoldable pub fill : Adjacency → ℕ → ℕ → List ℕ → List ℕ × List ℕ
fill adjacency node zero flat = ([], flat)
fill adjacency node (suc count) flat =
    let longer = flat ++ neighbours_of adjacency node in
    let (ends, all) = fill adjacency (suc node) count longer in (length longer ∷ ends, all)

-- `indptr` and `indices` of a layer.
unfoldable pub save_layer : ℕ → Adjacency → List ℕ × List ℕ
unfolding fill
save_layer n adjacency = let (ends, all) = fill adjacency 0 n [] in (0 ∷ ends, all)

-- The loop of `load` over the nodes of a layer.
unfoldable pub unfill : ℕ → List ℕ → List ℕ → Adjacency → Adjacency
unfill node [] indices adjacency = adjacency
unfill node (start ∷ []) indices adjacency = adjacency
unfill node (start ∷ stop ∷ indptr) indices adjacency = unfill (suc node) (stop ∷ indptr) indices (
    if ltb start stop
    then Dict.put adjacency node (take (stop - start) (drop start indices))
    else adjacency)

unfoldable pub load_layer : List ℕ × List ℕ → Adjacency
unfolding unfill
load_layer (indptr, indices) = unfill 0 indptr indices []

-- The arrays of the file that `search` depends on.
pub record SavedIndex : Type 0 where
  pub ids : List ℕ
  pub ef_search : ℕ
  pub entry : ℤ
  pub max_level : ℕ
  pub layers : List (List ℕ × List ℕ)

unfoldable pub save : HnswIndex → SavedIndex
unfolding save_layer
save index = record {
  ids = index.ids;
  ef_search = index.ef_search;
  entry = elim index.entry [ none ↦ negsuc 0 | some e ↦ pos e ];
  max_level = index.max_level;
  layers = map (λ adjacency. save_layer (size index) adjacency) index.graph;
}

unfoldable pub entry_from : ℤ → Option ℕ
entry_from (pos e) = some e
entry_from (negsuc n) = none

-- The ceiling on visits is not in the file: a loaded index has the default one.
unfoldable pub load : SavedIndex → HnswIndex
unfolding load_layer entry_from
load file = record {
  ids = file.ids;
  graph = map load_layer file.layers;
  entry = entry_from file.entry;
  max_level = file.max_level;
  ef_search = file.ef_search;
  max_visits = 20_000;
}

append_nil : (xs : List ℕ) → xs ≡ xs ++ []
append_nil [] = refl
append_nil (x ∷ xs) = ap (◌∷◌ x) (append_nil xs)

-- The flat list only grows.
fill_extends :
    (adjacency : Adjacency) (node count : ℕ) (flat : List ℕ)
    → (more : List ℕ) × ((fill adjacency node count flat).1 ≡ flat ++ more)
unfolding fill
fill_extends adjacency node zero flat = ([], append_nil flat)
fill_extends adjacency node (suc count) flat =
    let (more, e) =
      fill_extends adjacency (suc node) count (flat ++ neighbours_of adjacency node) in
    (
      neighbours_of adjacency node ++ more,
      e ∙ append_assoc flat (neighbours_of adjacency node) more,
    )

row_of_flat :
    (flat row more : List ℕ)
    → take (length (flat ++ row) - length flat) (drop (length flat) ((flat ++ row) ++ more)) ≡ row
row_of_flat flat row more =
    let n : length row ≡ length (flat ++ row) - length flat =
      omega (arith, length-append flat row) in
    subst (λ k. take k (drop (length flat) ((flat ++ row) ++ more)) ≡ row) n
      (subst (λ l. take (length row) (drop (length flat) l) ≡ row)
        (sym (append_assoc flat row more))
        (subst (λ l. take (length row) l ≡ row) (sym (drop-append flat (row ++ more)))
          (take-append row more)))

-- A row that was read, or was empty.
read_row :
    (acc : Adjacency) (node : ℕ) (flat row : List ℕ) (i : ℕ)
    → neighbours_of acc node ≡ []
    → neighbours_of
        (if ltb (length flat) (length (flat ++ row)) then Dict.put acc node row else acc)
        i
      ≡ (if node == i then row else neighbours_of acc i)
unfolding neighbours_of
read_row acc node flat [] i clean = elim (Bool-cases (node == i)) [
  | inl e ↦ rw (e) (
      ground (
        arith,
        length-append flat [],
        subst (λ x. neighbours_of acc x ≡ []) ((==_iff node i).0 e) clean,
      ))
  | inr e ↦ rw (e) (ground (arith, length-append flat []))
]
read_row acc node flat (x ∷ row) i clean =
    ground (arith, length-append flat (x ∷ row), get-put acc node i (x ∷ row))

-- What reading the rows from `node` on gives, where nothing from `node` on was read before.
unfill-fill :
    (source : Adjacency) (count node : ℕ) (flat : List ℕ) (acc : Adjacency)
    → ((i : ℕ) → node ≤ i → neighbours_of acc i ≡ [])
    → let (ends, all) = fill source node count flat in
      (i : ℕ)
      → (i < node
          → neighbours_of (unfill node (length flat ∷ ends) all acc) i ≡ neighbours_of acc i)
        × (node ≤ i
            → i < node + count
            → neighbours_of (unfill node (length flat ∷ ends) all acc) i ≡ neighbours_of source i)
unfolding fill unfill
unfill-fill source zero node flat acc clean i = (λ h. refl, λ h l. absurd (omega (arith, h, l)))
unfill-fill source (suc count) node flat acc clean i =
    let row = neighbours_of source node in
    let longer = flat ++ row in
    let (more, grown) = fill_extends source (suc node) count longer in
    let read : take (length longer - length flat)
          (drop (length flat) (fill source (suc node) count longer).1)
        ≡ row =
      subst (λ l. take (length longer - length flat) (drop (length flat) l) ≡ row) (sym grown)
        (row_of_flat flat row more) in
    let next : List ℕ → Adjacency =
      λ r. if ltb (length flat) (length longer) then Dict.put acc node r else acc in
    let now = λ (j : ℕ). read_row acc node flat row j (clean node (omega arith)) in
    let goal =
      subst
        (λ r.
          (i < suc node
            → neighbours_of
                (unfill (suc node) (length longer ∷ (fill source (suc node) count longer).0)
                  (fill source (suc node) count longer).1 (next r))
                i
              ≡ neighbours_of (next row) i)
          × (suc node ≤ i
              → i < suc node + count
              → neighbours_of
                  (unfill (suc node) (length longer ∷ (fill source (suc node) count longer).0)
                    (fill source (suc node) count longer).1 (next r))
                  i
                ≡ neighbours_of source i))
        (sym read)
        (unfill-fill source count (suc node) longer (next row)
          (λ j h. now j ∙ ground (arith, h, ==_iff node j, clean j (omega (arith, h)))) i) in
    (
      λ h. goal.0 (omega (arith, h)) ∙ (now i ∙ ground (arith, h, ==_iff node i)),
      λ h l. elim (Bool-cases (node == i)) [
        | inl e ↦
            goal.0 (ground (arith, e))
            ∙ (now i ∙ ground (arith, e, ap (λ x. neighbours_of source x) ((==_iff node i).0 e)))
        | inr e ↦ goal.1 (ground (arith, e, h)) (omega (arith, l))
      ],
    )

-- Every row of a layer comes back from the file.
pub layer_round_trip :
    (n i : ℕ) (adjacency : Adjacency)
    → i < n
    → neighbours_of (load_layer (save_layer n adjacency)) i ≡ neighbours_of adjacency i
unfolding load_layer save_layer
layer_round_trip n i adjacency h =
    (unfill-fill adjacency n 0 [] [] (λ j l. nothing j) i).1 (omega arith) (omega (arith, h))
  where
    nothing : (j : ℕ) → neighbours_of [] j ≡ []
    nothing j = unfold neighbours_of Dict.get in refl

layers_round_trip :
    (n i layer : ℕ) (graph : List Adjacency)
    → i < n
    → neighbours_of (layer_at (map load_layer (map (λ a. save_layer n a) graph)) layer) i
      ≡ neighbours_of (layer_at graph layer) i
unfolding layer_at
layers_round_trip n i layer [] h = refl
layers_round_trip n i zero (a ∷ graph) h = layer_round_trip n i a h
layers_round_trip n i (suc layer) (a ∷ graph) h = layers_round_trip n i layer graph h

-- An index that is saved and loaded has its rows, its entry point, its levels and its default effort,
-- and each row has its neighbours in each layer.
pub index_round_trip :
    (index : HnswIndex) (layer i : ℕ)
    → i < size index
    → let loaded = load (save index) in
      (loaded.ids ≡ index.ids)
      × (loaded.entry ≡ index.entry)
      × (loaded.max_level ≡ index.max_level)
      × (loaded.ef_search ≡ index.ef_search)
      × (neighbours_of (layer_at loaded.graph layer) i
          ≡ neighbours_of (layer_at index.graph layer) i)
unfolding load save
index_round_trip index layer i h =
    (refl, entries index.entry, refl, refl, layers_round_trip (size index) i layer index.graph h)
  where
    entries : (o : Option ℕ) → entry_from (elim o [ none ↦ negsuc 0 | some e ↦ pos e ]) ≡ o
    entries none = unfold entry_from in refl
    entries (some e) = unfold entry_from in refl
