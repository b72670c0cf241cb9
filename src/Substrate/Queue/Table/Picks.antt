-- ===== src/Substrate/Queue/Table/Picks.antt =====
-- Rows picked by `ORDER BY … LIMIT …`: they meet the condition, and none that is left out comes first.
use cite_delta_rag.Prelude.{
  ℕ, ◌≡◌, sym, subst, Bool, true, List, In, In-select, In-take, elem→In, In→elem, Distinct, nat_eq,
  select, take,
}
use cite_delta_rag.Prelude.Sorting.{In-sort_by, sort_by}
use cite_delta_rag.Substrate.Queue.Models.{Job}
use cite_delta_rag.Substrate.Queue.Table.{ids_of, is_picked}
use cite_delta_rag.Substrate.Queue.Table.Updates.{In-map, map-In, row_of_id}

module _ (first : Job → Job → Bool) where
  -- In a table with distinct ids, a row whose id is picked is itself a picked row.
  pub picked-In :
      (p : Job → Bool) (limit : ℕ) (rows : List Job) (j : Job)
      → Distinct (ids_of rows)
      → In j rows
      → is_picked (take limit (sort_by first (select p rows))) j ≡ true
      → In j (take limit (sort_by first (select p rows)))
  picked-In p limit rows j d at h =
      let picks = take limit (sort_by first (select p rows)) in
      let (k, place, same) = In-map (λ x. x.id) picks j.id (elem→In j.id (ids_of picks) h) in
      let (among, _) =
        In-select p rows k (In-sort_by first k (select p rows) (In-take limit _ k place)) in
      subst (λ x. In x picks) (row_of_id rows k j d among at (sym same)) place

  pub picked-meets :
      (p : Job → Bool) (limit : ℕ) (rows : List Job) (j : Job)
      → Distinct (ids_of rows)
      → In j rows
      → is_picked (take limit (sort_by first (select p rows))) j ≡ true
      → p j ≡ true
  picked-meets p limit rows j d at h =
      (In-select p rows j (
        In-sort_by first j (select p rows) (In-take limit _ j (picked-In p limit rows j d at h)))).1

  pub In-picked : (picks : List Job) (j : Job) → In j picks → is_picked picks j ≡ true
  In-picked picks j m = In→elem j.id (ids_of picks) (map-In (λ x. x.id) picks j m)
