-- ===== src/Substrate/Queue/Table/Updates.antt =====
-- What an update keeps, and when it changes nothing.
use cite_delta_rag.Prelude.{
  ◌≡◌, refl, sym, ap, ◌∙◌, inl, inr, Bool, false, List, [], ◌∷◌, map, arith, if◌then◌else◌, In, any,
  select, Distinct, nat_eq, In→elem,
}
use cite_delta_rag.Substrate.Queue.Models.{Job}
use cite_delta_rag.Substrate.Queue.Table.{update_where, ids_of}

module _ {A B : Type 0} (f : A → B) where
  pub In-map : (xs : List A) (y : B) → In y (map f xs) → (x : A) × In x xs × (y ≡ f x)
  In-map [] y m = absurd m
  In-map (x ∷ xs) y (inl e) = (x, inl refl, e)
  In-map (x ∷ xs) y (inr m) = let (z, place, e) = In-map xs y m in (z, inr place, e)

  pub map-In : (xs : List A) (x : A) → In x xs → In (f x) (map f xs)
  map-In [] x m = absurd m
  map-In (z ∷ xs) x (inl e) = inl (ap f e)
  map-In (z ∷ xs) x (inr m) = inr (map-In xs x m)

module _ (p : Job → Bool) (f : Job → Job) where
  -- A row after an update is a row before it, changed or not.
  pub In-update :
      (rows : List Job) (j : Job)
      → In j (update_where p f rows)
      → (old : Job) × In old rows × (j ≡ (if p old then f old else old))
  unfolding update_where
  In-update rows j m = In-map (λ j. if p j then f j else j) rows j m

  pub update-In :
      (rows : List Job) (j : Job) → In j rows → In (if p j then f j else j) (update_where p f rows)
  unfolding update_where
  update-In rows j m = map-In (λ j. if p j then f j else j) rows j m

  -- Where no row meets the condition, nothing changes and no row is returned.
  pub update-none :
      (rows : List Job)
      → ((j : Job) → In j rows → p j ≡ false)
      → (update_where p f rows ≡ rows) × (any p rows ≡ false) × (select p rows ≡ [])
  unfolding update_where
  update-none [] h = (refl, refl, refl)
  update-none (j ∷ js) h = ground (arith, h j (inl refl), update-none js (λ x m. h x (inr m)))

  pub ids-update :
      ((j : Job) → (f j).id ≡ j.id)
      → (rows : List Job) → ids_of (update_where p f rows) ≡ ids_of rows
  unfolding update_where
  ids-update h [] = refl
  ids-update h (j ∷ js) = ground (arith, h j, ids-update h js)

pub other_row :
    (j : Job) (js : List Job) (b : Job) → Distinct (ids_of (j ∷ js)) → In b js → j.id ≡ b.id → ⊥
other_row j js b d m e = ground (arith, In→elem b.id (ids_of js) (map-In (λ x. x.id) js b m), d.0)

-- A row of a table with distinct ids is known by its id.
pub row_of_id :
    (rows : List Job) (a b : Job)
    → Distinct (ids_of rows)
    → In a rows
    → In b rows
    → a.id ≡ b.id
    → a ≡ b
row_of_id [] a b d ma mb e = absurd ma
row_of_id (j ∷ js) a b d (inl x) (inl y) e = x ∙ sym y
row_of_id (j ∷ js) a b d (inl x) (inr y) e =
    absurd (other_row j js b d y (sym (ap (λ z. z.id) x) ∙ e))
row_of_id (j ∷ js) a b d (inr x) (inl y) e =
    absurd (other_row j js a d x (sym (ap (λ z. z.id) y) ∙ sym e))
row_of_id (j ∷ js) a b d (inr x) (inr y) e = row_of_id js a b d.1 x y e
