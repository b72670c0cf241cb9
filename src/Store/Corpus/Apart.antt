-- ===== src/Store/Corpus/Apart.antt =====
-- What the constraints of the tables of the corpus keep apart.
use cite_delta_rag.Prelude.{
  ℕ, suc, ◌<◌, ◌≡◌, refl, sym, subst, Bool, true, false, ◌&&◌, List, [], ◌∷◌, ◌++◌, inl, inr, arith,
  ==_iff, ◌==◌, nat_eq, string_eq, any, In, In-append,
}
use cite_delta_rag.Store.Corpus.{SectionVersion, Chunk, CorpusStore, precedes}
use cite_delta_rag.Store.Corpus.Inserts.{with_versions, overlaps}

-- No element clashes with a later one.
abbrev pub Apart : {A : Type 0} → (A → A → Bool) → List A → Type 0
Apart f [] = Unit {0}
Apart f (x ∷ xs) = (any (f x) xs ≡ false) × Apart f xs

any-append :
    {A : Type 0} (p : A → Bool) (xs : List A) (a : A)
    → any p xs ≡ false
    → p a ≡ false
    → any p (xs ++ (a ∷ [])) ≡ false
any-append p [] a h e = ground (arith, e)
any-append p (x ∷ xs) a h e = ground (arith, any-append p xs a, h, e)

pub Apart-append :
    {A : Type 0} (f : A → A → Bool) (xs : List A) (a : A)
    → ((x y : A) → f x y ≡ f y x)
    → Apart f xs
    → any (f a) xs ≡ false
    → Apart f (xs ++ (a ∷ []))
Apart-append f [] a c h e = (refl, tt)
Apart-append f (x ∷ xs) a c h e = (
  any-append (f x) xs a h.0 (ground (arith, c a x, e)),
  Apart-append f xs a c h.1 (ground (arith, e)),
)

overlaps_comm : (a b : SectionVersion) → overlaps a b ≡ overlaps b a
unfolding overlaps
overlaps_comm a b = ground (
  arith,
  ==_iff a.document_id b.document_id,
  ==_iff b.document_id a.document_id,
  ==_iff a.section b.section,
  ==_iff b.section a.section,
)

-- The same place in a section.
abbrev pub same_place : Chunk → Chunk → Bool
same_place a b = a.section_version_id == b.section_version_id && a.ordinal == b.ordinal

pub same_place_comm : (a b : Chunk) → same_place a b ≡ same_place b a
same_place_comm a b = ground (
  arith,
  ==_iff a.section_version_id b.section_version_id,
  ==_iff b.section_version_id a.section_version_id,
  ==_iff a.ordinal b.ordinal,
  ==_iff b.ordinal a.ordinal,
)

pub record IsStore (st : CorpusStore) : Type 0 where
  pub numbered : (sv : SectionVersion) → In sv st.versions → sv.id < st.next_version
  pub identified : Apart (λ a b. a.id == b.id) st.versions
  pub apart : Apart overlaps st.versions
  pub forward :
      (sv : SectionVersion) → In sv st.versions → precedes sv.effective_from sv.effective_to ≡ true
  pub placed : Apart same_place st.chunks

none_same_id :
    (n : ℕ) (rows : List SectionVersion)
    → ((sv : SectionVersion) → In sv rows → sv.id < n)
    → any (λ b. n == b.id) rows ≡ false
none_same_id n [] h = refl
none_same_id n (sv ∷ rows) h =
    ground (arith, h sv (inl refl), none_same_id n rows (λ r m. h r (inr m)), ==_iff n sv.id)

-- A row that was added is the last.
added :
    (P : SectionVersion → Type 0) (rows : List SectionVersion) (new : SectionVersion)
    → ((sv : SectionVersion) → In sv rows → P sv)
    → P new
    → (sv : SectionVersion) → In sv (rows ++ (new ∷ []))
    → P sv
added P rows new h p sv m = elim (In-append rows (new ∷ []) sv m) [
  | inl old ↦ h sv old
  | inr (inl e) ↦ subst P (sym e) p
  | inr (inr absent) ↦ absurd absent
]

pub add-IsStore :
    (st : CorpusStore) (new : SectionVersion)
    → IsStore st
    → new.id ≡ st.next_version
    → precedes new.effective_from new.effective_to ≡ true
    → any (overlaps new) st.versions ≡ false
    → IsStore (with_versions st (st.versions ++ (new ∷ [])))
add-IsStore st new ok e forward free = record {
  numbered =
      added (λ sv. sv.id < suc st.next_version) st.versions new
        (λ sv m. omega (arith, ok.numbered sv m)) (omega (arith, e));
  identified =
      Apart-append (λ a b. a.id == b.id) st.versions new
        (λ x y. ground (arith, ==_iff x.id y.id, ==_iff y.id x.id)) ok.identified
        (none_same_id new.id st.versions (λ sv m. omega (arith, e, ok.numbered sv m)));
  apart = Apart-append overlaps st.versions new overlaps_comm ok.apart free;
  forward =
      added (λ sv. precedes sv.effective_from sv.effective_to ≡ true) st.versions new ok.forward
        forward;
  placed = ok.placed;
}

pub again-IsStore : (st : CorpusStore) → IsStore st → IsStore (with_versions st st.versions)
again-IsStore st ok = record {
  numbered = λ sv m. omega (arith, ok.numbered sv m);
  identified = ok.identified;
  apart = ok.apart;
  forward = ok.forward;
  placed = ok.placed;
}
