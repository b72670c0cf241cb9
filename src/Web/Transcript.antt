-- ===== src/Web/Transcript.antt =====
-- web/transcript.py: the turns of a thread, with a rupture where the date changes. A date is its
-- ordinal.
pub mod Ruptures
mod Examples
use cite_delta_rag.Prelude.{
  ℕ, suc, ◌+◌, String, Bool, true, false, not, Option, none, some, List, [], ◌∷◌, ◌++◌, ltb, leb,
  ◌==◌, nat_eq, if◌then◌else◌,
}
use cite_delta_rag.Prelude.Int.{ℤ, pos, sub_ℕ, int_eq}
use cite_delta_rag.Text.{Text, codes}
use cite_delta_rag.Text.Decimal.{show}
use cite_delta_rag.Answer.Models.{AnswerResult}

pub record TurnView : Type 0 where
  pub question : Text
  pub as_of : ℕ
  pub result : AnswerResult
  pub resolved_query : Option Text
  pub continuation : Bool

pub record Rupture : Type 0 where
  pub as_of : ℕ
  pub amendments_between : ℤ
  pub earlier : Bool

unfoldable pub glyph : Rupture → Text
glyph r = if r.earlier then codes "⤺" else codes "⤻"

unfoldable pub count_label : Rupture → Text
unfolding show
count_label r =
    if r.amendments_between == pos 0
    then codes "· no amendments in between"
    else codes "· "
      ++ (show r.amendments_between
          ++ (codes " "
              ++ ((if r.amendments_between == pos 1 then codes "amendment" else codes "amendments")
                  ++ (codes " " ++ (if r.earlier then codes "earlier" else codes "later")))))

-- The library's bisections of a sorted list: the number of elements below, and up to, `x`.
unfoldable pub bisect_left : List ℕ → ℕ → ℕ
bisect_left [] x = 0
bisect_left (d ∷ ds) x = let rest = bisect_left ds x in if ltb d x then suc rest else 0

unfoldable pub bisect_right : List ℕ → ℕ → ℕ
bisect_right [] x = 0
bisect_right (d ∷ ds) x = let rest = bisect_right ds x in if leb d x then suc rest else 0

unfoldable pub amendments_between : ℕ → ℕ → List ℕ → ℤ
unfolding bisect_left bisect_right
amendments_between a b amendment_dates =
    let lo = if leb a b then a else b in
    let hi = if leb a b then b else a in
    sub_ℕ (bisect_left amendment_dates hi) (bisect_right amendment_dates lo)

pub data Entry : Type 0 where
  turn : TurnView → Entry
  ruptured : Rupture → Entry

abbrev pub rupture_to : ℕ → ℕ → List ℕ → Rupture
rupture_to previous as_of amendment_dates = record {
  as_of = as_of;
  amendments_between = amendments_between previous as_of amendment_dates;
  earlier = ltb as_of previous;
}

-- What the loop appends before a turn.
mark : Option ℕ → ℕ → List ℕ → List Entry
mark none as_of dates = []
mark (some previous) as_of dates =
    if as_of == previous then [] else ruptured (rupture_to previous as_of dates) ∷ []

unfoldable pub transcript_loop : List ℕ → Option ℕ → List TurnView → List Entry
unfolding mark
transcript_loop dates previous [] = []
transcript_loop dates previous (t ∷ ts) =
    mark previous t.as_of dates ++ (turn t ∷ transcript_loop dates (some t.as_of) ts)

unfoldable pub build_transcript : List TurnView → List ℕ → List Entry
unfolding transcript_loop
build_transcript turns amendment_dates = transcript_loop amendment_dates none turns
