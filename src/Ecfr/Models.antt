-- ===== src/Ecfr/Models.antt =====
-- ecfr/models.py. A date is its ordinal.
use cite_delta_rag.Prelude.{
  ℕ, String, Bool, true, false, Option, none, some, List, ltb, if◌then◌else◌,
}
use cite_delta_rag.Text.{Text}

pub record VersionRecord : Type 0 where
  pub section : String
  pub effective_from : ℕ
  pub issue_date : ℕ
  pub name : String
  pub removed : Bool
  pub substantive : Bool

pub record SectionInterval : Type 0 where
  pub section : String
  pub effective_from : ℕ
  pub effective_to : Option ℕ
  pub issue_date : ℕ
  pub removed : Bool

before_end : Option ℕ → ℕ → Bool
before_end none day = true
before_end (some end) day = ltb day end

-- Half-open, and with no end still in force.
unfoldable pub contains : SectionInterval → ℕ → Bool
unfolding before_end
contains iv day = if ltb day iv.effective_from then false else before_end iv.effective_to day

pub record ParsedChunk : Type 0 where
  pub ordinal : ℕ
  pub citation_path : Text
  pub text : Text

pub record ParsedSection : Type 0 where
  pub section : String
  pub heading : Text
  pub chunks : List ParsedChunk
