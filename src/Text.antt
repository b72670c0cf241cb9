-- ===== src/Text.antt =====
-- Python's `str` as a list of code points, with the operations that the answer path calls.
pub mod Decimal
use Prim.Native.Char.{code}
use cite_delta_rag.Prelude.{
  ℕ, zero, suc, ◌+◌, ◌-◌, length, String, Bool, true, false, ◌&&◌, ◌||◌, not, List, [], ◌∷◌, ◌++◌,
  leb, nat_beq, ◌==◌, if◌then◌else◌, any, nat_eq,
}

abbrev pub Text : Type 0
Text = List ℕ

-- A literal of the source.
abbrev pub codes : String → Text
codes String.[] = []
codes (String.◌∷◌ c s) = code c ∷ codes s

-- `c.isspace()`, the code points that `split()` and `strip()` cut at.
unfoldable pub is_space : ℕ → Bool
is_space c =
    (leb 9 c && leb c 13)
    || (leb 28 c && leb c 32)
    || (leb 8192 c && leb c 8202)
    || any (nat_beq c) (133 ∷ 160 ∷ 5760 ∷ 8232 ∷ 8233 ∷ 8239 ∷ 8287 ∷ 12288 ∷ [])

-- A word that ends here, if there is one.
unfoldable pub flush : Text → List Text
flush [] = []
flush (c ∷ cs) = (c ∷ cs) ∷ []

unfoldable pub split_from : Text → Text → List Text
split_from word [] = flush word
split_from word (c ∷ cs) =
    (if is_space c then flush word else [])
    ++ split_from (if is_space c then [] else word ++ (c ∷ [])) cs

-- `t.split()`
unfoldable pub split : Text → List Text
unfolding split_from flush is_space
split t = split_from [] t

-- `sep.join(parts)`
unfoldable pub join : Text → List Text → Text
join sep [] = []
join sep (w ∷ []) = w
join sep (w ∷ v ∷ ws) = w ++ (sep ++ join sep (v ∷ ws))

-- `t.startswith(p)`
unfoldable pub starts_with : Text → Text → Bool
starts_with t [] = true
starts_with [] (p ∷ ps) = false
starts_with (c ∷ cs) (p ∷ ps) = c == p && starts_with cs ps

-- `p in t`
unfoldable pub contains : Text → Text → Bool
unfolding starts_with
contains [] p = starts_with [] p
contains (c ∷ cs) p = starts_with (c ∷ cs) p || contains cs p

-- `t.lstrip()`
unfoldable pub lstrip : Text → Text
unfolding is_space
lstrip [] = []
lstrip (c ∷ cs) = let rest = lstrip cs in if is_space c then rest else c ∷ cs

-- `t.rstrip()`: a code point stays if one behind it does, or if it is no space.
keep_last : ℕ → Text → Text
unfolding is_space
keep_last c [] = if is_space c then [] else c ∷ []
keep_last c (d ∷ ds) = c ∷ d ∷ ds

unfoldable pub rstrip : Text → Text
unfolding keep_last
rstrip [] = []
rstrip (c ∷ cs) = keep_last c (rstrip cs)

unfoldable pub strip : Text → Text
unfolding lstrip rstrip
strip t = rstrip (lstrip t)

-- `bool(t)`
abbrev pub truthy : Text → Bool
truthy [] = false
truthy (c ∷ cs) = true

-- `t == u`
unfoldable pub same_text : Text → Text → Bool
same_text [] [] = true
same_text [] (d ∷ ds) = false
same_text (c ∷ cs) [] = false
same_text (c ∷ cs) (d ∷ ds) = c == d && same_text cs ds

-- `t.replace(p, "")` for a `p` that is not empty; `skip` code points belong to a match that began.
unfoldable pub remove_from : Text → ℕ → Text → Text
unfolding starts_with
remove_from p (suc skip) [] = []
remove_from p (suc skip) (c ∷ cs) = remove_from p skip cs
remove_from p zero [] = []
remove_from p zero (c ∷ cs) =
    let rest = remove_from p (length p - 1) cs in
    let kept = remove_from p zero cs in if starts_with (c ∷ cs) p then rest else c ∷ kept
