-- ===== src/Index/Postings.antt =====
-- index/lexical.py: a postings list, written as gaps and read back. A position is a number of bytes.
pub mod RoundTrip
mod Examples
use cite_delta_rag.Prelude.{◌>>=◌, ℕ, zero, suc, ◌+◌, Option, none, some, List, [], ◌∷◌, take, drop}
use cite_delta_rag.Prelude.Int.{ℤ, pos, sub_ℕ}
use cite_delta_rag.Index.Varint.{write_varint, read_varint}

-- The inner loop of `build_index`; `none` is the `ValueError` of a negative gap.
unfoldable pub write_postings : List (ℕ × ℕ) → ℕ → List ℕ → Option (List ℕ)
unfolding write_varint
write_postings [] prev blob = some blob
write_postings ((internal_id, tf) ∷ plist) prev blob = do
  with_gap ← write_varint (sub_ℕ internal_id prev) blob
  with_tf ← write_varint (pos tf) with_gap
  write_postings plist internal_id with_tf

-- The loop of `LexicalIndex.postings`, `df` times; `none` is the `IndexError` at the view's end.
unfoldable pub read_postings : ℕ → List ℕ → ℕ → ℕ → Option (List (ℕ × ℕ))
unfolding read_varint
read_postings zero view start doc = some []
read_postings (suc df) view start doc = do
  gap ← read_varint view start
  tf ← read_varint view gap.1
  rest ← read_postings df view tf.1 (doc + gap.0)
  some ((doc + gap.0, tf.0) ∷ rest)

-- `postings` of a term with the entry `(df, off, plen)`, on the postings part of the file.
unfoldable pub postings : List ℕ → ℕ → ℕ → ℕ → Option (List (ℕ × ℕ))
unfolding read_postings
postings blob df off plen = read_postings df (take plen (drop off blob)) 0 0
