-- ===== src/Index/Postings/RoundTrip.antt =====
-- Writing a term's postings, then reading them.
use mathlib.Core.List.{append_assoc}
use cite_delta_rag.Prelude.{
  ℕ, ◌+◌, ◌-◌, ◌≤◌, ◌≡◌, refl, sym, ap, ◌∙◌, some, List, [], ◌∷◌, ◌++◌, arith, length,
  length-append, drop-append, take-append,
}
use cite_delta_rag.Prelude.Int.{sub_ℕ-pos}
use cite_delta_rag.Index.Varint.{write_varint, write_loop, read_varint}
use cite_delta_rag.Index.Varint.RoundTrip.{read-written}
use cite_delta_rag.Index.Postings.{write_postings, read_postings, postings}

-- The ids do not decrease from `prev` on.
abbrev pub AscendsFrom : ℕ → List (ℕ × ℕ) → Type 0
AscendsFrom prev [] = Unit {0}
AscendsFrom prev ((i, tf) ∷ plist) = (prev ≤ i) × AscendsFrom i plist

-- The bytes of a postings list.
gap_bytes : ℕ → List (ℕ × ℕ) → List ℕ
gap_bytes prev [] = []
gap_bytes prev ((i, tf) ∷ plist) =
    write_loop (i - prev) (i - prev) ++ (write_loop tf tf ++ gap_bytes i plist)

append-nil : (xs : List ℕ) → xs ++ [] ≡ xs
append-nil [] = refl
append-nil (x ∷ xs) = ap (◌∷◌ x) (append-nil xs)

write_postings-bytes :
    (plist : List (ℕ × ℕ)) (prev : ℕ) (blob : List ℕ)
    → AscendsFrom prev plist
    → write_postings plist prev blob ≡ some (blob ++ gap_bytes prev plist)
unfolding write_postings gap_bytes write_varint
write_postings-bytes [] prev blob a = ap some (sym (append-nil blob))
write_postings-bytes ((i, tf) ∷ plist) prev blob a = rw (sub_ℕ-pos i prev a.0) (
    write_postings-bytes plist i ((blob ++ write_loop (i - prev) (i - prev)) ++ write_loop tf tf)
      a.1
    ∙ ap some (
        append_assoc (blob ++ write_loop (i - prev) (i - prev)) (write_loop tf tf)
          (gap_bytes i plist)
        ∙ append_assoc blob (write_loop (i - prev) (i - prev))
            (write_loop tf tf ++ gap_bytes i plist)))

read_postings-bytes :
    (plist : List (ℕ × ℕ)) (prev : ℕ) (before : List ℕ)
    → AscendsFrom prev plist
    → read_postings (length plist) (before ++ gap_bytes prev plist) (length before) prev
      ≡ some plist
unfolding read_postings gap_bytes
read_postings-bytes [] prev before a = refl
read_postings-bytes ((i, tf) ∷ plist) prev before a =
    let gap = write_loop (i - prev) (i - prev) in
    let count = write_loop tf tf in
    let view : before ++ (gap ++ (count ++ gap_bytes i plist))
        ≡ ((before ++ gap) ++ count) ++ gap_bytes i plist =
      sym (append_assoc before gap (count ++ gap_bytes i plist))
      ∙ sym (append_assoc (before ++ gap) count (gap_bytes i plist)) in
    let first : read_varint (((before ++ gap) ++ count) ++ gap_bytes i plist) (length before)
        ≡ some (i - prev, length (before ++ gap)) =
      ap (λ v. read_varint v (length before))
        (append_assoc (before ++ gap) count (gap_bytes i plist))
      ∙ read-written (i - prev) before (count ++ gap_bytes i plist) in
    let second = read-written tf (before ++ gap) (gap_bytes i plist) in
    let there : prev + (i - prev) ≡ i = omega (arith, a.0) in
    rw (view, first, second, there, read_postings-bytes plist i ((before ++ gap) ++ count) a.1)

-- A postings list whose ids do not decrease, appended to a blob, is read back from the offset and the
-- length that the dictionary keeps, whatever the blob holds before and after it.
pub postings_round_trip :
    (plist : List (ℕ × ℕ)) (before after : List ℕ)
    → AscendsFrom 0 plist
    → (written : List ℕ) × (write_postings plist 0 before ≡ some written)
      × (postings (written ++ after) (length plist) (length before) (length written - length before)
          ≡ some plist)
unfolding postings
postings_round_trip plist before after a =
    let body = gap_bytes 0 plist in
    let size : length (before ++ body) - length before ≡ length body =
      omega (arith, length-append before body) in
    (
      before ++ body,
      write_postings-bytes plist 0 before a,
      rw
          (
            size,
            append_assoc before body after,
            drop-append before (body ++ after),
            take-append body after,
          )
          (read_postings-bytes plist 0 [] a),
    )
