-- ===== src/Index/Varint/RoundTrip.antt =====
-- Writing a varint, then reading it, wherever it stands in a buffer.
use mathlib.Core.List.{append_assoc}
use cite_delta_rag.Prelude.{
  ℕ, zero, suc, ◌+◌, ◌*◌, ◌/◌, ◌%◌, ◌^◌, ◌≤◌, ◌≡◌, refl, sym, ap, ◌∙◌, inl, inr, true, false,
  Option, some, List, ◌∷◌, ◌++◌, arith, ltb, length, length-append, drop-append, Bool-cases,
}
use cite_delta_rag.Prelude.Int.{pos}
use cite_delta_rag.Index.Varint.{write_loop, write_varint, read_loop, read_varint}

parts : (v : ℕ) → v % 128 + 128 * (v / 128) ≡ v
parts v = omega arith

doubled : (s : ℕ) → 2 ^ suc s ≡ 2 * 2 ^ s
doubled s = omega arith

seven_more : (s : ℕ) → 2 ^ suc (suc (suc (suc (suc (suc (suc s)))))) ≡ 128 * 2 ^ s
seven_more s = omega arith

low_of_byte : (v : ℕ) → (v % 128 + 128) % 128 ≡ v % 128
low_of_byte v = omega arith

high_of_byte : (v : ℕ) → ltb ((v % 128 + 128) % 256) 128 ≡ false
high_of_byte v = ground arith

low_of_last : (v : ℕ) → v % 128 % 128 ≡ v % 128
low_of_last v = omega arith

high_of_last : (v : ℕ) → ltb (v % 128 % 256) 128 ≡ true
high_of_last v = ground arith

-- A byte that others follow, and the last byte.
read_loop-inner :
    (v : ℕ) (bytes : List ℕ) (result shift next : ℕ)
    → read_loop ((v % 128 + 128) ∷ bytes) result shift next
      ≡ read_loop bytes (result + v % 128 * 2 ^ shift) (shift + 7) (next + 1)
unfolding read_loop
read_loop-inner v bytes result shift next = rw (high_of_byte v, low_of_byte v)

read_loop-last :
    (v : ℕ) (bytes : List ℕ) (result shift next : ℕ)
    → read_loop (v % 128 ∷ bytes) result shift next ≡ some (result + v % 128 * 2 ^ shift, next + 1)
unfolding read_loop
read_loop-last v bytes result shift next = rw (high_of_last v, low_of_last v)

abbrev got : ℕ → ℕ → Option (ℕ × ℕ)
got value next = some (value, next)

same_result : (a b c d : ℕ) → a ≡ b → c ≡ d → got a c ≡ got b d
same_result a b c d e f = rw (e, f)

-- The weights of a value's low seven bits and of the rest of it.
weigh : (v s : ℕ) → v % 128 * 2 ^ s + v / 128 * 2 ^ (s + 7) ≡ v * 2 ^ s
weigh v s =
    let swap : 2 ^ (s + 7) ≡ 128 * 2 ^ s = ap (λ (n : ℕ). 2 ^ n) (omega arith) ∙ seven_more s in
    omega (arith, ap (λ (t : ℕ). t * 2 ^ s) (parts v), ap (λ (t : ℕ). v / 128 * t) swap)

loop_round_trip :
    (fuel v : ℕ) (post : List ℕ) (result shift next : ℕ)
    → v ≤ fuel
    → read_loop (write_loop fuel v ++ post) result shift next
      ≡ some (result + v * 2 ^ shift, next + length (write_loop fuel v))
unfolding write_loop read_loop
loop_round_trip zero v post result shift next h =
    let kept : v % 128 ≡ v = omega (arith, h) in
    read_loop-last v post result shift next
    ∙ same_result _ (result + v * 2 ^ shift) (next + 1) (next + 1)
        (ap (λ (t : ℕ). result + t * 2 ^ shift) kept) refl
loop_round_trip (suc fuel) v post result shift next h = elim (Bool-cases (ltb 0 (v / 128))) [
  | inl e ↦
      let rest =
        loop_round_trip fuel (v / 128) post (result + v % 128 * 2 ^ shift) (shift + 7) (next + 1)
          (ground (arith, e, h)) in
      rw e (
        read_loop-inner v (write_loop fuel (v / 128) ++ post) result shift next
        ∙ rest
        ∙ same_result _ (result + v * 2 ^ shift) _ (next + suc (length (write_loop fuel (v / 128))))
            (omega (arith, weigh v shift)) (omega arith))
  | inr e ↦
      let small : v / 128 ≡ 0 = ground (arith, e) in
      let kept : v % 128 ≡ v = omega (arith, small) in
      rw e (
        read_loop-last v post result shift next
        ∙ same_result _ (result + v * 2 ^ shift) (next + 1) (next + 1)
            (ap (λ (t : ℕ). result + t * 2 ^ shift) kept) refl)
]

pub read-written :
    (n : ℕ) (out post : List ℕ)
    → read_varint ((out ++ write_loop n n) ++ post) (length out)
      ≡ some (n, length (out ++ write_loop n n))
unfolding read_varint
read-written n out post =
    rw (append_assoc out (write_loop n n) post, drop-append out (write_loop n n ++ post))
      (loop_round_trip n n post 0 0 (length out) (omega arith)
        ∙ same_result _ n _ _ (omega arith) (sym (length-append out (write_loop n n))))

-- A number that was appended to a buffer is read back from where it begins, whatever follows it, and
-- reading ends where writing did.
pub varint_round_trip :
    (n : ℕ) (out post : List ℕ)
    → (written : List ℕ) × (write_varint (pos n) out ≡ some written)
      × (read_varint (written ++ post) (length out) ≡ some (n, length written))
unfolding write_varint
varint_round_trip n out post = (out ++ write_loop n n, refl, read-written n out post)
