-- ===== src/Index/Varint.antt =====
-- index/varint.py: LEB128 integers. A byte is a number below 256.
pub mod RoundTrip
use cite_delta_rag.Prelude.{
  ℕ, zero, suc, ◌+◌, ◌*◌, ◌/◌, ◌%◌, ◌^◌, Bool, Option, none, some, List, [], ◌∷◌, ◌++◌, ltb, drop,
  if◌then◌else◌,
}
use cite_delta_rag.Prelude.Int.{ℤ, pos, negsuc}

-- The loop of `write_varint`: `& 0x7F` keeps seven bits and `| 0x80` adds the eighth. The fuel is the
-- value, which a shift by seven makes less as long as the loop goes on.
unfoldable pub write_loop : ℕ → ℕ → List ℕ
write_loop zero value = value % 128 ∷ []
write_loop (suc fuel) value =
    let rest = write_loop fuel (value / 128) in
    if ltb 0 (value / 128) then (value % 128 + 128) ∷ rest else value % 128 ∷ []

-- `none` is the `ValueError` of a negative number; otherwise the buffer with what was appended.
unfoldable pub write_varint : ℤ → List ℕ → Option (List ℕ)
unfolding write_loop
write_varint (pos n) out = some (out ++ write_loop n n)
write_varint (negsuc n) out = none

-- The loop of `read_varint`, on the bytes from `next` on; `|=` adds, since `result` has no bit from
-- `shift` on. `none` is the `IndexError` at the buffer's end.
unfoldable pub read_loop : List ℕ → ℕ → ℕ → ℕ → Option (ℕ × ℕ)
read_loop [] result shift next = none
read_loop (byte ∷ bytes) result shift next =
    let sum = result + byte % 128 * 2 ^ shift in
    let more = read_loop bytes sum (shift + 7) (next + 1) in
    if ltb (byte % 256) 128 then some (sum, next + 1) else more

unfoldable pub read_varint : List ℕ → ℕ → Option (ℕ × ℕ)
unfolding read_loop
read_varint buf start = read_loop (drop start buf) 0 0 start
