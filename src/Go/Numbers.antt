-- ===== src/Go/Numbers.antt =====
-- `strconv.Atoi` for a 64-bit `int`.
use Prim.Native.Char.{code}
use Prim.Native.String.{[], ◌∷◌}
use servone.Prelude.{
  ℕ, ◌+◌, ◌-◌, ◌*◌, String, ◌&&◌, Option, none, some, leb, ltb, ◌==◌, if◌then◌else◌,
}
use servone.Prelude.Int.{ℤ, pos, negsuc}

digits_from : ℕ → String → Option ℕ
digits_from n [] = some n
digits_from n (c ∷ s) =
    let rest = digits_from (n * 10 + (code c - b'0')) s in
    if leb b'0' (code c) && leb (code c) b'9' then rest else none

unsigned : String → Option ℕ
unsigned [] = none
unsigned (c ∷ s) = digits_from 0 (c ∷ s)

non_negative : Option ℕ → Option ℤ
non_negative none = none
non_negative (some n) = if ltb n 9223372036854775808 then some (pos n) else none

negative_of : ℕ → ℤ
negative_of n = if n == 0 then pos 0 else negsuc (n - 1)

negative : Option ℕ → Option ℤ
negative none = none
negative (some n) = if leb n 9223372036854775808 then some (negative_of n) else none

-- An optional sign, one decimal digit at least, nothing else, and the range of int64.
unfoldable pub atoi : String → Option ℤ
unfolding digits_from unsigned non_negative negative negative_of
atoi [] = none
atoi (c ∷ s) =
    if code c == b'-'
    then negative (unsigned s)
    else (if code c == b'+' then non_negative (unsigned s) else non_negative (unsigned (c ∷ s)))
