-- ===== src/Prelude/Int.antt =====
-- Go's signed `int` and `int64` values, over the native numbers, and `strconv.Atoi`.
use Prim.Native.Nat.{ℕ, zero, suc, ◌+◌, ◌*◌, ◌-◌, ◌^◌}
use Prim.Native.Char.{code}
use Prim.Native.String.{String, [], ◌∷◌}
use mathlib.Core.Bool.{Bool, true, false, ◌&&◌}
use mathlib.Core.Option.{Option, none, some}
use dim.Prelude.Tests.{leb, ltb, nat_eq, if◌then◌else◌}

-- `negsuc n` is -(n + 1).
pub data ℤ : Type 0 where
  pos : ℕ → ℤ
  negsuc : ℕ → ℤ

abbrev pub is_zero : ℤ → Bool
is_zero (pos zero) = true
is_zero _ = false

-- -n
abbrev pub negate : ℕ → ℤ
negate zero = pos 0
negate (suc n) = negsuc n

-- The decimal number that a text spells, on top of the digits read before.
abbrev pub digits_from : ℕ → String → Option ℕ
digits_from n [] = some n
digits_from n (c ∷ s) =
    let rest = digits_from (n * 10 + (code c - 48)) s in
    if leb 48 (code c) && leb (code c) 57 then rest else none

abbrev pub unsigned : String → Option ℕ
unsigned [] = none
unsigned (c ∷ s) = digits_from 0 (c ∷ s)

-- A value out of the range of a 64-bit `int` is replaced by the nearest bound.
abbrev pub positive : Option ℕ → ℤ
positive none = pos 0
positive (some n) = if ltb n (2 ^ 63) then pos n else pos (2 ^ 63 - 1)

abbrev pub negative : Option ℕ → ℤ
negative none = pos 0
negative (some n) = if leb n (2 ^ 63) then negate n else negate (2 ^ 63)

-- The value that `strconv.Atoi` returns beside its error: 0 where the text spells no number.
unfoldable pub atoi : String → ℤ
atoi [] = pos 0
atoi (c ∷ s) =
    if nat_eq (code c) b'-'
    then negative (unsigned s)
    else if nat_eq (code c) b'+'
    then positive (unsigned s)
    else positive (unsigned (c ∷ s))
