-- ===== src/Prelude/Decimal.antt =====
-- `strconv.Itoa`, and what `strconv.Atoi` reads of its result.
use Prim.Native.Nat.{ℕ, zero, suc, ◌+◌, ◌*◌, ◌-◌, ◌/◌, ◌%◌, ◌^◌, ◌<◌}
use Prim.Native.Char.{Char, code}
use Prim.Native.String.{String, [], ◌∷◌}
use mathlib.Core.Path.{◌≡◌, refl, ap, ◌∙◌, sym}
use mathlib.Core.Logic.{inl, inr}
use mathlib.Core.Bool.{true, false}
use mathlib.Core.Option.{some}
use native.Mathlib.Omega.{arith}
use dim.Prelude.Tests.{leb, ltb, nat_eq, Bool-cases}
use dim.Prelude.Int.{ℤ, pos, negsuc, atoi, digits_from, positive, unsigned}

abbrev pub digit : ℕ → Char
digit zero = "0"
digit (suc zero) = "1"
digit (suc (suc zero)) = "2"
digit (suc (suc (suc zero))) = "3"
digit (suc (suc (suc (suc zero)))) = "4"
digit (suc (suc (suc (suc (suc zero))))) = "5"
digit (suc (suc (suc (suc (suc (suc zero)))))) = "6"
digit (suc (suc (suc (suc (suc (suc (suc zero))))))) = "7"
digit (suc (suc (suc (suc (suc (suc (suc (suc zero)))))))) = "8"
digit (suc (suc (suc (suc (suc (suc (suc (suc (suc n))))))))) = "9"

code-digit : (d : ℕ) → d < 10 → code (digit d) ≡ 48 + d
code-digit zero h = refl
code-digit (suc zero) h = refl
code-digit (suc (suc zero)) h = refl
code-digit (suc (suc (suc zero))) h = refl
code-digit (suc (suc (suc (suc zero)))) h = refl
code-digit (suc (suc (suc (suc (suc zero))))) h = refl
code-digit (suc (suc (suc (suc (suc (suc zero)))))) h = refl
code-digit (suc (suc (suc (suc (suc (suc (suc zero))))))) h = refl
code-digit (suc (suc (suc (suc (suc (suc (suc (suc zero)))))))) h = refl
code-digit (suc (suc (suc (suc (suc (suc (suc (suc (suc zero))))))))) h = refl
code-digit (suc (suc (suc (suc (suc (suc (suc (suc (suc (suc n)))))))))) h =
    absurd (omega (arith, h))

-- The decimal digits of a number before a text. Each round takes one digit, so that as many rounds as
-- the number says are enough.
unfoldable pub decimal : ℕ → ℕ → String → String
decimal zero n rest = rest
decimal (suc fuel) n rest = elim (nat_eq (n / 10) 0) [
  | true ↦ digit (n % 10) ∷ rest
  | false ↦ decimal fuel (n / 10) (digit (n % 10) ∷ rest)
]

unfoldable pub itoa : ℤ → String
itoa (pos n) = decimal (suc n) n []
itoa (negsuc n) = "-" ∷ decimal (suc (suc n)) (suc n) []

digits_from-digit :
    (m d : ℕ) (rest : String)
    → d < 10
    → digits_from m (digit d ∷ rest) ≡ digits_from (m * 10 + d) rest
digits_from-digit m d rest h =
    let c = code-digit d h in
    let low : leb 48 (code (digit d)) ≡ true = ground (arith, c) in
    let high : leb (code (digit d)) 57 ≡ true = ground (arith, c) in
    let same : m * 10 + (code (digit d) - 48) ≡ m * 10 + d = omega (arith, c) in
    rw (low, high, same)

digits_from-decimal :
    (fuel n : ℕ) (rest : String)
    → n < fuel
    → digits_from 0 (decimal fuel n rest) ≡ digits_from n rest
unfolding decimal
digits_from-decimal zero n rest h = absurd (omega (arith, h))
digits_from-decimal (suc fuel) n rest h = elim (Bool-cases (nat_eq (n / 10) 0)) [
  | inl small ↦
      rw (small, decimal)
        (digits_from-digit 0 (n % 10) rest (omega arith)
          ∙ ap (λ m. digits_from m rest) (ground (arith, small)))
  | inr large ↦
      rw (large, decimal)
        (digits_from-decimal fuel (n / 10) (digit (n % 10) ∷ rest) (ground (arith, large))
          ∙ digits_from-digit (n / 10) (n % 10) rest (omega arith)
          ∙ ap (λ m. digits_from m rest) (omega arith))
]

-- The text of a number starts with a digit.
decimal_starts :
    (fuel n : ℕ) (rest : String)
    → n < fuel
    → (d : ℕ) × (t : String) × (d < 10) × (decimal fuel n rest ≡ digit d ∷ t)
unfolding decimal
decimal_starts zero n rest h = absurd (omega (arith, h))
decimal_starts (suc fuel) n rest h = elim (Bool-cases (nat_eq (n / 10) 0)) [
  | inl small ↦ (n % 10, rest, omega arith, rw (small, decimal))
  | inr large ↦
      rw (large, decimal)
        (decimal_starts fuel (n / 10) (digit (n % 10) ∷ rest) (ground (arith, large)))
]

atoi-digit :
    (d : ℕ) (t : String) → d < 10 → atoi (digit d ∷ t) ≡ positive (digits_from 0 (digit d ∷ t))
unfolding atoi
atoi-digit d t h =
    let c = code-digit d h in
    let minus : nat_eq (code (digit d)) b'-' ≡ false = ground (arith, c) in
    let plus : nat_eq (code (digit d)) b'+' ≡ false = ground (arith, c) in rw (minus, plus)

-- The values of a 64-bit `int`.
abbrev pub IsInt64 : ℤ → Type 0
IsInt64 (pos n) = n < 2 ^ 63
IsInt64 (negsuc n) = n < 2 ^ 63

atoi-minus :
    (s : String) (n : ℕ)
    → digits_from 0 s ≡ some (suc n)
    → n < 2 ^ 63
    → (d : ℕ) × (t : String) × (d < 10) × (s ≡ digit d ∷ t)
    → atoi ("-" ∷ s) ≡ negsuc n
unfolding atoi
atoi-minus s n read small (d, t, h, e) =
    let whole : unsigned s ≡ some (suc n) = rw e (sym (ap (digits_from 0) e) ∙ read) in
    let fits : leb (suc n) (2 ^ 63) ≡ true = ground (arith, small) in rw (whole, fits)

-- What `Itoa` prints for an `int`, `Atoi` reads back.
pub atoi-itoa : (n : ℤ) → IsInt64 n → atoi (itoa n) ≡ n
unfolding itoa
atoi-itoa (pos n) h =
    let (d, t, small, e) = decimal_starts (suc n) n [] (omega arith) in
    let fits : ltb n (2 ^ 63) ≡ true = ground (arith, h) in
    ap atoi e
    ∙ atoi-digit d t small
    ∙ ap positive (sym (ap (digits_from 0) e) ∙ digits_from-decimal (suc n) n [] (omega arith))
    ∙ rw fits
atoi-itoa (negsuc n) h =
    atoi-minus (decimal (suc (suc n)) (suc n) []) n
      (digits_from-decimal (suc (suc n)) (suc n) [] (omega arith)) h
      (decimal_starts (suc (suc n)) (suc n) [] (omega arith))
