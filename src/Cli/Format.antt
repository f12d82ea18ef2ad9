-- ===== src/Cli/Format.antt =====
-- `format` of cli/tabprinter.go: a cell, cut or padded to a width.
use dim.Prelude.{
  ℕ, zero, suc, ◌+◌, ◌-◌, ◌≤◌, ◌≡◌, refl, ap, ◌∙◌, List, [], ◌∷◌, ◌++◌, arith, ltb, leb, nat_eq,
  if◌then◌else◌, length, set, length-set, take, replicate, length-append, length-take_of_le,
  length-replicate,
}
use dim.Prelude.Errors.{Result, ok, panic}
use mathlib.Core.List.{append-nil}
use dim.Prelude.Int.{ℤ, pos, negsuc}

abbrev pub Bytes : Type 0
Bytes = List ℕ

abbrev pub space : ℕ
space = b' '

abbrev pub dot : ℕ
dot = b'.'

-- The three writes at the end of the slice `s[0:length]`.
abbrev dots_at_end : ℕ → Bytes → Bytes
dots_at_end n b = set (set (set b (n - 3) dot) (n - 2) dot) (n - 1) dot

-- A negative length, or one below 3 for a longer text, is an index out of range.
unfoldable pub format : Bytes → ℤ → Result Bytes
format s (negsuc n) = panic
format s (pos n) =
    if nat_eq (length s) n
    then ok s
    else if ltb (length s) n
    then ok (s ++ replicate (n - length s) space)
    else if ltb n 3
    then panic
    else ok (dots_at_end n (take n s))

length-dots_at_end : (n : ℕ) (b : Bytes) → length (dots_at_end n b) ≡ length b
length-dots_at_end n b =
    length-set (set (set b (n - 3) dot) (n - 2) dot) (n - 1) dot
    ∙ length-set (set b (n - 3) dot) (n - 2) dot
    ∙ length-set b (n - 3) dot

-- A formatted cell is exactly as wide as asked.
pub length-format : (s : Bytes) (n : ℕ) (t : Bytes) → format s (pos n) ≡ ok t → length t ≡ n
unfolding format
length-format s n t h = ground (
  arith,
  length-append s (replicate (n - length s) space),
  length-replicate (n - length s) space,
  length-dots_at_end n (take n s),
  length-take_of_le n s,
)

-- The writes at the end of a slice that is three longer than `m`.
dots_after :
    (m : ℕ) (s : Bytes)
    → m + 3 ≤ length s
    → set (set (set (take (suc (suc (suc m))) s) m dot) (suc m) dot) (suc (suc m)) dot
      ≡ take m s ++ dot ∷ dot ∷ dot ∷ []
dots_after zero (a ∷ b ∷ c ∷ s) h = refl
dots_after zero (a ∷ b ∷ []) h = absurd (omega arith)
dots_after zero (a ∷ []) h = absurd (omega arith)
dots_after m [] h = absurd (omega arith)
dots_after (suc m) (a ∷ s) h = ap (λ r. a ∷ r) (dots_after m s (omega arith))

dots_at_end_lem :
    (n : ℕ) (s : Bytes)
    → 3 ≤ n
    → n ≤ length s
    → dots_at_end n (take n s) ≡ take (n - 3) s ++ dot ∷ dot ∷ dot ∷ []
dots_at_end_lem (suc (suc (suc m))) s h k =
    let e₀ : suc (suc (suc m)) - 3 ≡ m = omega arith in
    let e₁ : suc (suc (suc m)) - 2 ≡ suc m = omega arith in
    let e₂ : suc (suc (suc m)) - 1 ≡ suc (suc m) = omega arith in
    rw (e₀, e₁, e₂) (dots_after m s (omega arith))
dots_at_end_lem zero s h k = absurd (omega arith)
dots_at_end_lem (suc zero) s h k = absurd (omega arith)
dots_at_end_lem (suc (suc zero)) s h k = absurd (omega arith)

no_padding : (s : Bytes) (n : ℕ) → length s ≡ n → s ++ replicate (n - length s) space ≡ s
no_padding s n h = let e : n - length s ≡ 0 = omega arith in rw e (append-nil s)

-- A text that fits is padded with spaces on the right; a longer one is cut three short of the width
-- and closed by three dots; where there is no room for the dots the code panics.
pub format_lem :
    (s : Bytes) (n : ℕ)
    → format s (pos n) ≡ (
        if leb (length s) n
        then ok (s ++ replicate (n - length s) space)
        else if ltb n 3
        then panic
        else ok (take (n - 3) s ++ dot ∷ dot ∷ dot ∷ []))
unfolding format
format_lem s n = ground (arith, dots_at_end_lem n s, no_padding s n)
