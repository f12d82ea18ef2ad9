-- ===== src/Cli/Widths.antt =====
-- `computeWidths` of cli/tabprinter.go: the width of each column, from the mean width of its cells.
pub mod Laws
use dim.Prelude.{
  ℕ, zero, suc, ◌+◌, ◌-◌, ◌*◌, ◌/◌, Bool, ◌&&◌, ◌||◌, List, [], ◌∷◌, map, ltb, leb, nat_eq,
  if◌then◌else◌, length, replicate,
}
use dim.Prelude.Errors.{◌>>=◌, Result, ok, panic}
use mathlib.Core.List.{reverse}
use dim.Prelude.Int.{ℤ, pos, negsuc, negate}
use dim.Cli.Format.{Bytes}

-- `strings.TrimSpace`, for the ASCII white space.
abbrev is_space : ℕ → Bool
is_space c = nat_eq c b' ' || (leb 9 c && leb c 13)

abbrev trim_left : Bytes → Bytes
trim_left [] = []
trim_left (c ∷ s) = let rest = trim_left s in if is_space c then rest else c ∷ s

unfoldable pub trim_space : Bytes → Bytes
trim_space s = reverse (trim_left (reverse (trim_left s)))

-- The arrays `widths` and `entries`, side by side.
abbrev pub Column : Type 0
Column = ℕ × ℕ

-- The running mean over the cells that are not blank.
unfoldable pub add_cell : Column → Bytes → Column
add_cell (width, entries) s =
    let n = length (trim_space s) in
    if ltb 0 n then ((width * entries + n) / (entries + 1), entries + 1) else (width, entries)

-- The loop over one row. A cell with text beyond the columns of the first row is out of range.
unfoldable pub add_row : List Column → List Bytes → Result (List Column)
add_row cols [] = ok cols
add_row [] (s ∷ row) =
    let rest = add_row [] row in if ltb 0 (length (trim_space s)) then panic else rest
add_row (c ∷ cols) (s ∷ row) = do rest ← add_row cols row; ok (add_cell c s ∷ rest)

unfoldable pub add_rows : List Column → List (List Bytes) → Result (List Column)
add_rows cols [] = ok cols
add_rows cols (row ∷ rows) = do cols' ← add_row cols row; add_rows cols' rows

abbrev pub sum : List ℕ → ℕ
sum [] = 0
sum (n ∷ ns) = n + sum ns

-- a - b for Go's `int`
abbrev pub minus : ℤ → ℕ → ℤ
minus (pos a) b = if leb b a then pos (a - b) else negsuc (b - a - 1)
minus (negsuc a) b = negsuc (a + b)

abbrev pub plus_one : ℤ → ℤ
plus_one (pos a) = pos (a + 1)
plus_one (negsuc zero) = pos 0
plus_one (negsuc (suc a)) = negsuc a

-- `widths[i] * width / fullwidth`: the division of Go's `int` rounds towards zero.
abbrev pub share : ℕ → ℤ → ℕ → ℤ
share w (pos width) full = pos (w * width / full)
share w (negsuc width) full = negate (w * (width + 1) / full)

abbrev pub shares : List ℕ → ℤ → ℕ → List ℤ
shares [] width full = []
shares (w ∷ ws) width full = share w width full ∷ shares ws width full

-- The last loop divides by `fullwidth` in each round.
unfoldable pub scale : List ℕ → ℤ → Result (List ℤ)
scale [] width = ok []
scale (w ∷ ws) width =
    if nat_eq (sum (w ∷ ws)) 0 then panic else ok (shares (w ∷ ws) width (sum (w ∷ ws)))

-- The widths that are computed for rows in a total width; `rows[0]` fails where there is no row.
unfoldable pub compute_widths : ℤ → List (List Bytes) → Result (List ℤ)
compute_widths total [] = panic
compute_widths total (row ∷ rows) = do
  cols ← add_rows (replicate (length row) (0, 0)) (row ∷ rows)
  scale (map (λ c. c.0) cols) (plus_one (minus total (length row)))
