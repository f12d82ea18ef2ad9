-- ===== src/Cli/Widths/Laws.antt =====
-- The computed widths fit into the total width, and when they can be computed.
use dim.Prelude.{
  ℕ, suc, ◌+◌, ◌-◌, ◌*◌, ◌/◌, ◌≤◌, ◌<◌, ◌≡◌, refl, ap, ◌∙◌, subst, inl, inr, List, [], ◌∷◌, map,
  arith, length, replicate, length-replicate, length-map, All, Any,
}
use dim.Prelude.Errors.{ok, >>=-eq-ok, ok_injective}
use dim.Prelude.Int.{ℤ, pos}
use dim.Cli.Format.{Bytes}
use dim.Cli.Widths.{
  trim_space, Column, add_cell, add_row, add_rows, sum, minus, plus_one, shares, scale,
  compute_widths,
}

abbrev pub parts : List ℕ → ℕ → ℕ → List ℕ
parts [] width full = []
parts (w ∷ ws) width full = w * width / full ∷ parts ws width full

shares-pos :
    (ws : List ℕ) (width full : ℕ) → shares ws (pos width) full ≡ map pos (parts ws width full)
shares-pos [] width full = refl
shares-pos (w ∷ ws) width full = ap (λ r. pos (w * width / full) ∷ r) (shares-pos ws width full)

length-parts : (ws : List ℕ) (width full : ℕ) → length (parts ws width full) ≡ length ws
length-parts [] width full = refl
length-parts (w ∷ ws) width full = ap suc (length-parts ws width full)

sum-parts : (ws : List ℕ) (width full : ℕ) → sum (parts ws width full) * full ≤ sum ws * width
sum-parts [] width full = omega arith
sum-parts (w ∷ ws) width full = grind (arith, sum-parts ws width full)

le_of_mul : (a b full : ℕ) → 0 < full → a * full ≤ full * b → a ≤ b
le_of_mul a b full h k = grind arith

room :
    (total cols : ℕ) → cols ≤ total + 1 → plus_one (minus (pos total) cols) ≡ pos (total + 1 - cols)
room total cols h = ground arith

add_cell_keeps : (c : Column) (s : Bytes) → 0 < c.0 → 0 < (add_cell c s).0
unfolding add_cell
add_cell_keeps (width, entries) s h = grind arith

add_cell_starts : (s : Bytes) → 0 < length (trim_space s) → 0 < (add_cell (0, 0) s).0
unfolding add_cell
add_cell_starts s h = ground arith

-- A row that has no cell beyond the columns.
abbrev pub Fits : ℕ → List Bytes → Type 0
Fits cols row = length row ≤ cols

-- A row with a cell that is not blank.
abbrev pub HasText : List Bytes → Type 0
HasText row = Any (λ s. 0 < length (trim_space s)) row

abbrev IsWide : List Column → Type 0
IsWide cols = Any (λ c. 0 < c.0) cols

length-add_row :
    (cols : List Column) (row : List Bytes) {cols' : List Column}
    → add_row cols row ≡ ok cols'
    → length cols' ≡ length cols
unfolding add_row
length-add_row cols [] h = ground arith
length-add_row [] (s ∷ row) {cols'} h = ground (arith, length-add_row [] row {cols' = cols'})
length-add_row (c ∷ cols) (s ∷ row) h =
    let (rest, added, same) = >>=-eq-ok (add_row cols row) _ h in
    let ih = length-add_row cols row added in ground arith

length-add_rows :
    (cols : List Column) (rows : List (List Bytes)) {cols' : List Column}
    → add_rows cols rows ≡ ok cols'
    → length cols' ≡ length cols
unfolding add_rows
length-add_rows cols [] h = ground arith
length-add_rows cols (row ∷ rows) h =
    let (next, added, same) = >>=-eq-ok (add_row cols row) _ h in
    length-add_rows next rows same ∙ length-add_row cols row added

-- A row that fits is added, and a column that has a width keeps one.
add_row_total :
    (cols : List Column) (row : List Bytes)
    → Fits (length cols) row
    → (cols' : List Column) × (add_row cols row ≡ ok cols')
unfolding add_row
add_row_total cols [] h = (cols, refl)
add_row_total [] (s ∷ row) h = absurd (omega arith)
add_row_total (c ∷ cols) (s ∷ row) h =
    let (rest, added) = add_row_total cols row (omega arith) in (add_cell c s ∷ rest, rw added)

add_row-IsWide :
    (cols : List Column) (row : List Bytes) {cols' : List Column}
    → add_row cols row ≡ ok cols'
    → IsWide cols
    → IsWide cols'
unfolding add_row
add_row-IsWide cols [] h wide = subst IsWide (ok_injective h) wide
add_row-IsWide [] (s ∷ row) h wide = elim wide [ ]
add_row-IsWide (c ∷ cols) (s ∷ row) h (inl here) =
    let (rest, added, same) = >>=-eq-ok (add_row cols row) _ h in
    subst IsWide (ok_injective same) (inl (add_cell_keeps c s here))
add_row-IsWide (c ∷ cols) (s ∷ row) h (inr there) =
    let (rest, added, same) = >>=-eq-ok (add_row cols row) _ h in
    subst IsWide (ok_injective same) (inr (add_row-IsWide cols row added there))

add_row_starts :
    (row : List Bytes) {cols' : List Column}
    → add_row (replicate (length row) (0, 0)) row ≡ ok cols'
    → HasText row
    → IsWide cols'
unfolding add_row
add_row_starts [] h text = elim text [ ]
add_row_starts (s ∷ row) h (inl here) =
    let (rest, added, same) = >>=-eq-ok (add_row (replicate (length row) (0, 0)) row) _ h in
    subst IsWide (ok_injective same) (inl (add_cell_starts s here))
add_row_starts (s ∷ row) h (inr there) =
    let (rest, added, same) = >>=-eq-ok (add_row (replicate (length row) (0, 0)) row) _ h in
    subst IsWide (ok_injective same) (inr (add_row_starts row added there))

add_rows_total :
    (cols : List Column) (rows : List (List Bytes))
    → All (Fits (length cols)) rows
    → IsWide cols
    → (cols' : List Column) × (add_rows cols rows ≡ ok cols') × IsWide cols'
unfolding add_rows
add_rows_total cols [] h wide = (cols, refl, wide)
add_rows_total cols (row ∷ rows) (fit, fits) wide =
    let (next, added) = add_row_total cols row fit in
    let same = length-add_row cols row added in
    let (last, rest, wide') =
      add_rows_total next rows (rw same fits) (add_row-IsWide cols row added wide) in
    (last, rw added rest, wide')

sum_pos : (cols : List Column) → IsWide cols → 0 < sum (map (λ c. c.0) cols)
sum_pos [] h = elim h [ ]
sum_pos (c ∷ cols) (inl h) = omega arith
sum_pos (c ∷ cols) (inr h) = omega (arith, sum_pos cols h)

-- What `scale` returns in a total width that is not negative.
scale-eq-ok :
    (ws : List ℕ) (width : ℕ) (out : List ℤ)
    → scale ws (pos width) ≡ ok out
    → (ns : List ℕ) × (out ≡ map pos ns) × (sum ns ≤ width) × (length ns ≡ length ws)
unfolding scale
scale-eq-ok [] width out h = ([], cc, omega arith, refl)
scale-eq-ok (w ∷ ws) width out h =
    let ns = parts (w ∷ ws) width (sum (w ∷ ws)) in
    let full : 0 < sum (w ∷ ws) = ground arith in
    (
      ns,
      ground (arith, shares-pos (w ∷ ws) width (sum (w ∷ ws))),
      le_of_mul (sum ns) width (sum (w ∷ ws)) full (sum-parts (w ∷ ws) width (sum (w ∷ ws))),
      length-parts (w ∷ ws) width (sum (w ∷ ws)),
    )

scale_total : (ws : List ℕ) (width : ℤ) → 0 < sum ws → (out : List ℤ) × (scale ws width ≡ ok out)
unfolding scale
scale_total [] width h = absurd (omega arith)
scale_total (w ∷ ws) width h = (shares (w ∷ ws) width (sum (w ∷ ws)), ground arith)

-- There is a width for each column of the first row, and a line of cells of these widths with a
-- separator between each two is not wider than the printer, if the printer has room for the
-- separators at least.
pub compute_widths_fit :
    (total : ℕ) (row : List Bytes) (rows : List (List Bytes)) (out : List ℤ)
    → length row ≤ total + 1
    → compute_widths (pos total) (row ∷ rows) ≡ ok out
    → (ns : List ℕ) × (out ≡ map pos ns)
      × (length ns ≡ length row)
      × (sum ns + length row ≤ total + 1)
unfolding compute_widths
compute_widths_fit total row rows out h e =
    let (cols, added, scaled) =
      >>=-eq-ok (add_rows (replicate (length row) (0, 0)) (row ∷ rows)) _ e in
    let (ns, same, small, long) =
      scale-eq-ok (map (λ c. c.0) cols) (total + 1 - length row) out
        (rw (room total (length row) h) at scaled) in
    let l₁ = length-map (λ (c : Column). c.0) cols in
    let l₂ = length-add_rows (replicate (length row) (0, 0)) (row ∷ rows) added in
    let l₃ = length-replicate {0} {A = Column} (length row) (0, 0) in
    (ns, same, long ∙ l₁ ∙ l₂ ∙ l₃, omega arith)

-- With a first row that is not blank and no row longer than it, the widths are computed: no index
-- is out of range, and nothing is divided by 0.
pub compute_widths_total :
    (total : ℤ) (row : List Bytes) (rows : List (List Bytes))
    → HasText row
    → All (Fits (length row)) rows
    → (out : List ℤ) × (compute_widths total (row ∷ rows) ≡ ok out)
unfolding compute_widths add_rows
compute_widths_total total row rows text fits =
    let start : List Column = replicate (length row) (0, 0) in
    let wide : length start ≡ length row = length-replicate (length row) (0, 0) in
    let (cols, added) = add_row_total start row (omega arith) in
    let same = length-add_row start row added in
    let (last, rest, full) =
      add_rows_total cols rows (rw (same ∙ wide) fits) (add_row_starts row added text) in
    let (out, scaled) =
      scale_total (map (λ c. c.0) last) (plus_one (minus total (length row))) (sum_pos last full) in
    (out, rw (added, rest) scaled)
