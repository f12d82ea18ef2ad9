-- ===== src/Cli/Printer.antt =====
-- The loop that both printers of the cli package run over the rows that are not printed yet.
-- A template is the function from a row to the text that it writes, or its error. What a template
-- has written before it fails is not modelled.
use dim.Prelude.{
  ℕ, ◌+◌, ◌≡◌, ◌∙◌, Bool, false, not, ◌&&◌, List, [], ◌∷◌, ◌++◌, arith, nat_eq, if◌then◌else◌,
  length,
}
use dim.Prelude.Errors.{Result, ok, err, panic}
use mathlib.Core.List.{append-nil, append_assoc}
use dim.Cli.Format.{Bytes}

abbrev pub newline : ℕ
newline = 10

-- The writer, and how often the reader was waited for.
pub record Terminal : Type 0 where
  pub output : Bytes
  pub reads : ℕ

abbrev pub print : Bytes → Terminal → Terminal
print b t = record t { output = t.output ++ b }

-- What a call leaves: its result, the printer's position and the terminal.
abbrev pub Printed : Type 0
Printed = Result (Unit {0}) × ℕ × Terminal

abbrev wait_for_user : Bool → Terminal → Terminal
wait_for_user wait t = if wait then record t { reads = t.reads + 1 } else t

abbrev end_line : Bool → Bool → Terminal → Terminal
end_line wait last t = if not wait && not last then print (newline ∷ []) t else t

module _ {Row : Type 0} (execute : Row → Result Bytes) (wait : Bool) (total : ℕ) where
  unfoldable pub print_rows : ℕ → List Row → Terminal → Printed
  print_rows position [] t = (ok tt, position, t)
  print_rows position (row ∷ rows) t =
      let asked = wait_for_user wait t in
      elim (execute row) [
        | ok line ↦
            print_rows (position + 1) rows
              (end_line wait (nat_eq (position + 1) total) (print line asked))
        | err e ↦ (err e, position + 1, asked)
        | panic ↦ (panic, position + 1, asked)
      ]

print_rows-ok :
    {Row : Type 0} (execute : Row → Result Bytes) (total position : ℕ) (row : Row) (rows : List Row)
    (line : Bytes) (t : Terminal)
    → execute row ≡ ok line
    → print_rows execute false total position (row ∷ rows) t
      ≡ print_rows execute false total
          (position + 1)
          rows
          (end_line false (nat_eq (position + 1) total) (print line t))
unfolding print_rows
print_rows-ok execute total position row rows line t e = rw (e, print_rows)

-- The lines that the template writes for the rows.
pub data Renders {Row : Type 0} (execute : Row → Result Bytes)
    : List Row → List Bytes → Type 0 where
  done : Renders execute [] []
  more :
      {row : Row} {rows : List Row} {line : Bytes} {lines : List Bytes}
      → execute row ≡ ok line
      → Renders execute rows lines
      → Renders execute (row ∷ rows) (line ∷ lines)

abbrev pub join_lines : List Bytes → Bytes
join_lines [] = []
join_lines (l ∷ []) = l
join_lines (l ∷ m ∷ ls) = l ++ (newline ∷ join_lines (m ∷ ls))

-- Without waiting, rows that end the collection are printed as lines, with no newline at the end.
pub print_rows-Renders :
    {Row : Type 0} (execute : Row → Result Bytes) (total position : ℕ) (rows : List Row)
    (lines : List Bytes) (t : Terminal)
    → position + length rows ≡ total
    → Renders execute rows lines
    → print_rows execute false total position rows t ≡ (ok tt, total, print (join_lines lines) t)
unfolding print_rows
print_rows-Renders execute total position rows lines t h done =
    let e₁ : position ≡ total = omega arith in rw (e₁, append-nil)
print_rows-Renders execute total position rows lines t h (more {line} e done) =
    let e₁ : position + 1 ≡ total = omega arith in ground (arith, e)
print_rows-Renders execute total position rows lines t h
      (more {row} {line} e (more {row = next} {rows = rest} {line = l} {lines = ls} e' r)) =
    let t₁ = print (newline ∷ []) (print line t) in
    let inner : nat_eq (position + 1) total ≡ false = ground arith in
    let ih =
      print_rows-Renders execute total (position + 1) (next ∷ rest) (l ∷ ls) t₁ (omega arith)
        (more e' r) in
    let regroup : ((t.output ++ line) ++ (newline ∷ [])) ++ join_lines (l ∷ ls)
        ≡ t.output ++ (line ++ (newline ∷ join_lines (l ∷ ls))) =
      simp append_assoc in
    print_rows-ok execute total position row (next ∷ rest) line t e ∙ rw (inner, ih, regroup)
