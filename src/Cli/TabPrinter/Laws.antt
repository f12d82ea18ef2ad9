-- ===== src/Cli/TabPrinter/Laws.antt =====
-- A printed line is not wider than the printer; each call prints exactly the rows that were added
-- since the last one.
use dim.Prelude.{
  ℕ, suc, ◌+◌, ◌<◌, ◌≤◌, String, ◌≡◌, refl, sym, ap, ◌∙◌, Bool, false, some, List, [], ◌∷◌, ◌++◌,
  map, arith, length, drop, length-append, drop-length-append,
}
use dim.Prelude.Errors.{Result, ok, >>=-eq-ok, ok_injective}
use dim.Prelude.Int.{ℤ, pos}
use dim.Cli.Format.{Bytes, format, length-format}
use dim.Cli.Widths.{compute_widths, sum}
use dim.Cli.Widths.Laws.{compute_widths_fit}
use dim.Cli.Printer.{Terminal, print, Renders, join_lines, print_rows-Renders}
use dim.Cli.TabPrinter.{
  TabPrinter, with_template, widths_of, render, sep_bytes, print_all, print_with, with_position,
}

sum_nil : (ns : List ℕ) → length ns ≡ 0 → sum ns ≡ 0
sum_nil [] h = refl
sum_nil (n ∷ ns) h = absurd (omega arith)

sep_bytes_lem : (sep : ℕ) → sep < 128 → sep_bytes sep ≡ sep ∷ []
sep_bytes_lem sep small = ground arith

-- A line of cells is as wide as their widths with the separators between them.
length-render :
    (ns : List ℕ) (sep : ℕ) (s : Bytes) (row : List Bytes) (line : Bytes)
    → sep < 128
    → render (map pos ns) sep (s ∷ row) ≡ ok line
    → length (s ∷ row) ≡ length ns
    → length line + 1 ≡ sum ns + length (s ∷ row)
unfolding render
length-render [] sep s row line small h k = absurd (omega arith)
length-render (n ∷ ns) sep s [] line small h k =
    let nil : length ns ≡ 0 = omega arith in omega (arith, length-format s n line h, sum_nil ns nil)
length-render (n ∷ ns) sep s (r ∷ row) line small h k =
    let (cell, cut, more) = >>=-eq-ok (format s (pos n)) _ h in
    let (rest, others, same) = >>=-eq-ok (render (map pos ns) sep (r ∷ row)) _ more in
    let width = length-format s n cell cut in
    let ih = length-render ns sep r row rest small others (omega arith) in
    let joined : length line ≡ length cell + suc (length rest) =
      ap length (sym (ok_injective same))
      ∙ length-append cell (sep_bytes sep ++ rest)
      ∙ ap (λ bs. length cell + length (bs ++ rest)) (sep_bytes_lem sep small) in
    omega arith

-- If the separator is an ASCII character and the printer has room for the separators of a row, a row
-- with as many cells as the first row is printed on a line of at most as many bytes as the printer is
-- wide.
pub render_fits :
    (total sep : ℕ) (first : List Bytes) (rows : List (List Bytes)) (ws : List ℤ) (s : Bytes)
    (row : List Bytes) (line : Bytes)
    → sep < 128
    → length first ≤ total + 1
    → compute_widths (pos total) (first ∷ rows) ≡ ok ws
    → length (s ∷ row) ≡ length first
    → render ws sep (s ∷ row) ≡ ok line
    → length line ≤ total
render_fits total sep first rows ws s row line ascii room computed same printed =
    let (ns, numbers, long, small) = compute_widths_fit total first rows ws room computed in
    let exact = length-render ns sep s row line ascii (rw numbers at printed) (same ∙ sym long) in
    omega arith

-- The rows that were printed before are not printed again, and those that were added are printed as
-- lines: after a call without waiting everything is printed.
pub print_all-Renders :
    (t : TabPrinter) (terminal : Terminal) (ws : List ℤ) (printed added : List (List Bytes))
    (lines : List Bytes)
    → t.rows ≡ printed ++ added
    → t.position ≡ length printed
    → widths_of t ≡ ok ws
    → Renders (render ws t.separator) added lines
    → print_all false t terminal ≡ (
      ok tt,
      record t { widths = some ws; position = length t.rows },
      print (join_lines lines) terminal,
    )
unfolding print_all
print_all-Renders t terminal ws printed added lines rows position computed r =
    let rest : drop t.position t.rows ≡ added =
      ap (λ n. drop n t.rows) position
      ∙ ap (drop (length printed)) rows
      ∙ drop-length-append printed added in
    let long : t.position + length added ≡ length t.rows =
      let split = ap length rows in let sum_ = length-append printed added in omega arith in
    let loop =
      print_rows-Renders (render ws t.separator) (length t.rows) t.position added lines terminal
        long r in
    rw (computed, rest) (ap (with_position t ws) loop)

print_with-with_template :
    (wait : Bool) (tpl : String) (t : TabPrinter) (terminal : Terminal) (ws : Result (List ℤ))
    → ((print_with wait (with_template tpl t) terminal ws).0 ≡ (print_with wait t terminal ws).0)
      × ((print_with wait (with_template tpl t) terminal ws).2 ≡ (print_with wait t terminal ws).2)
unfolding with_template
print_with-with_template wait tpl t terminal (ok ws) = (refl, refl)
print_with-with_template wait tpl t terminal _ = (refl, refl)

-- The template that a caller sets has no effect on what is printed.
pub print_all-with_template :
    (wait : Bool) (tpl : String) (t : TabPrinter) (terminal : Terminal)
    → ((print_all wait (with_template tpl t) terminal).0 ≡ (print_all wait t terminal).0)
      × ((print_all wait (with_template tpl t) terminal).2 ≡ (print_all wait t terminal).2)
unfolding print_all with_template widths_of
print_all-with_template wait tpl t terminal =
    print_with-with_template wait tpl t terminal (widths_of t)
