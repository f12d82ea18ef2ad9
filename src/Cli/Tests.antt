-- ===== src/Cli/Tests.antt =====
-- Runs of the printers and prompts on the inputs of cli/tabprinter_test.go and cli/cli_test.go, and
-- their theorems at inputs that meet the hypotheses.
use dim.Prelude.{ℕ, ◌+◌, ◌≤◌, String, ◌≡◌, refl, List, [], ◌∷◌, map, arith, length}
use dim.Prelude.Errors.{ok, panic}
use Prim.Native.Char.{code}
use dim.Prelude.Int.{ℤ, pos}
use dim.Cli.Format.{Bytes, format, format_lem}
use dim.Cli.Widths.{trim_space, add_cell, add_row, add_rows, sum, scale, compute_widths}
use dim.Cli.Widths.Laws.{compute_widths_fit}
use dim.Cli.TabPrinter.{render}
use dim.Cli.TabPrinter.Laws.{render_fits}

abbrev bytes : String → Bytes
bytes String.[] = []
bytes (String.◌∷◌ c s) = code c ∷ bytes s

format_runs :
    (format (bytes "short") (pos 10) ≡ ok (bytes "short     "))
    × (format (bytes "stringtoolong") (pos 10) ≡ ok (bytes "stringt..."))
    × (format (bytes "goodstring") (pos 10) ≡ ok (bytes "goodstring"))
    × (format (bytes "abc") (pos 2) ≡ panic)
unfolding format
format_runs = (refl, refl, refl, refl)

abbrev header : List Bytes
header = bytes "ABCDEFGH" ∷ bytes "ABCD" ∷ bytes "ABCDEFGHIJKLMNOPQR" ∷ bytes "ABCDEF" ∷ []

abbrev gaps : List Bytes
gaps = bytes "" ∷ bytes "ABCD" ∷ bytes "" ∷ bytes "ABCDEF" ∷ []

abbrev test_widths : List ℤ
test_widths = pos 17 ∷ pos 8 ∷ pos 38 ∷ pos 12 ∷ []

widths_run : compute_widths (pos 80) (header ∷ gaps ∷ header ∷ []) ≡ ok test_widths
unfolding compute_widths add_rows add_row add_cell trim_space scale
widths_run = refl

format_lem_example : format (bytes "stringtoolong") (pos 10) ≡ ok (bytes "stringt...")
format_lem_example = format_lem (bytes "stringtoolong") 10

compute_widths_fit_example :
    (ns : List ℕ) × (test_widths ≡ map pos ns) × (length ns ≡ 4) × (sum ns + 4 ≤ 81)
compute_widths_fit_example =
    compute_widths_fit 80 header (gaps ∷ header ∷ []) test_widths (omega arith) widths_run

abbrev tight : List Bytes
tight = bytes "a" ∷ bytes "bb" ∷ []

tight_widths : compute_widths (pos 9) (tight ∷ []) ≡ ok (pos 2 ∷ pos 5 ∷ [])
unfolding compute_widths add_rows add_row add_cell trim_space scale
tight_widths = refl

tight_line : render (pos 2 ∷ pos 5 ∷ []) 9 tight ≡ ok (bytes "a \tbb   ")
unfolding render format
tight_line = refl

render_fits_example : length (bytes "a \tbb   ") ≤ 9
render_fits_example =
    render_fits 9 9 tight [] (pos 2 ∷ pos 5 ∷ []) (bytes "a") (bytes "bb" ∷ []) (bytes "a \tbb   ")
      (omega arith) (omega arith) tight_widths refl tight_line
