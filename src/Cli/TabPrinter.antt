-- ===== src/Cli/TabPrinter.antt =====
-- cli/tabprinter.go: rows of cells printed as a table.
pub mod Laws
use dim.Prelude.{
  ℕ, ◌-◌, ◌+◌, ◌/◌, ◌%◌, String, Bool, Option, none, some, List, [], ◌∷◌, ◌++◌, length, drop, ltb,
  if◌then◌else◌,
}
use dim.Prelude.Errors.{◌>>=◌, Result, ok, err, panic}
use dim.Prelude.Int.{ℤ, pos}
use dim.Cli.Format.{Bytes, format}
use dim.Cli.Widths.{compute_widths}
use dim.Cli.Printer.{Terminal, Printed, print_rows}

-- `widths` is `none` until they are computed.
pub record TabPrinter : Type 0 where
  pub widths : Option (List ℤ)
  pub rows : List (List Bytes)
  pub position : ℕ
  pub separator : ℕ
  pub width : ℤ
  pub template : String

abbrev pub TabPrinterOption : Type 0
TabPrinterOption = TabPrinter → TabPrinter

unfoldable pub with_separator : ℕ → TabPrinterOption
with_separator sep printer = record printer { separator = sep }

unfoldable pub with_width : ℤ → TabPrinterOption
with_width w printer = record printer { width = w }

unfoldable pub with_template : String → TabPrinterOption
with_template t printer = record printer { template = t }

abbrev pub row_template : String
row_template = "{{range $i, $r := .}}\n{{- if gt $i 0}}{{sep}}{{end}}{{format $r $i}}\n{{- end}}"

abbrev apply_options : List TabPrinterOption → TabPrinter → TabPrinter
apply_options [] tp = tp
apply_options (opt ∷ options) tp = apply_options options (opt tp)

unfoldable pub new_tab_printer : List TabPrinterOption → TabPrinter
new_tab_printer options = apply_options options (record {
  widths = none;
  rows = [];
  position = 0;
  separator = 9;
  width = pos 80;
  template = row_template;
})

unfoldable pub append : List Bytes → TabPrinter → TabPrinter
append row t = record t { rows = t.rows ++ row ∷ [] }

unfoldable pub bulk_append : List (List Bytes) → TabPrinter → TabPrinter
bulk_append rows t = record t { rows = t.rows ++ rows }

-- `t.widths` after `computeWidths`.
unfoldable pub widths_of : TabPrinter → Result (List ℤ)
widths_of t = elim t.widths [ some ws ↦ ok ws | none ↦ compute_widths t.width t.rows ]

-- `string(t.Separator)` takes the byte as a character and encodes it in UTF-8.
abbrev pub sep_bytes : ℕ → Bytes
sep_bytes sep = if ltb sep 128 then sep ∷ [] else (192 + sep / 64) ∷ (128 + sep % 64) ∷ []

-- The row template: the cells, formatted to their widths, with the separator between each two.
unfoldable pub render : List ℤ → ℕ → List Bytes → Result Bytes
render ws sep [] = ok []
render [] sep (s ∷ row) = panic
render (w ∷ ws) sep (s ∷ []) = format s w
render (w ∷ ws) sep (s ∷ r ∷ row) = do
  cell ← format s w
  rest ← render ws sep (r ∷ row)
  ok (cell ++ (sep_bytes sep ++ rest))

abbrev pub with_position : TabPrinter → List ℤ → Printed → Result (Unit {0}) × TabPrinter × Terminal
with_position t ws (result, position, terminal) =
    (result, record t { widths = some ws; position = position }, terminal)

-- The template that is parsed is `rowTemplate`, not the printer's `Template`.
abbrev pub print_with :
    Bool → TabPrinter → Terminal → Result (List ℤ) → Result (Unit {0}) × TabPrinter × Terminal
print_with wait t terminal (ok ws) = with_position t ws (
    print_rows (render ws t.separator) wait (length t.rows) t.position (drop t.position t.rows)
      terminal)
print_with wait t terminal (err e) = (err e, t, terminal)
print_with wait t terminal panic = (panic, t, terminal)

unfoldable pub print_all : Bool → TabPrinter → Terminal → Result (Unit {0}) × TabPrinter × Terminal
print_all wait t terminal = print_with wait t terminal (widths_of t)
