-- ===== src/Cli/TemplatePrinter.antt =====
-- cli/template_printer.go: rows printed by a template of the user's.
-- Go's `text/template` is the parameter `parse`, from a template's text to what it writes for a row.
use dim.Prelude.{
  ℕ, ◌+◌, String, ◌≡◌, ap, ◌∙◌, Bool, false, List, [], ◌∷◌, ◌++◌, arith, length, drop,
  length-append, drop-length-append,
}
use dim.Prelude.Errors.{Result, ok, err, panic}
use dim.Cli.Format.{Bytes}
use dim.Cli.Printer.{Terminal, Printed, print, print_rows, Renders, join_lines, print_rows-Renders}

pub record TemplatePrinter (Row : Type 0) : Type 0 where
  pub rows : List Row
  pub position : ℕ
  pub template : String

module _ {Row : Type 0} where
  unfoldable pub new_template_printer : String → TemplatePrinter Row
  new_template_printer tpl = record { rows = []; position = 0; template = tpl }

  unfoldable pub append : Row → TemplatePrinter Row → TemplatePrinter Row
  append row t = record t { rows = t.rows ++ row ∷ [] }

  unfoldable pub bulk_append : List Row → TemplatePrinter Row → TemplatePrinter Row
  bulk_append rows t = record t { rows = t.rows ++ rows }

  abbrev at_position :
      TemplatePrinter Row → Printed → Result (Unit {0}) × TemplatePrinter Row × Terminal
  at_position t (result, position, terminal) = (result, record t { position = position }, terminal)

  abbrev print_with :
      Bool
      → TemplatePrinter Row
      → Terminal
      → Result (Row → Result Bytes)
      → Result (Unit {0}) × TemplatePrinter Row × Terminal
  print_with wait t terminal (ok execute) =
      at_position t
        (print_rows execute wait (length t.rows) t.position (drop t.position t.rows) terminal)
  print_with wait t terminal (err e) = (err e, t, terminal)
  print_with wait t terminal panic = (panic, t, terminal)

module _ {Row : Type 0} (parse : String → Result (Row → Result Bytes)) where
  unfoldable pub print_all :
      Bool → TemplatePrinter Row → Terminal → Result (Unit {0}) × TemplatePrinter Row × Terminal
  print_all wait t terminal = print_with wait t terminal (parse t.template)

  -- Rows that are added after everything was printed are the only ones that the next call prints.
  pub print_all-bulk_append :
      (t : TemplatePrinter Row) (terminal : Terminal) (added : List Row) (lines : List Bytes)
      (execute : Row → Result Bytes)
      → t.position ≡ length t.rows
      → parse t.template ≡ ok execute
      → Renders execute added lines
      → print_all false (bulk_append added t) terminal ≡ (
        ok tt,
        record t { rows = t.rows ++ added; position = length (t.rows ++ added) },
        print (join_lines lines) terminal,
      )
  unfolding print_all bulk_append
  print_all-bulk_append t terminal added lines execute position parsed r =
      let rest : drop t.position (t.rows ++ added) ≡ added =
        ap (λ n. drop n (t.rows ++ added)) position ∙ drop-length-append t.rows added in
      let long : t.position + length added ≡ length (t.rows ++ added) =
        omega (arith, length-append t.rows added) in
      let loop =
        print_rows-Renders execute (length (t.rows ++ added)) t.position added lines terminal long
          r in
      rw (parsed, rest) (ap (at_position (bulk_append added t)) loop)
