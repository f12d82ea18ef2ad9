-- ===== src/Cmd/Search/Tests.antt =====
-- A search of three results by pages of two, printed by a template.
use dim.Prelude.{ℕ, ◌+◌, String, ◌≡◌, refl, true, false, none, some, List, [], ◌∷◌, arith}
use dim.Prelude.Errors.{Result, ok}
use dim.Prelude.Int.{ℤ, pos, negsuc}
use dim.Types.{Time, SearchResult}
use dim.Cli.Format.{Bytes}
use dim.Cli.Printer.{print, done, more, join_lines}
use dim.Cli.TemplatePrinter.{new_template_printer}
use dim.Cli.TemplatePrinter
use dim.Cli.Printer.{print_rows}
use dim.Cmd.Names.{Settings}
use dim.Cmd.Remote.{RegistryClient}
use dim.Cmd.Search.{query_and_advanced, guess_template}
use dim.Cmd.Search.Output.{
  SearchFlags, Screen, search_command, fetch_pages, print_results, new_printer, print_append,
  print_appends, print_all,
}
use dim.Cmd.Search.Runs.{page}
use dim.Prelude.{take}
use dim.Cli.Format.{format}
use dim.Cli.Widths.{compute_widths, add_rows, add_row, scale, add_cell, trim_space}
use dim.Cli.TabPrinter.{render}
use dim.Cmd.Search.{print_row}
use dim.Cmd.Search.Pages.{all_cells}
use dim.Cmd.Search.Table.{header_cells, row_line, tab_byte, search_command-table}
use dim.Cmd.Search.Lines.{search_command-lines}

abbrev result_named : String → SearchResult
result_named name = record {
  name = name;
  description = "";
  tag = "";
  full_name = name;
  created = 0;
  label = none;
  volumes = [];
  exposed_ports = [];
  env = none;
  size = pos 0;
  is_official = false;
  is_automated = false;
  star_count = pos 0;
}

abbrev first : SearchResult
first = result_named "a"

abbrev others : List SearchResult
others = result_named "b" ∷ result_named "c" ∷ []

abbrev behind : ℤ → ℕ
behind (pos n) = n
behind (negsuc n) = 0

abbrev holding : RegistryClient ℕ ℕ ℕ ℕ
holding = record {
  new = λ auth url w. (ok 1, w + 1);
  silent_new = λ auth url w. (ok 1, w);
  search = λ c q a offset n w. (ok (page q 2 (first ∷ others) (behind offset)), w + 1);
  delete_image = λ c n w. (ok tt, w);
  print_image_info = λ c out n tpl w. (ok tt, w);
  server_version = λ c w. (ok (record { version = ""; uptime = "" }), w);
}

abbrev all_at_once : SearchFlags
all_at_once = record {
  advanced_flag = false;
  pagination_flag = pos 2;
  unlimited_flag = true;
  width_flag = pos 150;
  quiet_flag = true;
  template_flag = "";
}

-- The bytes of texts are not looked at.
abbrev no_bytes : String → Bytes
no_bytes s = 1 ∷ []

abbrev no_age : Time → String
no_age t = ""

abbrev one_byte : SearchResult → Result Bytes
one_byte r = ok (7 ∷ [])

abbrev a_template : String → Result (SearchResult → Result Bytes)
a_template tpl = ok one_byte

abbrev settings : Settings
settings = record { registry_url = "reg"; username = ""; password = ""; insecure = false }

abbrev screen : Screen ℕ
screen = record {
  outside = 0;
  errors = [];
  terminal = record { output = []; reads = 0 };
  stdout = [];
}

three_lines :
    search_command no_bytes no_age a_template holding settings all_at_once 4 ("q" ∷ []) screen
    ≡ some (
      ok tt,
      record {
        outside = 3;
        errors = 1 ∷ [];
        terminal = record { output = 7 ∷ 10 ∷ 7 ∷ 10 ∷ 7 ∷ []; reads = 0 };
        stdout = 10 ∷ [];
      },
    )
unfolding search_command fetch_pages print_results new_printer print_append print_appends print_all
    query_and_advanced guess_template TemplatePrinter.print_all TemplatePrinter.append
    new_template_printer print_rows
three_lines = refl

search_command-lines_example :
    (w : ℕ) × (search_command no_bytes no_age a_template holding settings all_at_once 4
        ("q" ∷ [])
        screen
      ≡ some (
        ok tt,
        record {
          outside = w;
          errors = 1 ∷ [];
          terminal = print (join_lines ((7 ∷ []) ∷ (7 ∷ []) ∷ (7 ∷ []) ∷ [])) screen.terminal;
          stdout = 10 ∷ [];
        },
      ))
unfolding query_and_advanced guess_template
search_command-lines_example =
    search_command-lines no_bytes no_age a_template holding settings all_at_once 4 2 1 "q" [] 1
      first others (7 ∷ []) ((7 ∷ []) ∷ (7 ∷ []) ∷ []) one_byte screen refl refl refl refl
      (omega arith) (λ offset w. (w + 1, refl)) (more refl (more refl (more refl done)))
      (omega arith)

abbrev as_table : SearchFlags
as_table = record all_at_once { quiet_flag = false; width_flag = pos 11 }

abbrev ones : List ℤ
ones = pos 1 ∷ pos 1 ∷ pos 1 ∷ pos 1 ∷ pos 1 ∷ pos 1 ∷ []

abbrev a_line : Bytes
a_line = 1 ∷ 9 ∷ 1 ∷ 9 ∷ 1 ∷ 9 ∷ 1 ∷ 9 ∷ 1 ∷ 9 ∷ 1 ∷ []

widths_of_ones :
    compute_widths
      (pos 11)
      (header_cells no_bytes ∷ all_cells no_bytes no_age a_template (take 2 (first ∷ others)))
    ≡ ok ones
unfolding compute_widths print_row add_rows add_row scale add_cell trim_space
widths_of_ones = refl

line_of_ones : (r : SearchResult) → row_line no_bytes no_age a_template ones r ≡ ok a_line
unfolding render format print_row
line_of_ones r = refl

header_of_ones : render ones tab_byte (header_cells no_bytes) ≡ ok a_line
unfolding render format
header_of_ones = refl

search_command-table_example :
    (w : ℕ) × (search_command no_bytes no_age a_template holding settings as_table 4
        ("q" ∷ [])
        screen
      ≡ some (
        ok tt,
        record {
          outside = w;
          errors = 1 ∷ [];
          terminal = print (join_lines (a_line ∷ a_line ∷ a_line ∷ a_line ∷ [])) screen.terminal;
          stdout = 10 ∷ [];
        },
      ))
unfolding query_and_advanced guess_template
search_command-table_example =
    search_command-table no_bytes no_age a_template holding settings as_table 4 2 1 "q" [] 1 first
      others ones a_line a_line (a_line ∷ a_line ∷ []) screen refl refl refl (omega arith)
      (λ offset w. (w + 1, refl)) widths_of_ones header_of_ones
      (more (line_of_ones _) (more (line_of_ones _) (more (line_of_ones _) done))) (omega arith)
