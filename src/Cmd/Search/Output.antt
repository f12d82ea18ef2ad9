-- ===== src/Cmd/Search/Output.antt =====
-- `runSearch` of cmd/search.go with its connection, its flags and what it writes: the pages go to one of the
-- printers of cli/, the number of results to the error output, and the last newline to `os.Stdout`.
-- `bytes` are the bytes of a text, and `parse` are the templates of `text/template`.
use dim.Prelude.{
  ℕ, zero, suc, ◌+◌, String, Bool, true, false, not, Option, none, some, List, [], ◌∷◌, ◌++◌, map,
  ◌==◌, ltb, if◌then◌else◌, length,
}
use dim.Prelude.Errors.{Error, error_text, message, Result, ok, err, panic}
use Prim.Native.String
use dim.Prelude.Int.{ℤ, pos}
use dim.Prelude.Decimal.{itoa}
use dim.Types.{Time, SearchResult, SearchResults}
use dim.Cli.Format.{Bytes}
use dim.Cli.Printer.{Terminal, newline, print}
use dim.Cli.TabPrinter.{TabPrinter, new_tab_printer, with_width}
use dim.Cli.TabPrinter
use dim.Cli.TemplatePrinter.{TemplatePrinter, new_template_printer}
use dim.Cli.TemplatePrinter
use dim.Cmd.Names.{Settings, auth_config}
use dim.Cmd.Remote.{RegistryClient, failed_to_connect}
use dim.Cmd.Search.{query_and_advanced, guess_template, print_row}

pub record SearchFlags : Type 0 where
  pub advanced_flag : Bool
  pub pagination_flag : ℤ
  pub unlimited_flag : Bool
  pub width_flag : ℤ
  pub quiet_flag : Bool
  pub template_flag : String

-- The two printers that a `cli.Printer` can be.
pub data Printer : Type 0 where
  tab : TabPrinter → Printer
  templated : TemplatePrinter SearchResult → Printer

-- The registry and the prompts, and what is written: to `c.Err`, to `c.Out`, and to `os.Stdout` at the end.
pub record Screen (W : Type 0) : Type 0 where
  pub outside : W
  pub errors : Bytes
  pub terminal : Terminal
  pub stdout : Bytes

-- `none` is a loop that has not ended within its fuel.
abbrev pub Outcome : Type 0 → Type 0
Outcome W = Option (Result (Unit {0}) × Screen W)

abbrev pub failed_search : Error → Error
failed_search e = message (String.◌++◌ "Failed to search images : " (error_text e))

abbrev pub header : List String
header = "Name" ∷ "Tag" ∷ "Created" ∷ "Labels" ∷ "Volumes" ∷ "Ports" ∷ []

abbrev pub results_found : ℕ → String
results_found n = String.◌++◌ (itoa (pos n)) " results found :\n"

abbrev pub as_tab :
    Result (Unit {0}) × TabPrinter × Terminal → Result (Unit {0}) × Printer × Terminal
as_tab (r, p, t) = (r, tab p, t)

abbrev pub as_templated :
    Result (Unit {0}) × TemplatePrinter SearchResult × Terminal
    → Result (Unit {0}) × Printer × Terminal
as_templated (r, p, t) = (r, templated p, t)

module _ {W : Type 0} where
  abbrev pub after_print :
      (Printer → Screen W → Outcome W)
      → Screen W
      → Result (Unit {0}) × Printer × Terminal
      → Outcome W
  after_print then_do s (ok done, p, t) = then_do p (record s { terminal = t })
  after_print then_do s (err e, p, t) = some (err e, record s { terminal = t })
  after_print then_do s (panic, p, t) = some (panic, record s { terminal = t })

  abbrev pub after_search :
      (SearchResults → Screen W → Outcome W) → Screen W → Result SearchResults × W → Outcome W
  after_search then_do s (ok sr, w) = then_do sr (record s { outside = w })
  after_search then_do s (err e, w) = some (err (failed_search e), record s { outside = w })
  after_search then_do s (panic, w) = some (panic, record s { outside = w })

  abbrev pub print_line : Screen W → Screen W
  print_line s = record s { stdout = s.stdout ++ newline ∷ [] }

module _ (bytes : String → Bytes) (age : Time → String)
    (parse : String → Result (SearchResult → Result Bytes)) where
  abbrev pub cells : SearchResult → List Bytes
  cells r = map bytes (print_row age r)

  abbrev pub table : ℤ → TabPrinter
  table width = TabPrinter.append (map bytes header) (new_tab_printer (with_width width ∷ []))

  unfoldable pub new_printer : SearchFlags → Printer
  new_printer flags =
      let template = guess_template flags.quiet_flag flags.template_flag in
      if template == ""
      then tab (table flags.width_flag)
      else templated (new_template_printer template)

  unfoldable pub print_append : SearchResult → Printer → Printer
  print_append r (tab p) = tab (TabPrinter.append (cells r) p)
  print_append r (templated p) = templated (TemplatePrinter.append r p)

  unfoldable pub print_appends : List SearchResult → Printer → Printer
  print_appends [] p = p
  print_appends (r ∷ rs) p = print_appends rs (print_append r p)

  unfoldable pub print_all : Bool → Printer → Terminal → Result (Unit {0}) × Printer × Terminal
  print_all wait (tab p) t = as_tab (TabPrinter.print_all wait p t)
  print_all wait (templated p) t = as_templated (TemplatePrinter.print_all parse wait p t)

  module _ {W C T O : Type 0} (registry : RegistryClient W C T O) (settings : Settings)
      (flags : SearchFlags) where
    abbrev pub to_errors : String → Screen W → Screen W
    to_errors text s = record s { errors = s.errors ++ bytes text }

    abbrev pub next_page : Screen W → Screen W
    next_page s =
        if flags.unlimited_flag then record s { terminal = print (newline ∷ []) s.terminal } else s

    abbrev pub ask_page : C → String × String → ℕ → Screen W → Result SearchResults × W
    ask_page client query fetched s =
        registry.search client query.0 query.1 (pos fetched) flags.pagination_flag s.outside

    -- The loop: `fetched` results are printed of the `num` that the last answer announced.
    unfoldable pub fetch_pages :
        ℕ → C → String × String → (num fetched : ℕ) → Printer → Screen W → Outcome W
    fetch_pages zero client query num fetched p s = none
    fetch_pages (suc fuel) client query num fetched p s = elim (ltb fetched num) [
      | false ↦ some (ok tt, print_line s)
      | true ↦
          after_search
            (λ sr s'.
              after_print
                (fetch_pages fuel client query sr.num_results (fetched + length sr.results)) s'
                (print_all (not flags.unlimited_flag) (print_appends sr.results p) s'.terminal))
            (next_page s) (ask_page client query fetched (next_page s))
    ]

    unfoldable pub print_results : ℕ → C → String × String → SearchResults → Screen W → Outcome W
    print_results fuel client query sr s = elim (ltb 0 sr.num_results) [
      | false ↦ some (ok tt, to_errors "No result found\n" s)
      | true ↦
          let s' = to_errors (results_found sr.num_results) s in
          after_print (fetch_pages fuel client query sr.num_results (length sr.results)) s'
            (print_all false (print_appends sr.results (new_printer flags)) s'.terminal)
    ]

    abbrev pub with_client : ℕ → String × String → Screen W → Result C × W → Outcome W
    with_client fuel query s (ok client, w) =
        let s' : Screen W = record s { outside = w } in
        after_search (print_results fuel client query) s' (ask_page client query 0 s')
    with_client fuel query s (err e, w) = some (err (failed_to_connect e), record s { outside = w })
    with_client fuel query s (panic, w) = some (panic, record s { outside = w })

    unfoldable pub search_command : ℕ → List String → Screen W → Outcome W
    search_command fuel [] s = some (err (message "query is missing"), s)
    search_command fuel (query ∷ args) s =
        with_client fuel (query_and_advanced query flags.advanced_flag) s
          (registry.new (auth_config settings) settings.registry_url s.outside)
