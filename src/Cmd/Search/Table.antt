-- ===== src/Cmd/Search/Table.antt =====
-- The table that the search command writes.
use dim.Prelude.{
  ℕ, zero, suc, ◌<◌, String, ◌≡◌, refl, ap, ◌∙◌, true, false, some, List, [], ◌∷◌, map, arith,
  length, take, drop,
}
use dim.Prelude.Errors.{Result, ok}
use dim.Prelude.Int.{ℤ}
use dim.Types.{Time, SearchResult}
use dim.Cli.Format.{Bytes}
use dim.Cli.Widths.{compute_widths}
use dim.Cli.Printer.{Terminal, print, Renders, more, join_lines}
use dim.Cli.TabPrinter.{TabPrinter, bulk_append, render, widths_of, new_tab_printer, with_width}
use dim.Cli.TabPrinter
use dim.Cli.TabPrinter.Laws.{print_all-Renders}
use dim.Cmd.Names.{Settings, auth_config}
use dim.Cmd.Remote.{RegistryClient}
use dim.Cmd.Search.{query_and_advanced, guess_template, take-drop}
use dim.Cmd.Search.Output.{
  SearchFlags, Printer, tab, Screen, cells, table, header, print_appends, print_all, new_printer,
  as_tab, search_command, results_found,
}
use dim.Cmd.Search.Pages.{Renders-split, Prints, by_table, appends-tab, all_cells, Renders-cells}
use dim.Cmd.Search.Runs.{Holds}
use dim.Cmd.Search.Lines.{printed_all, print_results-first}

-- The separator of the columns.
abbrev pub tab_byte : ℕ
tab_byte = 9

abbrev pub header_cells : (String → Bytes) → List Bytes
header_cells bytes = map bytes header

module _ (bytes : String → Bytes) (age : Time → String)
    (parse : String → Result (SearchResult → Result Bytes)) where
  abbrev pub row_line : List ℤ → SearchResult → Result Bytes
  row_line ws r = render ws tab_byte (cells bytes age parse r)

module _ {W C T O : Type 0} (bytes : String → Bytes) (age : Time → String)
    (parse : String → Result (SearchResult → Result Bytes)) (registry : RegistryClient W C T O)
    (settings : Settings) (flags : SearchFlags) where
  first_page :
      (rs : List SearchResult) (ws : List ℤ) (hl : Bytes) (lines : List Bytes) (t : Terminal)
      → compute_widths flags.width_flag ((header_cells bytes) ∷ all_cells bytes age parse rs)
        ≡ ok ws
      → render ws tab_byte (header_cells bytes) ≡ ok hl
      → Renders (row_line bytes age parse ws) rs lines
      → (p : Printer) × (print_all bytes age parse false
            (print_appends bytes age parse rs (tab (table bytes age parse flags.width_flag)))
            t
          ≡ (ok tt, p, print (join_lines (hl ∷ lines)) t))
        × Prints bytes age parse (row_line bytes age parse ws) p
  unfolding print_all bulk_append TabPrinter.append new_tab_printer with_width widths_of
  first_page rs ws hl lines t computed headed r =
      let p = bulk_append (all_cells bytes age parse rs) (table bytes age parse flags.width_flag) in
      (
        tab (record p { widths = some ws; position = length p.rows }),
        ap (λ q. print_all bytes age parse false q t)
              (appends-tab bytes age parse rs (table bytes age parse flags.width_flag))
            ∙ ap as_tab (
                print_all-Renders p t ws [] ((header_cells bytes) ∷ all_cells bytes age parse rs)
                  (hl ∷ lines) refl refl computed
                  (more headed (Renders-cells bytes age parse ws tab_byte (λ q. refl) r))),
        by_table _ ws refl refl (λ q. refl),
      )

  -- Without a template, against a registry that is joined, holds some results and answers with pages of a
  -- size that is not 0, the search command with `--unlimited` ends with success, with more rounds than there
  -- are results, where the header and every result have a line in the columns whose widths were computed from
  -- the header and the first page: it writes the number of results to the error output, and to the output
  -- the header and then one line for every result, once and in the order of the registry. The later pages
  -- stand in the same columns.
  pub search_command-table :
      (fuel n : ℕ) (c : C) (query : String) (args : List String) (w : W) (x : SearchResult)
      (xs : List SearchResult) (ws : List ℤ) (hl l : Bytes) (ls : List Bytes) (s : Screen W)
      → flags.unlimited_flag ≡ true
      → guess_template flags.quiet_flag flags.template_flag ≡ ""
      → registry.new (auth_config settings) settings.registry_url s.outside ≡ (ok c, w)
      → 0 < n
      → Holds registry flags c (query_and_advanced query flags.advanced_flag) n (x ∷ xs)
      → compute_widths flags.width_flag
          ((header_cells bytes) ∷ all_cells bytes age parse (take n (x ∷ xs)))
        ≡ ok ws
      → render ws tab_byte (header_cells bytes) ≡ ok hl
      → Renders (row_line bytes age parse ws) (x ∷ xs) (l ∷ ls)
      → length (x ∷ xs) < fuel
      → (w' : W) × (search_command bytes age parse registry settings flags fuel (query ∷ args) s
          ≡ printed_all bytes age parse registry settings flags s w'
              (results_found (length (x ∷ xs)))
              (join_lines (hl ∷ l ∷ ls)))
  unfolding search_command new_printer
  search_command-table fuel zero c query args w x xs ws hl l ls s u none_given joined big h computed
        headed r k =
      absurd (omega (arith, big))
  search_command-table fuel (suc n) c query args w x xs ws hl l ls s u none_given joined big h
        computed headed r k =
      let (w1, answer) = h 0 w in
      let (front, back) = Renders-split (suc n) r in
      let (p, printed, pr) =
        first_page (x ∷ take n xs) ws hl (l ∷ take n ls) s.terminal computed headed front in
      let by_tab : new_printer bytes age parse flags
          ≡ tab (table bytes age parse flags.width_flag) =
        rw (none_given, new_printer) refl in
      let (w2, ends) =
        print_results-first bytes age parse registry settings flags fuel n c
          (query_and_advanced query flags.advanced_flag) x xs hl (l ∷ take n ls) (drop n ls)
          (row_line bytes age parse ws) p (record s { outside = w1 }) u h (rw by_tab printed) pr
          back k in
      (
        w2,
        rw (joined, answer, search_command)
            (ends
              ∙ ap
                  (λ rest.
                    printed_all bytes age parse registry settings flags s w2
                      (results_found (length (x ∷ xs))) (join_lines (hl ∷ l ∷ rest)))
                  (take-drop n ls)),
      )
