-- ===== src/Cmd/Search/Lines.antt =====
-- What the search command writes from its arguments to its end.
use dim.Prelude.{
  ℕ, zero, suc, ◌<◌, String, ◌≡◌, refl, sym, ap, ◌∙◌, true, false, some, List, [], ◌∷◌, ◌++◌, arith,
  ◌==◌, ltb, length, take, drop,
}
use dim.Prelude.Errors.{Result, ok}
use mathlib.Core.List.{append_assoc}
use dim.Types.{Time, SearchResult}
use dim.Cli.Format.{Bytes}
use dim.Cli.Printer.{newline, print, Renders, join_lines}
use dim.Cli.TemplatePrinter.{new_template_printer}
use dim.Cmd.Names.{Settings, auth_config}
use dim.Cmd.Remote.{RegistryClient}
use dim.Cmd.Search.{query_and_advanced, guess_template, take-drop, length-drop_lt}
use dim.Cmd.Search.Output.{
  Printer, print_appends, print_all, SearchFlags, Screen, Outcome, new_printer, print_results,
  results_found, search_command,
}
use dim.Cmd.Search.Pages.{
  join_lines-append, more_lines, Renders-split, Prints, by_template, Prints-Adds,
}
use dim.Cmd.Search.Runs.{page, Holds, fetch_pages-EndsWith}

module _ {W C T O : Type 0} (bytes : String → Bytes) (age : Time → String)
    (parse : String → Result (SearchResult → Result Bytes)) (registry : RegistryClient W C T O)
    (settings : Settings) (flags : SearchFlags) where
  abbrev pub template_of : String
  template_of = guess_template flags.quiet_flag flags.template_flag

  template_printer :
      (execute : SearchResult → Result Bytes)
      → (template_of == "") ≡ false
      → parse template_of ≡ ok execute
      → Prints bytes age parse execute (new_printer bytes age parse flags)
  unfolding new_printer new_template_printer
  template_printer execute given parsed = rw (given, new_printer) (by_template _ refl parsed)

  abbrev pub printed_all : Screen W → W → String → Bytes → Outcome W
  printed_all s w found b = some (
    ok tt,
    record s {
      outside = w;
      errors = s.errors ++ bytes found;
      terminal = print b s.terminal;
      stdout = s.stdout ++ newline ∷ [];
    },
  )

  -- After the first page, which was printed as the lines `f ∷ fs`.
  pub print_results-first :
      (fuel n : ℕ) (c : C) (query : String × String) (x : SearchResult) (xs : List SearchResult)
      (f : Bytes) (fs bs : List Bytes) (execute : SearchResult → Result Bytes) (p : Printer)
      (s : Screen W)
      → flags.unlimited_flag ≡ true
      → Holds registry flags c query (suc n) (x ∷ xs)
      → print_all bytes age parse false
          (print_appends bytes age parse (x ∷ take n xs) (new_printer bytes age parse flags))
          s.terminal
        ≡ (ok tt, p, print (join_lines (f ∷ fs)) s.terminal)
      → Prints bytes age parse execute p
      → Renders execute (drop n xs) bs
      → length (x ∷ xs) < fuel
      → (w : W) × (print_results bytes age parse registry settings flags fuel c query
            (page query.0 (suc n) (x ∷ xs) 0)
            s
          ≡ printed_all s w (results_found (length (x ∷ xs))) (join_lines ((f ∷ fs) ++ bs)))
  unfolding print_results
  print_results-first fuel n c query x xs f fs bs execute p s u h printed pr back k =
      let s' : Screen W = record s {
        errors = s.errors ++ bytes (results_found (length (x ∷ xs)));
        terminal = print (join_lines (f ∷ fs)) s.terminal;
      } in
      let (w, ends) =
        fetch_pages-EndsWith bytes age parse registry settings flags fuel c query n (x ∷ xs)
          (x ∷ take n xs) (drop n xs) bs execute p s' u h (ap (λ r. x ∷ r) (take-drop n xs))
          (omega (arith, k, length-drop_lt (suc n) x xs (omega arith))) pr back in
      let some_found : ltb 0 (length (x ∷ xs)) ≡ true = ground arith in
      let regroup : (s.terminal.output ++ join_lines (f ∷ fs)) ++ more_lines bs
          ≡ s.terminal.output ++ join_lines ((f ∷ fs) ++ bs) =
        append_assoc s.terminal.output (join_lines (f ∷ fs)) (more_lines bs)
        ∙ ap (λ b. s.terminal.output ++ b) (sym (join_lines-append f fs bs)) in
      (
        w,
        rw (some_found, printed, print_results)
            (ends
              ∙ ap
                  (λ b. some (
                    ok tt,
                    record s' {
                      outside = w;
                      terminal = record s.terminal { output = b };
                      stdout = s.stdout ++ newline ∷ [];
                    },
                  ))
                  regroup),
      )

  print_results-lines :
      (fuel n : ℕ) (c : C) (query : String × String) (x : SearchResult) (xs : List SearchResult)
      (l : Bytes) (ls : List Bytes) (execute : SearchResult → Result Bytes) (s : Screen W)
      → flags.unlimited_flag ≡ true
      → Holds registry flags c query (suc n) (x ∷ xs)
      → Prints bytes age parse execute (new_printer bytes age parse flags)
      → Renders execute (x ∷ xs) (l ∷ ls)
      → length (x ∷ xs) < fuel
      → (w : W) × (print_results bytes age parse registry settings flags fuel c query
            (page query.0 (suc n) (x ∷ xs) 0)
            s
          ≡ printed_all s w (results_found (length (x ∷ xs))) (join_lines (l ∷ ls)))
  print_results-lines fuel n c query x xs l ls execute s u h pr r k =
      let (front, back) = Renders-split (suc n) r in
      let (p, printed, pr') =
        Prints-Adds bytes age parse s.terminal (x ∷ take n xs) (l ∷ take n ls) pr front in
      let (w, ends) =
        print_results-first fuel n c query x xs l (take n ls) (drop n ls) execute p s u h printed
          pr' back k in
      (
        w,
        ends
            ∙ ap (λ r. printed_all s w (results_found (length (x ∷ xs))) (join_lines (l ∷ r)))
                (take-drop n ls),
      )

  -- Against a registry that is joined, holds some results and answers a search with pages of a size that
  -- is not 0, the search command with `--unlimited` and a template that writes a line for every result
  -- ends with success, with more rounds than there are results: it writes the number of results to the
  -- error output, and to the output one line for every result, once and in the order of the registry,
  -- whatever the size of the pages.
  pub search_command-lines :
      (fuel n : ℕ) (c : C) (query : String) (args : List String) (w : W) (x : SearchResult)
      (xs : List SearchResult) (l : Bytes) (ls : List Bytes) (execute : SearchResult → Result Bytes)
      (s : Screen W)
      → flags.unlimited_flag ≡ true
      → (template_of == "") ≡ false
      → parse template_of ≡ ok execute
      → registry.new (auth_config settings) settings.registry_url s.outside ≡ (ok c, w)
      → 0 < n
      → Holds registry flags c (query_and_advanced query flags.advanced_flag) n (x ∷ xs)
      → Renders execute (x ∷ xs) (l ∷ ls)
      → length (x ∷ xs) < fuel
      → (w' : W) × (search_command bytes age parse registry settings flags fuel (query ∷ args) s
          ≡ printed_all s w' (results_found (length (x ∷ xs))) (join_lines (l ∷ ls)))
  unfolding search_command
  search_command-lines fuel zero c query args w x xs l ls execute s u given parsed joined big h r
        k =
      absurd (omega (arith, big))
  search_command-lines fuel (suc n) c query args w x xs l ls execute s u given parsed joined big h r
        k =
      let (w1, answer) = h 0 w in
      let (w2, ends) =
        print_results-lines fuel n c (query_and_advanced query flags.advanced_flag) x xs l ls
          execute (record s { outside = w1 }) u h (template_printer execute given parsed) r k in
      (w2, rw (joined, answer, search_command) ends)
