-- ===== src/Cmd/Search/Runs.antt =====
-- What a whole search writes.
use dim.Prelude.{
  ℕ, zero, suc, ◌+◌, ◌<◌, String, ◌≡◌, sym, ap, ◌∙◌, true, false, some, List, [], ◌∷◌, ◌++◌, arith,
  ltb, lt→ltb, length, take, drop, length-append, drop-length-append,
}
use dim.Prelude.Errors.{Result, ok}
use dim.Prelude.Int.{pos}
use mathlib.Core.List.{append-nil, append_assoc}
use dim.Types.{Time, SearchResult, SearchResults}
use dim.Cli.Format.{Bytes}
use dim.Cli.Printer.{Terminal, newline, print, Renders, done, more, join_lines}
use dim.Cmd.Names.{Settings}
use dim.Cmd.Remote.{RegistryClient}
use dim.Cmd.Search.{take-drop, length-drop_lt}
use dim.Cmd.Search.Output.{
  SearchFlags, Printer, Screen, Outcome, print_appends, print_all, fetch_pages,
}
use dim.Cmd.Search.Pages.{more_lines, join_lines-append, Renders-split, Prints, Prints-Adds}

-- The page of at most `n` results behind an offset.
abbrev pub page : String → ℕ → List SearchResult → ℕ → SearchResults
page query n all_results offset = record {
  query = query;
  num_results = length all_results;
  results = take n (drop offset all_results);
}

pub all_lines :
    (l : Bytes) (ls : List Bytes) (n : ℕ)
    → join_lines (l ∷ take n ls) ++ more_lines (drop n ls) ≡ join_lines (l ∷ ls)
all_lines l ls n =
    sym (join_lines-append l (take n ls) (drop n ls))
    ∙ ap (λ r. join_lines (l ∷ r)) (take-drop n ls)

regrouped :
    (o l : Bytes) (ls : List Bytes) (n : ℕ)
    → ((o ++ newline ∷ []) ++ join_lines (l ∷ take n ls)) ++ more_lines (drop n ls)
      ≡ o ++ newline ∷ join_lines (l ∷ ls)
regrouped o l ls n =
    append_assoc (o ++ newline ∷ []) (join_lines (l ∷ take n ls)) (more_lines (drop n ls))
    ∙ append_assoc o (newline ∷ []) (join_lines (l ∷ take n ls) ++ more_lines (drop n ls))
    ∙ ap (λ b. o ++ newline ∷ b) (all_lines l ls n)

module _ {W C T O : Type 0} (registry : RegistryClient W C T O) (flags : SearchFlags) where
  -- The registry `c` holds `all_results` and answers with pages of `n`.
  abbrev pub Holds : C → String × String → ℕ → List SearchResult → Type 0
  Holds c query n all_results =
      (offset : ℕ) (w : W)
      → (w' : W) × (registry.search c query.0 query.1 (pos offset) flags.pagination_flag w
          ≡ (ok (page query.0 n all_results offset), w'))

module _ {W C T O : Type 0} (bytes : String → Bytes) (age : Time → String)
    (parse : String → Result (SearchResult → Result Bytes)) (registry : RegistryClient W C T O)
    (settings : Settings) (flags : SearchFlags) where
  abbrev the_pages : ℕ → C → String × String → (num fetched : ℕ) → Printer → Screen W → Outcome W
  the_pages = fetch_pages bytes age parse registry settings flags

  one_page :
      (fuel : ℕ) (c : C) (query : String × String) (num fetched : ℕ) (p p' : Printer) (s : Screen W)
      (sr : SearchResults) (w : W) (t : Terminal)
      → flags.unlimited_flag ≡ true
      → fetched < num
      → registry.search c query.0 query.1 (pos fetched) flags.pagination_flag s.outside ≡ (ok sr, w)
      → print_all bytes age parse false
          (print_appends bytes age parse sr.results p)
          (print (newline ∷ []) s.terminal)
        ≡ (ok tt, p', t)
      → the_pages (suc fuel) c query num fetched p s
        ≡ the_pages fuel c query sr.num_results
            (fetched + length sr.results)
            p'
            (record s { outside = w; terminal = t })
  unfolding fetch_pages
  one_page fuel c query num fetched p p' s sr w t all_at_once on answer printed =
      let on' = lt→ltb _ _ on in rw (on', all_at_once, answer, printed, fetch_pages)

  abbrev EndsWith : Screen W → Bytes → Outcome W → Type 0
  EndsWith s b r =
      (w : W) × (r
        ≡ some (
          ok tt,
          record s {
            outside = w;
            terminal = print b s.terminal;
            stdout = s.stdout ++ newline ∷ [];
          },
        ))

  pub fetch_pages-EndsWith :
      (fuel : ℕ) (c : C) (query : String × String) (n : ℕ)
      (all_results shown rest : List SearchResult) (lines : List Bytes)
      (execute : SearchResult → Result Bytes) (p : Printer) (s : Screen W)
      → flags.unlimited_flag ≡ true
      → Holds registry flags c query (suc n) all_results
      → shown ++ rest ≡ all_results
      → length rest < fuel
      → Prints bytes age parse execute p
      → Renders execute rest lines
      → EndsWith s
          (more_lines lines)
          (the_pages fuel c query (length all_results) (length shown) p s)
  fetch_pages-EndsWith zero c query n all_results shown rest lines execute p s u h e k pr r =
      absurd (omega (arith, k))
  fetch_pages-EndsWith (suc fuel) c query n all_results shown [] lines execute p s u h e k pr done =
      let over : ltb (length shown) (length all_results) ≡ false =
        ground (arith, length-append {A = SearchResult} shown [], ap length e) in
      (s.outside, unfold fetch_pages in rw (over, append-nil, fetch_pages))
  fetch_pages-EndsWith (suc fuel) c query n all_results shown (x ∷ xs) [] execute p s u h e k pr r =
      elim r [ ]
  fetch_pages-EndsWith (suc fuel) c query n all_results shown (x ∷ xs) (l ∷ ls) execute p s u h e k
        pr (more g r) =
      let (w, answer) = h (length shown) s.outside in
      let here_ : drop (length shown) all_results ≡ x ∷ xs =
        ap (drop (length shown)) (sym e) ∙ drop-length-append shown (x ∷ xs) in
      let (front, back) = Renders-split (suc n) (more g r) in
      let (p', printed, pr') =
        Prints-Adds bytes age parse (print (newline ∷ []) s.terminal) (x ∷ take n xs)
          (l ∷ take n ls) pr front in
      let s' : Screen W = record s {
        outside = w;
        terminal = print (join_lines (l ∷ take n ls)) (print (newline ∷ []) s.terminal);
      } in
      let turn =
        one_page fuel c query (length all_results) (length shown) p p' s
          (page query.0 (suc n) all_results (length shown)) w s'.terminal u
          (omega (arith, ap length e, length-append shown (x ∷ xs))) answer (rw here_ printed) in
      let counted : length shown + length (take (suc n) (drop (length shown) all_results))
          ≡ length (shown ++ x ∷ take n xs) =
        ap (λ rs. length shown + length (take (suc n) rs)) here_
        ∙ sym (length-append shown (x ∷ take n xs)) in
      let whole : (shown ++ x ∷ take n xs) ++ drop n xs ≡ all_results =
        append_assoc shown (x ∷ take n xs) (drop n xs)
        ∙ ap (λ r. shown ++ x ∷ r) (take-drop n xs)
        ∙ e in
      let (w', ends) =
        fetch_pages-EndsWith fuel c query n all_results (shown ++ x ∷ take n xs) (drop n xs)
          (drop n ls) execute p' s' u h whole
          (omega (arith, k, length-drop_lt (suc n) x xs (omega arith))) pr' back in
      (
        w',
        turn
            ∙ ap (λ m. the_pages fuel c query (length all_results) m p' s') counted
            ∙ ends
            ∙ ap
                (λ b. some (
                  ok tt,
                  record s {
                    outside = w';
                    terminal = record s.terminal { output = b };
                    stdout = s.stdout ++ newline ∷ [];
                  },
                ))
                (regrouped s.terminal.output l ls n),
      )
