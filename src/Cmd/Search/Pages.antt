-- ===== src/Cmd/Search/Pages.antt =====
-- What the pages of a search leave on the terminal.
use dim.Prelude.{
  ℕ, zero, suc, String, ◌≡◌, refl, sym, ap, ◌∙◌, false, some, List, [], ◌∷◌, ◌++◌, map, length,
  take, drop,
}
use dim.Prelude.Errors.{Result, ok}
use dim.Prelude.Int.{ℤ}
use mathlib.Core.List.{append-nil, append_assoc}
use dim.Types.{Time, SearchResult}
use dim.Cli.Format.{Bytes}
use dim.Cli.Printer.{Terminal, newline, print, Renders, done, more, join_lines}
use dim.Cli.TabPrinter.{TabPrinter, bulk_append, render, widths_of}
use dim.Cli.TabPrinter.Laws.{print_all-Renders}
use dim.Cli.TabPrinter
use dim.Cli.TemplatePrinter.{TemplatePrinter, print_all-bulk_append}
use dim.Cli.TemplatePrinter
use dim.Cmd.Search.Output.{
  Printer, tab, templated, cells, print_append, print_appends, print_all, as_tab, as_templated,
}

-- The lines behind others.
abbrev pub more_lines : List Bytes → Bytes
more_lines [] = []
more_lines (l ∷ ls) = newline ∷ join_lines (l ∷ ls)

pub join_lines-append :
    (l : Bytes) (ls ms : List Bytes)
    → join_lines ((l ∷ ls) ++ ms) ≡ join_lines (l ∷ ls) ++ more_lines ms
join_lines-append l [] [] = sym (append-nil l)
join_lines-append l [] (m ∷ ms) = refl
join_lines-append l (k ∷ ls) ms =
    ap (λ x. l ++ (newline ∷ x)) (join_lines-append k ls ms)
    ∙ sym (append_assoc l (newline ∷ join_lines (k ∷ ls)) (more_lines ms))

pub Renders-split :
    {Row : Type 0} {execute : Row → Result Bytes} {rows : List Row} {lines : List Bytes} (n : ℕ)
    → Renders execute rows lines
    → Renders execute (take n rows) (take n lines) × Renders execute (drop n rows) (drop n lines)
Renders-split zero r = (done, r)
Renders-split (suc n) done = (done, done)
Renders-split (suc n) (more e r) = let (a, b) = Renders-split n r in (more e a, b)

module _ (bytes : String → Bytes) (age : Time → String)
    (parse : String → Result (SearchResult → Result Bytes)) where
  -- Everything was printed, and a row is printed as `execute` writes it.
  pub data Prints (execute : SearchResult → Result Bytes) : Printer → Type 0 where
    by_template :
        (p : TemplatePrinter SearchResult)
        → p.position ≡ length p.rows
        → parse p.template ≡ ok execute
        → Prints execute (templated p)
    by_table :
        (p : TabPrinter) (ws : List ℤ)
        → p.position ≡ length p.rows
        → p.widths ≡ some ws
        → ((r : SearchResult) → execute r ≡ render ws p.separator (cells bytes age parse r))
        → Prints execute (tab p)

  appends-templated :
      (rs : List SearchResult) (p : TemplatePrinter SearchResult)
      → print_appends bytes age parse rs (templated p)
        ≡ templated (TemplatePrinter.bulk_append rs p)
  unfolding print_appends print_append TemplatePrinter.bulk_append TemplatePrinter.append
  appends-templated [] p = ap (λ x. templated (record p { rows = x })) (sym (append-nil p.rows))
  appends-templated (r ∷ rs) p =
      appends-templated rs (TemplatePrinter.append r p)
      ∙ ap (λ x. templated (record p { rows = x })) (append_assoc p.rows (r ∷ []) rs)

  abbrev pub all_cells : List SearchResult → List (List Bytes)
  all_cells rs = map (cells bytes age parse) rs

  pub appends-tab :
      (rs : List SearchResult) (p : TabPrinter)
      → print_appends bytes age parse rs (tab p) ≡ tab (bulk_append (all_cells rs) p)
  unfolding print_appends print_append bulk_append TabPrinter.append
  appends-tab [] p = ap (λ x. tab (record p { rows = x })) (sym (append-nil p.rows))
  appends-tab (r ∷ rs) p =
      appends-tab rs (TabPrinter.append (cells bytes age parse r) p)
      ∙ ap (λ x. tab (record p { rows = x }))
          (append_assoc p.rows (cells bytes age parse r ∷ []) (all_cells rs))

  pub Renders-cells :
      {execute : SearchResult → Result Bytes} {rs : List SearchResult} {lines : List Bytes}
      (ws : List ℤ) (sep : ℕ)
      → ((r : SearchResult) → execute r ≡ render ws sep (cells bytes age parse r))
      → Renders execute rs lines
      → Renders (render ws sep) (all_cells rs) lines
  Renders-cells ws sep same done = done
  Renders-cells ws sep same (more {row} e r) =
      more (sym (same row) ∙ e) (Renders-cells ws sep same r)

  -- The result of printing rows that were added.
  abbrev pub Adds :
      (SearchResult → Result Bytes) → Printer → Terminal → List SearchResult → List Bytes → Type 0
  Adds execute p t rs lines =
      (p' : Printer) × (print_all bytes age parse false (print_appends bytes age parse rs p) t
        ≡ (ok tt, p', print (join_lines lines) t))
      × Prints execute p'

  pub Prints-Adds :
      {execute : SearchResult → Result Bytes} {p : Printer} (t : Terminal) (rs : List SearchResult)
      (lines : List Bytes)
      → Prints execute p
      → Renders execute rs lines
      → Adds execute p t rs lines
  unfolding print_all bulk_append TemplatePrinter.bulk_append widths_of
  Prints-Adds {execute} t rs lines (by_template p position parsed) r = (
    templated (record p { rows = p.rows ++ rs; position = length (p.rows ++ rs) }),
    ap (λ q. print_all bytes age parse false q t) (appends-templated rs p)
        ∙ ap as_templated (print_all-bulk_append parse p t rs lines execute position parsed r),
    by_template _ refl parsed,
  )
  Prints-Adds t rs lines (by_table p ws position computed same) r = (
    tab (record p {
      rows = p.rows ++ all_cells rs;
      widths = some ws;
      position = length (p.rows ++ all_cells rs);
    }),
    ap (λ q. print_all bytes age parse false q t) (appends-tab rs p)
        ∙ ap as_tab (
            print_all-Renders (bulk_append (all_cells rs) p) t ws p.rows (all_cells rs) lines refl
              position (rw computed) (Renders-cells ws p.separator same r)),
    by_table _ ws refl refl same,
  )
