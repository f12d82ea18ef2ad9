-- ===== src/Cmd/Search.antt =====
-- `runSearch` of cmd/search.go: the pages of a search, fetched one after the other and printed.
-- The rows that are handed to the printer are collected in order. `search` is the client's `Search` for
-- the query, by offset. The loop has no bound of its own: it runs on fuel, and `none` is a loop that
-- has not ended within it.
pub mod Output
pub mod Pages
pub mod Runs
pub mod Lines
pub mod Table
mod Tests
use dim.Prelude.{
  ℕ, zero, suc, ◌+◌, ◌<◌, String, ◌≡◌, refl, ap, ◌∙◌, subst, Bool, true, false, Option, none, some,
  List, [], ◌∷◌, ◌++◌, arith, ltb, if◌then◌else◌, lt→ltb, length, take, drop, length-append,
  drop-length-append,
}
use dim.Prelude.Errors.{Error, error_text, message, Result, ok, err, panic}
use Prim.Native.String
use dim.Prelude.Int.{ℤ}
use dim.Prelude.Decimal.{itoa}
use dim.Prelude.Text.{join}
use dim.Utils.{flat_map}
use dim.Types.{SearchResult, Time}

pub record SearchPage (A : Type 0) : Type 0 where
  pub num_results : ℕ
  pub results : List A

-- The query is a simple one or an advanced one.
unfoldable pub query_and_advanced : String → Bool → String × String
query_and_advanced query advanced = if advanced then ("", query) else (query, "")

unfoldable pub guess_template : Bool → String → String
guess_template quiet tpl = if quiet then "{{.FullName}}" else tpl

unfoldable pub int_to_string_slice : List ℤ → List String
int_to_string_slice [] = []
int_to_string_slice (n ∷ slice) = itoa n ∷ int_to_string_slice slice

-- The row that `printAppend` hands to the table; `age` is `ParseDuration` of the time since then.
unfoldable pub print_row : (age : Time → String) → SearchResult → List String
print_row age r =
    r.name
    ∷ r.tag
    ∷ age r.created
    ∷ flat_map r.label
    ∷ join r.volumes ","
    ∷ join (int_to_string_slice r.exposed_ports) ","
    ∷ []

module _ {A : Type 0} (search : ℕ → Result (SearchPage A)) where
  abbrev failed_search : Error → Error
  failed_search e = message (String.◌++◌ "Failed to search images : " (error_text e))

  -- The loop: `fetched` results are printed of the `num` that the last answer announced.
  unfoldable pub fetch : ℕ → (num fetched : ℕ) → List A → Option (Result (List A))
  fetch zero num fetched shown = none
  fetch (suc fuel) num fetched shown = elim (ltb fetched num) [
    | false ↦ some (ok shown)
    | true ↦ elim (search fetched) [
      | ok sr ↦ fetch fuel sr.num_results (fetched + length sr.results) (shown ++ sr.results)
      | err e ↦ some (err (failed_search e))
      | panic ↦ some panic
    ]
  ]

  -- No row where nothing is found.
  unfoldable pub run_search : ℕ → Option (Result (List A))
  run_search fuel = elim (search 0) [
    | ok sr ↦ elim (ltb 0 sr.num_results) [
      | true ↦ fetch fuel sr.num_results (length sr.results) sr.results
      | false ↦ some (ok [])
    ]
    | err e ↦ some (err (failed_search e))
    | panic ↦ some panic
  ]

-- A server that holds `all` results answers with the page of at most `n` behind the offset.
abbrev pub serves : {A : Type 0} → List A → ℕ → ℕ → Result (SearchPage A)
serves all_results n offset =
    ok (record { num_results = length all_results; results = take n (drop offset all_results) })

module _ {A : Type 0} where
  pub take-drop : (n : ℕ) (xs : List A) → take n xs ++ drop n xs ≡ xs
  take-drop zero xs = refl
  take-drop (suc n) [] = refl
  take-drop (suc n) (x ∷ xs) = ap (λ r. x ∷ r) (take-drop n xs)

  pub length-drop_lt :
      (n : ℕ) (x : A) (xs : List A) → 0 < n → length (drop n (x ∷ xs)) < length (x ∷ xs)
  length-drop_lt zero x xs h = absurd (omega (arith, h))
  length-drop_lt (suc n) x xs h =
      let whole = ap length (take-drop n xs) in
      omega (arith, whole, length-append (take n xs) (drop n xs))

  pub append_nil : (xs : List A) → xs ++ [] ≡ xs
  append_nil [] = refl
  append_nil (x ∷ xs) = ap (λ r. x ∷ r) (append_nil xs)

  append_assoc : (xs ys zs : List A) → (xs ++ ys) ++ zs ≡ xs ++ (ys ++ zs)
  append_assoc [] ys zs = refl
  append_assoc (x ∷ xs) ys zs = ap (λ r. x ∷ r) (append_assoc xs ys zs)

  -- The state of the loop, with the results that are still to come.
  abbrev Ends : ℕ → ℕ → List A → ℕ → List A → Type 0
  Ends n fuel all_results fetched shown =
      fetch (serves all_results n) fuel (length all_results) fetched shown ≡ some (ok all_results)

  fetch-one :
      (n fuel : ℕ) (shown : List A) (x : A) (xs : List A)
      → Ends n fuel
          (shown ++ x ∷ xs)
          (length shown + length (take n (x ∷ xs)))
          (shown ++ take n (x ∷ xs))
      → Ends n (suc fuel) (shown ++ x ∷ xs) (length shown) shown
  unfolding fetch
  fetch-one n fuel shown x xs later =
      let more : ltb (length shown) (length (shown ++ x ∷ xs)) ≡ true =
        ground (arith, length-append shown (x ∷ xs)) in
      rw (more, drop-length-append, fetch) later

  fetch-serves :
      (n fuel : ℕ) (shown rest : List A)
      → 0 < n
      → length rest < fuel
      → Ends n fuel (shown ++ rest) (length shown) shown
  fetch-serves n zero shown rest h k = absurd (omega (arith, k))
  fetch-serves n (suc fuel) shown [] h k =
      let over : ltb (length shown) (length (shown ++ [])) ≡ false =
        ground (arith, length-append shown []) in
      unfold fetch in rw (over, append_nil, fetch)
  fetch-serves n (suc fuel) shown (x ∷ xs) h k =
      let whole =
        append_assoc shown (take n (x ∷ xs)) (drop n (x ∷ xs))
        ∙ ap (λ r. shown ++ r) (take-drop n (x ∷ xs)) in
      let later =
        fetch-serves n fuel (shown ++ take n (x ∷ xs)) (drop n (x ∷ xs)) h
          (omega (arith, k, length-drop_lt n x xs h)) in
      fetch-one n fuel shown x xs (
        subst (λ m. Ends n fuel (shown ++ x ∷ xs) m (shown ++ take n (x ∷ xs)))
          (length-append shown (take n (x ∷ xs)))
          (subst
            (λ rs. Ends n fuel rs (length (shown ++ take n (x ∷ xs))) (shown ++ take n (x ∷ xs)))
            whole later))

  -- Against a server that holds a list of results and answers with pages of a size that is not 0, the
  -- command ends, with one round for each result and one more at most, and prints every result once,
  -- in the order of the server.
  pub run_search-serves :
      (n fuel : ℕ) (all_results : List A)
      → 0 < n
      → length all_results < fuel
      → run_search (serves all_results n) fuel ≡ some (ok all_results)
  unfolding run_search
  run_search-serves n fuel [] h k = refl
  run_search-serves n fuel (x ∷ xs) h k =
      let more : ltb 0 (length (x ∷ xs)) ≡ true = ground arith in
      rw (more, run_search)
        (subst (λ rs. Ends n fuel rs (length (take n (x ∷ xs))) (take n (x ∷ xs)))
          (take-drop n (x ∷ xs))
          (fetch-serves n fuel (take n (x ∷ xs)) (drop n (x ∷ xs)) h
            (omega (arith, k, length-drop_lt n x xs h))))

  -- A server that announces more results than were printed, but answers with an empty page, is asked
  -- for the same page again and again: the loop does not end on any fuel.
  pub fetch-empty_pages :
      (search : ℕ → Result (SearchPage A)) (num fetched : ℕ) (shown : List A)
      → (search fetched ≡ ok (record { num_results = num; results = [] }))
      → fetched < num
      → (fuel : ℕ) → fetch search fuel num fetched shown ≡ none
  unfolding fetch
  fetch-empty_pages search num fetched shown empty more zero = refl
  fetch-empty_pages search num fetched shown empty more (suc fuel) =
      let on = lt→ltb _ _ more in
      let same : fetched + length {A = A} [] ≡ fetched = omega arith in
      rw (on, empty, same, append_nil, fetch)
        (fetch-empty_pages search num fetched shown empty more fuel)
