-- ===== src/Utils/Order.antt =====
-- The order of texts of `sort.Strings`, and what it makes of the entries of a map.
use dim.Prelude.{
  String, ◌≡◌, refl, sym, ap, ◌∙◌, ◌⊎◌, inl, inr, true, some, List, [], ◌∷◌, map, arith, ◌==◌,
  eq_iff, Bool-cases,
}
use dim.Prelude.Dict.{Dict}
use dim.Prelude.Text.{join}
use mathlib.Core.List.{Perm, Permᴰ}
use mathlib.Core.Logic.{∥∥₁_elim}
use mathlib.Core.Path.{ap₂}
use std.HLevel.{hedberg}
use Prim.Native.Char.{code}
use text.Mathlib.TextEquality.{Char-path}
use dim.Utils.{text_le, sorted_insert, sort_strings, entry_text, flat_map}

text_le_total : (s t : String) → (text_le s t ≡ true) ⊎ (text_le t s ≡ true)
unfolding text_le
text_le_total String.[] t = inl refl
text_le_total (String.◌∷◌ c s) String.[] = inr refl
text_le_total (String.◌∷◌ c s) (String.◌∷◌ d t) = ground (arith, text_le_total s t)

text_le_trans : (s t u : String) → text_le s t ≡ true → text_le t u ≡ true → text_le s u ≡ true
unfolding text_le
text_le_trans String.[] t u h k = refl
text_le_trans (String.◌∷◌ c s) String.[] u h k = cc
text_le_trans (String.◌∷◌ c s) (String.◌∷◌ d t) String.[] h k = cc
text_le_trans (String.◌∷◌ c s) (String.◌∷◌ d t) (String.◌∷◌ e u) h k =
    ground (arith, h, k, text_le_trans s t u)

text_le_antisym : (s t : String) → text_le s t ≡ true → text_le t s ≡ true → s ≡ t
unfolding text_le
text_le_antisym String.[] String.[] h k = refl
text_le_antisym String.[] (String.◌∷◌ d t) h k = cc
text_le_antisym (String.◌∷◌ c s) String.[] h k = cc
text_le_antisym (String.◌∷◌ c s) (String.◌∷◌ d t) h k =
    let same : code c ≡ code d = ground (arith, h, k) in
    let tail = text_le_antisym s t (ground (arith, h, same)) (ground (arith, k, same)) in
    ap (λ u. String.◌∷◌ c u) tail ∙ ap (λ e. String.◌∷◌ e t) (Char-path c d same)

insert_comm :
    (s t : String) (l : List String)
    → sorted_insert s (sorted_insert t l) ≡ sorted_insert t (sorted_insert s l)
unfolding sorted_insert
insert_comm s t [] = ground (arith, text_le_total s t, text_le_antisym s t)
insert_comm s t (x ∷ l) = ground (
  arith,
  insert_comm s t l,
  text_le_total s t,
  text_le_antisym s t,
  text_le_trans s t x,
  text_le_trans t s x,
)

-- The sorted entries of a map.
abbrev entries : Dict String → List String
entries m = sort_strings (map entry_text m)

entries-Permᴰ : {m n : Dict String} → Permᴰ m n → entries m ≡ entries n
unfolding sort_strings
entries-Permᴰ Permᴰ.nil = refl
entries-Permᴰ (Permᴰ.cons {b = b} e p) =
    ap₂ (λ x l. sorted_insert (entry_text x) l) e (entries-Permᴰ p)
entries-Permᴰ (Permᴰ.swap {a = a} {b = b} {l = l} e f) =
    insert_comm (entry_text a) (entry_text b) (entries l)
    ∙ ap₂ (λ x y. sorted_insert (entry_text x) (sorted_insert (entry_text y) (entries l))) f e
entries-Permᴰ (Permᴰ.trans p q) = entries-Permᴰ p ∙ entries-Permᴰ q

flat_map-entries : (m : Dict String) → flat_map (some m) ≡ join (entries m) ", "
unfolding flat_map join sort_strings
flat_map-entries [] = refl
flat_map-entries (e ∷ m) = refl

String-discrete : Discrete String
String-discrete s t = elim (Bool-cases (s == t)) [
  | inl same ↦ yes ((eq_iff s t).0 same)
  | inr other ↦ no (λ e. ground (arith, eq_iff s t, e, other))
]

-- A map gives one text, in whatever order its entries are met.
pub flat_map-Perm : (m n : Dict String) → Perm m n → flat_map (some m) ≡ flat_map (some n)
flat_map-Perm m n p =
    ∥∥₁_elim p (hedberg String-discrete (flat_map (some m)) (flat_map (some n)))
      (λ d. flat_map-entries m ∙ ap (λ l. join l ", ") (entries-Permᴰ d) ∙ sym (flat_map-entries n))
