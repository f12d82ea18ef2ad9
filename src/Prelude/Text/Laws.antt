-- ===== src/Prelude/Text/Laws.antt =====
-- Splitting a text and joining its parts.
use Prim.Native.Nat.{ℕ}
use Prim.Native.Char.{Char, code}
use Prim.Native.String.{String, [], ◌∷◌, ◌++◌}
use mathlib.Core.Path.{◌≡◌, refl, ap, sym, ◌∙◌}
use mathlib.Core.Logic.{◌≢◌, inl, inr}
use mathlib.Core.Bool.{true, false}
use mathlib.Core.List.{List}
use native.Mathlib.Omega.{arith}
use text.Mathlib.TextEquality.{Char-path}
use text.Mathlib.TextLemmas.{nil-append, cons-append}
use dim.Prelude.Tests.{nat_eq, Bool-cases}
use dim.Prelude.Text.{split, contains, join, add_to_first}

nat_eq→eq : (a b : ℕ) → nat_eq a b ≡ true → a ≡ b
nat_eq→eq a b h = ground arith

-- A text with no separator is its only part.
pub split-contains :
    (s : String) (sep : ℕ) → contains s sep ≡ false → split s sep ≡ List.◌∷◌ s List.[]
unfolding split contains
split-contains [] sep h = refl
split-contains (c ∷ s) sep h = ground (arith, split-contains s sep)

-- Parts are joined by the separator that they were split at.
split-ne-nil : (s : String) (sep : ℕ) → split s sep ≢ List.[]
unfolding split
split-ne-nil [] sep h = cc
split-ne-nil (c ∷ s) sep h = ground (arith, split-ne-nil s sep)

join_to_first :
    (c : Char) (parts : List String) (sep : String)
    → parts ≢ List.[]
    → join (add_to_first c parts) sep ≡ c ∷ join parts sep
unfolding join
join_to_first c List.[] sep h = absurd (h refl)
join_to_first c (List.◌∷◌ p List.[]) sep h = refl
join_to_first c (List.◌∷◌ p (List.◌∷◌ q parts)) sep h = cons-append c p _

join_nil :
    (d : Char) (parts : List String)
    → parts ≢ List.[]
    → join (List.◌∷◌ "" parts) (d ∷ []) ≡ d ∷ join parts (d ∷ [])
unfolding join
join_nil d List.[] h = absurd (h refl)
join_nil d (List.◌∷◌ p parts) h = nil-append _ ∙ cons-append d [] _ ∙ ap (λ s. d ∷ s) (nil-append _)

pub join-split : (d : Char) (s : String) → join (split s (code d)) (d ∷ []) ≡ s
unfolding split
join-split d [] = unfold join in refl
join-split d (c ∷ s) = elim (Bool-cases (nat_eq (code c) (code d))) [
  | inl same ↦ rw same (
      join_nil d (split s (code d)) (split-ne-nil s (code d))
      ∙ ap (λ r. d ∷ r) (join-split d s)
      ∙ ap (λ x. x ∷ s) (sym (Char-path c d (nat_eq→eq (code c) (code d) same))))
  | inr other ↦ rw other (
      join_to_first c (split s (code d)) (d ∷ []) (split-ne-nil s (code d))
      ∙ ap (λ r. c ∷ r) (join-split d s))
]

-- A text that is put together from a part with no separator, the separator and a rest.
pub split-append :
    (d : Char) (k s : String)
    → contains k (code d) ≡ false
    → split (k ++ (d ∷ s)) (code d) ≡ List.◌∷◌ k (split s (code d))
unfolding split contains
split-append d [] s h =
    let same : nat_eq (code d) (code d) ≡ true = ground arith in rw (nil-append, same)
split-append d (c ∷ k) s h =
    let other : nat_eq (code c) (code d) ≡ false = ground arith in
    rw (cons-append, other) (ap (add_to_first c) (split-append d k s (ground arith)))

-- A text that splits in two is the two parts around the separator.
pub split-eq-two :
    (d : Char) (l k v : String)
    → split l (code d) ≡ List.◌∷◌ k (List.◌∷◌ v List.[])
    → l ≡ k ++ ((d ∷ []) ++ v)
split-eq-two d l k v h =
    sym (join-split d l) ∙ ap (λ parts. join parts (d ∷ [])) h ∙ unfold join in refl

-- The same, with the separator as a text of its own.
pub split-append_separator :
    (d : Char) (k s : String)
    → contains k (code d) ≡ false
    → split (k ++ ((d ∷ []) ++ s)) (code d) ≡ List.◌∷◌ k (split s (code d))
split-append_separator d k s h = rw cons-append (rw nil-append (split-append d k s h))
