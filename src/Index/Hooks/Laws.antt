-- ===== src/Index/Hooks/Laws.antt =====
-- What the parsed hooks of the index are.
use dim.Prelude.{
  ℕ, ◌+◌, String, ◌≡◌, refl, inl, inr, some, List, [], ◌∷◌, arith, ◌==◌, eq_iff, Bool-cases, All,
}
use dim.Prelude.Errors.{Result, ok, Result-cases}
use dim.Types.{ActionType}
use dim.Index.Hooks.{Hook, parse_hook, parse_from, parse_hooks, get_hooks}

module _ {T : Type 0} (parse : String → String → Result T) (name : ℕ → String) where
  -- A hook that has the template of its own action.
  abbrev pub Ready : Hook T → Type 0
  Ready h = (tpl : T) × (i : ℕ) × (h.eval ≡ some tpl) × (parse (name i) h.action ≡ ok tpl)

  parse_hook-eq-ok :
      (i : ℕ) (h : Hook T) (tpl : T)
      → parse_hook parse name i h ≡ ok tpl
      → parse (name (i + 1)) h.action ≡ ok tpl
  unfolding parse_hook
  parse_hook-eq-ok i h tpl e = ground arith

  parse_from-Ready :
      (i : ℕ) (hooks : List (Hook T))
      → (parse_from parse name i hooks).0 ≡ ok tt
      → All Ready ((parse_from parse name i hooks).1)
  unfolding parse_from
  parse_from-Ready i [] e = tt
  parse_from-Ready i (h ∷ hooks) e = elim (Result-cases (parse_hook parse name i h)) [
    | inl (tpl, got) ↦
        rw (got, parse_from)
          (
            (tpl, i + 1, refl, parse_hook-eq-ok i h tpl got),
            parse_from-Ready (i + 1) hooks (rw (got, parse_from) at e),
          )
    | inr (inl (x, bad)) ↦ cc (rw (bad, parse_from) at e)
    | inr (inr bad) ↦ cc (rw (bad, parse_from) at e)
  ]

  All-get_hooks :
      (P : Hook T → Type 0) (hooks : List (Hook T)) (event : ActionType)
      → All P hooks
      → All (λ h. (h.event ≡ event) × P h) (get_hooks hooks event)
  unfolding get_hooks
  All-get_hooks P [] event a = tt
  All-get_hooks P (h ∷ hooks) event (p, ps) = elim (Bool-cases (h.event == event)) [
    | inl same ↦ rw same (((eq_iff h.event event).0 same, p), All-get_hooks P hooks event ps)
    | inr other ↦ rw other (All-get_hooks P hooks event ps)
  ]

  -- Once the hooks are parsed without an error, each hook that an event triggers was configured for
  -- that event and holds the template of its own action.
  pub get_hooks-Ready :
      (hooks : List (Hook T)) (event : ActionType)
      → (parse_hooks parse name hooks).0 ≡ ok tt
      → All (λ h. (h.event ≡ event) × Ready h) (get_hooks ((parse_hooks parse name hooks).1) event)
  unfolding parse_hooks
  get_hooks-Ready hooks event e = All-get_hooks Ready _ event (parse_from-Ready 0 hooks e)
