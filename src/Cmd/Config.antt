-- ===== src/Cmd/Config.antt =====
-- `readConfigHooks` of cmd/root.go: the configuration of the index. `viper.UnmarshalKey` gives its hooks.
use dim.Prelude.{
  ℕ, String, ◌≡◌, refl, sym, ap, ◌∙◌, subst, inl, inr, Option, none, some, List, [], ◌∷◌, ◌==◌,
  eq_iff, Bool-cases, All,
}
use dim.Prelude.Dict.{Dict, lookup, lookup-insert, DistinctKeys}
use dim.Prelude.Errors.{Result, ok, err, panic, ok_injective}
use dim.Types.{ActionType}
use dim.Index.Hooks.{Hook, get_hooks}
use dim.Index.Hooks.Laws.{Ready, get_hooks-Ready}
use dim.Index.Config.{Config, functions, register_function, parse_config}

abbrev given_or : {V : Type 0} → Option V → Option V → Option V
given_or none o = o
given_or (some v) o = some v

module _ {T F : Type 0} where
  -- The loop over the functions.
  unfoldable pub register_all : Dict F → Config T F → Config T F
  register_all [] c = c
  register_all ((n, f) ∷ fns) c = register_all fns (register_function n f c)

  abbrev pub new_config : List (Hook T) → Config T F
  new_config hooks = record { directory = ""; hooks = hooks; func_map = none }

  abbrev pub with_config : Result (Unit {0}) × Config T F → Result (Config T F)
  with_config (ok done, c) = ok c
  with_config (err e, c) = err e
  with_config (panic, c) = panic

  module _ (parse : Dict F → String → String → Result T) (hook_name : ℕ → String) where
    unfoldable pub read_config_hooks : Result (List (Hook T)) → Dict F → Result (Config T F)
    read_config_hooks (ok hooks) fns =
        with_config (parse_config parse hook_name (register_all fns (new_config hooks)))
    read_config_hooks (err e) fns = err e
    read_config_hooks panic fns = panic

  register_all-hooks : (fns : Dict F) (c : Config T F) → (register_all fns c).hooks ≡ c.hooks
  unfolding register_all register_function
  register_all-hooks [] c = refl
  register_all-hooks ((n, f) ∷ fns) c = register_all-hooks fns (register_function n f c)

  lookup-register_all :
      (fns : Dict F) (c : Config T F) (n : String)
      → DistinctKeys fns
      → lookup n (functions (register_all fns c)) ≡ given_or (lookup n fns) (lookup n (functions c))
  unfolding register_all register_function lookup
  lookup-register_all [] c n h = refl
  lookup-register_all ((k, f) ∷ fns) c n (fresh, h) =
      let rest = lookup-register_all fns (register_function k f c) n h in
      let one = lookup-insert k n f (functions c) in
      elim (Bool-cases (k == n)) [
        | inl same ↦
            let missing : lookup n fns ≡ none =
              ap (λ x. lookup x fns) (sym ((eq_iff k n).0 same)) ∙ fresh in
            rest ∙ rw (missing, one, same) refl
        | inr other ↦ rest ∙ rw (one, other) refl
      ]

  module _ (parse : Dict F → String → String → Result T) (hook_name : ℕ → String) where
    with_config-ok :
        (p : Result (Unit {0}) × Config T F) (cfg : Config T F)
        → with_config p ≡ ok cfg
        → (p.0 ≡ ok tt) × (p.1 ≡ cfg)
    with_config-ok (ok done, c) cfg h = (refl, ok_injective h)
    with_config-ok (err e, c) cfg h = absurd (cc h)
    with_config-ok (panic, c) cfg h = absurd (cc h)

    given_or_none : (n : String) (o : Option F) → given_or o (lookup n []) ≡ o
    unfolding lookup
    given_or_none n none = refl
    given_or_none n (some f) = refl

    abbrev pub IsRead : Dict F → ActionType → Config T F → Type 0
    IsRead fns event cfg =
        ((n : String) → lookup n (functions cfg) ≡ lookup n fns)
        × All (λ h. (h.event ≡ event) × Ready (parse (functions cfg)) hook_name h)
            (get_hooks cfg.hooks event)

    -- Where the configuration of the index is read without an error, every function that is to be registered,
    -- and no other, is known to the templates, and each hook that an event triggers was configured for that
    -- event and holds the template of its own action, parsed with these functions.
    pub read_config_hooks-Ready :
        (hooks : List (Hook T)) (fns : Dict F) (cfg : Config T F) (event : ActionType)
        → DistinctKeys fns
        → read_config_hooks parse hook_name (ok hooks) fns ≡ ok cfg
        → IsRead fns event cfg
    unfolding read_config_hooks parse_config
    read_config_hooks-Ready hooks fns cfg event distinct h =
        let c = register_all fns (new_config hooks) in
        let (parsed, same) = with_config-ok (parse_config parse hook_name c) cfg h in
        let known : (n : String) → lookup n (functions c) ≡ lookup n fns = λ n.
          lookup-register_all fns (new_config hooks) n distinct ∙ given_or_none n (lookup n fns) in
        subst (IsRead fns event) same
          (known, get_hooks-Ready (parse (functions c)) hook_name c.hooks event parsed)
