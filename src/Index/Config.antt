-- ===== src/Index/Config.antt =====
-- `Config` of lib/index/config.go: the hooks with the functions `F` that their templates call.
use dim.Prelude.{ℕ, String, Option, none, some, List, []}
use dim.Prelude.Dict.{Dict, insert}
use dim.Prelude.Errors.{Result}
use dim.Index.Hooks.{Hook, parse_hooks}

pub record Config (T F : Type 0) : Type 0 where
  pub directory : String
  pub hooks : List (Hook T)
  pub func_map : Option (Dict F)

abbrev entries_of : {F : Type 0} → Option (Dict F) → Dict F
entries_of none = []
entries_of (some m) = m

module _ {T F : Type 0} where
  -- The functions that are registered; a map that is nil has none.
  abbrev pub functions : Config T F → Dict F
  functions c = entries_of c.func_map

  unfoldable pub register_function : String → F → Config T F → Config T F
  register_function name function c = record c {
    func_map = some (insert name function (functions c));
  }

  module _ (parse : Dict F → String → String → Result T) (name : ℕ → String) where
    unfoldable pub parse_config : Config T F → Result (Unit {0}) × Config T F
    parse_config c =
        let (r, parsed) = parse_hooks (parse (functions c)) name c.hooks in
        (r, record c { hooks = parsed })
