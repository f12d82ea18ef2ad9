-- ===== src/Index/Hooks.antt =====
-- lib/index/config.go: the hooks of the index.
-- A template is of a type `T`; `parse` stands for `template.New(name).Funcs(funcMap).Parse`, which text
-- templates are not modelled beyond.
pub mod Laws
use dim.Prelude.{ℕ, ◌+◌, String, Bool, ◌||◌, Option, none, some, List, [], ◌∷◌, ◌==◌, if◌then◌else◌}
use dim.Prelude.Errors.{Error, error_text, message, Result, ok, err, panic}
use Prim.Native.String
use dim.Types.{ActionType, push_action, delete_action, IndexImage}

pub record Hook (T : Type 0) : Type 0 where
  pub event : ActionType
  pub action : String
  pub eval : Option T

abbrev pub is_known : ActionType → Bool
is_known event = event == push_action || event == delete_action

-- `name` is "hook_" with the number, and `describe` the "%v" of a hook.
module _ {T : Type 0} (parse : String → String → Result T) (name : ℕ → String) where
  abbrev unknown : ActionType → Error
  unknown event =
      message (String.◌++◌ "Unknown event " (String.◌++◌ event ". Only push and delete supported"))

  abbrev failed_to_parse : ℕ → Error → Error
  failed_to_parse i e = message (
      String.◌++◌ "Failed to parse "
        (String.◌++◌ (name (i + 1)) (String.◌++◌ " : " (error_text e))))

  -- The body of the loop, for the hook with the index `i`.
  unfoldable pub parse_hook : ℕ → Hook T → Result T
  parse_hook i h =
      if is_known h.event
      then elim (parse (name (i + 1)) h.action) [
        | ok tpl ↦ ok tpl
        | err e ↦ err (failed_to_parse i e)
        | panic ↦ panic
      ]
      else err (unknown h.event)

  -- The result, and the hooks as the loop leaves them: up to an error they hold their templates.
  unfoldable pub parse_from : ℕ → List (Hook T) → Result (Unit {0}) × List (Hook T)
  parse_from i [] = (ok tt, [])
  parse_from i (h ∷ hooks) = elim (parse_hook i h) [
    | ok tpl ↦
        let (r, parsed) = parse_from (i + 1) hooks in (r, record h { eval = some tpl } ∷ parsed)
    | err e ↦ (err e, h ∷ hooks)
    | panic ↦ (panic, h ∷ hooks)
  ]

  unfoldable pub parse_hooks : List (Hook T) → Result (Unit {0}) × List (Hook T)
  parse_hooks hooks = parse_from 0 hooks

unfoldable pub get_hooks : {T : Type 0} → List (Hook T) → ActionType → List (Hook T)
get_hooks [] event = []
get_hooks (h ∷ hooks) event =
    let rest = get_hooks hooks event in if h.event == event then h ∷ rest else rest

module _ {T : Type 0} (execute : T → IndexImage → Result (Unit {0}))
    (describe : Hook T → String) where
  unfoldable pub eval_hook : Hook T → IndexImage → Result (Unit {0})
  eval_hook h image = elim h.eval [
    | none ↦ err (message (String.◌++◌ "Cannot eval hook, it has no template : " (describe h)))
    | some tpl ↦ execute tpl image
  ]
