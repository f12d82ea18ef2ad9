-- ===== src/Cmd/Hooktest.antt =====
-- `runHooktest` of cmd/hooktest.go: what the hooks of the configuration would do for an image, which is
-- read from the daemon or from its registry. A template with the functions that only print is run to the
-- lines that it prints and its error, if any.
use mathlib.Core.List.{append-nil, append_assoc}
use dim.Prelude.{
  ℕ, ◌+◌, String, ◌≡◌, refl, ◌∙◌, ◌≢◌, Bool, none, some, List, [], ◌∷◌, ◌++◌, if◌then◌else◌, All,
}
use dim.Prelude.Errors.{Error, message, Result, ok, err, panic, ◌>>=◌}
use Prim.Native.String
use dim.Prelude.Exec.{Exec, continue}
use dim.Prelude.Int.{pos}
use dim.Prelude.Decimal.{itoa}
use dim.Types.{IndexImage}
use dim.Index.Hooks.{Hook}
use dim.Index.Image.{parse}
use dim.Registry.Client.{Named, parse_tag, Repositories, repository_of}
use dim.Cmd.Names.{Settings}
use dim.Cmd.Remote.{RegistryClient, connect_registry}

-- The two outputs of the terminal.
pub record Printed : Type 0 where
  pub out : List String
  pub err_out : List String

-- An argument of a function of the hooks: a text, or another value.
pub data Argument : Type 0 where
  text : String → Argument
  other_value : Argument

-- `info`, `warn` and `error` of the test, with the level in capitals. `show` is the "%v" of the arguments
-- behind the first, which has to be a text.
unfoldable pub would_log :
    (level : String) → (show : List Argument → String) → List Argument → Result String
would_log level show (text s ∷ []) = ok (
    String.◌++◌ "Would have logged at "
      (String.◌++◌ level (String.◌++◌ " level : " (String.◌++◌ s "\n"))))
would_log level show (text s ∷ args) = ok (
    String.◌++◌ "Would have logged at " (
      String.◌++◌ level
        (String.◌++◌ " level : " (String.◌++◌ s (String.◌++◌ " " (String.◌++◌ (show args) "\n"))))))
would_log level show _ = panic

-- A panic stops the loop, an error does not.
abbrev proceed : {A : Type 0} → Result (Unit {0}) → A → A → A
proceed panic next stopped = stopped
proceed _ next stopped = next

proceed_on :
    {A : Type 0} (r : Result (Unit {0})) (next stopped : A)
    → r ≢ panic
    → proceed r next stopped ≡ next
proceed_on (ok done) next stopped lives = refl
proceed_on (err e) next stopped lives = refl
proceed_on panic next stopped lives = absurd (lives refl)

-- `execute` runs a template, `describe` is the "%v" of a hook.
module _ {T : Type 0} (execute : T → IndexImage → List String × Result (Unit {0}))
    (describe : Hook T → String) where
  abbrev no_template : Hook T → Error
  no_template h = message (String.◌++◌ "Cannot eval hook, it has no template : " (describe h))

  abbrev pub eval : Hook T → IndexImage → List String × Result (Unit {0})
  eval h image = elim h.eval [ none ↦ ([], err (no_template h)) | some tpl ↦ execute tpl image ]

  abbrev pub title : ℕ → String
  title n = String.◌++◌ "Hook #" (String.◌++◌ (itoa (pos n)) " would produce :\n")

  abbrev pub failure : ℕ → String
  failure n = String.◌++◌ "Failed to evaluate hook #" (itoa (pos n))

  abbrev pub failures : ℕ → Result (Unit {0}) → List String
  failures n (ok done) = []
  failures n _ = failure n ∷ []

  -- The loop over the hooks, from the one with the number `n`.
  unfoldable pub eval_hooks : ℕ → List (Hook T) → IndexImage → Printed → Result (Unit {0}) × Printed
  eval_hooks n [] image p = (ok tt, p)
  eval_hooks n (h ∷ hooks) image p =
      let (lines, r) = eval h image in
      let p' : Printed = record {
        out = p.out ++ title n ∷ lines;
        err_out = p.err_out ++ failures n r;
      } in
      proceed r (eval_hooks (n + 1) hooks image p') (panic, record p' { err_out = p.err_out })

  -- What the hooks print, one after the other.
  abbrev pub all_lines : ℕ → List (Hook T) → IndexImage → List String
  all_lines n [] image = []
  all_lines n (h ∷ hooks) image = (title n ∷ (eval h image).0) ++ all_lines (n + 1) hooks image

  abbrev pub all_failures : ℕ → List (Hook T) → IndexImage → List String
  all_failures n [] image = []
  all_failures n (h ∷ hooks) image = failures n (eval h image).1 ++ all_failures (n + 1) hooks image

  -- Hooks that do not panic are all evaluated, whatever their errors: each prints its title and then its
  -- lines, the failures are reported by their numbers, and the test succeeds.
  pub eval_hooks_lem :
      (n : ℕ) (hooks : List (Hook T)) (image : IndexImage) (out err_out : List String)
      → All (λ h. (eval h image).1 ≢ panic) hooks
      → eval_hooks n hooks image (record { out = out; err_out = err_out }) ≡ (
        ok tt,
        record {
          out = out ++ all_lines n hooks image;
          err_out = err_out ++ all_failures n hooks image;
        },
      )
  unfolding eval_hooks
  eval_hooks_lem n [] image out err_out safe = rw (append-nil out, append-nil err_out)
  eval_hooks_lem n (h ∷ hooks) image out err_out (lives, safe) =
      let (lines, r) = eval h image in
      proceed_on r _ _ lives
      ∙ eval_hooks_lem (n + 1) hooks image (out ++ title n ∷ lines) (err_out ++ failures n r) safe
      ∙ rw (
        append_assoc out (title n ∷ lines) (all_lines (n + 1) hooks image),
        append_assoc err_out (failures n r) (all_failures (n + 1) hooks image),
      )

module _ {W C T O R : Type 0} (registry : RegistryClient W C T O)
    (repositories : C → Repositories W R) (parse_name : String → String → Result Named)
    (parse_named : String → Result Named) (tag_of : Named → String) (settings : Settings)
    (as_index_image : String → W → Result IndexImage) where
  abbrev image_missing : Error
  image_missing = message "image name missing"

  -- The name is parsed without its registry, for the repository; the image keeps the whole name.
  abbrev remote_image : C × Named → Exec W IndexImage
  remote_image (client, n) w = (
    (repository_of (repositories client) parse_named tag_of n >>= λ repo.
        (repositories client).image repo (parse_tag n) w >>= λ image. parse n.name image),
    w,
  )

  unfoldable pub hooked_image : (remote : Bool) → String → Exec W IndexImage
  hooked_image remote image w =
      let (r, w') = connect_registry registry parse_name settings image w in
      let found = continue r remote_image w' in
      if remote then found else (as_index_image image w, w)

  -- The configuration is read before the image.
  unfoldable pub run_hooktest :
      {T' : Type 0}
      → (T' → IndexImage → List String × Result (Unit {0}))
      → (Hook T' → String)
      → Result (List (Hook T'))
      → (remote : Bool) → List String
      → W
      → (Result (Unit {0}) × Printed) × W
  run_hooktest execute describe cfg remote [] w =
      ((err image_missing, record { out = []; err_out = [] }), w)
  run_hooktest execute describe cfg remote (image ∷ args) w =
      let nothing : Printed = record { out = []; err_out = [] } in
      let (r, w') = hooked_image remote image w in
      elim cfg [
        | err e ↦ ((err e, nothing), w)
        | panic ↦ ((panic, nothing), w)
        | ok hooks ↦ elim r [
          | ok hooked ↦ (eval_hooks execute describe 0 hooks hooked nothing, w')
          | err e ↦ ((err e, nothing), w')
          | panic ↦ ((panic, nothing), w')
        ]
      ]
