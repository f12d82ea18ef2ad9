-- ===== src/Environment.antt =====
-- lib/environment/environment.go: values that travel in a context.
use dim.Prelude.{String, ◌≡◌, refl, Option, none, some, List, [], ◌∷◌, ◌==◌, if◌then◌else◌}
use dim.Types.{Time}

-- `interface{}` values: the two kinds that the program stores.
pub data Value : Type 0 where
  text : String → Value
  time : Time → Value

-- A context is the chain of its `WithValue` layers, the newest first.
abbrev pub Context : Type 0
Context = List (String × Value)

abbrev pub version_key : String
version_key = "dimVersion"

abbrev pub start_time_key : String
start_time_key = "startTime"

unfoldable pub set : Context → String → Value → Context
set ctx key value = (key, value) ∷ ctx

unfoldable pub get : Context → String → Option Value
get [] key = none
get ((k, v) ∷ ctx) key = if k == key then some v else get ctx key

-- The newest value of a key is read, and the other keys keep theirs.
pub get-set :
    (ctx : Context) (key other : String) (value : Value)
    → get (set ctx key value) other ≡ (if key == other then some value else get ctx other)
unfolding get set
get-set ctx key other value = refl
