-- ===== src/Utils/Duration.antt =====
-- `ParseDuration` and `parseHours` of lib/utils/utils.go: how long ago, in words. Go's float64 is an
-- interface: its arithmetic rounds, and nothing here depends on how.
use dim.Prelude.{ℕ, String, Bool, ◌&&◌, if◌then◌else◌}
use Prim.Native.String
use dim.Prelude.Int.{ℤ}

-- float64, with the methods of `time.Duration` that return one and the verb "%0.f".
pub record Float (F : Type 0) : Type 0 where
  pub number : ℕ → F
  pub one_and_a_half : F
  pub less_than : F → F → Bool
  pub at_least : F → F → Bool
  pub quotient : F → F → F
  pub hours : ℤ → F
  pub minutes : ℤ → F
  pub seconds : ℤ → F
  pub rounded_text : F → String

module _ {F : Type 0} (float : Float F) where
  abbrev pub in_units : F → String → String
  in_units x units = String.◌++◌ (float.rounded_text x) (String.◌++◌ units " ago")

  unfoldable pub parse_hours : F → String
  parse_hours h =
      if float.less_than h (float.number 48)
      then in_units h " hours"
      else if float.less_than h (float.number 336)
      then in_units (float.quotient h (float.number 24)) " days"
      else if float.less_than h (float.number 1344)
      then in_units (float.quotient h (float.number 168)) " weeks"
      else in_units (float.quotient h (float.number 672)) " months"

  unfoldable pub parse_duration : ℤ → String
  parse_duration since =
      if float.less_than (float.number 24) (float.hours since)
      then parse_hours (float.hours since)
      else if float.at_least (float.minutes since) (float.number 90)
      then in_units (float.hours since) " hours"
      else if float.less_than (float.minutes since) (float.number 90)
          && float.less_than (float.number 60) (float.minutes since)
      then "1 hour ago"
      else if float.less_than (float.number 90) (float.seconds since)
      then in_units (float.minutes since) " minutes"
      else if float.less_than (float.number 60) (float.seconds since)
      then "1 minute ago"
      else if float.less_than (float.seconds since) float.one_and_a_half
      then "1 second ago"
      else in_units (float.seconds since) " seconds"
