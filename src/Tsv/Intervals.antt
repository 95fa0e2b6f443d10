-- ===== src/Tsv/Intervals.antt =====
-- internal/tsv/format.go: an interval as text.
pub mod Total
use pgedge_postgres_mcp.Prelude.{ℕ, String, List, [], ◌∷◌, ◌++◌, if◌then◌else◌, codes}
use pgedge_postgres_mcp.Tsv.Integers.{ℤ, quot, rem, is_zero}

-- The fields of `pgtype.Interval` that are read
pub record Interval : Type 0 where
  pub months : ℤ
  pub days : ℤ
  pub microseconds : ℤ

-- What `formatInterval` divides the microseconds into
pub record Clock : Type 0 where
  pub hours : ℤ
  pub minutes : ℤ
  pub seconds : ℤ
  pub micros_remainder : ℤ

abbrev pub clock : ℤ → Clock
clock microseconds =
    let total = quot microseconds 1000000 in
    record {
      hours = quot total 3600;
      minutes = quot (rem total 3600) 60;
      seconds = rem total 60;
      micros_remainder = rem microseconds 1000000;
    }

module _ (decimal six_digits : ℤ → List ℕ) where
  -- `if z != 0 { parts = append(parts, ...) }`
  abbrev pub part : ℤ → String → List (List ℕ)
  part z unit = if is_zero z then [] else (decimal z ++ codes unit) ∷ []

  abbrev pub seconds_part : ℤ → ℤ → List (List ℕ)
  seconds_part seconds remainder =
      if is_zero remainder
      then part seconds " second(s)"
      else (decimal seconds ++ 46 ∷ (six_digits remainder ++ codes " second(s)")) ∷ []

  abbrev pub clock_parts : Clock → List (List ℕ)
  clock_parts c =
      part c.hours " hour(s)"
      ++ (part c.minutes " minute(s)" ++ seconds_part c.seconds c.micros_remainder)

  -- `parts`
  unfoldable pub interval_parts : Interval → List (List ℕ)
  interval_parts val =
      (part (quot val.months 12) " year(s)" ++ part (rem val.months 12) " month(s)")
      ++ (part val.days " day(s)" ++ clock_parts (clock val.microseconds))

  abbrev pub spaced : List (List ℕ) → List ℕ
  spaced [] = codes "0"
  spaced (x ∷ []) = x
  spaced (x ∷ y ∷ xs) = x ++ 32 ∷ spaced (y ∷ xs)

  -- `formatInterval`
  unfoldable pub format_interval : Interval → List ℕ
  unfolding interval_parts
  format_interval val = spaced (interval_parts val)
