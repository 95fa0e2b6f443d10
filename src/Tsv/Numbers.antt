-- ===== src/Tsv/Numbers.antt =====
-- internal/tsv/format.go: a numeric of PostgreSQL as text.
pub mod Read
pub mod Value
use pgedge_postgres_mcp.Prelude.{
  ℕ, zero, suc, ◌-◌, Option, none, some, List, [], ◌∷◌, ◌++◌, leb, ◌==◌, if◌then◌else◌, length,
  codes,
}
use pgedge_postgres_mcp.Tsv.Integers.{ℤ, pos, negsuc}

-- A valid `pgtype.Numeric`: its exponent is above the least 32-bit integer
pub data Numeric : Type 0 where
  not_a_number : Numeric
  infinity : Numeric
  negative_infinity : Numeric
  finite : Option ℤ → ℤ → Numeric

-- `strings.Repeat("0", n)`
abbrev pub zeros : ℕ → List ℕ
zeros zero = []
zeros (suc n) = 48 ∷ zeros n

-- The loop that pads with zeros
unfoldable pub pad : ℕ → ℕ → List ℕ → List ℕ
pad zero places s = s
pad (suc fuel) places s =
    let padded = pad fuel places (48 ∷ s) in if leb (length s) places then padded else s

-- `intStr[:n] + "." + intStr[n:]`
abbrev pub insert_point : ℕ → List ℕ → List ℕ
insert_point zero s = 46 ∷ s
insert_point (suc n) [] = 46 ∷ []
insert_point (suc n) (c ∷ s) = c ∷ insert_point n s

-- What is made of the digits without their sign
unfoldable pub scaled : List ℕ → ℤ → List ℕ
unfolding pad
scaled s (pos exp) = s ++ zeros exp
scaled s (negsuc exp) =
    let padded = pad (suc (suc exp)) (suc exp) s in insert_point (length padded - suc exp) padded

-- `formatNumeric`, behind the test for nil
unfoldable pub signed : List ℕ → ℤ → List ℕ
unfolding scaled
signed [] exp = scaled [] exp
signed (c ∷ s) exp = if c == 45 then 45 ∷ scaled s exp else scaled (c ∷ s) exp

-- `formatNumeric`
unfoldable pub format_numeric : (ℤ → List ℕ) → Option ℤ → ℤ → List ℕ
unfolding signed
format_numeric decimal none exp = codes "0"
format_numeric decimal (some i) exp = signed (decimal i) exp

-- The case of `FormatValue`
unfoldable pub format_pg_numeric : (ℤ → List ℕ) → Numeric → List ℕ
unfolding format_numeric
format_pg_numeric decimal not_a_number = codes "NaN"
format_pg_numeric decimal infinity = codes "Infinity"
format_pg_numeric decimal negative_infinity = codes "-Infinity"
format_pg_numeric decimal (finite i exp) = format_numeric decimal i exp
