-- ===== src/Tsv.antt =====
-- internal/tsv/format.go: results as text with tabs between the columns. A text is the list of its
-- bytes. What the packages fmt, time and encoding/json print is a parameter, as are the values
-- that are handed to them.
pub mod Integers
pub mod Intervals
pub mod Numbers
pub mod Table
pub mod Escaped
use pgedge_postgres_mcp.Prelude.{
  ℕ, Bool, true, false, Option, none, some, List, [], ◌∷◌, ◌++◌, ◌==◌, if◌then◌else◌, codes,
}
use pgedge_postgres_mcp.Tsv.Integers.{ℤ}
use pgedge_postgres_mcp.Tsv.Intervals.{Interval, format_interval}
use pgedge_postgres_mcp.Tsv.Numbers.{Numeric, format_pg_numeric}

-- `time.Time`, a floating-point number, a UUID, a composite, and a value of any other type
pub record Kinds : Type 1 where
  pub Time : Type 0
  pub Float : Type 0
  pub Uuid : Type 0
  pub Composite : Type 0
  pub Other : Type 0

-- The types that `FormatValue` tells apart. A value of pgtype is `none` where it is not valid.
pub data Value (k : Kinds) : Type 0 where
  nil : Value k
  string : List ℕ → Value k
  bytes : List ℕ → Value k
  time : k.Time → Value k
  bool : Bool → Value k
  integer : ℤ → Value k
  float : k.Float → Value k
  pg_numeric : Option Numeric → Value k
  pg_float : Option k.Float → Value k
  pg_int : Option ℤ → Value k
  pg_text : Option (List ℕ) → Value k
  pg_bool : Option Bool → Value k
  pg_timestamp : Option k.Time → Value k
  pg_date : Option k.Time → Value k
  pg_interval : Option Interval → Value k
  pg_uuid : Option k.Uuid → Value k
  composite : k.Composite → Value k
  other : k.Other → Value k

-- What the library prints: `%d`, `%06d`, `%v`, `Format`, `%x-%x-%x-%x-%x` and `json.Marshal`
pub record Printing (k : Kinds) : Type 0 where
  pub decimal : ℤ → List ℕ
  pub six_digits : ℤ → List ℕ
  pub float_text : k.Float → List ℕ
  pub rfc3339 : k.Time → List ℕ
  pub date_only : k.Time → List ℕ
  pub uuid_text : k.Uuid → List ℕ
  pub marshal : k.Composite → Option (List ℕ)
  pub composite_text : k.Composite → List ℕ
  pub other_text : k.Other → List ℕ

-- `strings.ReplaceAll` of a byte
unfoldable pub replace_all : ℕ → List ℕ → List ℕ → List ℕ
replace_all old new [] = []
replace_all old new (c ∷ s) =
    if c == old then new ++ replace_all old new s else c ∷ replace_all old new s

-- The escaping at the end of `FormatValue`
unfoldable pub escape : List ℕ → List ℕ
unfolding replace_all
escape s =
    replace_all 13 (92 ∷ 114 ∷ [])
      (replace_all 10 (92 ∷ 110 ∷ []) (replace_all 9 (92 ∷ 116 ∷ []) s))

abbrev pub bool_text : Bool → List ℕ
bool_text true = codes "true"
bool_text false = codes "false"

-- `if !val.Valid { return "" }`, and the text otherwise
abbrev pub valid : {A : Type 0} → (A → List ℕ) → Option A → List ℕ
valid text none = []
valid text (some a) = escape (text a)

-- The text of a composite, where it is not encoded
abbrev pub marshalled : List ℕ → Option (List ℕ) → List ℕ
marshalled fallback none = escape fallback
marshalled fallback (some s) = escape s

-- `FormatValue`
unfoldable pub format_value : {k : Kinds} → Printing k → Value k → List ℕ
unfolding escape format_pg_numeric format_interval
format_value p nil = []
format_value p (string s) = escape s
format_value p (bytes s) = escape s
format_value p (time t) = escape (p.rfc3339 t)
format_value p (bool b) = escape (bool_text b)
format_value p (integer i) = escape (p.decimal i)
format_value p (float f) = escape (p.float_text f)
format_value p (pg_numeric v) = valid (format_pg_numeric p.decimal) v
format_value p (pg_float v) = valid p.float_text v
format_value p (pg_int v) = valid p.decimal v
format_value p (pg_text v) = valid (λ s. s) v
format_value p (pg_bool v) = valid bool_text v
format_value p (pg_timestamp v) = valid p.rfc3339 v
format_value p (pg_date v) = valid p.date_only v
format_value p (pg_interval v) = valid (format_interval p.decimal p.six_digits) v
format_value p (pg_uuid v) = valid p.uuid_text v
format_value p (composite v) = marshalled (p.composite_text v) (p.marshal v)
format_value p (other v) = escape (p.other_text v)

-- The loop that fills `values`
abbrev pub format_values : {k : Kinds} → Printing k → List (Value k) → List (List ℕ)
format_values p [] = []
format_values p (v ∷ vs) = format_value p v ∷ format_values p vs

-- `strings.Join` with a byte
unfoldable pub join : ℕ → List (List ℕ) → List ℕ
join sep [] = []
join sep (x ∷ []) = x
join sep (x ∷ y ∷ xs) = x ++ sep ∷ join sep (y ∷ xs)

-- The loop over the rows
unfoldable pub format_rows : {k : Kinds} → Printing k → List (List (Value k)) → List ℕ
unfolding join
format_rows p [] = []
format_rows p (row ∷ rows) = 10 ∷ (join 9 (format_values p row) ++ format_rows p rows)

-- `FormatResults`
unfoldable pub format_results :
    {k : Kinds} → Printing k → List (List ℕ) → List (List (Value k)) → List ℕ
unfolding join format_rows
format_results p [] results = []
format_results p (c ∷ cs) results = join 9 (c ∷ cs) ++ format_rows p results

abbrev pub strings : {k : Kinds} → List (List ℕ) → List (Value k)
strings [] = []
strings (s ∷ ss) = string s ∷ strings ss

-- `BuildRow`
unfoldable pub build_row : {k : Kinds} → Printing k → List (List ℕ) → List ℕ
unfolding join
build_row p values = join 9 (format_values p (strings values))
