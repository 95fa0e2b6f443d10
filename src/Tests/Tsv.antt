-- ===== src/Tests/Tsv.antt =====
-- Results and numerics at which the theorems are applied.
use pgedge_postgres_mcp.Prelude.{
  ℕ, zero, suc, ◌+◌, ◌≡◌, refl, true, false, none, some, List, [], ◌∷◌, leb, if◌then◌else◌, codes,
  ◌/◌, ◌%◌,
}
use pgedge_postgres_mcp.Tsv.{
  Kinds, Value, Printing, string, integer, nil, pg_numeric, format_results,
}
use pgedge_postgres_mcp.Tsv.Integers.{ℤ, pos, negsuc}
use pgedge_postgres_mcp.Tsv.Numbers.{finite, format_numeric}
use pgedge_postgres_mcp.Tsv.Numbers.Read.{read_number, begins_with_point, meant, format_numeric_lem}
use pgedge_postgres_mcp.Tsv.Intervals.{format_interval}
use pgedge_postgres_mcp.Tsv.Table.{table, texts, format_results-table}

abbrev digits : ℕ → ℕ → List ℕ → List ℕ
digits zero n acc = acc
digits (suc fuel) n acc =
    let more = digits fuel (n / 10) ((48 + n % 10) ∷ acc) in
    if leb n 9 then (48 + n) ∷ acc else more

abbrev decimal : ℤ → List ℕ
decimal (pos n) = digits (suc n) n []
decimal (negsuc n) = 45 ∷ digits (suc (suc n)) (suc n) []

abbrev kinds : Kinds
kinds = record { Time = ℕ; Float = ℕ; Uuid = ℕ; Composite = ℕ; Other = ℕ }

abbrev printing : Printing kinds
printing = record {
  decimal = decimal;
  six_digits = decimal;
  float_text = λ x. decimal (pos x);
  rfc3339 = λ x. decimal (pos x);
  date_only = λ x. decimal (pos x);
  uuid_text = λ x. decimal (pos x);
  marshal = λ x. none;
  composite_text = λ x. decimal (pos x);
  other_text = λ x. decimal (pos x);
}

abbrev rows : List (List (Value kinds))
rows =
    (string (9 ∷ 10 ∷ []) ∷ integer (negsuc 4) ∷ [])
    ∷ (nil ∷ pg_numeric (some (finite (some (negsuc 4)) (negsuc 1))) ∷ [])
    ∷ []

-- -0.05
small_numeric : format_numeric decimal (some (negsuc 4)) (negsuc 1) ≡ codes "-0.05"
unfolding format_numeric
small_numeric = refl

months_and_hours :
    format_interval decimal decimal
      (record { months = pos 14; days = pos 0; microseconds = pos 3661000000 })
    ≡ codes "1 year(s) 2 month(s) 1 hour(s) 1 minute(s) 1 second(s)"
unfolding format_interval
months_and_hours = refl

format_results-table_example :
    table (format_results printing (codes "a" ∷ codes "b" ∷ []) rows)
    ≡ (codes "a" ∷ codes "b" ∷ []) ∷ texts printing rows
format_results-table_example =
    format_results-table printing (codes "a") (codes "b" ∷ []) rows refl refl refl

format_numeric_lem_example :
    (read_number (format_numeric decimal (some (negsuc 124)) (negsuc 3))
      ≡ (true, meant (codes "125") (negsuc 3)))
    × (begins_with_point (format_numeric decimal (some (negsuc 124)) (negsuc 3)) ≡ false)
format_numeric_lem_example =
    format_numeric_lem decimal (negsuc 124) (negsuc 3) true (codes "125") refl refl
