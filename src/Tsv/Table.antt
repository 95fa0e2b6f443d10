-- ===== src/Tsv/Table.antt =====
-- What a reader makes of the results: lines, and the fields between their tabs.
use pgedge_postgres_mcp.Prelude.{
  ℕ, ◌≡◌, refl, ap, ◌∙◌, Bool, true, false, not, ◌||◌, false≢true, Option, none, some, List, [],
  ◌∷◌, ◌++◌, arith, ◌==◌, if◌then◌else◌, is_empty, all,
}
use pgedge_postgres_mcp.Sqltext.{contains_byte}
use pgedge_postgres_mcp.Tsv.{
  nil, string, bytes, time, bool, integer, float, pg_numeric, pg_float, pg_int, pg_text, pg_bool,
  pg_timestamp, pg_date, pg_interval, pg_uuid, composite, other, Kinds, Value, Printing,
  format_value, format_values, join, valid, format_rows, format_results, bool_text, marshalled,
}
use pgedge_postgres_mcp.Tsv.Escaped.{is_breaking, escape-breaking}
use pgedge_postgres_mcp.Tsv.Numbers.{format_pg_numeric}
use pgedge_postgres_mcp.Tsv.Intervals.{format_interval}

-- A byte put in front of the first field.
abbrev pub onto_first : ℕ → List (List ℕ) → List (List ℕ)
onto_first c [] = (c ∷ []) ∷ []
onto_first c (x ∷ xs) = (c ∷ x) ∷ xs

-- The fields of a text between the separators.
abbrev pub fields : ℕ → List ℕ → List (List ℕ)
fields sep [] = [] ∷ []
fields sep (c ∷ s) = if c == sep then [] ∷ fields sep s else onto_first c (fields sep s)

-- The lines of a text, each as its fields between tabs.
abbrev pub map_fields : List (List ℕ) → List (List (List ℕ))
map_fields [] = []
map_fields (l ∷ ls) = fields 9 l ∷ map_fields ls

abbrev pub table : List ℕ → List (List (List ℕ))
table text = map_fields (fields 10 text)

abbrev pub none_has : ℕ → List (List ℕ) → Bool
none_has c xs = all (λ x. not (contains_byte c x)) xs

fields-append :
    (sep : ℕ) (x s : List ℕ)
    → contains_byte sep x ≡ false
    → fields sep (x ++ sep ∷ s) ≡ x ∷ fields sep s
fields-append sep [] s e = ground arith
fields-append sep (c ∷ x) s e = ground (arith, fields-append sep x s)

fields-one : (sep : ℕ) (x : List ℕ) → contains_byte sep x ≡ false → fields sep x ≡ x ∷ []
fields-one sep [] e = refl
fields-one sep (c ∷ x) e = ground (arith, fields-one sep x)

-- The fields of joined texts are those texts, if none has the separator.
fields-join :
    (sep : ℕ) (x : List ℕ) (xs : List (List ℕ))
    → none_has sep (x ∷ xs) ≡ true
    → fields sep (join sep (x ∷ xs)) ≡ x ∷ xs
unfolding join
fields-join sep x [] e = fields-one sep x (ground arith)
fields-join sep x (y ∷ xs) e =
    fields-append sep x (join sep (y ∷ xs)) (ground arith)
    ∙ ap (λ r. x ∷ r) (fields-join sep y xs (ground arith))

append-[] : (x : List ℕ) → x ++ [] ≡ x
append-[] [] = refl
append-[] (c ∷ x) = ap (λ r. c ∷ r) (append-[] x)

contains_byte-append :
    (b : ℕ) (x y : List ℕ) → contains_byte b (x ++ y) ≡ (contains_byte b x || contains_byte b y)
contains_byte-append b [] y = refl
contains_byte-append b (c ∷ x) y = ground (arith, contains_byte-append b x y)

contains_byte-join :
    (b sep : ℕ) (xs : List (List ℕ))
    → (sep == b) ≡ false
    → none_has b xs ≡ true
    → contains_byte b (join sep xs) ≡ false
unfolding join
contains_byte-join b sep [] n e = refl
contains_byte-join b sep (x ∷ []) n e = ground arith
contains_byte-join b sep (x ∷ y ∷ xs) n e =
    rw (contains_byte-append b x (sep ∷ join sep (y ∷ xs)))
      (ground (arith, contains_byte-join b sep (y ∷ xs) n))

valid-breaking :
    {A : Type 0} (b : ℕ) (text : A → List ℕ) (v : Option A)
    → is_breaking b ≡ true
    → contains_byte b (valid text v) ≡ false
valid-breaking b text none e = refl
valid-breaking b text (some a) e = escape-breaking b (text a) e

marshalled-breaking :
    (b : ℕ) (fallback : List ℕ) (o : Option (List ℕ))
    → is_breaking b ≡ true
    → contains_byte b (marshalled fallback o) ≡ false
marshalled-breaking b fallback none e = escape-breaking b fallback e
marshalled-breaking b fallback (some s) e = escape-breaking b s e

-- No value has a byte that breaks the table in its text.
format_value-breaking :
    {k : Kinds} (p : Printing k) (b : ℕ) (v : Value k)
    → is_breaking b ≡ true
    → contains_byte b (format_value p v) ≡ false
unfolding format_value
format_value-breaking p b nil e = refl
format_value-breaking p b (string s) e = escape-breaking b s e
format_value-breaking p b (bytes s) e = escape-breaking b s e
format_value-breaking p b (time t) e = escape-breaking b (p.rfc3339 t) e
format_value-breaking p b (bool x) e = escape-breaking b (bool_text x) e
format_value-breaking p b (integer i) e = escape-breaking b (p.decimal i) e
format_value-breaking p b (float x) e = escape-breaking b (p.float_text x) e
format_value-breaking p b (other x) e = escape-breaking b (p.other_text x) e
format_value-breaking p b (pg_numeric v) e = valid-breaking b (format_pg_numeric p.decimal) v e
format_value-breaking p b (pg_float v) e = valid-breaking b p.float_text v e
format_value-breaking p b (pg_int v) e = valid-breaking b p.decimal v e
format_value-breaking p b (pg_text v) e = valid-breaking b (λ s. s) v e
format_value-breaking p b (pg_bool v) e = valid-breaking b bool_text v e
format_value-breaking p b (pg_timestamp v) e = valid-breaking b p.rfc3339 v e
format_value-breaking p b (pg_date v) e = valid-breaking b p.date_only v e
format_value-breaking p b (pg_interval v) e =
    valid-breaking b (format_interval p.decimal p.six_digits) v e
format_value-breaking p b (pg_uuid v) e = valid-breaking b p.uuid_text v e
format_value-breaking p b (composite v) e =
    marshalled-breaking b (p.composite_text v) (p.marshal v) e

format_values-breaking :
    {k : Kinds} (p : Printing k) (b : ℕ) (vs : List (Value k))
    → is_breaking b ≡ true
    → none_has b (format_values p vs) ≡ true
format_values-breaking p b [] e = refl
format_values-breaking p b (v ∷ vs) e =
    rw (format_value-breaking p b v e) (format_values-breaking p b vs e)

-- The rows as they are read back.
abbrev pub texts : {k : Kinds} → Printing k → List (List (Value k)) → List (List (List ℕ))
texts p [] = []
texts p (row ∷ rows) = format_values p row ∷ texts p rows

module _ {k : Kinds} (p : Printing k) where
  lines : List (List (Value k)) → List (List ℕ)
  lines [] = []
  lines (row ∷ rows) = join 9 (format_values p row) ∷ lines rows

  fields-format_rows :
      (l : List ℕ) (rows : List (List (Value k)))
      → contains_byte 10 l ≡ false
      → fields 10 (l ++ format_rows p rows) ≡ l ∷ lines rows
  unfolding format_rows lines
  fields-format_rows l [] e = rw (append-[] l) (fields-one 10 l e)
  fields-format_rows l (row ∷ rows) e =
      let line = join 9 (format_values p row) in
      fields-append 10 l (line ++ format_rows p rows) e
      ∙ ap (λ r. l ∷ r)
          (fields-format_rows line rows (
            contains_byte-join 10 9 (format_values p row) refl
              (format_values-breaking p 10 row refl)))

  map_fields-lines :
      (rows : List (List (Value k)))
      → all (λ r. not (is_empty r)) rows ≡ true
      → map_fields (lines rows) ≡ texts p rows
  unfolding lines
  map_fields-lines [] e = refl
  map_fields-lines ([] ∷ rows) e = absurd (false≢true e)
  map_fields-lines ((v ∷ vs) ∷ rows) e =
      rw
        (
          fields-join 9 (format_value p v) (format_values p vs)
              (format_values-breaking p 9 (v ∷ vs) refl),
          map_fields-lines rows e,
        )
        refl

  -- Read as lines of fields between tabs, the results are the names of the columns and then, row
  -- by row, the texts of the values, whatever bytes the values have, if there is a column, no name
  -- has a tab or a newline and no row is empty.
  pub format_results-table :
      (c : List ℕ) (cs : List (List ℕ)) (rows : List (List (Value k)))
      → none_has 9 (c ∷ cs) ≡ true
      → none_has 10 (c ∷ cs) ≡ true
      → all (λ r. not (is_empty r)) rows ≡ true
      → table (format_results p (c ∷ cs) rows) ≡ (c ∷ cs) ∷ texts p rows
  unfolding format_results
  format_results-table c cs rows tabs newlines full =
      rw
        (
          fields-format_rows (join 9 (c ∷ cs)) rows
              (contains_byte-join 10 9 (c ∷ cs) refl newlines),
          fields-join 9 c cs tabs,
          map_fields-lines rows full,
        )
        refl
