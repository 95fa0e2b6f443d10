-- ===== src/Tsv/Numbers/Read.antt =====
-- A numeric is read back from its text.
use pgedge_postgres_mcp.Prelude.{
  ℕ, zero, suc, ◌-◌, ◌*◌, ◌≤◌, ◌≡◌, refl, ap, ◌∙◌, Bool, true, false, some, List, [], ◌∷◌, ◌++◌,
  arith, ◌==◌, if◌then◌else◌, length, all,
}
use pgedge_postgres_mcp.Sqltext.{is_ascii_digit, starts_with}
use pgedge_postgres_mcp.Tsv.Integers.{ℤ, pos, negsuc}
use pgedge_postgres_mcp.Tsv.Numbers.{zeros, pad, insert_point, scaled, signed, format_numeric}
use pgedge_postgres_mcp.Tsv.Numbers.Value.{
  mantissa, places, power_of_ten, pad-length, pad-mantissa, pad-digits, insert_point-mantissa,
  insert_point-places, zeros-mantissa, mantissa-append, places-digits,
}

-- A text as a sign, the number without its point, and the number of places.
abbrev pub read_number : List ℕ → Bool × (ℕ × ℕ)
read_number [] = (false, (0, 0))
read_number (c ∷ s) =
    if c == 45
    then (true, (mantissa 0 s, places s))
    else (false, (mantissa 0 (c ∷ s), places (c ∷ s)))

abbrev pub with_sign : Bool → List ℕ → List ℕ
with_sign true s = 45 ∷ s
with_sign false s = s

-- The number and the places that are meant.
abbrev pub meant : List ℕ → ℤ → ℕ × ℕ
meant d (pos exp) = (mantissa 0 d * power_of_ten exp, 0)
meant d (negsuc exp) = (mantissa 0 d, suc exp)

all-append :
    (a b : List ℕ)
    → all is_ascii_digit a ≡ true
    → all is_ascii_digit b ≡ true
    → all is_ascii_digit (a ++ b) ≡ true
all-append [] b e f = f
all-append (c ∷ a) b e f = ground (arith, all-append a b)

zeros-digits : (n : ℕ) → all is_ascii_digit (zeros n) ≡ true
zeros-digits zero = refl
zeros-digits (suc n) = zeros-digits n

scaled_lem :
    (d : List ℕ) (exp : ℤ)
    → all is_ascii_digit d ≡ true
    → (mantissa 0 (scaled d exp), places (scaled d exp)) ≡ meant d exp
unfolding scaled
scaled_lem d (pos exp) e =
    rw
      (
        mantissa-append 0 d (zeros exp),
        zeros-mantissa exp (mantissa 0 d),
        places-digits (d ++ zeros exp) (all-append d (zeros exp) e (zeros-digits exp)),
      )
      refl
scaled_lem d (negsuc exp) e =
    let padded = pad (suc (suc exp)) (suc exp) d in
    let long = pad-length (suc (suc exp)) (suc exp) d (omega arith) in
    let at = length padded - suc exp in
    let behind : length padded - at ≡ suc exp = omega arith in
    rw
      (
        insert_point-mantissa at 0 padded,
        pad-mantissa (suc (suc exp)) (suc exp) d,
        insert_point-places at padded (pad-digits (suc (suc exp)) (suc exp) d e) (omega arith),
        behind,
      )
      refl

digits_start : (d : List ℕ) → all is_ascii_digit d ≡ true → starts_with 45 d ≡ false
digits_start [] e = refl
digits_start (c ∷ d) e = ground arith

point_start :
    (n : ℕ) (s : List ℕ) → all is_ascii_digit s ≡ true → starts_with 45 (insert_point n s) ≡ false
point_start zero s e = refl
point_start (suc n) [] e = refl
point_start (suc n) (c ∷ s) e = ground arith

scaled_start :
    (d : List ℕ) (exp : ℤ) → all is_ascii_digit d ≡ true → starts_with 45 (scaled d exp) ≡ false
unfolding scaled
scaled_start d (pos exp) e =
    digits_start (d ++ zeros exp) (all-append d (zeros exp) e (zeros-digits exp))
scaled_start d (negsuc exp) e =
    point_start (length (pad (suc (suc exp)) (suc exp) d) - suc exp)
      (pad (suc (suc exp)) (suc exp) d) (pad-digits (suc (suc exp)) (suc exp) d e)

read_unsigned :
    (s : List ℕ) → starts_with 45 s ≡ false → read_number s ≡ (false, (mantissa 0 s, places s))
read_unsigned [] e = refl
read_unsigned (c ∷ s) e = rw e refl

signed_lem :
    (neg : Bool) (d : List ℕ) (exp : ℤ)
    → all is_ascii_digit d ≡ true
    → read_number (signed (with_sign neg d) exp) ≡ (neg, meant d exp)
unfolding signed
signed_lem true d exp e = rw (scaled_lem d exp e) refl
signed_lem false [] exp e =
    read_unsigned (scaled [] exp) (scaled_start [] exp e)
    ∙ ap (λ m. (false, m)) (scaled_lem [] exp e)
signed_lem false (c ∷ d) exp e = rw (digits_start (c ∷ d) e) (
    read_unsigned (scaled (c ∷ d) exp) (scaled_start (c ∷ d) exp e)
    ∙ ap (λ m. (false, m)) (scaled_lem (c ∷ d) exp e))

-- Whether no digit stands before the point.
abbrev pub begins_with_point : List ℕ → Bool
begins_with_point [] = false
begins_with_point (c ∷ s) = if c == 45 then starts_with 46 s else c == 46

digits_point : (d : List ℕ) → all is_ascii_digit d ≡ true → starts_with 46 d ≡ false
digits_point [] e = refl
digits_point (c ∷ d) e = ground arith

insert_point-point :
    (n : ℕ) (s : List ℕ)
    → 1 ≤ n
    → 1 ≤ length s
    → all is_ascii_digit s ≡ true
    → starts_with 46 (insert_point n s) ≡ false
insert_point-point zero s some_n some_s e = absurd (omega arith)
insert_point-point (suc n) [] some_n some_s e = absurd (omega arith)
insert_point-point (suc n) (c ∷ s) some_n some_s e = ground arith

scaled_point :
    (d : List ℕ) (exp : ℤ) → all is_ascii_digit d ≡ true → starts_with 46 (scaled d exp) ≡ false
unfolding scaled
scaled_point d (pos exp) e =
    digits_point (d ++ zeros exp) (all-append d (zeros exp) e (zeros-digits exp))
scaled_point d (negsuc exp) e =
    let padded = pad (suc (suc exp)) (suc exp) d in
    let long = pad-length (suc (suc exp)) (suc exp) d (omega arith) in
    insert_point-point (length padded - suc exp) padded (omega arith) (omega arith)
      (pad-digits (suc (suc exp)) (suc exp) d e)

unsigned_point :
    (s : List ℕ) → starts_with 45 s ≡ false → starts_with 46 s ≡ false → begins_with_point s ≡ false
unsigned_point [] e f = refl
unsigned_point (c ∷ s) e f = rw e f

signed_point :
    (neg : Bool) (d : List ℕ) (exp : ℤ)
    → all is_ascii_digit d ≡ true
    → begins_with_point (signed (with_sign neg d) exp) ≡ false
unfolding signed
signed_point true d exp e = scaled_point d exp e
signed_point false [] exp e =
    unsigned_point (scaled [] exp) (scaled_start [] exp e) (scaled_point [] exp e)
signed_point false (c ∷ d) exp e =
    rw (digits_start (c ∷ d) e) (
      unsigned_point (scaled (c ∷ d) exp) (scaled_start (c ∷ d) exp e) (scaled_point (c ∷ d) exp e))

-- The text of a numeric is that of its number, with its sign, times the power of ten of its
-- exponent, without places if the exponent is not negative, and with as many places as the
-- exponent is below zero otherwise, and it does not begin with the point; the printing of an
-- integer must give a minus, where it is negative, and digits.
pub format_numeric_lem :
    (decimal : ℤ → List ℕ) (i exp : ℤ) (neg : Bool) (d : List ℕ)
    → decimal i ≡ with_sign neg d
    → all is_ascii_digit d ≡ true
    → (read_number (format_numeric decimal (some i) exp) ≡ (neg, meant d exp))
      × (begins_with_point (format_numeric decimal (some i) exp) ≡ false)
unfolding format_numeric
format_numeric_lem decimal i exp neg d e ok = (
  ap (λ s. read_number (signed s exp)) e ∙ signed_lem neg d exp ok,
  ap (λ s. begins_with_point (signed s exp)) e ∙ signed_point neg d exp ok,
)
