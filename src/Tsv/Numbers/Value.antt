-- ===== src/Tsv/Numbers/Value.antt =====
-- The number that a text of a numeric stands for.
use pgedge_postgres_mcp.Prelude.{
  ℕ, zero, suc, ◌+◌, ◌-◌, ◌*◌, ◌≤◌, ◌≡◌, refl, ◌∙◌, true, List, [], ◌∷◌, ◌++◌, arith, ◌==◌,
  if◌then◌else◌, length, all,
}
use pgedge_postgres_mcp.Sqltext.{is_ascii_digit}
use pgedge_postgres_mcp.Tsv.Numbers.{zeros, pad, insert_point}

-- The digits read as one number, the point passed over, behind a number that was read before.
abbrev pub mantissa : ℕ → List ℕ → ℕ
mantissa acc [] = acc
mantissa acc (c ∷ s) = if c == 46 then mantissa acc s else mantissa (acc * 10 + (c - 48)) s

-- The number of digits behind the point.
abbrev pub places : List ℕ → ℕ
places [] = 0
places (c ∷ s) = if c == 46 then length s else places s

abbrev pub power_of_ten : ℕ → ℕ
power_of_ten zero = 1
power_of_ten (suc n) = power_of_ten n * 10

-- Leading zeros are put in front until there are more digits than places.
pub pad-length : (fuel n : ℕ) (s : List ℕ) → suc n ≤ fuel + length s → suc n ≤ length (pad fuel n s)
unfolding pad
pad-length zero n s e = omega arith
pad-length (suc fuel) n s e = ground (arith, pad-length fuel n (48 ∷ s))

pub pad-mantissa : (fuel n : ℕ) (s : List ℕ) → mantissa 0 (pad fuel n s) ≡ mantissa 0 s
unfolding pad
pad-mantissa zero n s = refl
pad-mantissa (suc fuel) n s = ground (arith, pad-mantissa fuel n (48 ∷ s))

pub pad-digits :
    (fuel n : ℕ) (s : List ℕ)
    → all is_ascii_digit s ≡ true
    → all is_ascii_digit (pad fuel n s) ≡ true
unfolding pad
pad-digits zero n s e = e
pad-digits (suc fuel) n s e = ground (arith, pad-digits fuel n (48 ∷ s))

pub insert_point-mantissa :
    (n acc : ℕ) (s : List ℕ) → mantissa acc (insert_point n s) ≡ mantissa acc s
insert_point-mantissa zero acc s = refl
insert_point-mantissa (suc n) acc [] = refl
insert_point-mantissa (suc n) acc (c ∷ s) =
    ground (arith, insert_point-mantissa n acc s, insert_point-mantissa n (acc * 10 + (c - 48)) s)

pub insert_point-places :
    (n : ℕ) (s : List ℕ)
    → all is_ascii_digit s ≡ true
    → n ≤ length s
    → places (insert_point n s) ≡ length s - n
insert_point-places zero s e f = omega arith
insert_point-places (suc n) [] e f = absurd (omega arith)
insert_point-places (suc n) (c ∷ s) e f = ground (arith, insert_point-places n s)

pub zeros-mantissa : (n acc : ℕ) → mantissa acc (zeros n) ≡ acc * power_of_ten n
zeros-mantissa zero acc = omega arith
zeros-mantissa (suc n) acc = zeros-mantissa n (acc * 10 + 0) ∙ grind arith

pub mantissa-append : (acc : ℕ) (s r : List ℕ) → mantissa acc (s ++ r) ≡ mantissa (mantissa acc s) r
mantissa-append acc [] r = refl
mantissa-append acc (c ∷ s) r =
    ground (arith, mantissa-append acc s r, mantissa-append (acc * 10 + (c - 48)) s r)

pub places-digits : (s : List ℕ) → all is_ascii_digit s ≡ true → places s ≡ 0
places-digits [] e = refl
places-digits (c ∷ s) e = ground (arith, places-digits s)
