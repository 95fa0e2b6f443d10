-- ===== src/Tsv/Intervals/Total.antt =====
-- The amounts of an interval add up.
use pgedge_postgres_mcp.Prelude.{
  ℕ, zero, suc, ◌+◌, ◌*◌, ◌<◌, ◌≡◌, refl, sym, Bool, true, false, not, ◌&&◌, ◌||◌, false≢true,
  arith, subst, ◌/◌, ◌%◌,
}
use pgedge_postgres_mcp.Tsv.Integers.{ℤ, pos, negsuc, neg, quot, rem, is_zero}
use pgedge_postgres_mcp.Tsv.Intervals.{Clock, clock}

abbrev pub magnitude : ℤ → ℕ
magnitude (pos n) = n
magnitude (negsuc n) = suc n

abbrev pub is_negative : ℤ → Bool
is_negative (pos n) = false
is_negative (negsuc n) = true

magnitude-neg : (n : ℕ) → magnitude (neg n) ≡ n
magnitude-neg zero = refl
magnitude-neg (suc n) = refl

magnitude-quot : (z : ℤ) (k : ℕ) → magnitude (quot z k) ≡ magnitude z / k
magnitude-quot (pos n) k = refl
magnitude-quot (negsuc n) k = magnitude-neg (suc n / k)

magnitude-rem : (z : ℤ) (k : ℕ) → magnitude (rem z k) ≡ magnitude z % k
magnitude-rem (pos n) k = refl
magnitude-rem (negsuc n) k = magnitude-neg (suc n % k)

-- Hours, minutes, seconds and the rest, as magnitudes.
abbrev pub parts_of : ℕ → ℕ × (ℕ × (ℕ × ℕ))
parts_of n =
    ((n / 1000000) / 3600, (((n / 1000000) % 3600) / 60, ((n / 1000000) % 60, n % 1000000)))

abbrev pub magnitudes : Clock → ℕ × (ℕ × (ℕ × ℕ))
magnitudes c =
    (magnitude c.hours, (magnitude c.minutes, (magnitude c.seconds, magnitude c.micros_remainder)))

clock_lem : (z : ℤ) → magnitudes (clock z) ≡ parts_of (magnitude z)
clock_lem z =
    let total = quot z 1000000 in
    rw
      (
        magnitude-quot total 3600,
        magnitude-quot (rem total 3600) 60,
        magnitude-rem total 3600,
        magnitude-rem total 60,
        magnitude-rem z 1000000,
        magnitude-quot z 1000000,
      )
      refl

abbrev pub total_of : ℕ × (ℕ × (ℕ × ℕ)) → ℕ
total_of (h, (m, (s, r))) = ((h * 60 + m) * 60 + s) * 1000000 + r

-- No amount but the hours is as large as the next unit.
abbrev pub IsNormal : ℕ × (ℕ × (ℕ × ℕ)) → Type 0
IsNormal (h, (m, (s, r))) = (m < 60) × ((s < 60) × (r < 1000000))

parts_of_lem : (n : ℕ) → (total_of (parts_of n) ≡ n) × IsNormal (parts_of n)
parts_of_lem n = (omega arith, (omega arith, (omega arith, omega arith)))

-- An amount is zero or has the sign of the whole.
abbrev pub agrees : ℤ → ℤ → Bool
agrees (pos n) a = not (is_negative a)
agrees (negsuc n) a = is_negative a || is_zero a

abbrev pub all_agree : ℤ → Clock → Bool
all_agree z c =
    agrees z c.hours && (agrees z c.minutes && (agrees z c.seconds && agrees z c.micros_remainder))

agrees-neg : (n m : ℕ) → agrees (negsuc n) (neg m) ≡ true
agrees-neg n zero = refl
agrees-neg n (suc m) = refl

agrees_self : (z : ℤ) → agrees z z ≡ true
agrees_self (pos n) = refl
agrees_self (negsuc n) = refl

module _ (k : ℕ) where
  agrees-quot : (z a : ℤ) → 0 / k ≡ 0 → agrees z a ≡ true → agrees z (quot a k) ≡ true
  agrees-quot (pos n) (pos m) e h = refl
  agrees-quot (pos n) (negsuc m) e h = absurd (false≢true h)
  agrees-quot (negsuc n) (pos zero) e h = rw e refl
  agrees-quot (negsuc n) (pos (suc m)) e h = absurd (ground (arith, h))
  agrees-quot (negsuc n) (negsuc m) e h = agrees-neg n (suc m / k)

  agrees-rem : (z a : ℤ) → 0 % k ≡ 0 → agrees z a ≡ true → agrees z (rem a k) ≡ true
  agrees-rem (pos n) (pos m) e h = refl
  agrees-rem (pos n) (negsuc m) e h = absurd (false≢true h)
  agrees-rem (negsuc n) (pos zero) e h = rw e refl
  agrees-rem (negsuc n) (pos (suc m)) e h = absurd (ground (arith, h))
  agrees-rem (negsuc n) (negsuc m) e h = agrees-neg n (suc m % k)

clock-agrees : (z : ℤ) → all_agree z (clock z) ≡ true
clock-agrees z =
    let total = quot z 1000000 in
    let t = agrees-quot 1000000 z z refl (agrees_self z) in
    let h = agrees-quot 3600 z total refl t in
    let m = agrees-quot 60 z (rem total 3600) refl (agrees-rem 3600 z total refl t) in
    let s = agrees-rem 60 z total refl t in
    let r = agrees-rem 1000000 z z refl (agrees_self z) in rw (h, m, s, r) refl

-- The hours, minutes, seconds and millionths that are printed for a number of microseconds add up to
-- it: their magnitudes do, and each is zero or has its sign; there are at most 59 minutes, 59 seconds
-- and 999999 millionths.
pub clock-Normal :
    (z : ℤ)
    → ((total_of (magnitudes (clock z)) ≡ magnitude z) × IsNormal (magnitudes (clock z)))
      × (all_agree z (clock z) ≡ true)
clock-Normal z = (
  subst (λ c. (total_of c ≡ magnitude z) × IsNormal c) (sym (clock_lem z))
      (parts_of_lem (magnitude z)),
  clock-agrees z,
)
