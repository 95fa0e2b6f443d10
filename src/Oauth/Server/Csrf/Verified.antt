-- ===== src/Oauth/Server/Csrf/Verified.antt =====
-- Which tokens are accepted, and when.
use pgedge_postgres_mcp.Prelude.{
  ℕ, zero, suc, ◌+◌, ◌*◌, ◌≤◌, ◌<◌, String, ◌≡◌, refl, ap, ◌∙◌, inl, inr, true, false, ◌&&◌,
  false≢true, none, some, List, [], ◌∷◌, ◌++◌, arith, leb, Option-cases, length, length-append,
  subst, ◌/◌,
}
use pgedge_postgres_mcp.Oauth.Server.Csrf.{
  take, drop, same_bytes, uint64_from, put_uint64, CsrfLibrary, unix, from_unix, verify,
  verify_bytes, issue,
}

same_bytes_refl : (bs : List ℕ) → same_bytes bs bs ≡ true
same_bytes_refl [] = refl
same_bytes_refl (b ∷ bs) = ground (arith, same_bytes_refl bs)

same_bytes_eq : (bs cs : List ℕ) → same_bytes bs cs ≡ true → bs ≡ cs
same_bytes_eq [] [] e = refl
same_bytes_eq [] (c ∷ cs) e = absurd (false≢true e)
same_bytes_eq (b ∷ bs) [] e = absurd (false≢true e)
same_bytes_eq (b ∷ bs) (c ∷ cs) e = ground (arith, same_bytes_eq bs cs)

take_front : (n : ℕ) (xs ys : List ℕ) → length xs ≡ n → take n (xs ++ ys) ≡ xs
take_front zero [] ys e = refl
take_front zero (x ∷ xs) ys e = ground arith
take_front (suc n) [] ys e = ground arith
take_front (suc n) (x ∷ xs) ys e = ap (λ l. x ∷ l) (take_front n xs ys (omega arith))

take_front_of_three : (n : ℕ) (xs ys zs : List ℕ) → length xs ≡ n → take n ((xs ++ ys) ++ zs) ≡ xs
take_front_of_three zero [] ys zs e = refl
take_front_of_three zero (x ∷ xs) ys zs e = ground arith
take_front_of_three (suc n) [] ys zs e = ground arith
take_front_of_three (suc n) (x ∷ xs) ys zs e =
    ap (λ l. x ∷ l) (take_front_of_three n xs ys zs (omega arith))

drop_front : (n : ℕ) (xs ys : List ℕ) → length xs ≡ n → drop n (xs ++ ys) ≡ ys
drop_front zero [] ys e = refl
drop_front zero (x ∷ xs) ys e = ground arith
drop_front (suc n) [] ys e = ground arith
drop_front (suc n) (x ∷ xs) ys e = drop_front n xs ys (omega arith)

-- The eight bytes hold the number, if it fits in 64 bits.
uint64-put_uint64 : (n : ℕ) → n < 18_446_744_073_709_551_616 → uint64_from 0 (put_uint64 n) ≡ n
unfolding uint64_from put_uint64
uint64-put_uint64 n small = omega arith

-- What an accepted token consists of: a part of 24 bytes, its signature, and a time within bounds.
pub record Signed (lib : CsrfLibrary) (key : List ℕ) (tok : String) (now max_age : ℕ) : Type 0 where
  pub buf : List ℕ
  pub decoded : lib.decode tok ≡ some buf
  pub all_bytes : length buf ≡ 56
  pub signature : drop 24 buf ≡ lib.hmac key (take 24 buf)
  pub not_old : now ≤ from_unix (uint64_from 0 (take 8 buf)) + max_age
  pub not_ahead : from_unix (uint64_from 0 (take 8 buf)) ≤ now + 60_000_000_000

module _ (lib : CsrfLibrary) (key : List ℕ) where
  -- A token is accepted only if it decodes to 56 bytes, whose last 32 are the signature of the
  -- others under the key, and whose time is at most the maximal age in the past and at most a
  -- minute in the future.
  pub verify_sound :
      (tok : String) (now max_age : ℕ)
      → verify lib key tok now max_age ≡ true
      → Signed lib key tok now max_age
  unfolding verify verify_bytes
  verify_sound tok now max_age e = elim (Option-cases (lib.decode tok)) [
    | inl bad ↦ ground (arith, bad)
    | inr (buf, ok) ↦ record {
      buf = buf;
      decoded = ok;
      all_bytes = ground (arith, ok);
      signature = same_bytes_eq (drop 24 buf) (lib.hmac key (take 24 buf)) (ground (arith, ok));
      not_old = ground (arith, ok);
      not_ahead = ground (arith, ok);
    }
  ]

  verify_bytes-signed :
      (signed : List ℕ) (issued later max_age : ℕ)
      → length signed ≡ 24
      → length (lib.hmac key signed) ≡ 32
      → uint64_from 0 (take 8 (signed ++ lib.hmac key signed)) ≡ issued
      → verify_bytes lib key (signed ++ lib.hmac key signed) later max_age ≡ (
          leb later (from_unix issued + max_age) && leb (from_unix issued) (later + 60_000_000_000))
  unfolding verify_bytes
  verify_bytes-signed signed issued later max_age size mac_size stamped =
      let mac = lib.hmac key signed in
      ground (
        arith,
        length-append signed mac,
        drop_front 24 signed mac size,
        take_front 24 signed mac size,
        same_bytes_refl mac,
        stamped,
      )

  -- A token that was issued is accepted exactly from a minute before the whole second of its time
  -- to the maximal age after that second, to the nanosecond, if the nonce has 16 bytes, the
  -- signature 32, the time is not before 1970 and its seconds fit in 63 bits, and if decoding
  -- reverses encoding.
  pub verify-issue :
      (issued later max_age : ℕ) (nonce : List ℕ)
      → ((bs : List ℕ) → lib.decode (lib.encode bs) ≡ some bs)
      → ((m : List ℕ) → length (lib.hmac key m) ≡ 32)
      → length nonce ≡ 16
      → 62_135_596_800_000_000_000 ≤ issued
      → issued / 1_000_000_000 < 9_223_372_036_854_775_808
      → verify lib key (issue lib key issued nonce) later max_age ≡ (
          leb later (issued / 1_000_000_000 * 1_000_000_000 + max_age)
          && leb (issued / 1_000_000_000 * 1_000_000_000) (later + 60_000_000_000))
  unfolding verify issue
  verify-issue issued later max_age nonce reversed mac_size nonce_size modern small =
      let seconds = unix issued in
      let stamp = put_uint64 seconds in
      let mac = lib.hmac key (stamp ++ nonce) in
      let stamp_size : length stamp ≡ 8 = unfold put_uint64 in omega arith in
      let stamped : uint64_from 0 (take 8 ((stamp ++ nonce) ++ mac)) ≡ seconds =
        ap (uint64_from 0) (take_front_of_three 8 stamp nonce mac stamp_size)
        ∙ uint64-put_uint64 seconds (omega arith) in
      let second : from_unix seconds ≡ issued / 1_000_000_000 * 1_000_000_000 = omega arith in
      subst
        (λ x.
          verify lib key (issue lib key issued nonce) later max_age
          ≡ (leb later (x + max_age) && leb x (later + 60_000_000_000)))
        second
        (ap (λ o. elim o [ none ↦ false | some buf ↦ verify_bytes lib key buf later max_age ])
            (reversed ((stamp ++ nonce) ++ mac))
          ∙ verify_bytes-signed (stamp ++ nonce) seconds later max_age
              (omega (arith, length-append stamp nonce)) (mac_size (stamp ++ nonce)) stamped)
