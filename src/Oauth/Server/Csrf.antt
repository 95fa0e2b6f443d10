-- ===== src/Oauth/Server/Csrf.antt =====
-- internal/oauth/csrf.go: the signed tokens of the login pages. A token is the list of its bytes
-- under base64url. A stamp of 2^63 or more, which the code reads as a time before the epoch, is
-- refused as too old there and as too new here.
pub mod Verified
use pgedge_postgres_mcp.Prelude.{
  ℕ, zero, suc, ◌+◌, ◌-◌, ◌*◌, String, Bool, true, false, not, ◌&&◌, Option, none, some, List, [],
  ◌∷◌, ◌++◌, ltb, ◌==◌, if◌then◌else◌, length, ◌/◌, ◌%◌,
}

-- HMAC-SHA256 over the key and the message, and base64url without padding
pub record CsrfLibrary : Type 0 where
  pub hmac : List ℕ → List ℕ → List ℕ
  pub encode : List ℕ → String
  pub decode : String → Option (List ℕ)

-- `bytes[:n]` and `bytes[n:]`
abbrev pub take : ℕ → List ℕ → List ℕ
take zero bs = []
take (suc n) [] = []
take (suc n) (b ∷ bs) = b ∷ take n bs

abbrev pub drop : ℕ → List ℕ → List ℕ
drop zero bs = bs
drop (suc n) [] = []
drop (suc n) (b ∷ bs) = drop n bs

abbrev pub same_bytes : List ℕ → List ℕ → Bool
same_bytes [] [] = true
same_bytes [] (c ∷ cs) = false
same_bytes (b ∷ bs) [] = false
same_bytes (b ∷ bs) (c ∷ cs) = (b == c) && same_bytes bs cs

-- `binary.BigEndian.PutUint64`
unfoldable pub put_uint64 : ℕ → List ℕ
put_uint64 n =
    (n / 72_057_594_037_927_936) % 256
    ∷ (n / 281_474_976_710_656) % 256
    ∷ (n / 1_099_511_627_776) % 256
    ∷ (n / 4_294_967_296) % 256
    ∷ (n / 16_777_216) % 256
    ∷ (n / 65_536) % 256
    ∷ (n / 256) % 256
    ∷ n % 256
    ∷ []

-- `binary.BigEndian.Uint64`
unfoldable pub uint64_from : ℕ → List ℕ → ℕ
uint64_from acc [] = acc
uint64_from acc (b ∷ bs) = uint64_from (acc * 256 + b) bs

-- `csrfNonceBytes`, `csrfTokenBytes` and `csrfClockSkew`
abbrev pub csrf_nonce_bytes : ℕ
csrf_nonce_bytes = 16

abbrev pub csrf_token_bytes : ℕ
csrf_token_bytes = 56

abbrev pub csrf_clock_skew : ℕ
csrf_clock_skew = 60_000_000_000

-- `authorizeCSRFMaxAge`
abbrev pub authorize_csrf_max_age : ℕ
authorize_csrf_max_age = 600_000_000_000

-- `now.Unix()`, for a clock that is not before 1970, and `time.Unix(ts, 0)`
abbrev pub unix : ℕ → ℕ
unix now = now / 1_000_000_000 - 62_135_596_800

abbrev pub from_unix : ℕ → ℕ
from_unix ts = (ts + 62_135_596_800) * 1_000_000_000

module _ (lib : CsrfLibrary) (key : List ℕ) where
  -- `Issue`, with the nonce that was drawn
  unfoldable pub issue : ℕ → List ℕ → String
  issue now nonce =
      let signed = put_uint64 (unix now) ++ nonce in lib.encode (signed ++ lib.hmac key signed)

  -- The checks of `Verify` on the decoded bytes
  unfoldable pub verify_bytes : List ℕ → ℕ → ℕ → Bool
  verify_bytes buf now max_age =
      let issued = from_unix (uint64_from 0 (take 8 buf)) in
      if not (length buf == csrf_token_bytes)
      then false
      else if not (same_bytes (drop 24 buf) (lib.hmac key (take 24 buf)))
      then false
      else if ltb (issued + max_age) now
      then false
      else not (ltb (now + csrf_clock_skew) issued)

  -- `Verify`
  unfoldable pub verify : String → ℕ → ℕ → Bool
  verify tok now max_age = elim (lib.decode tok) [
    | none ↦ false
    | some buf ↦ verify_bytes buf now max_age
  ]
