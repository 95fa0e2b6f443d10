-- ===== src/Oauth/Store/Codes.antt =====
-- internal/oauth/store.go: authorisation codes, and the records of those redeemed.
use pgedge_postgres_mcp.Prelude.{ℕ, String, not, ◌&&◌, Option, none, some, leb, if◌then◌else◌}
use pgedge_postgres_mcp.GoMap.{get, has, put, delete, size}
use pgedge_postgres_mcp.Oauth.Types.{AuthCode, UsedCode, Store, StoreError, store_full}

-- `PutCode`
unfoldable pub put_code : AuthCode → Store → Store × Option StoreError
put_code c s =
    if not (has c.hash s.codes) && leb s.limits.codes (size s.codes)
    then (s, some store_full)
    else (record s { codes = put c.hash c s.codes }, none)

abbrev taken_code : String → Store → Option AuthCode → Store × Option AuthCode
taken_code hash s none = (s, none)
taken_code hash s (some c) = (record s { codes = delete hash s.codes }, some c)

-- `TakeCode`
unfoldable pub take_code : String → Store → Store × Option AuthCode
take_code hash s = taken_code hash s (get hash s.codes)

-- `MarkCodeUsed`
unfoldable pub mark_code_used : String → String → String → ℕ → Store → Store
mark_code_used code_hash refresh_hash family until s =
    if not (has code_hash s.used_codes) && leb s.limits.codes (size s.used_codes)
    then s
    else record s {
      used_codes =
          put code_hash (record { refresh_hash = refresh_hash; family = family; until = until })
            s.used_codes;
    }

abbrev taken_used_code : String → Store → Option UsedCode → Store × Option UsedCode
taken_used_code hash s none = (s, none)
taken_used_code hash s (some u) = (record s { used_codes = delete hash s.used_codes }, some u)

-- `TakeUsedCode`; the record stands for the pair that the code returns
unfoldable pub take_used_code : String → Store → Store × Option UsedCode
take_used_code code_hash s = taken_used_code code_hash s (get code_hash s.used_codes)
