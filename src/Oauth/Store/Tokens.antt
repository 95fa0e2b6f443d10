-- ===== src/Oauth/Store/Tokens.antt =====
-- internal/oauth/store.go: access and refresh tokens, and the revocations that cascade over them.
pub mod Frame
pub mod After
pub mod Cascade
pub mod Sizes
use pgedge_postgres_mcp.Prelude.{
  String, Bool, not, ◌&&◌, Option, none, some, List, [], ◌∷◌, str_eq, leb, if◌then◌else◌,
}
use pgedge_postgres_mcp.GoMap.{GoMap, get, has, put, delete, size, delete_where, keys_where}
use pgedge_postgres_mcp.Oauth.Types.{
  AuthCode, DeviceCode, Token, Store, StoreError, store_full, notify_revoked,
}
use pgedge_postgres_mcp.Oauth.Store.Devices.{delete_device_locked}

-- `PutToken`
unfoldable pub put_token : Token → Store → Store × Option StoreError
put_token t s =
    if not (has t.hash s.tokens) && leb s.limits.tokens (size s.tokens)
    then (s, some store_full)
    else (record s { tokens = put t.hash t s.tokens }, none)

-- `GetToken`
unfoldable pub get_token : String → Store → Option Token
get_token hash s = get hash s.tokens

-- The loop over `t.Issued`: the tokens left, and the hashes that were present
unfoldable pub cascade : List String → GoMap Token → GoMap Token × List String
cascade [] m = (m, [])
cascade (h ∷ hs) m =
    let (m', revoked) = cascade hs (delete h m) in (m', if has h m then h ∷ revoked else revoked)

-- `parent.Issued` without the first occurrence of a hash
unfoldable pub remove_first : String → List String → List String
remove_first h [] = []
remove_first h (x ∷ xs) = let rest = remove_first h xs in if str_eq x h then xs else x ∷ rest

abbrev pub unlinked : String → String → GoMap Token → Option Token → GoMap Token
unlinked hash parent_hash m none = m
unlinked hash parent_hash m (some parent) =
    put parent_hash (record parent { issued = remove_first hash parent.issued }) m

-- The rest of `deleteTokenLocked`, once `t` is out of the map `m`
pub delete_links : String → Token → GoMap Token → GoMap Token × List String
delete_links hash t m =
    if t.is_refresh
    then cascade t.issued m
    else if str_eq t.refresh_hash ""
    then (m, hash ∷ [])
    else (unlinked hash t.refresh_hash m (get t.refresh_hash m), hash ∷ [])

abbrev deleted_token : String → Store → Option Token → Store × List String
deleted_token hash s none = (s, [])
deleted_token hash s (some t) =
    let (m, revoked) = delete_links hash t (delete hash s.tokens) in
    (record s { tokens = m }, revoked)

-- `deleteTokenLocked`
unfoldable pub delete_token_locked : String → Store → Store × List String
unfolding delete_links cascade remove_first
delete_token_locked hash s = deleted_token hash s (get hash s.tokens)

-- `DeleteToken`
unfoldable pub delete_token : String → Store → Store × List String
delete_token hash s =
    let (s', revoked) = delete_token_locked hash s in (notify_revoked revoked s', revoked)

abbrev taken_token : String → Store → Option Token → Store × Option Token
taken_token hash s none = (s, none)
taken_token hash s (some t) =
    let (s', revoked) = delete_token_locked hash s in (notify_revoked revoked s', some t)

-- `TakeToken`
unfoldable pub take_token : String → Store → Store × Option Token
take_token hash s = taken_token hash s (get hash s.tokens)

abbrev pub in_family : String → String → Token → Bool
in_family family h t = str_eq t.family family

-- `DeleteFamily`
unfoldable pub delete_family : String → Store → Store × List String
delete_family family s =
    if str_eq family ""
    then (s, [])
    else let revoked = keys_where (λ h t. in_family family h t && not t.is_refresh) s.tokens in
      (
        notify_revoked revoked (record s { tokens = delete_where (in_family family) s.tokens }),
        revoked,
      )

-- The loop of `DeleteBySubject` over the devices: a snapshot of the keys that match, each deleted
-- by `deleteDeviceLocked`
unfoldable pub delete_devices : List String → Store → Store
unfolding delete_device_locked
delete_devices [] s = s
delete_devices (h ∷ hs) s = delete_devices hs (delete_device_locked h s)

abbrev pub of_subject : String → String → Token → Bool
of_subject subject h t = str_eq t.subject subject

abbrev pub code_of_subject : String → String → AuthCode → Bool
code_of_subject subject h c = str_eq c.subject subject

abbrev pub device_of_subject : String → String → DeviceCode → Bool
device_of_subject subject h d = str_eq d.subject subject

-- `DeleteBySubject`
unfoldable pub delete_by_subject : String → Store → Store × List String
unfolding delete_devices
delete_by_subject subject s =
    if str_eq subject ""
    then (s, [])
    else let revoked = keys_where (λ h t. of_subject subject h t && not t.is_refresh) s.tokens in
      let s' = record s {
        tokens = delete_where (of_subject subject) s.tokens;
        codes = delete_where (code_of_subject subject) s.codes;
      } in
      let gone = keys_where (device_of_subject subject) s.devices in
      (notify_revoked revoked (delete_devices gone s'), revoked)
