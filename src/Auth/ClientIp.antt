-- ===== src/Auth/ClientIp.antt =====
-- internal/auth/client_ip.go: the address that a request is attributed to. Go's address library is a
-- parameter, in a record of its own; a text is trimmed by Go's `strings.TrimSpace`.
pub mod Vouched
use pgedge_postgres_mcp.Prelude.{
  String, Bool, true, false, not, ◌||◌, Option, none, some, List, [], ◌∷◌, ◌++◌, str_eq,
  if◌then◌else◌, is_empty,
}

-- `net/netip` and `net`: `A` is `netip.Addr`, `P` is `netip.Prefix`. `normalise` is `Unmap` with the
-- zone dropped, and `canonical` what becomes of a prefix that was parsed: unmapped where it describes
-- IPv4-mapped addresses only, and masked. `unbracket` is the text between brackets.
pub record AddressLibrary (A P : Type 0) : Type 0 where
  pub trim : String → String
  pub split_commas : String → List String
  pub lower : String → String
  pub parse_addr : String → Option A
  pub split_host_port : String → Option String
  pub unbracket : String → Option String
  pub normalise : A → A
  pub show : A → String
  pub parse_prefix : String → Option P
  pub canonical : P → P
  pub single : A → P
  pub has_slash : String → Bool
  pub prefix_contains : P → A → Bool

pub record ClientIpResolver (P : Type 0) : Type 0 where
  pub use_header : Bool
  pub header : String
  pub trusted : List P

pub data ResolverError : Type 0 where
  invalid_source : String → ResolverError
  no_trusted_proxies : ResolverError
  empty_entry : ResolverError
  invalid_cidr : String → ResolverError
  invalid_address : String → ResolverError

pub data ResolverResult (P : Type 0) : Type 0 where
  resolver_made : ClientIpResolver P → ResolverResult P
  resolver_failed : ResolverError → ResolverResult P

-- A request: the address of the peer, and the values of the header, in order
pub record Incoming : Type 0 where
  pub remote_addr : String
  pub header_values : List String

pub data ParsedProxy (P : Type 0) : Type 0 where
  proxy : P → ParsedProxy P
  bad_proxy : ResolverError → ParsedProxy P

-- A list from its end
abbrev pub reversed : List String → List String → List String
reversed [] acc = acc
reversed (x ∷ xs) acc = reversed xs (x ∷ acc)

module _ {A P : Type 0} (lib : AddressLibrary A P) where
  -- `parseTrustedProxy`
  unfoldable pub parse_trusted_proxy : String → ParsedProxy P
  parse_trusted_proxy text =
      let entry = lib.trim text in
      if str_eq entry ""
      then bad_proxy empty_entry
      else if lib.has_slash entry
      then elim (lib.parse_prefix entry) [
        | none ↦ bad_proxy (invalid_cidr entry)
        | some p ↦ proxy (lib.canonical p)
      ]
      else elim (lib.parse_addr entry) [
        | none ↦ bad_proxy (invalid_address entry)
        | some a ↦ proxy (lib.single (lib.normalise a))
      ]

  -- The loop over the trusted proxies, behind those parsed before
  unfoldable pub parse_proxies : String → List P → List String → ResolverResult P
  unfolding parse_trusted_proxy
  parse_proxies header trusted [] =
      resolver_made (record { use_header = true; header = header; trusted = trusted })
  parse_proxies header trusted (e ∷ es) = elim (parse_trusted_proxy e) [
    | bad_proxy err ↦ resolver_failed err
    | proxy p ↦ parse_proxies header (trusted ++ p ∷ []) es
  ]

  -- `NewClientIPResolver`
  unfoldable pub new_client_ip_resolver : String → String → List String → ResolverResult P
  unfolding parse_proxies
  new_client_ip_resolver source header trusted_proxies =
      let kind = lib.lower (lib.trim source) in
      if str_eq kind "" || str_eq kind "socket"
      then resolver_made (record { use_header = false; header = ""; trusted = [] })
      else if not (str_eq kind "header")
      then resolver_failed (invalid_source source)
      else let name = if str_eq (lib.trim header) "" then "X-Real-IP" else lib.trim header in
        if is_empty trusted_proxies
        then resolver_failed no_trusted_proxies
        else parse_proxies name [] trusted_proxies

  abbrev pub normalised : Option A → Option A
  normalised none = none
  normalised (some a) = some (lib.normalise a)

  -- The first of two attempts to parse that succeeds
  abbrev pub or_else : Option A → Option A → Option A
  or_else none other = other
  or_else (some a) other = some a

  -- `netip.ParseAddr` on a text that may be missing
  abbrev pub parse_part : Option String → Option A
  parse_part none = none
  parse_part (some s) = lib.parse_addr s

  -- `parseCandidateAddr`
  unfoldable pub parse_candidate_addr : String → Option A
  parse_candidate_addr text =
      let value = lib.trim text in
      if str_eq value ""
      then none
      else normalised (
          or_else (lib.parse_addr value)
            (or_else (parse_part (lib.split_host_port value)) (parse_part (lib.unbracket value))))

  -- `isTrusted`
  unfoldable pub is_trusted : List P → A → Bool
  is_trusted [] a = false
  is_trusted (p ∷ ps) a = lib.prefix_contains p a || is_trusted ps a

  -- The parts of one value that are not empty, and of all of them
  unfoldable pub named_parts : List String → List String
  named_parts [] = []
  named_parts (part ∷ parts) =
      let rest = named_parts parts in
      if str_eq (lib.trim part) "" then rest else lib.trim part ∷ rest

  unfoldable pub candidates : List String → List String
  unfolding named_parts
  candidates [] = []
  candidates (value ∷ values) = named_parts (lib.split_commas value) ++ candidates values

  -- The loop from the right, over the candidates in reverse
  unfoldable pub from_right : List P → A → List String → A
  unfolding is_trusted parse_candidate_addr
  from_right trusted socket [] = socket
  from_right trusted socket (c ∷ cs) = elim (parse_candidate_addr c) [
    | none ↦ socket
    | some a ↦ elim (is_trusted trusted a) [ true ↦ from_right trusted socket cs | false ↦ a ]
  ]

  -- `Resolve`; a nil resolver is `none`
  unfoldable pub resolve : Option (ClientIpResolver P) → Incoming → String
  unfolding parse_candidate_addr is_trusted candidates from_right
  resolve r req = elim (parse_candidate_addr req.remote_addr) [
    | none ↦ lib.trim req.remote_addr
    | some socket ↦ elim r [
      | none ↦ lib.show socket
      | some res ↦
          if not res.use_header
          then lib.show socket
          else if not (is_trusted res.trusted socket)
          then lib.show socket
          else lib.show (from_right res.trusted socket (reversed (candidates req.header_values) []))
    ]
  ]
