-- ===== src/Oauth/Server/Scope.antt =====
-- The scopes of a request: `strings.Fields` of Go's library, and the loops over it in
-- internal/oauth/authorize.go and device.go.
pub mod Only
use pgedge_postgres_mcp.Prelude.{
  ℕ, String, Bool, ◌&&◌, ◌||◌, List, [], ◌∷◌, str_eq, leb, ◌==◌, if◌then◌else◌, all,
}
use Prim.Native.Char.{code}

-- `unicode.IsSpace`
unfoldable pub is_space : ℕ → Bool
is_space c =
    (leb 9 c && leb c 13)
    || c == 32
    || c == 0x85
    || c == 0xA0
    || c == 0x1680
    || (leb 0x2000 c && leb c 0x200A)
    || c == 0x2028
    || c == 0x2029
    || c == 0x202F
    || c == 0x205F
    || c == 0x3000

abbrev pub cons_word : String × List String → List String
cons_word (w, ws) = if str_eq w "" then ws else w ∷ ws

-- The word that a text starts with, which may be empty, and those that follow
unfoldable pub words : String → String × List String
unfolding is_space
words String.[] = ("", [])
words (String.◌∷◌ c s) =
    let rest = words s in
    if is_space (code c) then ("", cons_word rest) else (String.◌∷◌ c rest.0, rest.1)

-- `strings.Fields`
unfoldable pub fields : String → List String
unfolding words
fields s = cons_word (words s)

-- `scope != ScopeMCP`, for none of them
unfoldable pub scope_permitted : String → Bool
unfolding fields
scope_permitted scope = all (λ s. str_eq s "mcp") (fields scope)
