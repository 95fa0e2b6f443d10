-- ===== src/Tsv/Escaped.antt =====
-- The escaping of a value.
use pgedge_postgres_mcp.Prelude.{
  ℕ, ◌≡◌, refl, Bool, true, false, ◌||◌, List, [], ◌∷◌, ◌++◌, arith, ◌==◌, if◌then◌else◌,
}
use pgedge_postgres_mcp.Sqltext.{contains_byte}
use pgedge_postgres_mcp.Tsv.{replace_all, escape}

-- A reader's reversal of the escaping, byte by byte.
abbrev pub escaped_byte : ℕ → ℕ
escaped_byte c = if c == 116 then 9 else if c == 110 then 10 else if c == 114 then 13 else c

abbrev pub unescape : List ℕ → List ℕ
unescape [] = []
unescape (c ∷ []) = c ∷ []
unescape (c ∷ d ∷ s) = elim (c == 92) [
  | true ↦ escaped_byte d ∷ unescape s
  | false ↦ c ∷ unescape (d ∷ s)
]

unescape_plain : (c : ℕ) (s : List ℕ) → (c == 92) ≡ false → unescape (c ∷ s) ≡ c ∷ unescape s
unescape_plain c [] e = refl
unescape_plain c (d ∷ s) e = rw (e, unescape) refl

-- The bytes that break a table.
abbrev pub is_breaking : ℕ → Bool
is_breaking c = c == 9 || (c == 10 || c == 13)

-- What the escaping writes for a byte.
abbrev pub escaped : ℕ → List ℕ
escaped c =
    if c == 9
    then 92 ∷ 116 ∷ []
    else if c == 10
    then 92 ∷ 110 ∷ []
    else if c == 13
    then 92 ∷ 114 ∷ []
    else c ∷ []

-- The three replacements are one pass.
pub escape-∷ : (c : ℕ) (s : List ℕ) → escape (c ∷ s) ≡ escaped c ++ escape s
unfolding escape replace_all
escape-∷ c s = ground arith

-- No escaped text has a byte that breaks a table.
pub escape-breaking :
    (b : ℕ) (s : List ℕ) → is_breaking b ≡ true → contains_byte b (escape s) ≡ false
unfolding escape replace_all
escape-breaking b [] e = refl
escape-breaking b (c ∷ s) e = rw (escape-∷ c s) (ground (arith, escape-breaking b s e))

unescape-escape : (s : List ℕ) → contains_byte 92 s ≡ false → unescape (escape s) ≡ s
unfolding escape replace_all
unescape-escape [] e = refl
unescape-escape (c ∷ s) e =
    rw (escape-∷ c s) (ground (arith, unescape_plain c (escape s), unescape-escape s))
