-- ===== src/Oauth/Server/UserCode.antt =====
-- internal/oauth/device.go: the codes that users type. A text stands for its bytes, one character
-- each. Go's `strings.ToUpper` is a parameter.
pub mod Normal
use pgedge_postgres_mcp.Prelude.{
  ℕ, zero, suc, String, true, false, ◌||◌, Option, none, some, List, [], ◌∷◌, ltb, leb, ◌==◌,
  if◌then◌else◌, ◌%◌, str_append, first_chars, drop_chars, char_count,
}
use Prim.Native.Char.{code}

-- `userCodeAlphabet` and `userCodeRejectionCeiling`
abbrev pub user_code_alphabet : String
user_code_alphabet = "BCDFGHJKLMNPQRSTVWXZ23456789"

abbrev pub user_code_rejection_ceiling : ℕ
user_code_rejection_ceiling = 252

-- `userCodeAlphabet[int(draw[0])%len(userCodeAlphabet)]`
unfoldable pub letter : ℕ → String
letter b = first_chars 1 (drop_chars (b % 28) user_code_alphabet)

-- The loop, for as many letters as are left: it takes the bytes that the generator gives, which
-- fails where they end.
unfoldable pub draw_letters : ℕ → List ℕ → Option String
draw_letters zero bytes = some ""
draw_letters (suc n) [] = none
draw_letters (suc n) (b ∷ bytes) = elim (leb user_code_rejection_ceiling b) [
  | true ↦ draw_letters (suc n) bytes
  | false ↦ elim (draw_letters n bytes) [
    | none ↦ none
    | some rest ↦ some (str_append (letter b) rest)
  ]
]

-- `string(b[:4]) + "-" + string(b[4:])`
abbrev pub hyphenated : String → String
hyphenated s = str_append (first_chars 4 s) (str_append "-" (drop_chars 4 s))

-- `newUserCode`
unfoldable pub new_user_code : List ℕ → Option String
unfolding draw_letters letter
new_user_code bytes = elim (draw_letters 8 bytes) [ none ↦ none | some b ↦ some (hyphenated b) ]

-- `strings.NewReplacer(" ", "", "-", "").Replace`
abbrev pub without_separators : String → String
without_separators String.[] = ""
without_separators (String.◌∷◌ c s) =
    let rest = without_separators s in
    if code c == b' ' || code c == b'-' then rest else String.◌∷◌ c rest

-- `normaliseUserCode`
unfoldable pub normalise_user_code : (String → String) → String → String
normalise_user_code to_upper s =
    let t = without_separators (to_upper s) in if ltb 4 (char_count t) then hyphenated t else t
