-- ===== src/Sqltext.antt =====
-- internal/sqltext/sqltext.go: a statement without its comments and literals. The statement is the
-- list of its bytes. A position of the scan is the byte before it, if there is one, and the bytes from
-- it on; a routine that returns an index returns the bytes up to there and those after.
pub mod Cover
pub mod Fuel
pub mod Literal
pub mod Statements
use pgedge_postgres_mcp.Prelude.{
  ℕ, zero, suc, ◌+◌, ◌-◌, Bool, true, false, not, ◌&&◌, ◌||◌, Option, none, some, List, [], ◌∷◌,
  ◌++◌, leb, ◌==◌, if◌then◌else◌, length, is_empty,
}

-- `isASCIILetter`
abbrev pub is_ascii_letter : ℕ → Bool
is_ascii_letter c = (leb 97 c && leb c 122) || (leb 65 c && leb c 90)

-- `isASCIIDigit`
abbrev pub is_ascii_digit : ℕ → Bool
is_ascii_digit c = leb 48 c && leb c 57

-- `isIdentifierByte`
abbrev pub is_identifier_byte : ℕ → Bool
is_identifier_byte c = c == 95 || (is_ascii_letter c || is_ascii_digit c)

-- `i < len(query) && query[i] == c`
abbrev pub starts_with : ℕ → List ℕ → Bool
starts_with c [] = false
starts_with c (b ∷ q) = b == c

abbrev pub rest_of : List ℕ → List ℕ
rest_of [] = []
rest_of (b ∷ q) = q

abbrev pub before : List ℕ → List ℕ × List ℕ → List ℕ × List ℕ
before bs (a, b) = (bs ++ a, b)

-- `isLineCommentStart`
abbrev pub is_line_comment_start : ℕ → List ℕ → Bool
is_line_comment_start c q = c == 45 && starts_with 45 q

-- `isBlockCommentStart`
abbrev pub is_block_comment_start : ℕ → List ℕ → Bool
is_block_comment_start c q = c == 47 && starts_with 42 q

-- `skipLineCommentBody`
unfoldable pub skip_line_comment_body : List ℕ → List ℕ × List ℕ
skip_line_comment_body [] = ([], [])
skip_line_comment_body (c ∷ q) =
    let later = skip_line_comment_body q in if c == 10 then ([], c ∷ q) else before (c ∷ []) later

-- `skipBlockComment`, behind the first opening mark, where the depth is 1
unfoldable pub skip_block_comment : ℕ → List ℕ → List ℕ × List ℕ
skip_block_comment depth [] = ([], [])
skip_block_comment depth (c ∷ []) = (c ∷ [], [])
skip_block_comment depth (c ∷ d ∷ q) = elim (c == 47 && d == 42) [
  | true ↦ before (c ∷ d ∷ []) (skip_block_comment (depth + 1) q)
  | false ↦ elim (c == 42 && d == 47) [
    | true ↦ elim (depth == 1) [
      | true ↦ (c ∷ d ∷ [], q)
      | false ↦ before (c ∷ d ∷ []) (skip_block_comment (depth - 1) q)
    ]
    | false ↦ before (c ∷ []) (skip_block_comment depth (d ∷ q))
  ]
]

-- `endOfQuoted`, behind the opening quote
unfoldable pub end_of_quoted : ℕ → Bool → List ℕ → List ℕ × List ℕ
end_of_quoted quote escapes [] = ([], [])
end_of_quoted quote escapes (c ∷ []) = (c ∷ [], [])
end_of_quoted quote escapes (c ∷ d ∷ q) = elim (escapes && c == 92) [
  | true ↦ before (c ∷ d ∷ []) (end_of_quoted quote escapes q)
  | false ↦ elim (c == quote) [
    | false ↦ before (c ∷ []) (end_of_quoted quote escapes (d ∷ q))
    | true ↦ elim (d == quote) [
      | true ↦ before (c ∷ d ∷ []) (end_of_quoted quote escapes q)
      | false ↦ (c ∷ [], d ∷ q)
    ]
  ]
]

-- `i == 0 || p(query[i-1])`
abbrev pub at_start_or : (ℕ → Bool) → Option ℕ → Bool
at_start_or p none = true
at_start_or p (some b) = p b

-- `escapeStringStart`
abbrev pub escape_string_start : Option ℕ → ℕ → List ℕ → Bool
escape_string_start prev c q =
    (c == 69 || c == 101)
    && (starts_with 39 q && at_start_or (λ b. not (is_identifier_byte b)) prev)

-- `dollarQuoteCanStartAt`
abbrev pub dollar_quote_can_start_at : Option ℕ → Bool
dollar_quote_can_start_at prev = at_start_or (λ b. not (is_identifier_byte b) && not (b == 36)) prev

abbrev pub before? : List ℕ → Option (List ℕ × List ℕ) → Option (List ℕ × List ℕ)
before? bs none = none
before? bs (some s) = some (before bs s)

-- The loop of `dollarQuoteTag`, behind the first dollar: the tag from there, and what follows
unfoldable pub dollar_quote_tag : Bool → List ℕ → Option (List ℕ × List ℕ)
dollar_quote_tag first [] = none
dollar_quote_tag first (c ∷ q) =
    let later = before? (c ∷ []) (dollar_quote_tag false q) in
    if c == 36
    then some (c ∷ [], q)
    else if c == 95 || is_ascii_letter c
    then later
    else if is_ascii_digit c && not first
    then later
    else none

-- What follows the tag, where the text starts with it
unfoldable pub strip_tag : List ℕ → List ℕ → Option (List ℕ)
strip_tag [] q = some q
strip_tag (t ∷ ts) [] = none
strip_tag (t ∷ ts) (c ∷ q) = if c == t then strip_tag ts q else none

-- `endOfDollarQuote`, behind the opening tag
unfoldable pub end_of_dollar_quote : List ℕ → List ℕ → Option (List ℕ × List ℕ)
unfolding strip_tag
end_of_dollar_quote tag [] = none
end_of_dollar_quote tag (c ∷ q) =
    let later = before? (c ∷ []) (end_of_dollar_quote tag q) in
    elim (strip_tag tag (c ∷ q)) [ some rest ↦ some (tag, rest) | none ↦ later ]

-- What a turn of the loop of `Strip` writes to each form, the bytes it passes, and those it leaves
pub record Segment : Type 0 where
  pub residue : List ℕ
  pub bare : List ℕ
  pub taken : List ℕ
  pub rest : List ℕ

abbrev pub noise : List ℕ × List ℕ → Segment
noise (a, b) = record { residue = 32 ∷ []; bare = 32 ∷ []; taken = a; rest = b }

-- `consumeQuoted`, behind the opening quote, with the byte of an escape prefix
abbrev pub consume_quoted : List ℕ → ℕ → List ℕ × List ℕ → Segment
consume_quoted prefix quote (a, b) = record {
  residue = prefix ++ quote ∷ quote ∷ [];
  bare = prefix ++ quote ∷ a;
  taken = prefix ++ quote ∷ a;
  rest = b;
}

-- `res.WriteByte(query[i]); bar.WriteByte(query[i]); i++`
abbrev pub plain : ℕ → List ℕ → Segment
plain c q = record { residue = c ∷ []; bare = c ∷ []; taken = c ∷ []; rest = q }

abbrev pub dollar_body : ℕ → List ℕ → List ℕ → Option (List ℕ × List ℕ) → Segment
dollar_body c q tag none = plain c q
dollar_body c q tag (some (a, b)) = record {
  residue = (c ∷ tag) ++ c ∷ tag;
  bare = (c ∷ tag) ++ a;
  taken = (c ∷ tag) ++ a;
  rest = b;
}

-- `consumeDollarQuote`, behind the dollar, with the fallback
abbrev pub consume_dollar_quote : ℕ → List ℕ → Option (List ℕ × List ℕ) → Segment
consume_dollar_quote c q none = plain c q
consume_dollar_quote c q (some (tag, body)) =
    dollar_body c q tag (end_of_dollar_quote (c ∷ tag) body)

-- The switch of `Strip`
unfoldable pub scan : Option ℕ → ℕ → List ℕ → Segment
unfolding skip_line_comment_body skip_block_comment end_of_quoted dollar_quote_tag
    end_of_dollar_quote
scan prev c q =
    if is_line_comment_start c q
    then noise (skip_line_comment_body (c ∷ q))
    else if is_block_comment_start c q
    then noise (before (c ∷ 42 ∷ []) (skip_block_comment 1 (rest_of q)))
    else if escape_string_start prev c q
    then consume_quoted (c ∷ []) 39 (end_of_quoted 39 true (rest_of q))
    else if c == 39
    then consume_quoted [] 39 (end_of_quoted 39 false q)
    else if c == 34
    then consume_quoted [] 34 (end_of_quoted 34 false q)
    else if c == 36 && dollar_quote_can_start_at prev
    then consume_dollar_quote c q (dollar_quote_tag true q)
    else plain c q

-- `query[i-1]` behind a segment
abbrev pub last_byte : Option ℕ → List ℕ → Option ℕ
last_byte prev [] = prev
last_byte prev (c ∷ q) = last_byte (some c) q

-- The loop of `Strip`: its segments
unfoldable pub segments : ℕ → Option ℕ → List ℕ → List Segment
unfolding scan
segments zero prev q = []
segments (suc fuel) prev [] = []
segments (suc fuel) prev (c ∷ q) =
    let s = scan prev c q in s ∷ segments fuel (last_byte prev s.taken) s.rest

abbrev pub written : (Segment → List ℕ) → List Segment → List ℕ
written p [] = []
written p (s ∷ ss) = p s ++ written p ss

-- `Strip`: the residue and the bare form
unfoldable pub strip : List ℕ → List ℕ × List ℕ
unfolding segments
strip query =
    let ss = segments (length query) none query in
    (written (λ s. s.residue) ss, written (λ s. s.bare) ss)

-- The cutset of `HasMultipleStatements`
abbrev pub is_separator : ℕ → Bool
is_separator c = (c == 59 || c == 32) || (c == 9 || (c == 13 || c == 10))

-- `strings.TrimRight`
unfoldable pub trim_right : List ℕ → List ℕ
trim_right [] = []
trim_right (c ∷ q) =
    let later = trim_right q in if is_empty later && is_separator c then [] else c ∷ later

abbrev pub contains_byte : ℕ → List ℕ → Bool
contains_byte c [] = false
contains_byte c (b ∷ q) = b == c || contains_byte c q

-- `HasMultipleStatements`
unfoldable pub has_multiple_statements : List ℕ → Bool
unfolding trim_right
has_multiple_statements residue = contains_byte 59 (trim_right residue)
