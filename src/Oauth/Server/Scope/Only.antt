-- ===== src/Oauth/Server/Scope/Only.antt =====
-- The scope of a request against a reader of its letters.
use Prim.Native.Char.{Char, code}
use Prim.Native.Nat.{Ordering, compare as compare_ℕ}
use Prim.Native.String.{compare, then}
use Prim.Native.String.compare
use text.Mathlib.Text.{is_eq}
use pgedge_postgres_mcp.Prelude.{
  ℕ, String, ◌≡◌, refl, sym, ap, ◌∙◌, inl, inr, Bool, true, false, ◌&&◌, ◌||◌, List, arith, str_eq,
  leb, ◌==◌, Bool-cases, all,
}
use pgedge_postgres_mcp.Oauth.Server.Scope.{is_space, words, scope_permitted, cons_word, fields}

-- The characters with the property White_Space.
unfoldable pub is_blank : ℕ → Bool
is_blank c =
    (leb 9 c && leb c 13)
    || c == 32
    || c == 133
    || c == 160
    || c == 5760
    || (leb 8192 c && leb c 8202)
    || c == 8232
    || c == 8233
    || c == 8239
    || c == 8287
    || c == 12288

-- How much of the word `mcp` was read.
pub data Reading : Type 0 where
  between : Reading
  seen_m : Reading
  seen_mc : Reading
  seen_mcp : Reading

-- Whether the rest of a text holds only the word `mcp`, any number of times, with space around it.
abbrev pub only_mcp : Reading → String → Bool
only_mcp between String.[] = true
only_mcp seen_m String.[] = false
only_mcp seen_mc String.[] = false
only_mcp seen_mcp String.[] = true
only_mcp between (String.◌∷◌ c s) = elim (is_blank (code c)) [
  | true ↦ only_mcp between s
  | false ↦ (code c == 109) && only_mcp seen_m s
]
only_mcp seen_m (String.◌∷◌ c s) = (code c == 99) && only_mcp seen_mc s
only_mcp seen_mc (String.◌∷◌ c s) = (code c == 112) && only_mcp seen_mcp s
only_mcp seen_mcp (String.◌∷◌ c s) = is_blank (code c) && only_mcp between s

abbrev all_mcp : List String → Bool
all_mcp ws = all (λ s. str_eq s "mcp") ws

is_space-is_blank : (c : ℕ) → is_space c ≡ is_blank c
unfolding is_space is_blank
is_space-is_blank c = refl

is_eq-then : (o r : Ordering) → is_eq (then o r) ≡ (is_eq o && is_eq r)
is_eq-then Ordering.lt r = refl
is_eq-then Ordering.eq r = refl
is_eq-then Ordering.gt r = refl

str_eq_cons :
    (c d : Char) (s t : String)
    → str_eq (String.◌∷◌ c s) (String.◌∷◌ d t) ≡ ((code c == code d) && str_eq s t)
str_eq_cons c d s t =
    ap is_eq (compare.cons-cons c d s t) ∙ is_eq-then (compare_ℕ (code c) (code d)) (compare s t)

str_eq_nil : (c : Char) (s : String) → str_eq (String.◌∷◌ c s) "" ≡ false
str_eq_nil c s = ap is_eq (compare.cons-nil c s)

-- Where the text goes on with space, no word is under way.
blank_is_no_letter :
    (c : ℕ) → is_blank c ≡ true → ((c == 109) ≡ false) × ((c == 99) ≡ false) × ((c == 112) ≡ false)
unfolding is_blank
blank_is_no_letter c e = (ground arith, ground arith, ground arith)

only_mcp-words :
    (s : String)
    → (only_mcp between s ≡ all_mcp (cons_word (words s)))
      × (only_mcp seen_m s ≡ (str_eq (words s).0 "cp" && all_mcp (words s).1))
      × (only_mcp seen_mc s ≡ (str_eq (words s).0 "p" && all_mcp (words s).1))
      × (only_mcp seen_mcp s ≡ (str_eq (words s).0 "" && all_mcp (words s).1))
unfolding words
only_mcp-words String.[] = (refl, refl, refl, refl)
only_mcp-words (String.◌∷◌ c s) =
    let (ih, ih_m, ih_mc, ih_mcp) = only_mcp-words s in
    let w = (words s).0 in
    let ws = (words s).1 in
    let same = is_space-is_blank (code c) in
    elim (Bool-cases (is_blank (code c))) [
      | inl blank ↦
          let (no_m, no_c, no_p) = blank_is_no_letter (code c) blank in
          let space : is_space (code c) ≡ true = same ∙ blank in
          (
            rw (space, blank, only_mcp) ih,
            rw (space, only_mcp) (rw no_c refl),
            rw (space, only_mcp) (rw no_p refl),
            rw (space, blank, only_mcp) ih,
          )
      | inr letter ↦
          let no_space : is_space (code c) ≡ false = same ∙ letter in
          let empty = str_eq_nil c w in
          (
            ground (arith, no_space, letter, empty, str_eq_cons c "m" w "cp", ih_m),
            ground (arith, no_space, str_eq_cons c "c" w "p", ih_mc),
            ground (arith, no_space, str_eq_cons c "p" w "", ih_mcp),
            ground (arith, no_space, letter, empty),
          )
    ]

-- A scope is accepted exactly if its text holds only the word `mcp`, with space around it.
pub scope_permitted_lem : (s : String) → scope_permitted s ≡ only_mcp between s
unfolding scope_permitted fields
scope_permitted_lem s = sym (only_mcp-words s).0
