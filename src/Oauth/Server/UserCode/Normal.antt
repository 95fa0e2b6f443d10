-- ===== src/Oauth/Server/UserCode/Normal.antt =====
-- A code that was drawn is in its normal form.
use pgedge_postgres_mcp.Prelude.{
  ℕ, zero, suc, ◌+◌, ◌<◌, String, ◌≡◌, refl, sym, ap, ◌∙◌, inl, inr, Bool, true, not, ◌&&◌, ◌||◌,
  some, List, [], ◌∷◌, arith, leb, ◌==◌, Bool-cases, Option-cases, ◌%◌, str_append, first_chars,
  drop_chars, char_count,
}
use Prim.Native.Char.{code}
use pgedge_postgres_mcp.Oauth.Server.UserCode.{
  without_separators, letter, draw_letters, new_user_code, user_code_alphabet,
  user_code_rejection_ceiling, normalise_user_code, hyphenated,
}

-- No character is a space or a hyphen.
abbrev is_plain : String → Bool
is_plain String.[] = true
is_plain (String.◌∷◌ c s) = not (code c == b' ' || code c == b'-') && is_plain s

without_separators-plain : (s : String) → is_plain s ≡ true → without_separators s ≡ s
without_separators-plain String.[] e = refl
without_separators-plain (String.◌∷◌ c s) e = ground (arith, without_separators-plain s)

plain-first_chars : (n : ℕ) (s : String) → is_plain s ≡ true → is_plain (first_chars n s) ≡ true
plain-first_chars zero s e = refl
plain-first_chars (suc n) String.[] e = refl
plain-first_chars (suc n) (String.◌∷◌ c s) e = ground (arith, plain-first_chars n s)

plain-drop_chars : (n : ℕ) (s : String) → is_plain s ≡ true → is_plain (drop_chars n s) ≡ true
plain-drop_chars zero s e = e
plain-drop_chars (suc n) String.[] e = refl
plain-drop_chars (suc n) (String.◌∷◌ c s) e = plain-drop_chars n s (ground arith)

plain-append :
    (s t : String) → is_plain s ≡ true → is_plain t ≡ true → is_plain (str_append s t) ≡ true
plain-append String.[] t e d = d
plain-append (String.◌∷◌ c s) t e d = ground (arith, plain-append s t)

char_count-append : (s t : String) → char_count (str_append s t) ≡ char_count s + char_count t
char_count-append String.[] t = omega arith
char_count-append (String.◌∷◌ c s) t = omega (arith, char_count-append s t)

first-drop : (n : ℕ) (s : String) → str_append (first_chars n s) (drop_chars n s) ≡ s
first-drop zero s = refl
first-drop (suc n) String.[] = refl
first-drop (suc n) (String.◌∷◌ c s) = ap (λ t. String.◌∷◌ c t) (first-drop n s)

char_count-letter :
    (n : ℕ) (s : String) → n < char_count s → char_count (first_chars 1 (drop_chars n s)) ≡ 1
char_count-letter zero String.[] e = ground arith
char_count-letter zero (String.◌∷◌ c s) e = refl
char_count-letter (suc n) String.[] e = ground arith
char_count-letter (suc n) (String.◌∷◌ c s) e = char_count-letter n s (omega arith)

-- The byte `b` gives one plain letter.
letter_one : (b : ℕ) → (char_count (letter b) ≡ 1) × (is_plain (letter b) ≡ true)
unfolding letter
letter_one b = (
  char_count-letter (b % 28) user_code_alphabet (omega arith),
  plain-first_chars 1 (drop_chars (b % 28) user_code_alphabet)
      (plain-drop_chars (b % 28) user_code_alphabet refl),
)

letters_drawn :
    (n : ℕ) (bytes : List ℕ) (t : String)
    → draw_letters n bytes ≡ some t
    → (char_count t ≡ n) × (is_plain t ≡ true)
unfolding draw_letters
letters_drawn zero bytes t e =
    let is : "" ≡ t = ground arith in (ap char_count (sym is), ap is_plain (sym is))
letters_drawn (suc n) [] t e = cc
letters_drawn (suc n) (b ∷ bytes) t e = elim (Bool-cases (leb user_code_rejection_ceiling b)) [
  | inl again ↦ letters_drawn (suc n) bytes t (ground (arith, again))
  | inr kept ↦ elim (Option-cases (draw_letters n bytes)) [
    | inl broke ↦ ground (arith, kept, broke)
    | inr (rest, drawn) ↦
        let (count, plain) = letters_drawn n bytes rest drawn in
        let (one, fine) = letter_one b in
        let is : str_append (letter b) rest ≡ t = ground (arith, kept, drawn) in
        (
          ap char_count (sym is) ∙ omega (arith, char_count-append (letter b) rest, one, count),
          ap is_plain (sym is) ∙ plain-append (letter b) rest fine plain,
        )
  ]
]

separators-append :
    (s t : String)
    → without_separators (str_append s t) ≡ str_append (without_separators s) (without_separators t)
separators-append String.[] t = refl
separators-append (String.◌∷◌ c s) t = ground (arith, separators-append s t)

-- A new user code has eight letters around its hyphen, and whatever text gives the same letters in
-- upper case, without its separators, as the code does, has the code for its normal form.
pub normalise-new_user_code :
    (to_upper : String → String) (bytes : List ℕ) (new typed : String)
    → new_user_code bytes ≡ some new
    → without_separators (to_upper typed) ≡ without_separators new
    → (char_count (without_separators new) ≡ 8) × (normalise_user_code to_upper typed ≡ new)
unfolding new_user_code normalise_user_code
normalise-new_user_code to_upper bytes new typed e same =
    elim (Option-cases (draw_letters 8 bytes)) [
      | inl broke ↦ ground (arith, broke)
      | inr (t, drawn) ↦
          let (count, plain) = letters_drawn 8 bytes t drawn in
          let is : hyphenated t ≡ new = ground (arith, drawn) in
          let front = without_separators-plain (first_chars 4 t) (plain-first_chars 4 t plain) in
          let back = without_separators-plain (drop_chars 4 t) (plain-drop_chars 4 t plain) in
          let letters : without_separators (hyphenated t) ≡ t =
            separators-append (first_chars 4 t) (str_append "-" (drop_chars 4 t))
            ∙ ap (λ x. str_append x (without_separators (drop_chars 4 t))) front
            ∙ ap (λ x. str_append (first_chars 4 t) x) back
            ∙ first-drop 4 t in
          let bare : without_separators new ≡ t = ap without_separators (sym is) ∙ letters in
          (ap char_count bare ∙ count, rw (same ∙ bare) (rw count is))
    ]
