-- ===== src/Auth/Middleware/Bearer.antt =====
-- What the token of an Authorization header is.
use Prim.Native.Char.{Char, code}
use text.Mathlib.TextEquality.{Char-path}
use pgedge_postgres_mcp.Prelude.{
  ℕ, zero, suc, String, ◌≡◌, refl, ap, ◌∙◌, inl, inr, Bool, true, some, arith, ◌==◌, Bool-cases,
  Option-cases, str_append,
}
use pgedge_postgres_mcp.Auth.Middleware.{parse_bearer, cut_at_space, trim_left_spaces}

abbrev pub spaces : ℕ → String
spaces zero = ""
spaces (suc n) = String.◌∷◌ " " (spaces n)

-- The header is a scheme that is `Bearer`, a space, and the token, with spaces before it or none.
pub record BearsToken (equal_fold : String → String → Bool) (header token : String) : Type 0 where
  pub scheme : String
  pub gap : ℕ
  pub header_is : header ≡ str_append scheme (String.◌∷◌ " " (str_append (spaces gap) token))
  pub scheme_is : equal_fold scheme "Bearer" ≡ true

space_is : (c : Char) → (code c == b' ') ≡ true → c ≡ " "
space_is c e = Char-path c " " (ground arith)

trim_sound : (s : String) → (n : ℕ) × (s ≡ str_append (spaces n) (trim_left_spaces s))
trim_sound String.[] = (0, refl)
trim_sound (String.◌∷◌ c s) = elim (Bool-cases (code c == b' ')) [
  | inl space ↦
      let (n, e) = trim_sound s in
      (suc n, rw space (ap (λ x. String.◌∷◌ x s) (space_is c space) ∙ ap (λ x. String.◌∷◌ " " x) e))
  | inr other ↦ (0, rw other refl)
]

cut_sound : (s a b : String) → cut_at_space s ≡ some (a, b) → s ≡ str_append a (String.◌∷◌ " " b)
unfolding cut_at_space
cut_sound String.[] a b e = ground arith
cut_sound (String.◌∷◌ c s) a b e = elim (Bool-cases (code c == b' ')) [
  | inl space ↦
      let here : (a ≡ "") × (b ≡ s) = ground (arith, space) in
      rw (here.0, here.1) (ap (λ x. String.◌∷◌ x s) (space_is c space))
  | inr other ↦ elim (Option-cases (cut_at_space s)) [
    | inl uncut ↦ absurd (ground (arith, other, uncut))
    | inr ((a', b'), cut) ↦
        let here : (a ≡ String.◌∷◌ c a') × (b ≡ b') = ground (arith, other, cut) in
        rw (here.0, here.1) (ap (λ x. String.◌∷◌ c x) (cut_sound s a' b' cut))
  ]
]

pub parse_bearer_sound :
    (equal_fold : String → String → Bool) (header token : String)
    → parse_bearer equal_fold header ≡ some token
    → BearsToken equal_fold header token
unfolding parse_bearer
parse_bearer_sound equal_fold header token e = elim (Option-cases (cut_at_space header)) [
  | inl uncut ↦ absurd (ground (arith, uncut))
  | inr ((scheme, rest), cut) ↦
      let (n, at) = trim_sound rest in
      let same : trim_left_spaces rest ≡ token = ground (arith, cut) in
      record {
        scheme = scheme;
        gap = n;
        header_is =
            cut_sound header scheme rest cut
            ∙ ap (λ x. str_append scheme (String.◌∷◌ " " x)) (at ∙ ap (str_append (spaces n)) same);
        scheme_is = ground (arith, cut);
      }
]
