-- ===== src/GoMap/Laws.antt =====
-- What a lookup sees after each operation on a map, and how the size changes.
use pgedge_postgres_mcp.Prelude.{
  ◌+◌, ◌≤◌, String, ◌≡◌, refl, Bool, true, false, none, some, [], ◌∷◌, arith, eq_iff, eq_refl,
  str_eq, if◌then◌else◌,
}
use pgedge_postgres_mcp.GoMap.{GoMap, get, has, put, delete, size, delete_where}

module _ {ℓ} {V : Type ℓ} where
  pub get-put :
      (k j : String) (v : V) (m : GoMap V)
      → get j (put k v m) ≡ (if str_eq k j then some v else get j m)
  unfolding get put
  get-put k j v [] = refl
  get-put k j v ((i, w) ∷ m) = ground (arith, eq_iff k j, eq_iff i k, eq_iff i j, get-put k j v m)

  pub get-delete :
      (k j : String) (m : GoMap V) → get j (delete k m) ≡ (if str_eq k j then none else get j m)
  unfolding get delete
  get-delete k j [] = ground arith
  get-delete k j ((i, w) ∷ m) = ground (arith, eq_iff k j, eq_iff i k, eq_iff i j, get-delete k j m)

  pub has-get : (k : String) (m : GoMap V) (v : V) → get k m ≡ some v → has k m ≡ true
  unfolding get has
  has-get k [] v h = cc
  has-get k ((i, w) ∷ m) v h = ground (arith, has-get k m v)

  pub get-none-has : (k : String) (m : GoMap V) → has k m ≡ false → get k m ≡ none
  unfolding get has
  get-none-has k [] h = refl
  get-none-has k ((i, w) ∷ m) h = ground (arith, get-none-has k m)

  pub has-none : (k : String) (m : GoMap V) → get k m ≡ none → has k m ≡ false
  unfolding get has
  has-none k [] h = refl
  has-none k ((i, w) ∷ m) h = ground (arith, has-none k m)

  pub has-put :
      (k j : String) (v : V) (m : GoMap V)
      → has j (put k v m) ≡ (if str_eq k j then true else has j m)
  unfolding has put
  has-put k j v [] = refl
  has-put k j v ((i, w) ∷ m) = ground (arith, eq_iff k j, eq_iff i k, eq_iff i j, has-put k j v m)

  pub has-delete :
      (k j : String) (m : GoMap V) → has j (delete k m) ≡ (if str_eq k j then false else has j m)
  unfolding has delete
  has-delete k j [] = ground arith
  has-delete k j ((i, w) ∷ m) = ground (arith, eq_iff k j, eq_iff i k, eq_iff i j, has-delete k j m)

  pub size-put :
      (k : String) (v : V) (m : GoMap V)
      → size (put k v m) ≡ (if has k m then size m else size m + 1)
  unfolding has put
  size-put k v [] = omega arith
  size-put k v ((i, w) ∷ m) = ground (arith, size-put k v m)

  pub size-delete-le : (k : String) (m : GoMap V) → size (delete k m) ≤ size m
  unfolding delete
  size-delete-le k [] = omega arith
  size-delete-le k ((i, w) ∷ m) = ground (arith, size-delete-le k m)

  pub size-delete-lt : (k : String) (m : GoMap V) → has k m ≡ true → size (delete k m) + 1 ≤ size m
  unfolding delete has
  size-delete-lt k [] h = cc
  size-delete-lt k ((i, w) ∷ m) h = ground (arith, size-delete-lt k m, size-delete-le k m)

  module _ (p : String → V → Bool) where
    pub size-delete_where-le : (m : GoMap V) → size (delete_where p m) ≤ size m
    unfolding delete_where
    size-delete_where-le [] = omega arith
    size-delete_where-le ((i, w) ∷ m) = ground (arith, size-delete_where-le m)

    pub has-delete_where :
        (k : String) (m : GoMap V) → has k m ≡ false → has k (delete_where p m) ≡ false
    unfolding delete_where has
    has-delete_where k [] h = refl
    has-delete_where k ((i, w) ∷ m) h = ground (arith, has-delete_where k m)

    -- What survives the loop does not meet its test.
    pub get-delete_where-fails :
        (k : String) (m : GoMap V) (v : V) → get k (delete_where p m) ≡ some v → p k v ≡ false
    unfolding delete_where get
    get-delete_where-fails k [] v h = cc
    get-delete_where-fails k ((i, w) ∷ m) v h =
        ground (arith, eq_iff i k, get-delete_where-fails k m v)

-- The equations, for `simp`.
pub ruleset map_laws = (get-put, get-delete, has-put, has-delete, eq_refl)
