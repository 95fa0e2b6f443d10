-- ===== src/GoMap.antt =====
-- Go's built-in `map[string]V`, as the association list of its entries in the order in which a
-- `range` loop visits them. A theorem about every such list is a theorem about every order.
pub mod Laws
pub mod Distinct
pub mod Keyed
use pgedge_postgres_mcp.Prelude.{
  ℕ, suc, String, ◌≡◌, Bool, true, false, Option, none, some, List, [], ◌∷◌, str_eq, if◌then◌else◌,
}

abbrev pub GoMap {ℓ} : Type ℓ → Type ℓ
GoMap V = List (String × V)

module _ {ℓ} {V : Type ℓ} where
  -- `v, ok := m[k]`
  unfoldable pub get : String → GoMap V → Option V
  get k [] = none
  get k ((j, v) ∷ m) = if str_eq j k then some v else get k m

  -- `_, ok := m[k]`
  unfoldable pub has : String → GoMap V → Bool
  has k [] = false
  has k ((j, v) ∷ m) = if str_eq j k then true else has k m

  -- `m[k] = v`
  unfoldable pub put : String → V → GoMap V → GoMap V
  put k v [] = (k, v) ∷ []
  put k v ((j, w) ∷ m) = let rest = put k v m in if str_eq j k then (j, v) ∷ m else (j, w) ∷ rest

  -- `delete(m, k)`
  unfoldable pub delete : String → GoMap V → GoMap V
  delete k [] = []
  delete k ((j, v) ∷ m) = let rest = delete k m in if str_eq j k then rest else (j, v) ∷ rest

  -- `len(m)`
  abbrev pub size : GoMap V → ℕ
  size [] = 0
  size (e ∷ m) = suc (size m)

  -- `for k, v := range m { if p(k, v) { delete(m, k) } }`
  unfoldable pub delete_where : (String → V → Bool) → GoMap V → GoMap V
  delete_where p [] = []
  delete_where p ((j, v) ∷ m) = let rest = delete_where p m in if p j v then rest else (j, v) ∷ rest

  -- The keys that such a loop collects.
  unfoldable pub keys_where : (String → V → Bool) → GoMap V → List String
  keys_where p [] = []
  keys_where p ((j, v) ∷ m) = let rest = keys_where p m in if p j v then j ∷ rest else rest

  -- No key stands twice, as in every Go map.
  abbrev pub Distinct : GoMap V → Type 0
  Distinct [] = Unit {0}
  Distinct ((j, v) ∷ m) = (has j m ≡ false) × Distinct m
