-- ===== src/GoMap/Distinct.antt =====
-- Maps whose keys are distinct, and lookups after the loops that delete entries.
use pgedge_postgres_mcp.Prelude.{
  String, ◌≡◌, refl, Bool, false, Option, none, some, [], ◌∷◌, arith, eq_iff, if◌then◌else◌,
  contains,
}
use pgedge_postgres_mcp.GoMap.{GoMap, get, has, put, delete, delete_where, Distinct, keys_where}
use pgedge_postgres_mcp.GoMap.Laws.{has-put, has-delete, has-delete_where, get-none-has}

module _ {ℓ} {V : Type ℓ} where
  pub put-Distinct : (k : String) (v : V) (m : GoMap V) → Distinct m → Distinct (put k v m)
  unfolding put has
  put-Distinct k v [] d = (refl, tt)
  put-Distinct k v ((i, w) ∷ m) d =
      ground (arith, eq_iff i k, eq_iff k i, has-put k i v m, put-Distinct k v m d.1)

  pub delete-Distinct : (k : String) (m : GoMap V) → Distinct m → Distinct (delete k m)
  unfolding delete
  delete-Distinct k [] d = d
  delete-Distinct k ((i, w) ∷ m) d = ground (arith, has-delete k i m, delete-Distinct k m d.1)

  -- What the loop that deletes leaves, and the keys that it collects.
  abbrev pub keep : (V → Bool) → Option V → Option V
  keep q none = none
  keep q (some v) = if q v then none else some v

  -- Whether the test holds at an entry.
  abbrev pub holds : (V → Bool) → Option V → Bool
  holds q none = false
  holds q (some v) = q v

  module _ (p : String → V → Bool) where
    pub delete_where-Distinct : (m : GoMap V) → Distinct m → Distinct (delete_where p m)
    unfolding delete_where
    delete_where-Distinct [] d = d
    delete_where-Distinct ((i, w) ∷ m) d =
        ground (arith, has-delete_where p i m, delete_where-Distinct m d.1)

    pub get-delete_where :
        (k : String) (m : GoMap V) → Distinct m → get k (delete_where p m) ≡ keep (p k) (get k m)
    unfolding delete_where get
    get-delete_where k [] d = refl
    get-delete_where k ((i, w) ∷ m) d =
        ground (arith, eq_iff i k, get-none-has k m, get-delete_where k m d.1)

    pub contains-keys_where :
        (k : String) (m : GoMap V)
        → Distinct m
        → contains (keys_where p m) k ≡ holds (p k) (get k m)
    unfolding keys_where get
    contains-keys_where k [] d = refl
    contains-keys_where k ((i, w) ∷ m) d =
        ground (arith, eq_iff i k, get-none-has k m, contains-keys_where k m d.1)
