-- ===== src/GoMap/Keyed.antt =====
-- Maps of entries that carry their own key: each key stands once, and each entry under its own.
use pgedge_postgres_mcp.Prelude.{String, ◌≡◌, refl, Bool, false, some, [], ◌∷◌, arith, eq_iff}
use pgedge_postgres_mcp.GoMap.{GoMap, has, Distinct, get, delete, delete_where, put}
use pgedge_postgres_mcp.GoMap.Laws.{has-delete, has-put, has-delete_where}

module _ {ℓ} {V : Type ℓ} (key : V → String) where
  abbrev pub Keyed : GoMap V → Type 0
  Keyed [] = Unit {0}
  Keyed ((j, v) ∷ m) = (has j m ≡ false) × (key v ≡ j) × Keyed m

  pub Keyed-Distinct : (m : GoMap V) → Keyed m → Distinct m
  Keyed-Distinct [] d = tt
  Keyed-Distinct ((i, w) ∷ m) d = (d.0, Keyed-Distinct m d.2)

  pub Keyed-get : (k : String) (m : GoMap V) (v : V) → Keyed m → get k m ≡ some v → key v ≡ k
  unfolding get
  Keyed-get k [] v d e = cc
  Keyed-get k ((i, w) ∷ m) v d e = ground (arith, eq_iff i k, Keyed-get k m v d.2)

  pub put-Keyed : (k : String) (v : V) (m : GoMap V) → key v ≡ k → Keyed m → Keyed (put k v m)
  unfolding put has
  put-Keyed k v [] e d = (refl, e, tt)
  put-Keyed k v ((i, w) ∷ m) e d =
      ground (arith, eq_iff i k, eq_iff k i, has-put k i v m, put-Keyed k v m e d.2)

  pub delete-Keyed : (k : String) (m : GoMap V) → Keyed m → Keyed (delete k m)
  unfolding delete
  delete-Keyed k [] d = d
  delete-Keyed k ((i, w) ∷ m) d = ground (arith, has-delete k i m, delete-Keyed k m d.2)

  pub delete_where-Keyed :
      (p : String → V → Bool) (m : GoMap V) → Keyed m → Keyed (delete_where p m)
  unfolding delete_where
  delete_where-Keyed p [] d = d
  delete_where-Keyed p ((i, w) ∷ m) d =
      ground (arith, has-delete_where p i m, delete_where-Keyed p m d.2)
