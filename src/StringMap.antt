-- ===== src/StringMap.antt =====
-- A JavaScript `Map` with string keys, in insertion order: `set` writes an old key in its place and
-- puts a new one at the end, and `delete` drops the key.
use oaslananka_lab_mcp_ssh_t.Prelude.{
  suc, ◌≤◌, String, ◌≡◌, refl, Bool, Option, none, some, List, [], ◌∷◌, map, arith, ◌==◌, eq_iff,
  if◌then◌else◌, length, is_some,
}

abbrev pub StringMap {ℓ} : Type ℓ → Type ℓ
StringMap V = List (String × V)

module _ {ℓ} {V : Type ℓ} where
  unfoldable pub get : String → StringMap V → Option V
  get k [] = none
  get k ((j, v) ∷ m) = if j == k then some v else get k m

  unfoldable pub set : String → V → StringMap V → StringMap V
  set k v [] = (k, v) ∷ []
  set k v ((j, w) ∷ m) = if j == k then (k, v) ∷ m else (j, w) ∷ set k v m

  unfoldable pub delete : String → StringMap V → StringMap V
  delete k [] = []
  delete k ((j, w) ∷ m) = let rest = delete k m in if j == k then rest else (j, w) ∷ rest

  abbrev pub has : String → StringMap V → Bool
  has k m = is_some (get k m)

  abbrev pub keys : StringMap V → List String
  keys = map (λ e. e.0)

  abbrev pub values : StringMap V → List V
  values = map (λ e. e.1)

  pub get-set :
      (k j : String) (v : V) (m : StringMap V)
      → get j (set k v m) ≡ (if k == j then some v else get j m)
  unfolding get set
  get-set k j v [] = refl
  get-set k j v ((i, w) ∷ m) = ground (arith, eq_iff k j, eq_iff i k, eq_iff i j, get-set k j v m)

  pub get-delete :
      (k j : String) (m : StringMap V) → get j (delete k m) ≡ (if k == j then none else get j m)
  unfolding get delete
  get-delete k j [] = ground arith
  get-delete k j ((i, w) ∷ m) = ground (arith, eq_iff k j, eq_iff i k, eq_iff i j, get-delete k j m)

  pub length-set :
      (k : String) (v : V) (m : StringMap V)
      → length (set k v m) ≡ (if is_some (get k m) then length m else suc (length m))
  unfolding get set
  length-set k v [] = refl
  length-set k v ((i, w) ∷ m) = ground (arith, length-set k v m)

  pub length-delete-le : (k : String) (m : StringMap V) → length (delete k m) ≤ length m
  unfolding delete
  length-delete-le k [] = omega arith
  length-delete-le k ((i, w) ∷ m) = ground (arith, length-delete-le k m)

  -- No key stands twice.
  abbrev pub Distinct : StringMap V → Type ℓ
  Distinct [] = Unit
  Distinct ((k, v) ∷ m) = (get k m ≡ none) × Distinct m

  pub set-Distinct : (k : String) (v : V) (m : StringMap V) → Distinct m → Distinct (set k v m)
  unfolding get set
  set-Distinct k v [] d = (refl, tt)
  set-Distinct k v ((i, w) ∷ m) d =
      ground (arith, eq_iff i k, eq_iff k i, get-set k i v m, set-Distinct k v m d.1)

  pub delete-Distinct : (k : String) (m : StringMap V) → Distinct m → Distinct (delete k m)
  unfolding get delete
  delete-Distinct k [] d = tt
  delete-Distinct k ((i, w) ∷ m) d =
      ground (arith, eq_iff i k, eq_iff k i, get-delete k i m, delete-Distinct k m d.1)

pub ruleset map_laws = (get-set, get-delete)
