-- ===== src/Map.antt =====
-- `HashMap`, as the source uses it: an association list whose order is the order of iteration.
-- `HashMap` promises none, so the order of the list stands for any.
pub mod Laws
pub mod Members
pub mod All
use burner_redis.Prelude.{ℕ, List, [], ◌∷◌, Option, none, some, Bool, true, false, map, length, ite}
use burner_redis.Prelude.Key.{Key}

abbrev pub Map {ℓ} : Type ℓ → Type ℓ → Type ℓ
Map K V = List (K × V)

module _ {ℓ} {K V : Type ℓ} where
  abbrev pub keys : Map K V → List K
  keys = map (λ e. e.0)

  abbrev pub values : Map K V → List V
  values = map (λ e. e.1)

  abbrev pub len : Map K V → ℕ
  len = length

module _ {ℓ} {K V : Type ℓ} ⦃key : Key K⦄ where
  unfoldable pub get : K → Map K V → Option V
  get k [] = none
  get k ((j, v) ∷ m) = ite (key.dec j k) (some v) (get k m)

  unfoldable pub contains_key : K → Map K V → Bool
  contains_key k [] = false
  contains_key k ((j, v) ∷ m) = ite (key.dec j k) true (contains_key k m)

  -- Replaces the value of a key that is present.
  unfoldable pub insert : K → V → Map K V → Map K V
  insert k v [] = (k, v) ∷ []
  insert k v ((j, w) ∷ m) = ite (key.dec j k) ((k, v) ∷ m) ((j, w) ∷ insert k v m)

  unfoldable pub remove : K → Map K V → Map K V
  remove k [] = []
  remove k ((j, v) ∷ m) = let rest = remove k m in ite (key.dec j k) rest ((j, v) ∷ rest)
