-- ===== src/Map/All.antt =====
-- What holds of every value of a map, after each operation.
use burner_redis.Prelude.{◌≡◌, ◌∷◌, [], some, arith, if_pos, if_neg, subst}
use burner_redis.Prelude.Key.{Key}
use burner_redis.Map
use burner_redis.Map.{Map}

module _ {K V : Type 0} ⦃key : Key K⦄ (P : V → Type 0) where
  abbrev pub All : Map K V → Type 0
  All [] = Unit
  All ((k, v) ∷ m) = P v × All m

  pub All-get : (k : K) (v : V) (m : Map K V) → All m → Map.get k m ≡ some v → P v
  unfolding Map.get
  All-get k v [] h found = absurd (ground arith)
  All-get k v ((j, w) ∷ m) h found = elim (key.dec j k) [
    | yes p ↦ subst P (ground arith) h.0
    | no p ↦ All-get k v m h.1 (ground arith)
  ]

  pub insert-All : (k : K) (v : V) (m : Map K V) → P v → All m → All (Map.insert k v m)
  unfolding Map.insert
  insert-All k v [] p h = (p, tt)
  insert-All k v ((j, w) ∷ m) p h = elim (key.dec j k) [
    | yes q ↦ rw (if_pos _ q) (p, h.1)
    | no q ↦ rw (if_neg _ q) (h.0, insert-All k v m p h.1)
  ]

  pub remove-All : (k : K) (m : Map K V) → All m → All (Map.remove k m)
  unfolding Map.remove
  remove-All k [] h = tt
  remove-All k ((j, w) ∷ m) h = elim (key.dec j k) [
    | yes q ↦ rw (if_pos _ q) (remove-All k m h.1)
    | no q ↦ rw (if_neg _ q) (h.0, remove-All k m h.1)
  ]
