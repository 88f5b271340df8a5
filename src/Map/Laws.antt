-- ===== src/Map/Laws.antt =====
-- What a lookup sees after each operation on a map, and how many entries are left.
use burner_redis.Prelude.{
  ℕ, ◌+◌, ◌≡◌, refl, [], ◌∷◌, none, some, true, false, ite, if_pos, if_neg, arith, Option, Bool,
  is_empty,
}
use burner_redis.Prelude.Key.{Key}
use burner_redis.Map.{Map, get, contains_key, insert, remove, len}

abbrev pub is_some {ℓ} : {A : Type ℓ} → Option A → Bool
is_some none = false
is_some (some a) = true

abbrev pub count_new : Bool → ℕ
count_new true = 0
count_new false = 1

module _ {ℓ} {K V : Type ℓ} ⦃key : Key K⦄ where
  pub get-insert :
      (k j : K) (v : V) (m : Map K V) → get j (insert k v m) ≡ ite (key.dec k j) (some v) (get j m)
  unfolding get insert
  get-insert k j v [] = refl
  get-insert k j v ((i, w) ∷ m) = ground (arith, get-insert k j v m)

  pub get-remove : (k j : K) (m : Map K V) → get j (remove k m) ≡ ite (key.dec k j) none (get j m)
  unfolding get remove
  get-remove k j [] = ground arith
  get-remove k j ((i, w) ∷ m) = ground (arith, get-remove k j m)

  pub contains_key-get : (k : K) (m : Map K V) → contains_key k m ≡ is_some (get k m)
  unfolding get contains_key
  contains_key-get k [] = refl
  contains_key-get k ((i, w) ∷ m) = elim (key.dec i k) [
    | yes p ↦ rw (if_pos _ p, if_pos _ p) refl
    | no p ↦ rw (if_neg _ p, if_neg _ p) (contains_key-get k m)
  ]

  pub insert_self : (k : K) (v : V) (m : Map K V) → get k m ≡ some v → insert k v m ≡ m
  unfolding get insert
  insert_self k v [] h = ground arith
  insert_self k v ((i, w) ∷ m) h = ground (arith, insert_self k v m)

  pub insert-insert : (k : K) (v w : V) (m : Map K V) → insert k v (insert k w m) ≡ insert k v m
  unfolding insert
  insert-insert k v w [] = ground arith
  insert-insert k v w ((i, u) ∷ m) = ground (arith, insert-insert k v w m)

  pub remove_absent : (k : K) (m : Map K V) → get k m ≡ none → remove k m ≡ m
  unfolding get remove
  remove_absent k [] h = refl
  remove_absent k ((i, w) ∷ m) h = ground (arith, remove_absent k m)

  pub len-insert :
      (k : K) (v : V) (m : Map K V) → len (insert k v m) ≡ len m + count_new (contains_key k m)
  unfolding insert contains_key
  len-insert k v [] = refl
  len-insert k v ((i, w) ∷ m) = elim (key.dec i k) [
    | yes p ↦ rw (if_pos _ p, if_pos _ p) (omega arith)
    | no p ↦ rw (if_neg _ p, if_neg _ p) (omega (arith, len-insert k v m))
  ]

  pub is_empty-insert : (k : K) (v : V) (m : Map K V) → is_empty (insert k v m) ≡ false
  unfolding insert
  is_empty-insert k v [] = refl
  is_empty-insert k v ((i, w) ∷ m) = ground arith

  -- No key stands twice, as in a `HashMap`.
  abbrev pub Distinct : Map K V → Type ℓ
  Distinct [] = Unit
  Distinct ((k, v) ∷ m) = (get k m ≡ none) × Distinct m

  pub insert-Distinct : (k : K) (v : V) (m : Map K V) → Distinct m → Distinct (insert k v m)
  unfolding get insert
  insert-Distinct k v [] h = (refl, tt)
  insert-Distinct k v ((i, w) ∷ m) h = ground (arith, insert-Distinct k v m, get-insert k i v m)

  pub remove-Distinct : (k : K) (m : Map K V) → Distinct m → Distinct (remove k m)
  unfolding get remove
  remove-Distinct k [] h = tt
  remove-Distinct k ((i, w) ∷ m) h = ground (arith, remove-Distinct k m, get-remove k i m)

  pub len-remove :
      (k : K) (m : Map K V)
      → Distinct m
      → len (remove k m) + 1 ≡ len m + count_new (contains_key k m)
  unfolding contains_key remove get
  len-remove k [] h = refl
  len-remove k ((i, w) ∷ m) h = elim (key.dec i k) [
    | yes p ↦ rw (if_pos _ p, if_pos _ p, remove_absent k m (rw p at (h.0))) (omega arith)
    | no p ↦ rw (if_neg _ p, if_neg _ p) (omega (arith, len-remove k m h.1))
  ]
