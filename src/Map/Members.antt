-- ===== src/Map/Members.antt =====
-- The members of a set, which is a map to the unit type, after each operation.
use burner_redis.Prelude.{◌≡◌, refl, true, false, ◌||◌, [], ◌∷◌, arith, if◌then◌else◌, is_empty}
use burner_redis.Prelude.Key.{Key, same}
use burner_redis.Map
use burner_redis.Map.{Map}
use burner_redis.Map.Laws.{get-insert, get-remove, contains_key-get}

module _ {V : Type 0} ⦃kv : Key V⦄ where
  pub contains_key-insert :
      (v w : V) (s : Map V (Unit {0}))
      → Map.contains_key w (Map.insert v tt s) ≡ (same v w || Map.contains_key w s)
  contains_key-insert v w s =
      ground
        (arith, contains_key-get w s, contains_key-get w (Map.insert v tt s), get-insert v w tt s)

  pub contains_key-remove :
      (v w : V) (s : Map V (Unit {0}))
      → Map.contains_key w (Map.remove v s) ≡ (if same v w then false else Map.contains_key w s)
  contains_key-remove v w s =
      ground (arith, contains_key-get w s, contains_key-get w (Map.remove v s), get-remove v w s)

  pub empty_no_key :
      (w : V) (s : Map V (Unit {0})) → is_empty s ≡ true → Map.contains_key w s ≡ false
  unfolding Map.contains_key
  empty_no_key w [] h = refl
  empty_no_key w (x ∷ s) h = ground arith
