-- ===== src/Hash.antt =====
-- The hash commands of src/store.rs, lines 570 to 753, and `hincrby_value`, lines 304 to 319.
pub mod Fields
pub mod Commands
pub mod Increment
use burner_redis.Prelude.{
  ℕ, zero, suc, ◌+◌, Bool, true, false, Option, none, some, List, [], ◌∷◌, ite, if◌then◌else◌, map,
}
use burner_redis.Prelude.Int.{ℤ, pos, in_i64, ◌+ℤ◌}
use burner_redis.Prelude.Key.{bytes_key, bytes_discrete}
use burner_redis.Map
use burner_redis.Map.{Map}
use burner_redis.Map.Laws.{count_new, is_some}
use burner_redis.Value.{
  Bytes, Instant, ValueData, hash, new_hash, Result, ok, err, wrong_type, syntax,
}
use burner_redis.Store.{Data, read, update_or_drop, upsert}
use burner_redis.Decimal.{to_string, parse_i64}

abbrev pub FieldMap : Type 0
FieldMap = Map Bytes Bytes

-- `match entry.data { ValueData::Hash(map) => …, _ => Err(WrongType) }`
abbrev pub on_hash : {A : Type 0} → (FieldMap → Result A) → ValueData → Result A
on_hash f (hash m) = f m
on_hash f _ = err wrong_type

-- The same on `ref mut map`: the answer, and the map as it is left.
abbrev pub on_hash_mut :
    {A : Type 0} → (FieldMap → Result A × FieldMap) → ValueData → Result A × ValueData
on_hash_mut f (hash m) = let (r, m') = f m in (r, hash m')
on_hash_mut f v = (err wrong_type, v)

unfoldable pub hset_loop : List (Bytes × Bytes) → ℕ → FieldMap → ℕ × FieldMap
hset_loop [] new_count m = (new_count, m)
hset_loop ((field, value) ∷ fields) new_count m =
    hset_loop fields (new_count + count_new (Map.contains_key field m)) (Map.insert field value m)

abbrev pub hset_fields : List (Bytes × Bytes) → FieldMap → Result ℕ × FieldMap
hset_fields fields m = let (count, m') = hset_loop fields 0 m in (ok count, m')

unfoldable pub hset : Instant → Bytes → List (Bytes × Bytes) → Data → Result ℕ × Data
unfolding hset_loop
hset now key fields = upsert now key new_hash (on_hash_mut (hset_fields fields))

unfoldable pub hget : Instant → Bytes → Bytes → Data → Result (Option Bytes) × Data
hget now key field = read now key (ok none) (on_hash (λ m. ok (Map.get field m)))

abbrev pub count_old : Bool → ℕ
count_old true = 1
count_old false = 0

unfoldable pub hdel_loop : List Bytes → ℕ → FieldMap → ℕ × FieldMap
hdel_loop [] count m = (count, m)
hdel_loop (field ∷ fields) count m =
    hdel_loop fields (count + count_old (is_some (Map.get field m))) (Map.remove field m)

abbrev pub hdel_fields : List Bytes → FieldMap → Result ℕ × FieldMap
hdel_fields fields m = let (count, m') = hdel_loop fields 0 m in (ok count, m')

-- HDEL returns early on an expired key, and otherwise drops the key with its last field.
unfoldable pub hdel : Instant → Bytes → List Bytes → Data → Result ℕ × Data
unfolding hdel_loop update_or_drop
hdel now key fields = update_or_drop now key (ok 0) (on_hash_mut (hdel_fields fields))

unfoldable pub hvals : Instant → Bytes → Data → Result (List Bytes) × Data
hvals now key = read now key (ok []) (on_hash (λ m. ok (Map.values m)))

unfoldable pub hgetall : Instant → Bytes → Data → Result FieldMap × Data
hgetall now key = read now key (ok []) (on_hash ok)

unfoldable pub hexists : Instant → Bytes → Bytes → Data → Result Bool × Data
hexists now key field = read now key (ok false) (on_hash (λ m. ok (Map.contains_key field m)))

-- The integer that a field holds: only the text that an integer is printed as is taken.
unfoldable pub hash_integer : Option Bytes → Result ℤ
hash_integer none = ok (pos 0)
hash_integer (some value) = elim (parse_i64 value) [
  | none ↦ err (syntax "ERR hash value is not an integer")
  | some n ↦
      ite (bytes_discrete (to_string n) value) (ok n)
        (err (syntax "ERR hash value is not an integer"))
]

unfoldable pub checked_add : ℤ → Result ℤ → Result ℤ
checked_add increment (err e) = err e
checked_add increment (ok current) =
    if in_i64 (current +ℤ increment)
    then ok (current +ℤ increment)
    else err (syntax "ERR increment or decrement would overflow")

unfoldable pub hincrby_value : Option Bytes → ℤ → Result ℤ
unfolding hash_integer checked_add
hincrby_value current increment = checked_add increment (hash_integer current)

abbrev pub store_field : Bytes → FieldMap → Result ℤ → Result ℤ × FieldMap
store_field field m (err e) = (err e, m)
store_field field m (ok n) = (ok n, Map.insert field (to_string n) m)

abbrev pub hincrby_field : Bytes → ℤ → FieldMap → Result ℤ × FieldMap
hincrby_field field increment m = store_field field m (hincrby_value (Map.get field m) increment)

unfoldable pub hincrby : Instant → Bytes → Bytes → ℤ → Data → Result ℤ × Data
unfolding hincrby_value
hincrby now key field increment =
    upsert now key new_hash (on_hash_mut (hincrby_field field increment))
