-- ===== src/Tests/Collections.antt =====
-- The commands on hashes and sets, on the small key space.
use burner_redis.Prelude.{ℕ, ◌+◌, ◌≡◌, refl, some, [], ◌∷◌, true, if◌then◌else◌, ite}
use burner_redis.Prelude.Int.{pos, negsuc, in_i64, ◌+ℤ◌, ℤ}
use burner_redis.Prelude.Key.{bytes_key, bytes_discrete}
use burner_redis.Map
use burner_redis.Value.{hash, set, is_expired, ok, err, wrong_type, syntax, Bytes}
use burner_redis.Store.{upsert, expired_at}
use burner_redis.Store.View.{live}
use burner_redis.Decimal.{to_string, parse_i64}
use burner_redis.Hash.{FieldMap, hset, hget, hdel, hincrby, hincrby_value}
use burner_redis.Hash.Fields.{assigned}
use burner_redis.Hash.Commands.{hash_view, hset_lem, hash_wrong_type}
use burner_redis.Hash.Increment.{hincrby_lem}
use burner_redis.Sets.{sadd, srem, sismember}
use burner_redis.Tests.Inputs.{permanent, missing, name, table, group, a, b, five, m}

program : Unit {0}
unfolding Map.get Map.insert Map.remove Map.contains_key bytes_discrete is_expired live upsert
    expired_at hset hget hdel hincrby sadd srem sismember to_string parse_i64 hincrby_value
program = tt

hset-table : (hset 3 table ((b, a) ∷ (a, b) ∷ []) m).0 ≡ ok 1
unfolding program
hset-table = refl

hincrby-table : (hincrby 3 table a (negsuc 6) m).0 ≡ ok (negsuc 1)
unfolding program
hincrby-table = refl

hincrby-name : (hincrby 3 name a (pos 1) m).0 ≡ err wrong_type
unfolding program
hincrby-name = refl

-- With no field HSET leaves an empty hash behind, and with no member SADD an empty set.
hset_nothing : live 3 missing (hset 3 missing [] m).1 ≡ some (permanent (hash []))
unfolding program
hset_nothing = refl

sadd_nothing : live 3 missing (sadd 3 missing [] m).1 ≡ some (permanent (set []))
unfolding program
sadd_nothing = refl

sadd-group : (sadd 3 group (b ∷ a ∷ b ∷ []) m).0 ≡ ok 1
unfolding program
sadd-group = refl

hset_lem_example :
    (n : ℕ) × (h' : FieldMap) × ((hset 3 table ((b, a) ∷ (a, b) ∷ []) m).0 ≡ ok n)
    × (hash_view (live 3 table (hset 3 table ((b, a) ∷ (a, b) ∷ []) m).1) ≡ some h')
    × (n + 1 ≡ Map.len h')
    × ((f : Bytes) → Map.get f h' ≡ assigned f ((b, a) ∷ (a, b) ∷ []) (Map.get f ((a, five) ∷ [])))
unfolding program
hset_lem_example = hset_lem 3 table ((b, a) ∷ (a, b) ∷ []) m ((a, five) ∷ []) refl

hash_wrong_type_example :
    (hset 3 name ((a, b) ∷ []) m ≡ (err wrong_type, m))
    × (hget 3 name a m ≡ (err wrong_type, m))
    × (hincrby 3 name a (pos 1) m ≡ (err wrong_type, m))
    × ((hdel 3 name (a ∷ []) m).0 ≡ err wrong_type)
unfolding program
hash_wrong_type_example = hash_wrong_type 3 name a ((a, b) ∷ []) (a ∷ []) (pos 1) m refl

hincrby_lem_example :
    (in_i64 (negsuc 1) ≡ true)
    × ((g : Bytes)
        → (hget 3 table g (hincrby 3 table a (negsuc 6) m).1).0
          ≡ ok
              (ite (bytes_discrete a g) (some (to_string (negsuc 1))) (Map.get g ((a, five) ∷ []))))
    × ((z : ℤ)
        → (hincrby 3 table a z (hincrby 3 table a (negsuc 6) m).1).0 ≡ (
            if in_i64 (negsuc 1 +ℤ z)
            then ok (negsuc 1 +ℤ z)
            else err (syntax "ERR increment or decrement would overflow")))
unfolding program
hincrby_lem_example = hincrby_lem 3 table a m ((a, five) ∷ []) refl (negsuc 6) (negsuc 1) refl
