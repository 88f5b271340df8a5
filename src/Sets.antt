-- ===== src/Sets.antt =====
-- The set commands of src/store.rs, lines 755 to 861.
pub mod Commands
use burner_redis.Prelude.{ℕ, ◌+◌, Bool, false, List, [], ◌∷◌}
use burner_redis.Prelude.Key.{bytes_key}
use burner_redis.Map
use burner_redis.Map.Laws.{count_new}
use burner_redis.Value.{
  Bytes, HashSet, Instant, ValueData, set, new_set, Result, ok, err, wrong_type,
}
use burner_redis.Store.{Data, read, update_or_drop, upsert}
use burner_redis.Hash.{count_old}

abbrev pub Members : Type 0
Members = HashSet Bytes

-- `match entry.data { ValueData::Set(set) => …, _ => Err(WrongType) }`
abbrev pub on_set : {A : Type 0} → (Members → Result A) → ValueData → Result A
on_set f (set s) = f s
on_set f _ = err wrong_type

abbrev pub on_set_mut :
    {A : Type 0} → (Members → Result A × Members) → ValueData → Result A × ValueData
on_set_mut f (set s) = let (r, s') = f s in (r, set s')
on_set_mut f v = (err wrong_type, v)

-- `set.insert(member)` says whether the member is new.
unfoldable pub sadd_loop : List Bytes → ℕ → Members → ℕ × Members
sadd_loop [] new_count s = (new_count, s)
sadd_loop (member ∷ members) new_count s =
    sadd_loop members (new_count + count_new (Map.contains_key member s)) (Map.insert member tt s)

abbrev pub sadd_members : List Bytes → Members → Result ℕ × Members
sadd_members members s = let (count, s') = sadd_loop members 0 s in (ok count, s')

unfoldable pub sadd : Instant → Bytes → List Bytes → Data → Result ℕ × Data
unfolding sadd_loop
sadd now key members = upsert now key new_set (on_set_mut (sadd_members members))

unfoldable pub smembers : Instant → Bytes → Data → Result (List Bytes) × Data
smembers now key = read now key (ok []) (on_set (λ s. ok (Map.keys s)))

unfoldable pub sismember : Instant → Bytes → Bytes → Data → Result Bool × Data
sismember now key member = read now key (ok false) (on_set (λ s. ok (Map.contains_key member s)))

-- `set.remove(member)` says whether the member was there.
unfoldable pub srem_loop : List Bytes → ℕ → Members → ℕ × Members
srem_loop [] count s = (count, s)
srem_loop (member ∷ members) count s =
    srem_loop members (count + count_old (Map.contains_key member s)) (Map.remove member s)

abbrev pub srem_members : List Bytes → Members → Result ℕ × Members
srem_members members s = let (count, s') = srem_loop members 0 s in (ok count, s')

unfoldable pub srem : Instant → Bytes → List Bytes → Data → Result ℕ × Data
unfolding srem_loop
srem now key members = update_or_drop now key (ok 0) (on_set_mut (srem_members members))
