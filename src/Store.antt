-- ===== src/Store.antt =====
-- The key space of src/store.rs: the map from keys to entries, passive expiration, and the shapes
-- in which the commands read and write one key.
use burner_redis.Prelude.{
  ℕ, ◌+◌, List, [], ◌∷◌, Bool, true, false, none, some, ◌==◌, is_empty, if◌then◌else◌,
}
pub mod View
pub mod Effects
pub mod Shutdown
use burner_redis.Prelude.Key.{bytes_key}
use burner_redis.PubSub.{PubSubRegistry, stop_subscriber_listener}
use burner_redis.Map
use burner_redis.Map.{Map}
use burner_redis.Value.{
  Bytes, Instant, ValueData, ValueEntry, is_expired, hash, set, sorted_set, list, Result, ok, err,
  SortedSet, wrong_type,
}

abbrev pub Data : Type 0
Data = Map Bytes ValueEntry

-- `data_map` is the field `data`. The counters say how often `notify_waiters` was called. The cache
-- of scripts is not modelled.
pub record Store : Type 0 where
  pub data_map : Data
  pub pubsub : PubSubRegistry
  pub stream_notify : ℕ
  pub list_notify : ℕ
  pub shutdown : Bool

-- `data.get(key)` is there and `is_expired()`
unfoldable pub expired_at : Instant → Bytes → Data → Bool
expired_at now key m = elim (Map.get key m) [ none ↦ false | some entry ↦ is_expired entry now ]

-- Passive expiration: an entry whose time has come is removed before the command looks at its key.
unfoldable pub evict : Instant → Bytes → Data → Data
evict now key m = if expired_at now key m then Map.remove key m else m

-- `SortedSet::len`
abbrev pub zset_len : SortedSet → ℕ
zset_len zset = Map.len zset.by_member

abbrev pub is_empty_value : ValueData → Bool
is_empty_value (hash m) = is_empty m
is_empty_value (set s) = is_empty s
is_empty_value (sorted_set zset) = zset_len zset == 0
is_empty_value (list l) = is_empty l
is_empty_value _ = false

unfoldable pub remove_if_empty : Bytes → Data → Data
remove_if_empty key m = elim (Map.get key m) [
  | none ↦ m
  | some entry ↦ if is_empty_value entry.value then Map.remove key m else m
]

-- A command that looks at one key: an expired entry is removed and answered as a missing one.
-- `missing` is the answer where there is no entry, `f` the match on the value that is there.
unfoldable pub read :
    {A : Type 0} → Instant → Bytes → Result A → (ValueData → Result A) → Data → Result A × Data
read now key missing f m =
    if expired_at now key m
    then (missing, Map.remove key m)
    else (elim (Map.get key m) [ none ↦ missing | some entry ↦ f entry.value ], m)

-- `f` answers and gives the value back as it leaves it; `get_mut` keeps the expiry of the entry.
unfoldable pub write_entry :
    {A : Type 0} → Bytes → Result A → (ValueData → Result A × ValueData) → Data → Result A × Data
write_entry key missing f m = elim (Map.get key m) [
  | none ↦ (missing, m)
  | some entry ↦ let (r, v) = f entry.value in (r, Map.insert key (record entry { value = v }) m)
]

-- A command that changes one key that is there (`get_mut`).
unfoldable pub update :
    {A : Type 0}
    → Instant
    → Bytes
    → Result A
    → (ValueData → Result A × ValueData)
    → Data
    → Result A × Data
unfolding write_entry
update now key missing f m =
    if expired_at now key m then (missing, Map.remove key m) else write_entry key missing f m

-- A command that shrinks a collection: the key goes with the last element.
unfoldable pub update_or_drop :
    {A : Type 0}
    → Instant
    → Bytes
    → Result A
    → (ValueData → Result A × ValueData)
    → Data
    → Result A × Data
unfolding write_entry remove_if_empty
update_or_drop now key missing f m =
    if expired_at now key m
    then (missing, Map.remove key m)
    else let (r, m') = write_entry key missing f m in (r, remove_if_empty key m')

-- `data.entry(key).or_insert_with(fresh)`
unfoldable pub or_insert : Bytes → ValueEntry → Data → Data
or_insert key fresh m = elim (Map.get key m) [ none ↦ Map.insert key fresh m | some _ ↦ m ]

-- A command that changes one key, and creates it where it is not there.
unfoldable pub upsert :
    {A : Type 0}
    → Instant
    → Bytes
    → ValueEntry
    → (ValueData → Result A × ValueData)
    → Data
    → Result A × Data
unfolding evict or_insert write_entry
upsert now key fresh f m =
    write_entry key (err wrong_type) f (or_insert key fresh (evict now key m))

unfoldable pub stop_each : List ℕ → PubSubRegistry → PubSubRegistry
unfolding stop_subscriber_listener
stop_each [] r = r
stop_each (id ∷ ids) r = stop_each ids (stop_subscriber_listener id r).1

-- Graceful shutdown: the flag, both wake-ups, and the end of every listener.
unfoldable pub shutdown : Store → Store
unfolding stop_each
shutdown s = record s {
  shutdown = true;
  stream_notify = s.stream_notify + 1;
  list_notify = s.list_notify + 1;
  pubsub = stop_each (Map.keys s.pubsub.listener_stoppers) s.pubsub;
}
