-- ===== src/Snapshot.antt =====
-- The snapshot of a store: `PersistableStore` and its two conversions, src/store.rs lines 3495 to 3783.
-- Bytes and their copies are one; the scripts are texts by their hash. Writing and reading the file,
-- and the format of its bytes, are of other libraries.
pub mod Collect
pub mod RoundTrip
pub mod Reload
use burner_redis.Prelude.{
  ℕ, ◌+◌, ◌-◌, ◌*◌, ◌/◌, ◌%◌, ◌^◌, Bool, Option, none, some, List, [], ◌∷◌, map, keep_if, not,
  if◌then◌else◌, leb, ◌==◌,
}
use burner_redis.Prelude.Key.{Key, bytes_key, stream_id_key}
use burner_redis.Map
use burner_redis.Map.{Map}
use burner_redis.Value
use burner_redis.Value.{
  Bytes, Instant, F64, ValueData, ValueEntry, SortedSet, Stream, StreamId, Consumer, ConsumerGroup,
  PendingEntry, is_expired,
}
use burner_redis.Store.{Data}
use burner_redis.Streams.Entries.{Fields, EntryMap, insert_entry}
use burner_redis.SortedSets.{score_insert}
use burner_redis.SortedSets.Ranges.{empty_zset}

pub record PersistableConsumer : Type 0 where
  pub pending : List (StreamId × ℕ)

pub record PersistableConsumerGroup : Type 0 where
  pub last_delivered_id : StreamId
  pub consumers : List (Bytes × PersistableConsumer)

pub record PersistableStream : Type 0 where
  pub entries : List (StreamId × List (Bytes × Bytes))
  pub last_id : StreamId
  pub groups : List (Bytes × PersistableConsumerGroup)

pub record PersistableSortedSet : Type 0 where
  pub members : List (F64 × Bytes)

pub data PersistableValueData : Type 0 where
  string : Bytes → PersistableValueData
  hash : List (Bytes × Bytes) → PersistableValueData
  set : List Bytes → PersistableValueData
  sorted_set : PersistableSortedSet → PersistableValueData
  stream : PersistableStream → PersistableValueData
  list : List Bytes → PersistableValueData

pub record PersistableEntry : Type 0 where
  pub value : PersistableValueData
  pub ttl_remaining_ms : Option ℕ

pub record PersistableStore : Type 0 where
  pub entries : List (Bytes × PersistableEntry)
  pub scripts : List (Bytes × Bytes)

abbrev pub save_consumer : Consumer → PersistableConsumer
save_consumer c = record { pending = map (λ e. (e.0, e.1.delivery_count)) c.pending }

abbrev pub save_group : ConsumerGroup → PersistableConsumerGroup
save_group g = record {
  last_delivered_id = g.last_delivered_id;
  consumers = map (λ e. (e.0, save_consumer e.1)) g.consumers;
}

abbrev pub save_value : ValueData → PersistableValueData
save_value (Value.string b) = string b
save_value (Value.hash m) = hash m
save_value (Value.set s) = set (Map.keys s)
save_value (Value.sorted_set z) =
    sorted_set (record { members = map (λ e. (e.1, e.0)) z.by_member })
save_value (Value.stream st) = stream (record {
  entries = st.entries;
  last_id = st.last_id;
  groups = map (λ e. (e.0, save_group e.1)) st.groups;
})
save_value (Value.list l) = list l

-- Milliseconds, rounded down, in 64 bits.
abbrev pub remaining_ms : Instant → Option Instant → Option ℕ
remaining_ms now none = none
remaining_ms now (some exp) = if leb exp now then none else some ((exp - now) / 1_000_000 % 2 ^ 64)

abbrev pub save_entry : Instant → ValueEntry → PersistableEntry
save_entry now e = record {
  value = save_value e.value;
  ttl_remaining_ms = remaining_ms now e.expires_at;
}

-- `now` is read first, and `t` by `is_expired`.
unfoldable pub from_store : Instant → Instant → Data → List (Bytes × Bytes) → PersistableStore
from_store now t data_map scripts = record {
  entries = map (λ e. (e.0, save_entry now e.1)) (keep_if (λ e. not (is_expired e.1 t)) data_map);
  scripts = scripts;
}

-- `collect` into a map, and the loop that inserts.
unfoldable pub collect_into : {K V : Type 0} → ⦃key : Key K⦄ → Map K V → List (K × V) → Map K V
collect_into m [] = m
collect_into m ((k, v) ∷ l) = collect_into (Map.insert k v m) l

abbrev pub collect : {K V : Type 0} → ⦃key : Key K⦄ → List (K × V) → Map K V
collect l = collect_into [] l

unfoldable pub collect_entries : EntryMap → List (StreamId × Fields) → EntryMap
unfolding insert_entry
collect_entries m [] = m
collect_entries m ((id, fields) ∷ l) = collect_entries (insert_entry id fields m) l

-- The time of delivery is the time of loading.
abbrev pub load_consumer : Instant → PersistableConsumer → Consumer
load_consumer now c = record {
  pending =
      collect (map (λ e. (e.0, record { delivery_time = now; delivery_count = e.1 })) c.pending);
}

abbrev pub load_group : Instant → PersistableConsumerGroup → ConsumerGroup
load_group now g = record {
  last_delivered_id = g.last_delivered_id;
  consumers = collect (map (λ e. (e.0, load_consumer now e.1)) g.consumers);
}

abbrev pub load_stream : Instant → PersistableStream → Stream
load_stream now p = record {
  entries = collect_entries [] (map (λ e. (e.0, collect e.1)) p.entries);
  last_id = p.last_id;
  groups = collect (map (λ e. (e.0, load_group now e.1)) p.groups);
}

abbrev pub expiry_of : Instant → Option ℕ → Option Instant
expiry_of now none = none
expiry_of now (some ms) = if ms == 0 then none else some (now + ms * 1_000_000)

-- `score_leb` is `<=` of `OrderedFloat`.
module _ (score_leb : F64 → F64 → Bool) where
  unfoldable pub load_members : List (F64 × Bytes) → SortedSet → SortedSet
  unfolding score_insert
  load_members [] z = z
  load_members ((score, member) ∷ l) z = load_members l (record {
    by_score = score_insert score_leb (score, member) z.by_score;
    by_member = Map.insert member score z.by_member;
  })

  abbrev pub load_value : Instant → PersistableValueData → ValueData
  load_value now (string b) = Value.string b
  load_value now (hash pairs) = Value.hash (collect pairs)
  load_value now (set members) = Value.set (collect (map (λ m. (m, tt)) members))
  load_value now (sorted_set p) = Value.sorted_set (load_members p.members empty_zset)
  load_value now (stream p) = Value.stream (load_stream now p)
  load_value now (list items) = Value.list items

  abbrev pub load_entry : Instant → PersistableEntry → ValueEntry
  load_entry now p = record {
    value = load_value now p.value;
    expires_at = expiry_of now p.ttl_remaining_ms;
  }

  unfoldable pub into_runtime : Instant → PersistableStore → Data × List (Bytes × Bytes)
  unfolding collect_into collect_entries load_members
  into_runtime now p = (collect (map (λ e. (e.0, load_entry now e.1)) p.entries), collect p.scripts)
