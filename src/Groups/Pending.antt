-- ===== src/Groups/Pending.antt =====
-- The pending entries of the consumers of a group: the steps of the commands on them.
use burner_redis.Prelude.{
  ℕ, ◌-◌, ◌*◌, Bool, true, false, Option, none, some, List, [], ◌∷◌, if◌then◌else◌,
}
use burner_redis.Prelude.Key.{bytes_key, stream_id_key}
use burner_redis.Map
use burner_redis.Map.{Map}
use burner_redis.Value.{Bytes, Instant, Duration, StreamId, PendingEntry, Consumer}
use burner_redis.Streams.Id.{id_ltb}
use burner_redis.Streams.Entries.{EntryMap}

abbrev pub Pel : Type 0
Pel = Map StreamId PendingEntry

abbrev pub Consumers : Type 0
Consumers = Map Bytes Consumer

-- `Duration::from_millis`
abbrev pub from_millis : ℕ → Duration
from_millis ms = ms * 1_000_000

-- `now.duration_since(delivery_time)`, which is zero for a time to come.
abbrev pub idle_of : Instant → PendingEntry → Duration
idle_of now pe = now - pe.delivery_time

abbrev pub pending_or_new : Option Consumer → Pel
pending_or_new none = []
pending_or_new (some c) = c.pending

-- The pending entries of `entry(consumer).or_insert_with(...)`
unfoldable pub pending_of : Bytes → Consumers → Pel
pending_of name consumers = pending_or_new (Map.get name consumers)

-- `entry(consumer).or_insert_with(...).pending.insert(id, pe)`
unfoldable pub add_pending : StreamId → PendingEntry → Bytes → Consumers → Consumers
unfolding pending_of
add_pending id pe name consumers =
    Map.insert name (record { pending = Map.insert id pe (pending_of name consumers) }) consumers

-- `get_mut(name)`, and `pending.remove(id)` where it is there
unfoldable pub remove_pending : StreamId → Bytes → Consumers → Consumers
remove_pending id name consumers = elim (Map.get name consumers) [
  | none ↦ consumers
  | some c ↦ Map.insert name (record { pending = Map.remove id c.pending }) consumers
]

-- What delivery writes: the last identifier and the pending entries, an entry at a time.
unfoldable pub mark_delivered : Instant → EntryMap → StreamId × Pel → StreamId × Pel
mark_delivered now [] (last, pel) = (last, pel)
mark_delivered now (e ∷ l) (last, pel) =
    mark_delivered now l
      (e.0, Map.insert e.0 (record { delivery_time = now; delivery_count = 1 }) pel)

-- One identifier of XACK: the first consumer that has it pending loses it.
unfoldable pub ack_one : StreamId → Consumers → Bool × Consumers
ack_one id [] = (false, [])
ack_one id ((name, c) ∷ l) =
    let (found, l') = ack_one id l in
    if Map.contains_key id c.pending
    then (true, (name, record { pending = Map.remove id c.pending }) ∷ l)
    else (found, (name, c) ∷ l')

-- The first consumer that has an identifier pending, and the entry.
unfoldable pub find_pending : StreamId → Consumers → Option (Bytes × PendingEntry)
find_pending id [] = none
find_pending id ((name, c) ∷ l) =
    let rest = find_pending id l in
    elim (Map.get id c.pending) [ none ↦ rest | some pe ↦ some (name, pe) ]

-- `sort_by_key`, which is stable.
module _ {A : Type 0} (id_of : A → StreamId) where
  abbrev pub insert_by_id : A → List A → List A
  insert_by_id x [] = x ∷ []
  insert_by_id x (y ∷ l) = if id_ltb (id_of y) (id_of x) then y ∷ insert_by_id x l else x ∷ y ∷ l

  unfoldable pub sort_by_id : List A → List A
  sort_by_id [] = []
  sort_by_id (x ∷ l) = insert_by_id x (sort_by_id l)
