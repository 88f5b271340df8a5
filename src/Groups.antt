-- ===== src/Groups.antt =====
-- Consumer groups: XGROUP CREATE and DESTROY, XREADGROUP and XACK of src/store.rs, lines 1599 to 1841.
pub mod Pending
pub mod Claim
pub mod Info
pub mod Holders
pub mod Exclusive
pub mod Qualify
pub mod Transfers
pub mod Delivery
pub mod View
pub mod History
pub mod Reading
pub mod Acks
pub mod Sound
pub mod Create
pub mod Kept
pub mod Queue
pub mod Steps
use burner_redis.Prelude.{
  ℕ, ◌+◌, ◌-◌, ◌^◌, Bool, true, false, ◌||◌, Option, none, some, List, [], ◌∷◌, if◌then◌else◌,
  keep_if, not,
}
use burner_redis.Prelude.Key.{bytes_key, stream_id_key, same}
use burner_redis.Map
use burner_redis.Map.Laws.{is_some}
use burner_redis.Value.{
  Bytes, Instant, Stream, StreamId, Consumer, ConsumerGroup, new_stream, Result, ok, err,
  wrong_type, busy_group, key_not_found, no_group,
}
use burner_redis.Store.{Data, evict, update, write_entry}
use burner_redis.Keys.{count_if}
use burner_redis.Streams.{Batches, add_batch, on_stream_mut}
use burner_redis.Streams.Id.{id_leb}
use burner_redis.Streams.Entries.{Fields, EntryMap, entries_after, take_count}
use burner_redis.Streams.Text.{parse_stream_id}
use burner_redis.Groups.Pending.{Pel, Consumers, pending_of, mark_delivered, ack_one, sort_by_id}

-- The match on the group that a command names.
abbrev pub on_group :
    {A : Type 0} → Bytes → Result A → (Stream → ConsumerGroup → Result A) → Stream → Result A
on_group group missing f st = elim (Map.get group st.groups) [ none ↦ missing | some cg ↦ f st cg ]

abbrev pub on_group_mut :
    {A : Type 0}
    → Bytes
    → Result A
    → (Stream → ConsumerGroup → Result A × ConsumerGroup)
    → Stream
    → Result A × Stream
on_group_mut group missing f st = elim (Map.get group st.groups) [
  | none ↦ (missing, st)
  | some cg ↦ let (r, cg') = f st cg in (r, record st { groups = Map.insert group cg' st.groups })
]

abbrev pub greatest_id : StreamId
greatest_id = (2 ^ 64 - 1, 2 ^ 64 - 1)

-- The greatest identifier stands for `$`.
abbrev pub resolve_id : StreamId → StreamId → StreamId
resolve_id id last_id = if same id greatest_id then last_id else id

abbrev pub create_group : Bytes → StreamId → Stream → Result (Unit {0}) × Stream
create_group group id st = if Map.contains_key group st.groups then (err busy_group, st) else (
  ok tt,
  record st {
    groups =
        Map.insert group (record { last_delivered_id = resolve_id id st.last_id; consumers = [] })
          st.groups;
  },
)

unfoldable pub xgroup_create :
    Instant → Bytes → Bytes → StreamId → Bool → Data → Result (Unit {0}) × Data
unfolding evict write_entry
xgroup_create now key group id mkstream m =
    let m' = evict now key m in
    if Map.contains_key key m'
    then write_entry key (err wrong_type) (on_stream_mut (create_group group id)) m'
    else if mkstream
    then write_entry key (err wrong_type) (on_stream_mut (create_group group id))
        (Map.insert key new_stream m')
    else (err key_not_found, m')

abbrev pub destroy_group : Bytes → Stream → Result Bool × Stream
destroy_group group st =
    (ok (is_some (Map.get group st.groups)), record st { groups = Map.remove group st.groups })

unfoldable pub xgroup_destroy : Instant → Bytes → Bytes → Data → Result Bool × Data
xgroup_destroy now key group = update now key (ok false) (on_stream_mut (destroy_group group))

-- What delivery of these entries to a consumer leaves of the group; for none it creates no consumer.
abbrev pub deliver : Instant → Bytes → EntryMap → ConsumerGroup → ConsumerGroup
deliver now consumer [] cg = cg
deliver now consumer (e ∷ l) cg =
    let (last, pel) =
      mark_delivered now (e ∷ l) (cg.last_delivered_id, pending_of consumer cg.consumers) in
    record {
      last_delivered_id = last;
      consumers = Map.insert consumer (record { pending = pel }) cg.consumers;
    }

-- The new entries that a group is to have.
abbrev pub new_entries : Option ℕ → Stream → ConsumerGroup → EntryMap
new_entries count st cg = take_count count (entries_after cg.last_delivered_id st.entries)

abbrev pub read_new :
    Instant → Bytes → Option ℕ → Stream → ConsumerGroup → Result EntryMap × ConsumerGroup
read_new now consumer count st cg =
    (ok (new_entries count st cg), deliver now consumer (new_entries count st cg) cg)

-- `filter_map` on the identifiers whose entries are still there.
abbrev pub put_found : StreamId → Option Fields → EntryMap → EntryMap
put_found id none l = l
put_found id (some fields) l = (id, fields) ∷ l

abbrev pub existing : EntryMap → List StreamId → EntryMap
existing entries [] = []
existing entries (id ∷ ids) = put_found id (Map.get id entries) (existing entries ids)

-- The identifiers that are pending from one on, in order.
abbrev pub pending_from : StreamId → Pel → List StreamId
pending_from start pel = sort_by_id (λ id. id) (keep_if (id_leb start) (Map.keys pel))

-- What a consumer has pending; one that is not there has nothing.
abbrev pub history : StreamId → Option ℕ → Stream → Option Consumer → EntryMap
history start count st none = []
history start count st (some c) =
    existing st.entries (take_count count (pending_from start c.pending))

abbrev pub read_history :
    Bytes → StreamId → Option ℕ → Stream → ConsumerGroup → Result EntryMap × ConsumerGroup
read_history consumer start count st cg =
    (ok (history start count st (Map.get consumer cg.consumers)), cg)

abbrev pub id_or_zero : Option StreamId → StreamId
id_or_zero none = (0, 0)
id_or_zero (some id) = id

-- `0` and `0-0` by name, and else the identifier, or zero where there is none.
unfoldable pub start_of : Bytes → StreamId
unfolding parse_stream_id
start_of s =
    if same s (b'0' ∷ []) || same s (b'0' ∷ b'-' ∷ b'0' ∷ [])
    then (0, 0)
    else id_or_zero (parse_stream_id s)

abbrev pub only_new : Bytes
only_new = b'>' ∷ []

abbrev pub read_as_member :
    Instant → Bytes → Bytes → Option ℕ → Stream → ConsumerGroup → Result EntryMap × ConsumerGroup
read_as_member now consumer id count st cg =
    if same id only_new
    then read_new now consumer count st cg
    else read_history consumer (start_of id) count st cg

-- One key of XREADGROUP; a missing key and a missing group are the same error.
unfoldable pub read_member :
    Instant → Bytes → Bytes → Bytes → Bytes → Option ℕ → Data → Result EntryMap × Data
unfolding evict write_entry start_of mark_delivered pending_of entries_after
read_member now group consumer key id count m =
    write_entry key (err (no_group group key))
      (on_stream_mut
        (on_group_mut group (err (no_group group key)) (read_as_member now consumer id count)))
      (evict now key m)

abbrev pub then_read :
    Bytes → (Data → Result Batches × Data) → Result EntryMap × Data → Result Batches × Data
then_read key next (err e, m) = (err e, m)
then_read key next (ok entries, m) = add_batch key entries (next m)

-- An error ends the loop; what it has delivered before stays delivered.
unfoldable pub xreadgroup :
    Instant → Bytes → Bytes → List (Bytes × Bytes) → Option ℕ → Data → Result Batches × Data
unfolding read_member
xreadgroup now group consumer [] count m = (ok [], m)
xreadgroup now group consumer ((key, id) ∷ rest) count m =
    then_read key (xreadgroup now group consumer rest count)
      (read_member now group consumer key id count m)

unfoldable pub ack_loop : List StreamId → ℕ → Consumers → ℕ × Consumers
unfolding ack_one
ack_loop [] count consumers = (count, consumers)
ack_loop (id ∷ ids) count consumers =
    let (found, consumers') = ack_one id consumers in
    ack_loop ids (count + count_if found) consumers'

abbrev pub ack_ids : List StreamId → Stream → ConsumerGroup → Result ℕ × ConsumerGroup
ack_ids ids st cg =
    let (count, consumers') = ack_loop ids 0 cg.consumers in
    (ok count, record cg { consumers = consumers' })

unfoldable pub xack : Instant → Bytes → Bytes → List StreamId → Data → Result ℕ × Data
unfolding ack_loop
xack now key group ids =
    update now key (ok 0) (on_stream_mut (on_group_mut group (ok 0) (ack_ids ids)))
