-- ===== src/Groups/Claim.antt =====
-- XAUTOCLAIM and XCLAIM, lines 1843 to 2122 of src/store.rs.
use burner_redis.Prelude.{
  ℕ, ◌+◌, ◌%◌, ◌^◌, Bool, true, false, ◌||◌, ◌&&◌, Option, none, some, List, [], ◌∷◌, ◌++◌,
  if◌then◌else◌, keep_if, map, length, take, drop, ltb, leb,
}
use burner_redis.Prelude.Key.{bytes_key, stream_id_key}
use burner_redis.Map
use burner_redis.Value.{
  Bytes, Instant, Duration, Stream, StreamId, PendingEntry, ConsumerGroup, Result, ok, err,
  no_group,
}
use burner_redis.Store.{Data, update}
use burner_redis.Streams.{on_stream_mut}
use burner_redis.Streams.Id.{id_leb}
use burner_redis.Streams.Entries.{Fields, EntryMap}
use burner_redis.Groups.{on_group_mut}
use burner_redis.Groups.Pending.{
  Pel, Consumers, from_millis, idle_of, add_pending, remove_pending, find_pending, sort_by_id,
}

-- An identifier, its delivery count and the consumer that has it pending.
abbrev pub Qualified : Type 0
Qualified = StreamId × ℕ × Bytes

-- What one consumer has pending that is old enough and not below the start.
abbrev pub qualified_of : Instant → Duration → StreamId → Bytes → Pel → List Qualified
qualified_of now min_idle start name pel =
    map (λ e. (e.0, e.1.delivery_count, name))
      (keep_if (λ e. id_leb start e.0 && leb min_idle (idle_of now e.1)) pel)

abbrev pub qualifying : Instant → Duration → StreamId → Consumers → List Qualified
qualifying now min_idle start [] = []
qualifying now min_idle start ((name, c) ∷ l) =
    qualified_of now min_idle start name c.pending ++ qualifying now min_idle start l

-- `qualifying[..max]` and the first of the others, or zero where there is none.
abbrev pub to_process : Option ℕ → List Qualified → List Qualified
to_process none l = l
to_process (some max) l = if ltb max (length l) then take max l else l

abbrev pub head_id : List Qualified → StreamId
head_id [] = (0, 0)
head_id (q ∷ l) = q.0

abbrev pub next_start_id : Option ℕ → List Qualified → StreamId
next_start_id none l = (0, 0)
next_start_id (some max) l = if ltb max (length l) then head_id (drop max l) else (0, 0)

-- The claimed entries, and the identifiers whose entries are gone.
abbrev pub Claimed : Type 0
Claimed = EntryMap × List StreamId

abbrev pub put_claimed : StreamId → Option Fields → Claimed → Claimed
put_claimed id (some fields) (claimed, deleted) = ((id, fields) ∷ claimed, deleted)
put_claimed id none (claimed, deleted) = (claimed, id ∷ deleted)

-- One entry changes hands, also where it is gone from the stream. A counter has 64 bits.
unfoldable pub transfer : Instant → Bytes → Qualified → Consumers → Consumers
unfolding add_pending remove_pending
transfer now consumer (id, count, original) consumers =
    add_pending id (record { delivery_time = now; delivery_count = (count + 1) % 2 ^ 64 }) consumer
      (remove_pending id original consumers)

unfoldable pub claim_each :
    Instant → Bytes → EntryMap → List Qualified → Consumers → Claimed × Consumers
unfolding transfer
claim_each now consumer entries [] consumers = (([], []), consumers)
claim_each now consumer entries (q ∷ l) consumers =
    let (claimed, consumers') =
      claim_each now consumer entries l (transfer now consumer q consumers) in
    (put_claimed q.0 (Map.get q.0 entries) claimed, consumers')

abbrev pub autoclaim :
    Instant
    → Bytes
    → ℕ
    → StreamId
    → Option ℕ
    → Stream
    → ConsumerGroup
    → Result (StreamId × Claimed) × ConsumerGroup
autoclaim now consumer min_idle_ms start count st cg =
    let found =
      sort_by_id (λ q. q.0) (qualifying now (from_millis min_idle_ms) start cg.consumers) in
    let (claimed, consumers') =
      claim_each now consumer st.entries (to_process count found) cg.consumers in
    (ok (next_start_id count found, claimed), record cg { consumers = consumers' })

unfoldable pub xautoclaim :
    Instant
    → Bytes
    → Bytes
    → Bytes
    → ℕ
    → StreamId
    → Option ℕ
    → Data
    → Result (StreamId × Claimed) × Data
unfolding claim_each
xautoclaim now key group consumer min_idle_ms start count =
    update now key (err (no_group group key)) (
      on_stream_mut (
        on_group_mut group (err (no_group group key))
          (autoclaim now consumer min_idle_ms start count)))

-- The options of XCLAIM; TIME is read and not used.
pub record ClaimOptions : Type 0 where
  pub min_idle_ms : ℕ
  pub idle : Option ℕ
  pub retrycount : Option ℕ
  pub force : Bool
  pub justid : Bool

abbrev pub count_or : Option ℕ → ℕ → ℕ
count_or none n = n
count_or (some c) n = c

-- What XCLAIM answers for one identifier: nothing for an entry that is gone, unless JUSTID is given.
abbrev pub ClaimedIds : Type 0
ClaimedIds = List (StreamId × Option Fields)

abbrev pub claimed_fields : StreamId → Option Fields → ClaimedIds
claimed_fields id none = []
claimed_fields id (some fields) = (id, some fields) ∷ []

abbrev pub claimed_id : Bool → StreamId → EntryMap → ClaimedIds
claimed_id true id entries = (id, none) ∷ []
claimed_id false id entries = claimed_fields id (Map.get id entries)

-- `earlier` is `-` of an `Instant` and a `Duration`, of the standard library.
module _ (earlier : Instant → Duration → Instant) where
  -- The delivery time that an entry gets, `original` without IDLE.
  abbrev pub delivery_time_of : Instant → Option ℕ → Instant → Instant
  delivery_time_of now none original = original
  delivery_time_of now (some idle_ms) original = earlier now (from_millis idle_ms)

  -- The entry that is pending nowhere, with FORCE.
  unfoldable pub claim_forced :
      Instant → Bytes → ClaimOptions → EntryMap → StreamId → Consumers → ClaimedIds × Consumers
  unfolding add_pending
  claim_forced now consumer o entries id consumers =
      if o.force && Map.contains_key id entries
      then (
        claimed_id o.justid id entries,
        add_pending id
            (record {
              delivery_time = delivery_time_of now o.idle now;
              delivery_count = count_or o.retrycount 1;
            })
            consumer consumers,
      )
      else ([], consumers)

  -- The entry that a consumer has pending.
  unfoldable pub claim_found :
      Instant
      → Bytes
      → ClaimOptions
      → EntryMap
      → StreamId
      → Bytes × PendingEntry
      → Consumers
      → ClaimedIds × Consumers
  unfolding add_pending remove_pending
  claim_found now consumer o entries id (from_consumer, pe) consumers =
      if leb (from_millis o.min_idle_ms) (idle_of now pe) || o.force
      then (
        claimed_id o.justid id entries,
        add_pending id
            (record {
              delivery_time = delivery_time_of now o.idle pe.delivery_time;
              delivery_count = count_or o.retrycount ((pe.delivery_count + 1) % 2 ^ 64);
            })
            consumer (remove_pending id from_consumer consumers),
      )
      else ([], consumers)

  abbrev pub claim_as :
      Instant
      → Bytes
      → ClaimOptions
      → EntryMap
      → StreamId
      → Consumers
      → Option (Bytes × PendingEntry)
      → ClaimedIds × Consumers
  claim_as now consumer o entries id consumers none =
      claim_forced now consumer o entries id consumers
  claim_as now consumer o entries id consumers (some found) =
      claim_found now consumer o entries id found consumers

  unfoldable pub claim_one :
      Instant → Bytes → ClaimOptions → EntryMap → StreamId → Consumers → ClaimedIds × Consumers
  unfolding find_pending claim_forced claim_found
  claim_one now consumer o entries id consumers =
      claim_as now consumer o entries id consumers (find_pending id consumers)

  unfoldable pub claim_ids :
      Instant → Bytes → ClaimOptions → EntryMap → List StreamId → Consumers → ClaimedIds × Consumers
  unfolding claim_one
  claim_ids now consumer o entries [] consumers = ([], consumers)
  claim_ids now consumer o entries (id ∷ ids) consumers =
      let (claimed, consumers') = claim_one now consumer o entries id consumers in
      let (rest, consumers'') = claim_ids now consumer o entries ids consumers' in
      (claimed ++ rest, consumers'')

  abbrev pub claim :
      Instant
      → Bytes
      → ClaimOptions
      → List StreamId
      → Stream
      → ConsumerGroup
      → Result ClaimedIds × ConsumerGroup
  claim now consumer o ids st cg =
      let (claimed, consumers') = claim_ids now consumer o st.entries ids cg.consumers in
      (ok claimed, record cg { consumers = consumers' })

  unfoldable pub xclaim :
      Instant
      → Bytes
      → Bytes
      → Bytes
      → ClaimOptions
      → List StreamId
      → Data
      → Result ClaimedIds × Data
  unfolding claim_ids
  xclaim now key group consumer o ids =
      update now key (err (no_group group key))
        (on_stream_mut (on_group_mut group (err (no_group group key)) (claim now consumer o ids)))
