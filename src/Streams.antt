-- ===== src/Streams.antt =====
-- The stream commands of src/store.rs without groups: XADD, XREAD, XLEN, `stream_last_id`, XTRIM, XDEL
-- and XRANGE, lines 1290 to 1568, and XINFO STREAM, lines 2168 to 2211.
pub mod Id
pub mod Entries
pub mod Order
pub mod View
pub mod Append
pub mod Text
pub mod Trim
pub mod Delete
pub mod Reading
use burner_redis.Prelude.{
  ℕ, zero, ◌+◌, ◌%◌, ◌^◌, Bool, true, false, Option, none, some, List, [], ◌∷◌, length, is_empty,
  map, if◌then◌else◌, ltb,
}
use burner_redis.Prelude.Key.{bytes_key, stream_id_key}
use burner_redis.Map
use burner_redis.Map.Laws.{is_some}
use burner_redis.Value.{
  Bytes, Instant, ValueData, ValueEntry, Stream, StreamId, stream, new_stream, Result, ok, err,
  wrong_type,
}
use burner_redis.Store.{Store, Data, read, evict, update, upsert, expired_at}
use burner_redis.Keys.{count_if}
use burner_redis.Streams.Id.{id_ltb, id_leb}
use burner_redis.Streams.Entries.{
  Fields, EntryMap, insert_entry, entries_after, entries_below, entries_within, take_count,
  trim_loop, remove_ids,
}

abbrev pub stream_value : ValueData → Option Stream
stream_value (stream st) = some st
stream_value _ = none

abbrev pub on_stream : {A : Type 0} → (Stream → Result A) → ValueData → Result A
on_stream f (stream st) = f st
on_stream f _ = err wrong_type

abbrev pub on_stream_mut :
    {A : Type 0} → (Stream → Result A × Stream) → ValueData → Result A × ValueData
on_stream_mut f (stream st) = let (r, st') = f st in (r, stream st')
on_stream_mut f v = (err wrong_type, v)

-- The identifier that XADD gives: an explicit one has to be above the last, and else the time in
-- milliseconds is taken if it is, or the last with its sequence number, of 64 bits, counted up.
unfoldable pub next_stream_id : ℕ → Option StreamId → StreamId → Result StreamId
next_stream_id ms (some explicit_id) last_id =
    if id_leb explicit_id last_id then err wrong_type else ok explicit_id
next_stream_id ms none last_id =
    if ltb last_id.0 ms then ok (ms, 0) else ok (last_id.0, (last_id.1 + 1) % 2 ^ 64)

abbrev pub append_as : Fields → Stream → Result StreamId → Result StreamId × Stream
append_as fields st (err e) = (err e, st)
append_as fields st (ok new_id) =
    (ok new_id, record st { entries = insert_entry new_id fields st.entries; last_id = new_id })

abbrev pub append : ℕ → Fields → Option StreamId → Stream → Result StreamId × Stream
append ms fields id st = append_as fields st (next_stream_id ms id st.last_id)

-- `notify_waiters` is called where an entry is added.
abbrev pub notify_stream : {A : Type 0} → Store → Result A × Data → Result A × Store
notify_stream s (ok a, m) = (ok a, record s { data_map = m; stream_notify = s.stream_notify + 1 })
notify_stream s (err e, m) = (err e, record s { data_map = m })

-- `ms` is the time since the epoch, of the system's clock.
unfoldable pub xadd :
    Instant → ℕ → Bytes → Fields → Option StreamId → Store → Result StreamId × Store
unfolding next_stream_id insert_entry
xadd now ms key fields id s =
    notify_stream s (upsert now key new_stream (on_stream_mut (append ms fields id)) s.data_map)

-- What XREAD and XREADGROUP answer: the entries of each stream that has some.
abbrev pub Batches : Type 0
Batches = List (Bytes × EntryMap)

abbrev pub add_batch : Bytes → EntryMap → Result Batches × Data → Result Batches × Data
add_batch key entries (err e, m) = (err e, m)
add_batch key [] (ok rest, m) = (ok rest, m)
add_batch key (x ∷ l) (ok rest, m) = (ok ((key, x ∷ l) ∷ rest), m)

-- The answer for one key, and what the others answer; an error ends the loop, with the evictions
-- that it has made.
abbrev pub read_found :
    Bytes
    → StreamId
    → Option ℕ
    → Data
    → Result Batches × Data
    → Option ValueEntry
    → Result Batches × Data
read_found key start count m next none = next
read_found key start count m next (some entry) = elim (stream_value entry.value) [
  | none ↦ (err wrong_type, m)
  | some st ↦ add_batch key (take_count count (entries_after start st.entries)) next
]

unfoldable pub xread : Instant → List (Bytes × StreamId) → Option ℕ → Data → Result Batches × Data
unfolding evict entries_after
xread now [] count m = (ok [], m)
xread now ((key, start) ∷ rest) count m =
    let m' = evict now key m in
    read_found key start count m' (xread now rest count m') (Map.get key m')

unfoldable pub xlen : Instant → Bytes → Data → Result ℕ × Data
xlen now key = read now key (ok 0) (on_stream (λ s. ok (length s.entries)))

abbrev pub last_id_of : ValueData → Option StreamId
last_id_of (stream s) = some s.last_id
last_id_of _ = none

-- A key of another type has no last id, as a missing one.
unfoldable pub stream_last_id : Instant → Bytes → Data → Option StreamId × Data
stream_last_id now key m =
    if expired_at now key m
    then (none, Map.remove key m)
    else (elim (Map.get key m) [ none ↦ none | some entry ↦ last_id_of entry.value ], m)

abbrev pub trim_length : Option ℕ → EntryMap → ℕ × EntryMap
trim_length none entries = (0, entries)
trim_length (some max) entries = trim_loop max 0 entries

abbrev pub trim_below : Option StreamId → ℕ × EntryMap → ℕ × EntryMap
trim_below none (removed, entries) = (removed, entries)
trim_below (some min) (removed, entries) =
    let to_remove = map (λ e. e.0) (entries_below min entries) in
    (removed + length to_remove, remove_ids to_remove entries)

abbrev pub trim : Option ℕ → Option StreamId → Stream → Result ℕ × Stream
trim maxlen minid st =
    let (removed, entries') = trim_below minid (trim_length maxlen st.entries) in
    (ok removed, record st { entries = entries' })

unfoldable pub xtrim : Instant → Bytes → Option ℕ → Option StreamId → Data → Result ℕ × Data
unfolding trim_loop entries_below remove_ids
xtrim now key maxlen minid = update now key (ok 0) (on_stream_mut (trim maxlen minid))

unfoldable pub xdel_loop : List StreamId → ℕ → EntryMap → ℕ × EntryMap
xdel_loop [] count entries = (count, entries)
xdel_loop (id ∷ ids) count entries =
    xdel_loop ids (count + count_if (is_some (Map.get id entries))) (Map.remove id entries)

abbrev pub xdel_ids : List StreamId → Stream → Result ℕ × Stream
xdel_ids ids st =
    let (count, entries') = xdel_loop ids 0 st.entries in
    (ok count, record st { entries = entries' })

-- A stream stays when its last entry goes.
unfoldable pub xdel : Instant → Bytes → List StreamId → Data → Result ℕ × Data
unfolding xdel_loop
xdel now key ids = update now key (ok 0) (on_stream_mut (xdel_ids ids))

-- A range whose ends are the wrong way round is empty.
unfoldable pub xrange :
    Instant → Bytes → StreamId → StreamId → Option ℕ → Data → Result EntryMap × Data
unfolding entries_within
xrange now key min max count = read now key (ok []) (
    on_stream (λ st.
      ok (if id_ltb max min then [] else take_count count (entries_within min max st.entries))))

pub record XInfoStreamSnapshot : Type 0 where
  pub entry_count : ℕ
  pub last_id : StreamId
  pub groups_count : ℕ
  pub first_entry : Option (StreamId × Fields)
  pub last_entry : Option (StreamId × Fields)

-- `iter().next()` and `iter().next_back()`
abbrev pub first_of : EntryMap → Option (StreamId × Fields)
first_of [] = none
first_of (e ∷ l) = some e

abbrev pub last_of : EntryMap → Option (StreamId × Fields)
last_of [] = none
last_of (e ∷ []) = some e
last_of (e ∷ x ∷ l) = last_of (x ∷ l)

unfoldable pub xinfo_stream : Instant → Bytes → Data → Result (Option XInfoStreamSnapshot) × Data
xinfo_stream now key = read now key (ok none) (
    on_stream (λ st. ok (
      some (record {
        entry_count = length st.entries;
        last_id = st.last_id;
        groups_count = length st.groups;
        first_entry = first_of st.entries;
        last_entry = last_of st.entries;
      }))))
