-- ===== src/Tests/Streams.antt =====
-- The stream commands and the consumer groups, on a stream of three entries with one group.
use burner_redis.Prelude.{
  ℕ, ◌+◌, ◌≡◌, ◌⊎◌, refl, true, false, none, some, [], ◌∷◌, if◌then◌else◌, arith, length,
}
use burner_redis.Prelude.Key.{bytes_key, stream_id_key, stream_id_discrete, bytes_discrete, among}
use burner_redis.Map
use burner_redis.Value.{
  Bytes, Stream, StreamId, ConsumerGroup, PendingEntry, stream, ok, err, wrong_type, is_expired,
}
use burner_redis.Store.{
  Data, Store, evict, write_entry, or_insert, expired_at, read, update, upsert,
}
use burner_redis.Store.View.{live}
use burner_redis.Streams.{xadd, xread, xtrim, xdel, xrange, xlen, next_stream_id, xdel_loop}
use burner_redis.Streams.Id.{id_ltb}
use burner_redis.Streams.Entries.{
  Fields, EntryMap, insert_entry, entries_after, entries_below, entries_within, trim_loop,
  remove_ids,
}
use burner_redis.Streams.Order.{is_ordered}
use burner_redis.Streams.View.{stream_view}
use burner_redis.Streams.Text.{format_stream_id, parse_stream_id, parse_stream_id-format_stream_id}
use burner_redis.Streams.Append.{XaddAppends, xadd_lem, xadd_explicit}
use burner_redis.Streams.Reading.{read_each, xread_lem, xread-xadd}
use burner_redis.Streams.Trim.{xtrim_lem, kept_of}
use burner_redis.Streams.Delete.{xdel_lem}
use burner_redis.Tests.Inputs.{permanent, table, group, a, five, m, s}

abbrev pub jobs : Bytes
jobs = b'j' ∷ []

abbrev pub fields : Fields
fields = (a, five) ∷ []

abbrev pub entries : EntryMap
entries = ((1, 0), fields) ∷ ((1, 1), fields) ∷ ((4, 0), fields) ∷ []

abbrev pub delivered_once : PendingEntry
delivered_once = record { delivery_time = 2; delivery_count = 1 }

-- The first entry is pending with `a`.
abbrev pub workers : ConsumerGroup
workers = record {
  last_delivered_id = (1, 0);
  consumers = (a, record { pending = ((1, 0), delivered_once) ∷ [] }) ∷ [];
}

abbrev pub log : Stream
log = record { entries = entries; last_id = (4, 0); groups = (group, workers) ∷ [] }

abbrev pub logged : Data
logged = (jobs, permanent (stream log)) ∷ (table, permanent (stream log)) ∷ m

abbrev pub store : Store
store = record s { data_map = logged }

unfoldable pub run : Unit {0}
unfolding Map.get Map.insert Map.remove Map.contains_key bytes_discrete stream_id_discrete
    is_expired live evict write_entry or_insert expired_at read update upsert xadd xread xtrim xdel
    xrange xlen next_stream_id insert_entry entries_after entries_below entries_within trim_loop
    remove_ids xdel_loop
run = tt

-- The clock is behind the last entry: the sequence number counts up.
xadd-behind : (xadd 3 2 jobs fields none store).0 ≡ ok (4, 1)
unfolding run
xadd-behind = refl

-- Its sequence number at the greatest of 64 bits wraps round, and XADD gives an identifier that is not
-- above the last one.
xadd-wraps :
    (xadd 3 2 jobs fields none
      (xadd 3 2 jobs fields (some (4, 18_446_744_073_709_551_615)) store).1).0
    ≡ ok (4, 0)
unfolding run
xadd-wraps = refl

-- A refused identifier leaves a new stream behind, without an entry.
xadd-refused : (xlen 3 five (xadd 3 2 five fields (some (0, 0)) store).1.data_map).0 ≡ ok 0
unfolding run
xadd-refused = refl

xadd-refused_key :
    Map.contains_key five (xadd 3 2 five fields (some (0, 0)) store).1.data_map ≡ true
unfolding run
xadd-refused_key = refl

xrange-jobs : (xrange 3 jobs (1, 1) (4, 0) (some 1) logged).0 ≡ ok (((1, 1), fields) ∷ [])
unfolding run
xrange-jobs = refl

xadd_lem_example :
    (i : StreamId) × (st' : Stream) × XaddAppends 3 2 jobs fields none store log i st'
unfolding run
xadd_lem_example = xadd_lem 3 2 jobs fields store log refl refl (omega arith)

xadd_explicit_example :
    ((st' : Stream) × XaddAppends 3 2 jobs fields (some (9, 9)) store log (9, 9) st')
    ⊎ ((id_ltb (4, 0) (9, 9) ≡ false)
        × ((xadd 3 2 jobs fields (some (9, 9)) store).0 ≡ err wrong_type)
        × (stream_view (live 3 jobs (xadd 3 2 jobs fields (some (9, 9)) store).1.data_map)
            ≡ some log))
unfolding run
xadd_explicit_example = xadd_explicit 3 2 jobs fields store log (9, 9) refl refl

xread_lem_example :
    (xread 3 ((jobs, (1, 0)) ∷ (five, (0, 0)) ∷ []) (some 1) logged).0
    ≡ read_each 3 ((jobs, (1, 0)) ∷ (five, (0, 0)) ∷ []) (some 1) logged
xread_lem_example = xread_lem 3 ((jobs, (1, 0)) ∷ (five, (0, 0)) ∷ []) (some 1) logged

xread-xadd_example :
    (i : StreamId) × ((xadd 3 2 jobs fields none store).0 ≡ ok i)
    × ((xread 3 ((jobs, (4, 0)) ∷ []) none (xadd 3 2 jobs fields none store).1.data_map).0
        ≡ ok ((jobs, (i, fields) ∷ []) ∷ []))
unfolding run
xread-xadd_example = xread-xadd 3 2 jobs fields store log refl refl (omega arith)

xtrim_lem_example :
    (n : ℕ) × (st' : Stream) × ((xtrim 3 jobs (some 2) (some (2, 0)) logged).0 ≡ ok n)
    × (stream_view (live 3 jobs (xtrim 3 jobs (some 2) (some (2, 0)) logged).1) ≡ some st')
    × (st' ≡ record log { entries = kept_of (some 2) (some (2, 0)) entries })
    × (n + length st'.entries ≡ 3)
    × (is_ordered st' ≡ true)
unfolding run
xtrim_lem_example = xtrim_lem 3 jobs (some 2) (some (2, 0)) logged log refl refl

xdel_lem_example :
    (n : ℕ) × (st' : Stream) × ((xdel 3 jobs ((1, 1) ∷ (7, 0) ∷ []) logged).0 ≡ ok n)
    × (stream_view (live 3 jobs (xdel 3 jobs ((1, 1) ∷ (7, 0) ∷ []) logged).1) ≡ some st')
    × ((i : StreamId)
        → Map.get i st'.entries
          ≡ (if among i ((1, 1) ∷ (7, 0) ∷ []) then none else Map.get i entries))
    × (n + length st'.entries ≡ 3)
    × (st'.last_id ≡ (4, 0))
    × (st'.groups ≡ log.groups)
    × (is_ordered st' ≡ true)
unfolding run
xdel_lem_example = xdel_lem 3 jobs ((1, 1) ∷ (7, 0) ∷ []) logged log refl refl

parse_stream_id-format_stream_id_example : parse_stream_id (format_stream_id (15, 3)) ≡ some (15, 3)
parse_stream_id-format_stream_id_example =
    parse_stream_id-format_stream_id (15, 3) (omega arith) (omega arith)
