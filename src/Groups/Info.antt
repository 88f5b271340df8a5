-- ===== src/Groups/Info.antt =====
-- XINFO GROUPS and CONSUMERS and both forms of XPENDING, lines 2124 to 2166 and 2213 to 2438 of
-- src/store.rs. A name stands as its bytes, which the source decodes for the text.
use burner_redis.Prelude.{
  ℕ, ◌+◌, ◌/◌, Bool, true, ◌&&◌, ◌==◌, Option, none, some, List, [], ◌∷◌, ◌++◌, if◌then◌else◌,
  keep_if, map, take, leb, min,
}
use burner_redis.Prelude.Key.{bytes_key, stream_id_key}
use burner_redis.Map
use burner_redis.Map.{Map}
use burner_redis.Value.{
  Bytes, Instant, Stream, StreamId, PendingEntry, Consumer, ConsumerGroup, Result, ok, err,
  no_group,
}
use burner_redis.Store.{Data, read}
use burner_redis.Decimal.{print_nat}
use burner_redis.Streams.{on_stream}
use burner_redis.Streams.Id.{id_ltb, id_leb}
use burner_redis.Streams.Text.{format_stream_id}
use burner_redis.Groups.{on_group}
use burner_redis.Groups.Pending.{Pel, Consumers, idle_of, sort_by_id}

-- The texts of the answer's map.
pub record GroupInfo : Type 0 where
  pub name : Bytes
  pub consumers : Bytes
  pub pending : Bytes
  pub last_delivered_id : Bytes

unfoldable pub total_pending : Consumers → ℕ
total_pending [] = 0
total_pending ((name, c) ∷ l) = Map.len c.pending + total_pending l

abbrev pub group_info : Bytes → ConsumerGroup → GroupInfo
group_info name cg = record {
  name = name;
  consumers = print_nat (Map.len cg.consumers);
  pending = print_nat (total_pending cg.consumers);
  last_delivered_id = format_stream_id cg.last_delivered_id;
}

unfoldable pub xinfo_groups : Instant → Bytes → Data → Result (List GroupInfo) × Data
unfolding total_pending print_nat format_stream_id
xinfo_groups now key =
    read now key (ok []) (on_stream (λ st. ok (map (λ e. group_info e.0 e.1) st.groups)))

-- `as_millis`
abbrev pub idle_ms_of : Instant → PendingEntry → ℕ
idle_ms_of now pe = idle_of now pe / 1_000_000

-- The least idle time of the pending entries, and zero where there are none.
unfoldable pub least_idle_ms : Instant → Pel → ℕ
least_idle_ms now [] = 0
least_idle_ms now (e ∷ []) = idle_ms_of now e.1
least_idle_ms now (e ∷ x ∷ l) = min (idle_ms_of now e.1) (least_idle_ms now (x ∷ l))

pub record ConsumerInfo : Type 0 where
  pub name : Bytes
  pub pending : Bytes
  pub idle : Bytes

abbrev pub consumer_info : Instant → Bytes → Consumer → ConsumerInfo
consumer_info now name c = record {
  name = name;
  pending = print_nat (Map.len c.pending);
  idle = print_nat (least_idle_ms now c.pending);
}

-- A command that looks at one group; a missing key and a missing group are the same error.
abbrev pub read_group :
    {A : Type 0}
    → Instant
    → Bytes
    → Bytes
    → (Stream → ConsumerGroup → Result A)
    → Data
    → Result A × Data
read_group now key group f =
    read now key (err (no_group group key))
      (on_stream (on_group group (err (no_group group key)) f))

unfoldable pub xinfo_consumers : Instant → Bytes → Bytes → Data → Result (List ConsumerInfo) × Data
unfolding least_idle_ms print_nat
xinfo_consumers now key group =
    read_group now key group (λ st cg. ok (map (λ e. consumer_info now e.0 e.1) cg.consumers))

-- The filters of XPENDING with a range.
pub record PendingFilter : Type 0 where
  pub min_id : StreamId
  pub max_id : StreamId
  pub consumer_filter : Option Bytes
  pub min_idle_ms : Option ℕ

abbrev pub idle_long_enough : Option ℕ → ℕ → Bool
idle_long_enough none idle_ms = true
idle_long_enough (some least) idle_ms = leb least idle_ms

abbrev pub pending_passes : Instant → PendingFilter → StreamId × PendingEntry → Bool
pending_passes now f (id, pe) =
    id_leb f.min_id id && id_leb id f.max_id && idle_long_enough f.min_idle_ms (idle_ms_of now pe)

abbrev pub single_consumer : Bytes → Option Consumer → Consumers
single_consumer name none = []
single_consumer name (some c) = (name, c) ∷ []

abbrev pub consumers_to_check : Option Bytes → Consumers → Consumers
consumers_to_check none consumers = consumers
consumers_to_check (some name) consumers = single_consumer name (Map.get name consumers)

-- (identifier, consumer, idle time in milliseconds, delivery count)
abbrev pub PendingRow : Type 0
PendingRow = StreamId × Bytes × ℕ × ℕ

abbrev pub rows_of : Instant → PendingFilter → Bytes → Pel → List PendingRow
rows_of now f name pel =
    map (λ e. (e.0, name, idle_ms_of now e.1, e.1.delivery_count))
      (keep_if (pending_passes now f) pel)

abbrev pub pending_rows : Instant → PendingFilter → Consumers → List PendingRow
pending_rows now f [] = []
pending_rows now f ((name, c) ∷ l) = rows_of now f name c.pending ++ pending_rows now f l

unfoldable pub xpending_range :
    Instant → Bytes → Bytes → PendingFilter → ℕ → Data → Result (List PendingRow) × Data
xpending_range now key group f count = read_group now key group (λ st cg. ok (
    take count (
      sort_by_id (λ r. r.0)
        (pending_rows now f (consumers_to_check f.consumer_filter cg.consumers)))))

pub record PendingSummary : Type 0 where
  pub pending_count : ℕ
  pub least : Option StreamId
  pub greatest : Option StreamId
  pub consumer_counts : List (Bytes × ℕ)

abbrev pub lesser : Option StreamId → StreamId → Option StreamId
lesser none id = some id
lesser (some i) id = if id_ltb id i then some id else some i

abbrev pub greater : Option StreamId → StreamId → Option StreamId
greater none id = some id
greater (some i) id = if id_ltb i id then some id else some i

unfoldable pub bounds_of :
    Pel → Option StreamId × Option StreamId → Option StreamId × Option StreamId
bounds_of [] (low, high) = (low, high)
bounds_of (e ∷ l) (low, high) = bounds_of l (lesser low e.0, greater high e.0)

-- A consumer with nothing pending is not listed.
unfoldable pub add_consumer : Bytes → Pel → PendingSummary → PendingSummary
unfolding bounds_of
add_consumer name pel r =
    if Map.len pel == 0
    then r
    else let (low, high) = bounds_of pel (r.least, r.greatest) in
      record {
        pending_count = r.pending_count + Map.len pel;
        least = low;
        greatest = high;
        consumer_counts = r.consumer_counts ++ (name, Map.len pel) ∷ [];
      }

unfoldable pub summarize : Consumers → PendingSummary → PendingSummary
unfolding add_consumer
summarize [] r = r
summarize ((name, c) ∷ l) r = summarize l (add_consumer name c.pending r)

abbrev pub nothing_pending : PendingSummary
nothing_pending = record { pending_count = 0; least = none; greatest = none; consumer_counts = [] }

unfoldable pub xpending_summary : Instant → Bytes → Bytes → Data → Result PendingSummary × Data
unfolding summarize
xpending_summary now key group =
    read_group now key group (λ st cg. ok (summarize cg.consumers nothing_pending))
