-- ===== src/Tests/Groups.antt =====
-- The consumer groups, on the stream of three entries with one group.
use burner_redis.Prelude.{
  List, not, ℕ, ◌+◌, ◌-◌, ◌≡◌, ◌≤◌, refl, true, ◌&&◌, none, some, [], ◌∷◌, ◌++◌, if◌then◌else◌,
  arith,
}
use burner_redis.Prelude.Key.{bytes_key, stream_id_key, same, among}
use burner_redis.Map
use burner_redis.Value.{Bytes, Stream, StreamId, ConsumerGroup, ok}
use burner_redis.Store.{Data}
use burner_redis.Store.View.{live}
use burner_redis.Streams.{xadd}
use burner_redis.Streams.Entries.{EntryMap, entries_after, take_count}
use burner_redis.Streams.View.{stream_view}
use burner_redis.Streams.Text.{parse_stream_id, split_dash, parse_parts, parse_u64}
use burner_redis.Streams.Reading.{with_batch, above, limited, beyond}
use burner_redis.Groups.{
  xgroup_create, xreadgroup, xack, only_new, start_of, greatest_id, read_member, ack_loop,
}
use burner_redis.Groups.Pending.{
  pending_of, add_pending, remove_pending, mark_delivered, ack_one, find_pending, sort_by_id,
}
use burner_redis.Groups.Claim.{
  ClaimOptions, xclaim, xautoclaim, claim_ids, claim_one, claim_found, claim_forced, claim_each,
  transfer,
}
use burner_redis.Groups.Info.{
  xpending_summary, total_pending, summarize, add_consumer, bounds_of, xpending_range,
}
use burner_redis.Groups.Holders.{holders}
use burner_redis.Groups.View.{with_group}
use burner_redis.Groups.Delivery.{fresh}
use burner_redis.Groups.Reading.{xreadgroup_new, xreadgroup-history}
use burner_redis.Groups.History.{ids_ascend, lowest_or}
use burner_redis.Groups.Acks.{xack_lem}
use burner_redis.Groups.Create.{begins_at, xreadgroup-xgroup_create}
use burner_redis.Groups.Queue.{backlog, xadd-backlog}
use burner_redis.Groups.Sound.{SoundData}
use burner_redis.Groups.Steps.{at_start, after, created, added, delivered, Reached-SoundData}
use burner_redis.Tests.Inputs.{group, name, a, b, s}
use burner_redis.Tests.Streams.{run, jobs, fields, entries, workers, log, logged, store}

run_groups : Unit {0}
unfolding run xgroup_create xreadgroup xack start_of read_member ack_loop pending_of add_pending
    remove_pending mark_delivered ack_one find_pending sort_by_id xclaim xautoclaim claim_ids
    claim_one claim_found claim_forced claim_each transfer xpending_summary xpending_range summarize
    add_consumer bounds_of holders total_pending parse_stream_id split_dash parse_parts parse_u64
run_groups = tt

abbrev zero_id : Bytes
zero_id = b'0' ∷ []

xreadgroup-new :
    (xreadgroup 9 group b ((jobs, only_new) ∷ []) (some 1) logged).0
    ≡ ok ((jobs, ((1, 1), fields) ∷ []) ∷ [])
unfolding run_groups
xreadgroup-new = refl

xreadgroup-workers :
    (xreadgroup 9 group a ((jobs, zero_id) ∷ []) none logged).0
    ≡ ok ((jobs, ((1, 0), fields) ∷ []) ∷ [])
unfolding run_groups
xreadgroup-workers = refl

-- XAUTOCLAIM takes what has been idle for long enough.
xautoclaim-jobs :
    (xautoclaim 2_000_003 jobs group b 2 (0, 0) none logged).0
    ≡ ok ((0, 0), (((1, 0), fields) ∷ [], []))
unfolding run_groups
xautoclaim-jobs = refl

xpending-jobs :
    (xpending_summary 9 jobs group (xreadgroup 9 group b ((jobs, only_new) ∷ []) none logged).1).0
    ≡ ok (record {
      pending_count = 3;
      least = some (1, 0);
      greatest = some (4, 0);
      consumer_counts = (a, 1) ∷ (b, 2) ∷ [];
    })
unfolding run_groups
xpending-jobs = refl

abbrev forced : ClaimOptions
forced = record { min_idle_ms = 0; idle = none; retrycount = none; force = true; justid = true }

-- XCLAIM with FORCE gives an entry to `a` that has not been delivered, XREADGROUP delivers it to `b` as
-- well, and it is pending with both.
xclaim-xreadgroup :
    (xpending_summary 9 jobs group
      (xreadgroup 9 group b
        ((jobs, only_new) ∷ [])
        none
        (xclaim (λ now d. now - d) 9 jobs group a forced ((4, 0) ∷ []) logged).1).1).0
    ≡ ok (record {
      pending_count = 4;
      least = some (1, 0);
      greatest = some (4, 0);
      consumer_counts = (a, 2) ∷ (b, 2) ∷ [];
    })
unfolding run_groups
xclaim-xreadgroup = refl

-- XACK then takes it from one of them only.
xack-forced :
    (xpending_summary 9 jobs group
      (xack 9 jobs group
        ((4, 0) ∷ [])
        (xreadgroup 9 group b
          ((jobs, only_new) ∷ [])
          none
          (xclaim (λ now d. now - d) 9 jobs group a forced ((4, 0) ∷ []) logged).1).1).1).0
    ≡ ok (record {
      pending_count = 3;
      least = some (1, 0);
      greatest = some (4, 0);
      consumer_counts = (a, 1) ∷ (b, 2) ∷ [];
    })
unfolding run_groups
xack-forced = refl

xreadgroup_new_example :
    (new : EntryMap) × (cg' : ConsumerGroup) × ((xreadgroup 9 group b
        ((jobs, only_new) ∷ [])
        (some 1)
        logged).0
      ≡ with_batch jobs new (ok []))
    × (stream_view (live 9 jobs (xreadgroup 9 group b ((jobs, only_new) ∷ []) (some 1) logged).1)
        ≡ some (with_group group cg' log))
    × (new ≡ take_count (some 1) (entries_after (1, 0) entries))
    × (new ++ entries_after cg'.last_delivered_id entries ≡ entries_after (1, 0) entries)
    × ((consumer : Bytes) (i : StreamId)
        → Map.get i (pending_of consumer cg'.consumers) ≡ (
            if same b consumer && among i (Map.keys new)
            then some (fresh 9)
            else Map.get i (pending_of consumer workers.consumers)))
unfolding run_groups
xreadgroup_new_example =
    xreadgroup_new 9 group b jobs only_new (some 1) logged log workers refl refl refl refl

xreadgroup-history_example :
    (ids : List StreamId) × (found_entries : EntryMap) × ((xreadgroup 9 group a
        ((jobs, zero_id) ∷ [])
        (some 1)
        logged).0
      ≡ with_batch jobs found_entries (ok []))
    × (stream_view (live 9 jobs (xreadgroup 9 group a ((jobs, zero_id) ∷ []) (some 1) logged).1)
        ≡ some (with_group group workers log))
    × (ids_ascend ids ≡ true)
    × ((i : StreamId)
        → among i ids ≡ (
            not (beyond i (lowest_or (parse_stream_id zero_id)))
            && Map.contains_key i (pending_of a workers.consumers)))
    × (ids_ascend (Map.keys found_entries) ≡ true)
    × ((i : StreamId)
        → Map.get i found_entries
          ≡ (if among i (limited (some 1) ids) then Map.get i log.entries else none))
unfolding run_groups
xreadgroup-history_example =
    xreadgroup-history 9 group a jobs zero_id (some 1) logged log workers refl refl refl (refl, tt)

workers-once : (id : StreamId) → holders id workers.consumers ≤ 1
unfolding run_groups
workers-once id = ground arith

xack_lem_example :
    (n : ℕ) × (cg' : ConsumerGroup) × ((xack 9 jobs group ((1, 0) ∷ (4, 0) ∷ []) logged).0 ≡ ok n)
    × (stream_view (live 9 jobs (xack 9 jobs group ((1, 0) ∷ (4, 0) ∷ []) logged).1)
        ≡ some (with_group group cg' log))
    × ((consumer : Bytes) (id : StreamId)
        → Map.get id (pending_of consumer cg'.consumers) ≡ (
            if among id ((1, 0) ∷ (4, 0) ∷ [])
            then none
            else Map.get id (pending_of consumer workers.consumers)))
    × (n + total_pending cg'.consumers ≡ total_pending workers.consumers)
    × (Map.keys cg'.consumers ≡ Map.keys workers.consumers)
    × (cg'.last_delivered_id ≡ (1, 0))
    × ((id : StreamId) → holders id cg'.consumers ≤ 1)
unfolding run_groups
xack_lem_example =
    xack_lem 9 jobs group ((1, 0) ∷ (4, 0) ∷ []) logged log refl workers refl workers-once
      ((refl, tt), tt)

xreadgroup-xgroup_create_example :
    ((xgroup_create 9 jobs name greatest_id true logged).0 ≡ ok tt)
    × (stream_view (live 9 jobs (xgroup_create 9 jobs name greatest_id true logged).1)
        ≡ some (
            with_group name
              (record { last_delivered_id = begins_at greatest_id (4, 0); consumers = [] })
              log))
    × ((xreadgroup 9 name b
          ((jobs, only_new) ∷ [])
          none
          (xgroup_create 9 jobs name greatest_id true logged).1).0
        ≡ with_batch jobs (limited none (above (begins_at greatest_id (4, 0)) entries)) (ok []))
unfolding run_groups
xreadgroup-xgroup_create_example =
    xreadgroup-xgroup_create 9 jobs name b greatest_id none logged log refl refl refl

xadd-backlog_example :
    (i : StreamId) × (st' : Stream) × ((xadd 9 2 jobs fields none store).0 ≡ ok i)
    × (stream_view (live 9 jobs (xadd 9 2 jobs fields none store).1.data_map) ≡ some st')
    × (Map.get group st'.groups ≡ some workers)
    × (backlog st' workers ≡ backlog log workers ++ (i, fields) ∷ [])
unfolding run_groups
xadd-backlog_example =
    xadd-backlog 9 2 jobs group fields store log workers refl refl (omega arith) refl refl

abbrev with_jobs : Data
with_jobs = (xgroup_create 3 jobs group (0, 0) true []).1

abbrev filled : Data
filled = (xadd 4 4 jobs fields none (record s { data_map = with_jobs })).1.data_map

Reached-SoundData_example : SoundData (xreadgroup 5 group a ((jobs, only_new) ∷ []) none filled).1
unfolding run_groups
Reached-SoundData_example =
    Reached-SoundData (xreadgroup 5 group a ((jobs, only_new) ∷ []) none filled).1 (
      after
        (after (after at_start (created 3 jobs group (0, 0) true []))
          (added 4 4 jobs fields none (record s { data_map = with_jobs }) refl))
        (delivered 5 group a ((jobs, only_new) ∷ []) none filled))
