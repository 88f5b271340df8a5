-- ===== src/Snapshot/RoundTrip.antt =====
-- What loading a snapshot gives back of a value.
use burner_redis.Prelude.{ℕ, ◌≡◌, refl, sym, subst, ap, ◌∙◌, Bool, true, [], ◌∷◌, ◌++◌, map}
use burner_redis.Prelude.Key.{Key, bytes_key, stream_id_key}
use burner_redis.Map
use burner_redis.Map.{Map}
use burner_redis.Map.Laws.{Distinct}
use burner_redis.Map.All.{All}
use burner_redis.Value.{
  Bytes, Instant, F64, ValueData, SortedSet, StreamId, Consumer, ConsumerGroup, PendingEntry,
  string, hash, set, sorted_set, stream, list,
}
use burner_redis.Streams.Entries.{Fields, EntryMap}
use burner_redis.Streams.Order.{ascending}
use burner_redis.SortedSets.{zset_insert, score_insert}
use burner_redis.SortedSets.Ranges.{empty_zset}
use burner_redis.SortedSets.Consistent.{IsScoreOrder}
use burner_redis.SortedSets.Sound.{IsSound, empty-IsSound, zset_insert-IsSound}
use burner_redis.Snapshot.{
  save_value, save_consumer, save_group, load_value, load_consumer, load_group, load_members,
  collect, collect_entries,
}
use burner_redis.Snapshot.Collect.{
  collect_lem, map_values, map_values-Distinct, collect_entries_lem, get_middle, insert_absent,
  append-cons, append-nil,
}

-- No key stands twice in any map of the value, as in the source, and the indexes of a sorted set agree.
abbrev pub IsWholeConsumer : Consumer → Type 0
IsWholeConsumer c = Distinct c.pending

abbrev pub IsWholeGroup : ConsumerGroup → Type 0
IsWholeGroup g = Distinct g.consumers × All IsWholeConsumer g.consumers

abbrev pub IsWholeFields : Fields → Type 0
IsWholeFields fields = Distinct fields

abbrev pub IsWhole : (F64 → F64 → Bool) → ValueData → Type 0
IsWhole score_leb (string b) = Unit
IsWhole score_leb (hash m) = Distinct m
IsWhole score_leb (set s) = Distinct s
IsWhole score_leb (sorted_set z) = Distinct z.by_member
IsWhole score_leb (stream st) =
    (ascending st.entries ≡ true)
    × All IsWholeFields st.entries
    × Distinct st.groups
    × All IsWholeGroup st.groups
IsWhole score_leb (list l) = Unit

-- The times of delivery that loading sets.
abbrev pub reset_consumer : Instant → Consumer → Consumer
reset_consumer now c = record {
  pending =
      map_values (λ pe. record { delivery_time = now; delivery_count = pe.delivery_count })
        c.pending;
}

abbrev pub reset_group : Instant → ConsumerGroup → ConsumerGroup
reset_group now g = record {
  last_delivered_id = g.last_delivered_id;
  consumers = map_values (reset_consumer now) g.consumers;
}

-- What a value is after saving and loading: itself, with the pending entries of a stream delivered
-- now, and a sorted set with the same scores of the same members.
abbrev pub Restores : (F64 → F64 → Bool) → Instant → ValueData → ValueData → Type 0
Restores score_leb now (string b) v' = v' ≡ string b
Restores score_leb now (hash m) v' = v' ≡ hash m
Restores score_leb now (set s) v' = v' ≡ set s
Restores score_leb now (sorted_set z) v' =
    (z' : SortedSet) × (v' ≡ sorted_set z') × (z'.by_member ≡ z.by_member) × IsSound score_leb z'
Restores score_leb now (stream st) v' =
    v' ≡ stream (record st { groups = map_values (reset_group now) st.groups })
Restores score_leb now (list l) v' = v' ≡ list l

-- Two passes over the values of a map are one, where they agree with it.
fuse_values :
    {K V W X : Type 0} ⦃key : Key K⦄ (P : V → Type 0) (f : V → W) (g : W → X) (h : V → X)
    (m : Map K V)
    → All P m
    → ((v : V) → P v → g (f v) ≡ h v)
    → map_values g (map_values f m) ≡ map_values h m
fuse_values P f g h [] all same = refl
fuse_values P f g h ((k, v) ∷ m) all same = rw (same v all.0, fuse_values P f g h m all.1 same) refl

abbrev delivered_at : Instant → ℕ → PendingEntry
delivered_at now n = record { delivery_time = now; delivery_count = n }

abbrev count_of : PendingEntry → ℕ
count_of pe = pe.delivery_count

abbrev reset_pending : Instant → PendingEntry → PendingEntry
reset_pending now pe = delivered_at now pe.delivery_count

counts_back :
    (now : Instant) (pel : Map StreamId PendingEntry)
    → map_values (delivered_at now) (map_values count_of pel) ≡ map_values (reset_pending now) pel
counts_back now [] = refl
counts_back now ((id, pe) ∷ pel) = ap (λ l. (id, reset_pending now pe) ∷ l) (counts_back now pel)

load-save_consumer :
    (now : Instant) (c : Consumer)
    → IsWholeConsumer c
    → load_consumer now (save_consumer c) ≡ reset_consumer now c
load-save_consumer now c d =
    ap (λ pel. record { pending = pel })
      (ap collect (counts_back now c.pending)
        ∙ collect_lem (map_values (reset_pending now) c.pending)
            (map_values-Distinct (reset_pending now) c.pending d))

load-save_group :
    (now : Instant) (g : ConsumerGroup)
    → IsWholeGroup g
    → load_group now (save_group g) ≡ reset_group now g
load-save_group now g w =
    ap (λ cs. record { last_delivered_id = g.last_delivered_id; consumers = cs })
      (ap collect (
          fuse_values IsWholeConsumer save_consumer (load_consumer now) (reset_consumer now)
            g.consumers w.1 (load-save_consumer now))
        ∙ collect_lem (map_values (reset_consumer now) g.consumers)
            (map_values-Distinct (reset_consumer now) g.consumers w.0))

collect_fields : (l : EntryMap) → All IsWholeFields l → map (λ e. (e.0, collect e.1)) l ≡ l
collect_fields [] w = refl
collect_fields ((id, fields) ∷ l) w = rw (collect_lem fields w.0, collect_fields l w.1) refl

set_back : (s : Map Bytes (Unit {0})) → map (λ m. (m, tt)) (Map.keys s) ≡ s
set_back [] = refl
set_back ((k, u) ∷ s) = ap (λ l. (k, tt) ∷ l) (set_back s)

-- Loading the members of a sorted set, none of which is there yet.
load_members_lem :
    (score_leb : F64 → F64 → Bool) (order : IsScoreOrder score_leb) (m : Map Bytes F64)
    (z : SortedSet)
    → Distinct (z.by_member ++ m)
    → IsSound score_leb z
    → ((load_members score_leb (map (λ e. (e.1, e.0)) m) z).by_member ≡ z.by_member ++ m)
      × IsSound score_leb (load_members score_leb (map (λ e. (e.1, e.0)) m) z)
unfolding load_members zset_insert
load_members_lem score_leb order [] z d sound = (sym (append-nil z.by_member), sound)
load_members_lem score_leb order ((k, s) ∷ m) z d sound =
    let absent = get_middle k s z.by_member m d in
    let z' : SortedSet = record {
      by_score = score_insert score_leb (s, k) z.by_score;
      by_member = Map.insert k s z.by_member;
    } in
    let inserted : (zset_insert score_leb k s z).1 ≡ z' = rw (zset_insert, absent) refl in
    let placed : z'.by_member ≡ z.by_member ++ (k, s) ∷ [] = insert_absent k s z.by_member absent in
    let joined : z'.by_member ++ m ≡ z.by_member ++ (k, s) ∷ m =
      ap (λ l. l ++ m) placed ∙ append-cons z.by_member m (k, s) in
    let sound' : IsSound score_leb z' =
      subst (IsSound score_leb) inserted (zset_insert-IsSound score_leb order k s z sound) in
    let rest = load_members_lem score_leb order m z' (rw joined d) sound' in
    (rest.0 ∙ joined, rest.1)

-- A value that is saved and loaded is the one that was saved: strings, hashes, sets and lists exactly,
-- a sorted set with the same scores of the same members and indexes that agree, and a stream with its
-- entries, its last identifier, its groups and what is pending in them, with the times of delivery set
-- to that of loading. No key stands twice in a map of the value, the entries of a stream ascend, and
-- `score_leb` has the laws of an order.
pub load-save_value :
    (score_leb : F64 → F64 → Bool) (order : IsScoreOrder score_leb) (now : Instant) (v : ValueData)
    → IsWhole score_leb v
    → Restores score_leb now v (load_value score_leb now (save_value v))
load-save_value score_leb order now (string b) w = refl
load-save_value score_leb order now (hash m) w = ap hash (collect_lem m w)
load-save_value score_leb order now (set s) w = ap set (ap collect (set_back s) ∙ collect_lem s w)
load-save_value score_leb order now (sorted_set z) w =
    let loaded =
      load_members_lem score_leb order z.by_member empty_zset w (empty-IsSound score_leb) in
    (
      load_members score_leb (map (λ e. (e.1, e.0)) z.by_member) empty_zset,
      refl,
      loaded.0,
      loaded.1,
    )
load-save_value score_leb order now (stream st) w =
    let (ascends, fields, groups, whole) = w in
    let entries =
      ap (collect_entries []) (collect_fields st.entries fields)
      ∙ collect_entries_lem [] st.entries ascends in
    let loaded =
      ap collect (
        fuse_values IsWholeGroup save_group (load_group now) (reset_group now) st.groups whole
          (load-save_group now))
      ∙ collect_lem (map_values (reset_group now) st.groups)
          (map_values-Distinct (reset_group now) st.groups groups) in
    ap stream (
      ap
        (λ es. record {
          entries = es;
          last_id = st.last_id;
          groups = collect (map_values (load_group now) (map_values save_group st.groups));
        })
        entries
      ∙ ap (λ gs. record st { groups = gs }) loaded)
load-save_value score_leb order now (list l) w = refl
