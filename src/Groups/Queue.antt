-- ===== src/Groups/Queue.antt =====
-- A group as a queue: the entries that it is to have.
use burner_redis.Prelude.{ℕ, ◌+◌, ◌^◌, ◌≡◌, ◌<◌, true, ap, ◌∙◌, none, some, [], ◌∷◌, ◌++◌, arith}
use burner_redis.Prelude.Key.{bytes_key}
use burner_redis.Map
use burner_redis.Value.{Bytes, Instant, Stream, StreamId, ConsumerGroup, ok}
use burner_redis.Store.{Store}
use burner_redis.Store.View.{live}
use burner_redis.Streams.{xadd}
use burner_redis.Streams.Id.{id_ltb, id_leb, id_leb_ltb_trans}
use burner_redis.Streams.Entries.{Fields, EntryMap, entries_after}
use burner_redis.Streams.Order.{is_ordered}
use burner_redis.Streams.View.{stream_view}
use burner_redis.Streams.Append.{xadd_lem}

-- What the group is to have, from the lowest identifier on.
abbrev pub backlog : Stream → ConsumerGroup → EntryMap
backlog st cg = entries_after cg.last_delivered_id st.entries

entries_after-append :
    (start i : StreamId) (fields : Fields) (l : EntryMap)
    → id_ltb start i ≡ true
    → entries_after start (l ++ (i, fields) ∷ []) ≡ entries_after start l ++ (i, fields) ∷ []
unfolding entries_after
entries_after-append start i fields [] h = ground arith
entries_after-append start i fields (e ∷ l) h =
    ground (arith, entries_after-append start i fields l)

-- XADD puts its entry at the end of the backlog of every group of the stream that has not been served
-- past the last identifier, under the conditions of XADD.
pub xadd-backlog :
    (now : Instant) (ms : ℕ) (key group : Bytes) (fields : Fields) (s : Store) (st : Stream)
    (cg : ConsumerGroup)
    → stream_view (live now key s.data_map) ≡ some st
    → is_ordered st ≡ true
    → st.last_id.1 + 1 < 2 ^ 64
    → Map.get group st.groups ≡ some cg
    → id_leb cg.last_delivered_id st.last_id ≡ true
    → (i : StreamId) × (st' : Stream) × ((xadd now ms key fields none s).0 ≡ ok i)
      × (stream_view (live now key (xadd now ms key fields none s).1.data_map) ≡ some st')
      × (Map.get group st'.groups ≡ some cg)
      × (backlog st' cg ≡ backlog st cg ++ (i, fields) ∷ [])
xadd-backlog now ms key group fields s st cg view order room found served =
    let (i, st', added) = xadd_lem now ms key fields s st view order room in
    let new = added.2 in
    (
      i,
      st',
      added.0,
      added.1,
      ap (Map.get group) new.same_groups ∙ found,
      ap (entries_after cg.last_delivered_id) new.appended
          ∙ entries_after-append cg.last_delivered_id i fields st.entries
              (id_leb_ltb_trans cg.last_delivered_id st.last_id i served new.above),
    )
