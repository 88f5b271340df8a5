-- ===== src/Groups/Create.antt =====
-- XGROUP CREATE, as a client sees it.
use burner_redis.Prelude.{
  ℕ, ◌≡◌, refl, ap, ◌∙◌, Bool, true, false, Option, none, some, [], ◌∷◌, if◌then◌else◌, arith, ◌==◌,
  ◌&&◌,
}
use burner_redis.Prelude.Key.{bytes_key, stream_id_key}
use burner_redis.Map
use burner_redis.Map.Laws.{contains_key-get}
use burner_redis.Value.{
  Bytes, Instant, ValueData, ValueEntry, Stream, StreamId, ConsumerGroup, new_stream, Result, ok,
  err, key_not_found, wrong_type,
}
use burner_redis.Store.{Data, evict, update, upsert, or_insert, write_entry}
use burner_redis.Store.View.{live}
use burner_redis.Streams.{on_stream_mut}
use burner_redis.Streams.Order.{is_ordered}
use burner_redis.Streams.View.{stream_view}
use burner_redis.Groups.{xgroup_create, xreadgroup, create_group, only_new}
use burner_redis.Groups.View.{with_group, write_entry-evict}
use burner_redis.Streams.View.{upsert_stream}
use burner_redis.Streams.Reading.{with_batch, above, limited, take_count-entries_after}
use burner_redis.Map.Laws.{get-insert}
use burner_redis.Groups.{resolve_id}
use burner_redis.Groups.Reading.{xreadgroup_new}

-- The two forms of XGROUP CREATE are the two shapes of a changing command.
create_missing :
    {A : Type 0} (key : Bytes) (missing : Result A) (f : ValueData → Result A × ValueData)
    (fresh : ValueEntry) (m : Data)
    → (if Map.contains_key key m
        then write_entry key missing f m
        else write_entry key missing f (Map.insert key fresh m))
      ≡ write_entry key missing f (or_insert key fresh m)
unfolding or_insert
create_missing key missing f fresh m = ground (arith, contains_key-get key m)

refuse_missing :
    {A : Type 0} (key : Bytes) (missing other : Result A) (f : ValueData → Result A × ValueData)
    (m : Data)
    → (if Map.contains_key key m then write_entry key other f m else (missing, m))
      ≡ write_entry key missing f m
unfolding write_entry
refuse_missing key missing other f m = ground (arith, contains_key-get key m)

pub xgroup_create-shape :
    (now : Instant) (key group : Bytes) (id : StreamId) (mkstream : Bool) (m : Data)
    → xgroup_create now key group id mkstream m ≡ (
        if mkstream
        then upsert now key new_stream (on_stream_mut (create_group group id)) m
        else update now key (err key_not_found) (on_stream_mut (create_group group id)) m)
unfolding xgroup_create upsert
xgroup_create-shape now key group id true m =
    create_missing key (err wrong_type) (on_stream_mut (create_group group id)) new_stream
      (evict now key m)
xgroup_create-shape now key group id false m =
    refuse_missing key (err key_not_found) (err wrong_type) (on_stream_mut (create_group group id))
      (evict now key m)
    ∙ write_entry-evict now key (err key_not_found) (on_stream_mut (create_group group id)) m

-- Where a group begins: at the identifier, and for `$`, whose two numbers are the greatest ones of 64
-- bits, at the last one of the stream.
abbrev pub begins_at : StreamId → StreamId → StreamId
begins_at id last =
    if id.0 == 18_446_744_073_709_551_615 && id.1 == 18_446_744_073_709_551_615 then last else id

resolve_id-begins_at : (id last : StreamId) → resolve_id id last ≡ begins_at id last
resolve_id-begins_at (ms, seq) last = ground arith

-- XGROUP CREATE with MKSTREAM, for a group that is not there, on an ordered stream or a missing key,
-- and XREADGROUP with `>` right after it: the group is made without consumers, at the identifier that
-- is given, or for `$` at the last one of the stream, with the rest of the stream as it was; and the
-- answer of the read holds the entries above that identifier, in their order, as many as the limit
-- allows.
pub xreadgroup-xgroup_create :
    (now : Instant) (key group consumer : Bytes) (id : StreamId) (count : Option ℕ) (m : Data)
    (st : Stream)
    → stream_view (live now key m) ≡ some st
    → is_ordered st ≡ true
    → Map.get group st.groups ≡ none
    → ((xgroup_create now key group id true m).0 ≡ ok tt)
      × (stream_view (live now key (xgroup_create now key group id true m).1)
          ≡ some (
              with_group group
                (record { last_delivered_id = begins_at id st.last_id; consumers = [] })
                st))
      × ((xreadgroup now group consumer
            ((key, only_new) ∷ [])
            count
            (xgroup_create now key group id true m).1).0
          ≡ with_batch key (limited count (above (begins_at id st.last_id) st.entries)) (ok []))
xreadgroup-xgroup_create now key group consumer id count m st view order absent =
    let cg : ConsumerGroup = record {
      last_delivered_id = resolve_id id st.last_id;
      consumers = [];
    } in
    let made : create_group group id st
        ≡ (ok tt, record st { groups = Map.insert group cg st.groups }) =
      ground (arith, contains_key-get group st.groups) in
    let (answer, seen) = upsert_stream now key m st view (create_group group id) in
    let found : Map.get group (Map.insert group cg st.groups) ≡ some cg =
      rw (get-insert group group cg st.groups) (ground arith) in
    let (new, cg', read, _, taken, _, _) =
      xreadgroup_new now group consumer key only_new count
        (upsert now key new_stream (on_stream_mut (create_group group id)) m).1
        (record st { groups = Map.insert group cg st.groups }) cg (seen ∙ ap (λ p. some p.1) made)
        found order refl in
    rw (xgroup_create-shape now key group id true m) (
      answer ∙ ap (λ p. p.0) made,
      seen
          ∙ ap (λ p. some p.1) made
          ∙ ap (λ i. some (with_group group (record { last_delivered_id = i; consumers = [] }) st))
              (resolve_id-begins_at id st.last_id),
      read
          ∙ ap (λ l. with_batch key l (ok []))
              (taken
                ∙ take_count-entries_after count (resolve_id id st.last_id) st.entries
                ∙ ap (λ i. limited count (above i st.entries))
                    (resolve_id-begins_at id st.last_id)),
    )
