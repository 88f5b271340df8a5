-- ===== src/Groups/Reading.antt =====
-- XREADGROUP of one key, as a client sees it.
use burner_redis.Prelude.{
  ℕ, ◌≡◌, refl, ap, ◌∙◌, true, false, not, ◌&&◌, List, Option, none, some, [], ◌∷◌, ◌++◌,
  if◌then◌else◌, arith, subst, take_all, length, take-append-drop,
}
use burner_redis.Prelude.Key.{bytes_key, stream_id_key, same, among}
use burner_redis.Map
use burner_redis.Map.Laws.{Distinct}
use burner_redis.Value.{Bytes, Instant, StreamId, ConsumerGroup, Stream, Result, ok, err, no_group}
use burner_redis.Store.{Data, update}
use burner_redis.Store.View.{live}
use burner_redis.Streams.{on_stream_mut}
use burner_redis.Streams.Entries.{EntryMap, entries_after, take_count}
use burner_redis.Streams.View.{stream_view}
use burner_redis.Streams.Order.{ascending, is_ordered, end_of, entries_after-read}
use burner_redis.Streams.Reading.{with_batch, add_batch-answer, beyond, limited}
use burner_redis.Streams.Text.{parse_stream_id}
use burner_redis.Groups.{
  deliver, new_entries, xreadgroup, read_member, then_read, only_new, read_as_member, start_of,
  history, on_group_mut, existing, pending_from,
}
use burner_redis.Groups.Pending.{pending_of}
use burner_redis.Groups.View.{with_group, update-group, write_entry-evict}
use burner_redis.Groups.History.{
  ids_ascend, pending_from_lem, get-existing, existing-ids_ascend, limited-ids_ascend,
  history-existing, lowest_or, start_of-lowest_or,
}
use burner_redis.Groups.Delivery.{fresh, deliver-last, get-deliver}

then_read-nothing :
    (key : Bytes) (r : Result EntryMap) (entries : EntryMap) (m : Data)
    → r ≡ ok entries
    → (then_read key (λ m. (ok [], m)) (r, m)).0 ≡ with_batch key entries (ok [])
then_read-nothing key r entries m h = rw h (add_batch-answer key entries (ok []) m)

then_read-map :
    (key : Bytes) (r : Result EntryMap) (m : Data) → (then_read key (λ m. (ok [], m)) (r, m)).1 ≡ m
then_read-map key (ok []) m = refl
then_read-map key (ok (x ∷ l)) m = refl
then_read-map key (err e) m = refl

-- What is left after a delivery is what was not delivered.
abbrev RestAfter : Option ℕ → Stream → ConsumerGroup → Type 0
RestAfter count st cg =
    new_entries count st cg
      ++ entries_after (end_of cg.last_delivered_id (new_entries count st cg)) st.entries
    ≡ entries_after cg.last_delivered_id st.entries

rest_of_some :
    (n : ℕ) (st : Stream) (cg : ConsumerGroup)
    → ascending st.entries ≡ true
    → RestAfter (some n) st cg
rest_of_some n st cg h =
    ap (λ l. new_entries (some n) st cg ++ l)
      (entries_after-read n cg.last_delivered_id st.entries h)
    ∙ take-append-drop n (entries_after cg.last_delivered_id st.entries)

-- The same without a limit.
rest_of_all :
    (st : Stream) (cg : ConsumerGroup) → ascending st.entries ≡ true → RestAfter none st cg
rest_of_all st cg h =
    let l = entries_after cg.last_delivered_id st.entries in
    subst (λ x. x ++ entries_after (end_of cg.last_delivered_id x) st.entries ≡ l) (take_all l)
      (rest_of_some (length l) st cg h)

rest_after :
    (count : Option ℕ) (st : Stream) (cg : ConsumerGroup)
    → ascending st.entries ≡ true
    → RestAfter count st cg
rest_after none st cg h = rest_of_all st cg h
rest_after (some n) st cg h = rest_of_some n st cg h

module _ (now : Instant) (group consumer key id : Bytes) (count : Option ℕ) (m : Data) (st : Stream)
    (cg : ConsumerGroup) (view : stream_view (live now key m) ≡ some st)
    (found : Map.get group st.groups ≡ some cg) where
  read_one :
      (entries : EntryMap) (cg' : ConsumerGroup)
      → read_as_member now consumer id count st cg ≡ (ok entries, cg')
      → ((xreadgroup now group consumer ((key, id) ∷ []) count m).0
          ≡ with_batch key entries (ok []))
        × (stream_view (live now key (xreadgroup now group consumer ((key, id) ∷ []) count m).1)
            ≡ some (with_group group cg' st))
  unfolding xreadgroup read_member
  read_one entries cg' h =
      let missing = err (no_group group key) in
      let f = read_as_member now consumer id count in
      let u = update now key missing (on_stream_mut (on_group_mut group missing f)) m in
      let (answer, seen) = update-group now key group m st missing f view cg found in
      rw (write_entry-evict now key missing (on_stream_mut (on_group_mut group missing f)) m) (
        then_read-nothing key u.0 entries u.1 (answer ∙ ap (λ p. p.0) h),
        ap (λ m'. stream_view (live now key m')) (then_read-map key u.0 u.1)
            ∙ seen
            ∙ ap (λ (p : Result EntryMap × ConsumerGroup). some (with_group group p.1 st)) h,
      )

  -- XREADGROUP with `>` on one key, with an ordered stream and the group: the answer holds the entries
  -- above the group's last delivered identifier, from the lowest and no more than the limit; what the
  -- group is to have from then on is the rest of them, so none is skipped and none comes twice; each
  -- entry of the answer is pending with this consumer, delivered once, now, every other pending entry
  -- of the group is as before, and so is the rest of the stream.
  pub xreadgroup_new :
      (order : is_ordered st ≡ true) (only : id ≡ only_new)
      → (new : EntryMap) × (cg' : ConsumerGroup) × ((xreadgroup now group consumer
            ((key, id) ∷ [])
            count
            m).0
          ≡ with_batch key new (ok []))
        × (stream_view (live now key (xreadgroup now group consumer ((key, id) ∷ []) count m).1)
            ≡ some (with_group group cg' st))
        × (new ≡ take_count count (entries_after cg.last_delivered_id st.entries))
        × (new ++ entries_after cg'.last_delivered_id st.entries
            ≡ entries_after cg.last_delivered_id st.entries)
        × ((name : Bytes) (i : StreamId)
            → Map.get i (pending_of name cg'.consumers) ≡ (
                if same consumer name && among i (Map.keys new)
                then some (fresh now)
                else Map.get i (pending_of name cg.consumers)))
  xreadgroup_new order only =
      let new = new_entries count st cg in
      let cg' = deliver now consumer new cg in
      let (answer, seen) = read_one new cg' (ground arith) in
      (
        new,
        cg',
        answer,
        seen,
        refl,
        rw (deliver-last now consumer new cg) (rest_after count st cg (ground arith)),
        λ name i. get-deliver i name now consumer new cg,
      )

  -- XREADGROUP with an identifier on one key, with the group, where no identifier stands twice in what
  -- the consumer has pending: the identifiers that the consumer has pending from that one on (from the
  -- lowest where the text is none), in ascending order, up to the limit, give the answer, which holds
  -- the entries of those that are still in the stream, in ascending order; and the stream and its
  -- groups stay as they are.
  pub xreadgroup-history :
      (not_new : same id only_new ≡ false)
      → Distinct (pending_of consumer cg.consumers)
      → (ids : List StreamId) × (found_entries : EntryMap) × ((xreadgroup now group consumer
            ((key, id) ∷ [])
            count
            m).0
          ≡ with_batch key found_entries (ok []))
        × (stream_view (live now key (xreadgroup now group consumer ((key, id) ∷ []) count m).1)
            ≡ some (with_group group cg st))
        × (ids_ascend ids ≡ true)
        × ((i : StreamId)
            → among i ids ≡ (
                not (beyond i (lowest_or (parse_stream_id id)))
                && Map.contains_key i (pending_of consumer cg.consumers)))
        × (ids_ascend (Map.keys found_entries) ≡ true)
        × ((i : StreamId)
            → Map.get i found_entries
              ≡ (if among i (limited count ids) then Map.get i st.entries else none))
  unfolding pending_of
  xreadgroup-history not_new distinct =
      let c = Map.get consumer cg.consumers in
      let ids = pending_from (start_of id) (pending_of consumer cg.consumers) in
      let (ascend, exact) =
        pending_from_lem (start_of id) (pending_of consumer cg.consumers) distinct in
      let (answer, seen) = read_one (history (start_of id) count st c) cg (ground arith) in
      (
        ids,
        existing st.entries (limited count ids),
        answer ∙ ap (λ l. with_batch key l (ok [])) (history-existing (start_of id) count st c),
        seen,
        ascend,
        λ i.
            exact i
            ∙ ap (λ s. not (beyond i s) && Map.contains_key i (pending_of consumer cg.consumers))
                (start_of-lowest_or id),
        existing-ids_ascend st.entries (limited count ids) (limited-ids_ascend count ids ascend),
        λ i. get-existing st.entries i (limited count ids),
      )
