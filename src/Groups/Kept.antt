-- ===== src/Groups/Kept.antt =====
-- The commands on a stream keep the invariant: each of their steps does.
use burner_redis.Prelude.{
  ℕ, ◌+◌, ◌^◌, ◌≡◌, refl, sym, subst, ap, Bool, true, false, Option, none, some, List, [], ◌∷◌,
  arith, ltb, every, Bool-cases, inl, inr,
}
use burner_redis.Prelude.Key.{bytes_key, stream_id_key, same}
use burner_redis.Map
use burner_redis.Map.All.{insert-All, remove-All}
use burner_redis.Value.{
  Bytes, Instant, Duration, Stream, StreamId, ConsumerGroup, new_stream, Result, ok, err, no_group,
  key_not_found,
}
use burner_redis.Store.{Store, Data, update, upsert}
use burner_redis.Store.View.{live}
use burner_redis.Streams.{Batches, add_batch, xadd, append, on_stream_mut, trim, xdel_ids}
use burner_redis.Streams.Entries.{Fields, EntryMap}
use burner_redis.Streams.Order.{is_ordered}
use burner_redis.Streams.View.{stream_view}
use burner_redis.Streams.Append.{append-ordered, notify_stream-parts}
use burner_redis.Streams.Delete.{xdel_ids-ordered}
use burner_redis.Streams.Trim.{trim_lem, kept_of-ordered, kept_of}
use burner_redis.Groups.{
  xgroup_create, xreadgroup, read_member, create_group, destroy_group, ack_ids, on_group_mut,
  read_as_member, then_read, only_new, new_entries,
}
use burner_redis.Groups.Holders.{holders}
use burner_redis.Groups.Claim.{autoclaim, claim, ClaimOptions}
use burner_redis.Groups.Exclusive.{IsExclusive, ack_loop-Shrinks}
use burner_redis.Groups.Transfers.{autoclaim-Shrinks, claim_ids-Kept, may_force}
use burner_redis.Groups.Delivery.{new_entries-ordered, deliver-IsExclusive}
use burner_redis.Groups.View.{write_entry-evict}
use burner_redis.Groups.Sound.{
  SoundStream, SoundData, upsert-SoundData, update-SoundData, on_group_mut-SoundStream,
}
use burner_redis.Groups.Create.{xgroup_create-shape}

-- The last sequence number of the stream is not the greatest of 64 bits.
abbrev pub has_room : Option Stream → Bool
has_room none = true
has_room (some st) = ltb (st.last_id.1 + 1) (2 ^ 64)

append-SoundStream :
    (ms : ℕ) (fields : Fields) (id : Option StreamId) (st : Stream)
    → has_room (some st) ≡ true
    → SoundStream st
    → SoundStream (append ms fields id st).1
append-SoundStream ms fields id st room h =
    let (order, same_groups) = append-ordered ms fields id st room h.0 in
    (order, rw same_groups h.1)

pub trim-SoundStream :
    (max : Option ℕ) (min : Option StreamId) (st : Stream)
    → SoundStream st
    → SoundStream (trim max min st).1
trim-SoundStream max min st h =
    let (n, done, total) = trim_lem max min st (ground arith) in
    let left = ap (λ (p : Result ℕ × Stream). p.1) done in
    subst SoundStream {x = record st { entries = kept_of max min st.entries }}
      {y = (trim max min st).1} (sym left) (kept_of-ordered max min st h.0, h.1)

pub xdel_ids-SoundStream :
    (ids : List StreamId) (st : Stream) → SoundStream st → SoundStream (xdel_ids ids st).1
xdel_ids-SoundStream ids st h = (xdel_ids-ordered ids st h.0, h.1)

create_group-SoundStream :
    (group : Bytes) (id : StreamId) (st : Stream)
    → SoundStream st
    → SoundStream (create_group group id st).1
create_group-SoundStream group id st h = elim (Bool-cases (Map.contains_key group st.groups)) [
  | inl busy ↦ rw busy h
  | inr free ↦
      rw free
        (h.0, insert-All IsExclusive group _ st.groups (tt, λ i. unfold holders in omega arith) h.1)
]

pub destroy_group-SoundStream :
    (group : Bytes) (st : Stream) → SoundStream st → SoundStream (destroy_group group st).1
destroy_group-SoundStream group st h = (h.0, remove-All IsExclusive group st.groups h.1)

read_as_member-IsExclusive :
    (now : Instant) (consumer id : Bytes) (count : Option ℕ) (st : Stream) (cg : ConsumerGroup)
    → is_ordered st ≡ true
    → IsExclusive cg
    → IsExclusive (read_as_member now consumer id count st cg).1
read_as_member-IsExclusive now consumer id count st cg order h =
    elim (Bool-cases (same id only_new)) [
      | inl new ↦
          let (above, ascends) = new_entries-ordered count st cg (ground arith) in
          rw new (deliver-IsExclusive now consumer (new_entries count st cg) cg above ascends h)
      | inr pending ↦ rw pending h
    ]

pub ack_ids-IsExclusive :
    (ids : List StreamId) (st : Stream) (cg : ConsumerGroup)
    → IsExclusive cg
    → IsExclusive (ack_ids ids st cg).1
ack_ids-IsExclusive ids st cg h =
    let fewer = ack_loop-Shrinks ids 0 cg.consumers h.0 in
    (fewer.0, λ i. omega (arith, h.1 i, fewer.1 i))

pub autoclaim-IsExclusive :
    (now : Instant) (consumer : Bytes) (min_idle_ms : ℕ) (start : StreamId) (count : Option ℕ)
    (st : Stream) (cg : ConsumerGroup)
    → IsExclusive cg
    → IsExclusive (autoclaim now consumer min_idle_ms start count st cg).1
autoclaim-IsExclusive now consumer min_idle_ms start count st cg h =
    let moved = autoclaim-Shrinks now consumer min_idle_ms start count st cg h.0 in
    (moved.0, λ i. omega (arith, h.1 i, moved.1 i))

without_force :
    (o : ClaimOptions) (last : StreamId) (ids : List StreamId)
    → o.force ≡ false
    → every (may_force o last) ids ≡ true
without_force o last [] h = refl
without_force o last (i ∷ ids) h = ground (arith, without_force o last ids)

pub claim-IsExclusive :
    (earlier : Instant → Duration → Instant) (now : Instant) (consumer : Bytes) (o : ClaimOptions)
    (ids : List StreamId) (st : Stream) (cg : ConsumerGroup)
    → o.force ≡ false
    → IsExclusive cg
    → IsExclusive (claim earlier now consumer o ids st cg).1
claim-IsExclusive earlier now consumer o ids st cg plain h =
    claim_ids-Kept earlier now consumer o st.entries cg.last_delivered_id ids cg.consumers
      (without_force o cg.last_delivered_id ids plain) h

pub group-SoundData :
    {A : Type 0} (now : Instant) (key group : Bytes) (m : Data) (missing : Result A)
    (f : Stream → ConsumerGroup → Result A × ConsumerGroup)
    → SoundData m
    → ((st : Stream) (cg : ConsumerGroup)
        → is_ordered st ≡ true
        → IsExclusive cg
        → IsExclusive (f st cg).1)
    → SoundData (update now key missing (on_stream_mut (on_group_mut group missing f)) m).1
group-SoundData now key group m missing f h keeps =
    update-SoundData now key m (on_group_mut group missing f) h
      (λ st view s. on_group_mut-SoundStream group missing f st s (λ cg. keeps st cg s.0)) missing

read_member-SoundData :
    (now : Instant) (group consumer key id : Bytes) (count : Option ℕ) (m : Data)
    → SoundData m
    → SoundData (read_member now group consumer key id count m).1
unfolding read_member
read_member-SoundData now group consumer key id count m h =
    let missing = err (no_group group key) in
    let f = read_as_member now consumer id count in
    rw (write_entry-evict now key missing (on_stream_mut (on_group_mut group missing f)) m) (
      group-SoundData now key group m missing f h
        (read_as_member-IsExclusive now consumer id count))

add_batch-map :
    (key : Bytes) (entries : EntryMap) (r : Result Batches) (m : Data)
    → (add_batch key entries (r, m)).1 ≡ m
add_batch-map key entries (err e) m = refl
add_batch-map key [] (ok rest) m = refl
add_batch-map key (x ∷ l) (ok rest) m = refl

then_read-SoundData :
    (key : Bytes) (next : Data → Result Batches × Data) (r : Result EntryMap) (m : Data)
    → SoundData m
    → SoundData (next m).1
    → SoundData (then_read key next (r, m)).1
then_read-SoundData key next (err e) m h k = h
then_read-SoundData key next (ok entries) m h k =
    rw (add_batch-map key entries (next m).0 (next m).1) k

pub xreadgroup-SoundData :
    (now : Instant) (group consumer : Bytes) (requests : List (Bytes × Bytes)) (count : Option ℕ)
    (m : Data)
    → SoundData m
    → SoundData (xreadgroup now group consumer requests count m).1
unfolding xreadgroup
xreadgroup-SoundData now group consumer [] count m h = h
xreadgroup-SoundData now group consumer ((key, id) ∷ rest) count m h =
    let one = read_member now group consumer key id count m in
    let sound = read_member-SoundData now group consumer key id count m h in
    then_read-SoundData key (xreadgroup now group consumer rest count) one.0 one.1 sound
      (xreadgroup-SoundData now group consumer rest count one.1 sound)

pub xgroup_create-SoundData :
    (now : Instant) (key group : Bytes) (id : StreamId) (mkstream : Bool) (m : Data)
    → SoundData m
    → SoundData (xgroup_create now key group id mkstream m).1
xgroup_create-SoundData now key group id true m h =
    rw (xgroup_create-shape now key group id true m) (
      upsert-SoundData now key m (create_group group id) h
        (λ st view. create_group-SoundStream group id st))
xgroup_create-SoundData now key group id false m h =
    rw (xgroup_create-shape now key group id false m) (
      update-SoundData now key m (create_group group id) h
        (λ st view. create_group-SoundStream group id st) (err key_not_found))

pub xadd-SoundData :
    (now : Instant) (ms : ℕ) (key : Bytes) (fields : Fields) (id : Option StreamId) (s : Store)
    → has_room (stream_view (live now key s.data_map)) ≡ true
    → SoundData s.data_map
    → SoundData (xadd now ms key fields id s).1.data_map
unfolding xadd
xadd-SoundData now ms key fields id s room h =
    let u = upsert now key new_stream (on_stream_mut (append ms fields id)) s.data_map in
    rw ((notify_stream-parts s u.0 u.1).1) (
      upsert-SoundData now key s.data_map (append ms fields id) h
        (λ st view. append-SoundStream ms fields id st (ground arith)))
