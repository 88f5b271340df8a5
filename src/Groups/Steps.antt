-- ===== src/Groups/Steps.antt =====
-- The stream commands as steps of the key space, and the key spaces that they reach.
use burner_redis.Prelude.{ℕ, ◌≡◌, Bool, true, false, Option, List, []}
use burner_redis.Prelude.Key.{bytes_key, stream_id_key}
use burner_redis.Value.{Bytes, Instant, Duration, StreamId, ok, err, no_group}
use burner_redis.Store.{Store, Data, evict}
use burner_redis.Store.View.{live}
use burner_redis.Streams.{xadd, xtrim, xdel, trim, xdel_ids}
use burner_redis.Streams.Entries.{Fields}
use burner_redis.Streams.View.{stream_view}
use burner_redis.Groups.{xgroup_create, xgroup_destroy, xreadgroup, xack, destroy_group, ack_ids}
use burner_redis.Groups.Claim.{xautoclaim, xclaim, autoclaim, claim, ClaimOptions}
use burner_redis.Groups.Sound.{SoundData, evict-SoundData, update-SoundData}
use burner_redis.Groups.Kept.{
  has_room, trim-SoundStream, xdel_ids-SoundStream, destroy_group-SoundStream, ack_ids-IsExclusive,
  autoclaim-IsExclusive, claim-IsExclusive, group-SoundData, xreadgroup-SoundData,
  xgroup_create-SoundData, xadd-SoundData,
}

-- The commands that change a stream, at any time and with any arguments: XADD where there is room
-- for another entry at the same millisecond, and XCLAIM without FORCE.
pub data StreamStep : Data → Data → Type 0 where
  expired : (now : Instant) (key : Bytes) (m : Data) → StreamStep m (evict now key m)
  added :
      (now : Instant) (ms : ℕ) (key : Bytes) (fields : Fields) (id : Option StreamId) (s : Store)
      → has_room (stream_view (live now key s.data_map)) ≡ true
      → StreamStep s.data_map (xadd now ms key fields id s).1.data_map
  trimmed :
      (now : Instant) (key : Bytes) (max : Option ℕ) (min : Option StreamId) (m : Data)
      → StreamStep m (xtrim now key max min m).1
  deleted :
      (now : Instant) (key : Bytes) (ids : List StreamId) (m : Data)
      → StreamStep m (xdel now key ids m).1
  created :
      (now : Instant) (key group : Bytes) (id : StreamId) (mkstream : Bool) (m : Data)
      → StreamStep m (xgroup_create now key group id mkstream m).1
  destroyed :
      (now : Instant) (key group : Bytes) (m : Data)
      → StreamStep m (xgroup_destroy now key group m).1
  delivered :
      (now : Instant) (group consumer : Bytes) (requests : List (Bytes × Bytes)) (count : Option ℕ)
      (m : Data)
      → StreamStep m (xreadgroup now group consumer requests count m).1
  acked :
      (now : Instant) (key group : Bytes) (ids : List StreamId) (m : Data)
      → StreamStep m (xack now key group ids m).1
  autoclaimed :
      (now : Instant) (key group consumer : Bytes) (min_idle_ms : ℕ) (start : StreamId)
      (count : Option ℕ) (m : Data)
      → StreamStep m (xautoclaim now key group consumer min_idle_ms start count m).1
  claimed :
      (earlier : Instant → Duration → Instant) (now : Instant) (key group consumer : Bytes)
      (o : ClaimOptions) (ids : List StreamId) (m : Data)
      → o.force ≡ false
      → StreamStep m (xclaim earlier now key group consumer o ids m).1

-- The key spaces that the commands reach from the empty one.
pub data Reached : Data → Type 0 where
  at_start : Reached []
  after : {m m' : Data} → Reached m → StreamStep m m' → Reached m'

-- A step keeps the invariant.
step-SoundData : {m m' : Data} → StreamStep m m' → SoundData m → SoundData m'
unfolding xtrim xdel xgroup_destroy xack xautoclaim xclaim
step-SoundData (expired now key m) h = evict-SoundData now key m h
step-SoundData (added now ms key fields id s room) h = xadd-SoundData now ms key fields id s room h
step-SoundData (trimmed now key max min m) h =
    update-SoundData now key m (trim max min) h (λ st view. trim-SoundStream max min st) (ok 0)
step-SoundData (deleted now key ids m) h =
    update-SoundData now key m (xdel_ids ids) h (λ st view. xdel_ids-SoundStream ids st) (ok 0)
step-SoundData (created now key group id mkstream m) h =
    xgroup_create-SoundData now key group id mkstream m h
step-SoundData (destroyed now key group m) h =
    update-SoundData now key m (destroy_group group) h
      (λ st view. destroy_group-SoundStream group st) (ok false)
step-SoundData (delivered now group consumer requests count m) h =
    xreadgroup-SoundData now group consumer requests count m h
step-SoundData (acked now key group ids m) h =
    group-SoundData now key group m (ok 0) (ack_ids ids) h
      (λ st cg order. ack_ids-IsExclusive ids st cg)
step-SoundData (autoclaimed now key group consumer min_idle_ms start count m) h =
    group-SoundData now key group m (err (no_group group key))
      (autoclaim now consumer min_idle_ms start count) h
      (λ st cg order. autoclaim-IsExclusive now consumer min_idle_ms start count st cg)
step-SoundData (claimed earlier now key group consumer o ids m plain) h =
    group-SoundData now key group m (err (no_group group key)) (claim earlier now consumer o ids) h
      (λ st cg order. claim-IsExclusive earlier now consumer o ids st cg plain)

-- In every key space that the stream commands reach, each stream has its entries in strictly ascending
-- order and none above its last identifier; and in each of its groups no consumer stands twice, an
-- identifier is pending with one consumer at most, and with none if the group has not been served up
-- to it. The commands are XADD where the last sequence number is not the greatest, XTRIM, XDEL, XGROUP
-- CREATE and DESTROY, XREADGROUP, XACK, XAUTOCLAIM and XCLAIM without FORCE, and passive expiration.
pub Reached-SoundData : (m : Data) → Reached m → SoundData m
Reached-SoundData m at_start = tt
Reached-SoundData m (after before step) = step-SoundData step (Reached-SoundData _ before)
