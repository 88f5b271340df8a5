-- ===== src/Streams/View.antt =====
-- The stream that a client finds under a key, and what the shapes of a command do to it.
use burner_redis.Prelude.{◌≡◌, refl, Option, none, some, [], arith, Option-cases, inl, inr}
use burner_redis.Prelude.Key.{bytes_key}
use burner_redis.Value.{
  Bytes, Instant, ValueEntry, Stream, stream, new_stream, Result, err, wrong_type,
}
use burner_redis.Store.{Data, upsert, update, read}
use burner_redis.Store.View.{live, live_or, upsert_lem, update_lem, read_lem, evict-live}
use burner_redis.Store.Effects.{upsert_seen, update_seen, upsert_unchanged, update_unchanged}
use burner_redis.Streams.{on_stream, on_stream_mut}

abbrev pub empty_stream : Stream
empty_stream = record { entries = []; last_id = (0, 0); groups = [] }

-- A missing key counts as an empty stream, and a key of another type has none.
abbrev pub stream_view : Option ValueEntry → Option Stream
stream_view none = some empty_stream
stream_view (some e) = elim e.value [ stream st ↦ some st | _ ↦ none ]

pub viewed_value :
    (o : Option ValueEntry) (st : Stream)
    → stream_view o ≡ some st
    → (live_or new_stream o).value ≡ stream st
viewed_value none st view = ground arith
viewed_value (some e) st view = ground arith

module _ (now : Instant) (key : Bytes) (m : Data) (st : Stream)
    (view : stream_view (live now key m) ≡ some st) where
  -- A command that creates a missing stream.
  pub upsert_stream :
      {A : Type 0} (g : Stream → Result A × Stream)
      → ((upsert now key new_stream (on_stream_mut g) m).0 ≡ (g st).0)
        × (stream_view (live now key (upsert now key new_stream (on_stream_mut g) m).1)
            ≡ some (g st).1)
  upsert_stream g =
      let value = viewed_value (live now key m) st view in
      (
        rw (upsert_lem, value) refl,
        rw (upsert_seen now key new_stream (on_stream_mut g) m refl, value) refl,
      )

  -- A command that answers for a missing stream as it does for an empty one.
  pub update_stream :
      {A : Type 0} (missing : Result A) (g : Stream → Result A × Stream)
      → g empty_stream ≡ (missing, empty_stream)
      → ((update now key missing (on_stream_mut g) m).0 ≡ (g st).0)
        × (stream_view (live now key (update now key missing (on_stream_mut g) m).1)
            ≡ some (g st).1)
  update_stream missing g nothing = (rw update_lem (ground arith), rw update_seen (ground arith))

  pub read_stream :
      {A : Type 0} (missing : Result A) (g : Stream → Result A)
      → g empty_stream ≡ missing
      → (read now key missing (on_stream g) m).0 ≡ g st
  read_stream missing g nothing = rw read_lem (ground arith)

-- A key of another type: such a command answers WRONGTYPE and changes nothing.
pub wrong_type_stream :
    {A : Type 0} (now : Instant) (key : Bytes) (m : Data) (missing : Result A)
    (g : Stream → Result A × Stream) (f : Stream → Result A)
    → stream_view (live now key m) ≡ none
    → (upsert now key new_stream (on_stream_mut g) m ≡ (err wrong_type, m))
      × (update now key missing (on_stream_mut g) m ≡ (err wrong_type, m))
      × (read now key missing (on_stream f) m ≡ (err wrong_type, m))
wrong_type_stream now key m missing g f view = elim (Option-cases (live now key m)) [
  | inl absent ↦ ground arith
  | inr (e, present) ↦ (
    rw (upsert_unchanged now key new_stream (on_stream_mut g) m present (ground arith))
        (ground arith),
    rw (update_unchanged now key missing (on_stream_mut g) m present (ground arith)) (ground arith),
    rw (read_lem, present, evict-live now key m present) (ground arith),
  )
]
