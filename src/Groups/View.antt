-- ===== src/Groups/View.antt =====
-- The shape of a command that changes one group, as a client sees it.
use burner_redis.Prelude.{◌≡◌, refl, ap, ◌∙◌, none, some, arith}
use burner_redis.Prelude.Key.{bytes_key}
use burner_redis.Map
use burner_redis.Map.Laws.{get-remove}
use burner_redis.Value.{Bytes, Instant, ValueData, Stream, ConsumerGroup, Result}
use burner_redis.Store.{Data, evict, update, write_entry, expired_at}
use burner_redis.Store.View.{live}
use burner_redis.Streams.{on_stream_mut}
use burner_redis.Streams.View.{stream_view, update_stream}
use burner_redis.Groups.{on_group_mut}

pub write_entry-evict :
    {A : Type 0} (now : Instant) (key : Bytes) (missing : Result A)
    (f : ValueData → Result A × ValueData) (m : Data)
    → write_entry key missing f (evict now key m) ≡ update now key missing f m
unfolding update write_entry evict expired_at
write_entry-evict now key missing f m = ground (arith, get-remove key key m)

-- The stream with a group replaced.
abbrev pub with_group : Bytes → ConsumerGroup → Stream → Stream
with_group group cg st = record st { groups = Map.insert group cg st.groups }

-- With the group, and without it.
pub on_group_mut_lem :
    {A : Type 0} (group : Bytes) (missing : Result A)
    (f : Stream → ConsumerGroup → Result A × ConsumerGroup) (st : Stream) (cg : ConsumerGroup)
    → Map.get group st.groups ≡ some cg
    → on_group_mut group missing f st ≡ ((f st cg).0, with_group group (f st cg).1 st)
on_group_mut_lem group missing f st cg found = rw (on_group_mut, found) refl

pub on_group_mut_absent :
    {A : Type 0} (group : Bytes) (missing : Result A)
    (f : Stream → ConsumerGroup → Result A × ConsumerGroup) (st : Stream)
    → Map.get group st.groups ≡ none
    → on_group_mut group missing f st ≡ (missing, st)
on_group_mut_absent group missing f st absent = rw (on_group_mut, absent) refl

module _ {A : Type 0} (now : Instant) (key group : Bytes) (m : Data) (st : Stream)
    (missing : Result A) (f : Stream → ConsumerGroup → Result A × ConsumerGroup)
    (view : stream_view (live now key m) ≡ some st) where
  pub update-group :
      (cg : ConsumerGroup)
      → Map.get group st.groups ≡ some cg
      → ((update now key missing (on_stream_mut (on_group_mut group missing f)) m).0 ≡ (f st cg).0)
        × (stream_view (
              live now key
                (update now key missing (on_stream_mut (on_group_mut group missing f)) m).1)
            ≡ some (with_group group (f st cg).1 st))
  unfolding Map.get
  update-group cg found =
      let (answer, seen) =
        update_stream now key m st view missing (on_group_mut group missing f) refl in
      (
        answer ∙ ap (λ p. p.0) (on_group_mut_lem group missing f st cg found),
        seen ∙ ap (λ p. some p.1) (on_group_mut_lem group missing f st cg found),
      )

  pub update_absent_group :
      Map.get group st.groups ≡ none
      → ((update now key missing (on_stream_mut (on_group_mut group missing f)) m).0 ≡ missing)
        × (stream_view (
              live now key
                (update now key missing (on_stream_mut (on_group_mut group missing f)) m).1)
            ≡ some st)
  unfolding Map.get
  update_absent_group absent =
      let (answer, seen) =
        update_stream now key m st view missing (on_group_mut group missing f) refl in
      (
        answer ∙ ap (λ p. p.0) (on_group_mut_absent group missing f st absent),
        seen ∙ ap (λ p. some p.1) (on_group_mut_absent group missing f st absent),
      )
