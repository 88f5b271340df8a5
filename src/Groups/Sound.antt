-- ===== src/Groups/Sound.antt =====
-- The invariant of the streams of the key space, and the shapes of a command that keep it.
use burner_redis.Prelude.{
  ◌≡◌, refl, sym, subst, ap, ◌∙◌, true, none, some, arith, Option-cases, Bool-cases, inl, inr,
}
use burner_redis.Prelude.Key.{bytes_key, stream_id_key}
use burner_redis.Map
use burner_redis.Map.All.{All, All-get, insert-All, remove-All}
use burner_redis.Value.{
  Bytes, Instant, ValueData, ValueEntry, Stream, ConsumerGroup, string, hash, set, sorted_set, list,
  stream, new_stream, Result, err, wrong_type,
}
use burner_redis.Store.{Data, evict, update, upsert, expired_at}
use burner_redis.Store.View.{live, live_or, upsert_lem, update_lem, get_of_live}
use burner_redis.Streams.{on_stream_mut}
use burner_redis.Streams.View.{stream_view, viewed_value, empty_stream, wrong_type_stream}
use burner_redis.Streams.Order.{is_ordered}
use burner_redis.Groups.{on_group_mut}
use burner_redis.Groups.View.{on_group_mut_lem, on_group_mut_absent}
use burner_redis.Groups.Exclusive.{IsExclusive}

abbrev pub SoundStream : Stream → Type 0
SoundStream st = (is_ordered st ≡ true) × All IsExclusive st.groups

abbrev pub SoundValue : ValueData → Type 0
SoundValue (stream st) = SoundStream st
SoundValue _ = Unit

abbrev pub SoundEntry : ValueEntry → Type 0
SoundEntry e = SoundValue e.value

-- Every stream is in order, and in each of its groups an identifier is pending once at most, and not
-- before it is delivered.
abbrev pub SoundData : Data → Type 0
SoundData = All SoundEntry

pub evict-SoundData :
    (now : Instant) (key : Bytes) (m : Data) → SoundData m → SoundData (evict now key m)
unfolding evict
evict-SoundData now key m h = elim (Bool-cases (expired_at now key m)) [
  | inl expired ↦ rw expired (remove-All SoundEntry key m h)
  | inr there ↦ rw there h
]

live-SoundEntry :
    (now : Instant) (key : Bytes) (m : Data) (e : ValueEntry)
    → live now key m ≡ some e
    → SoundData m
    → SoundEntry e
live-SoundEntry now key m e present h = All-get SoundEntry key e m h (get_of_live now key m present)

value-SoundStream :
    (e : ValueEntry) (v : ValueData) (st : Stream)
    → stream_view (some (record e { value = v })) ≡ some st
    → SoundValue v
    → SoundStream st
value-SoundStream e (stream st') st view h = subst SoundStream {x = st'} {y = st} (ground arith) h
value-SoundStream e (string b) st view h = absurd (ground arith)
value-SoundStream e (hash f) st view h = absurd (ground arith)
value-SoundStream e (set s) st view h = absurd (ground arith)
value-SoundStream e (sorted_set z) st view h = absurd (ground arith)
value-SoundStream e (list l) st view h = absurd (ground arith)

pub view-SoundStream :
    (now : Instant) (key : Bytes) (m : Data) (st : Stream)
    → SoundData m
    → stream_view (live now key m) ≡ some st
    → SoundStream st
view-SoundStream now key m st h view = elim (Option-cases (live now key m)) [
  | inl absent ↦
      let nothing : stream_view none ≡ some st = rw absent at view in
      subst SoundStream {x = empty_stream} {y = st} (ground arith) (refl, tt)
  | inr (e, present) ↦
      let seen : stream_view (some e) ≡ some st = rw present at view in
      value-SoundStream e e.value st seen (live-SoundEntry now key m e present h)
]

module _ {A : Type 0} (now : Instant) (key : Bytes) (m : Data) (g : Stream → Result A × Stream)
    (sound : SoundData m)
    (keeps : (st : Stream)
      → stream_view (live now key m) ≡ some st
      → SoundStream st
      → SoundStream (g st).1) where
  left_sound :
      (e : ValueEntry) (st : Stream)
      → stream_view (live now key m) ≡ some st
      → e.value ≡ stream st
      → SoundEntry (record e { value = (on_stream_mut g e.value).1 })
  left_sound e st view h = rw h (keeps st view (view-SoundStream now key m st sound view))

  pub upsert-SoundData : SoundData (upsert now key new_stream (on_stream_mut g) m).1
  upsert-SoundData = elim (Option-cases (stream_view (live now key m))) [
    | inl other ↦
        rw ((wrong_type_stream now key m (err wrong_type) g (λ st. (g st).0) other).0) sound
    | inr (st, view) ↦ rw upsert_lem (
        insert-All SoundEntry key _ (evict now key m)
          (left_sound (live_or new_stream (live now key m)) st view
            (viewed_value (live now key m) st view))
          (evict-SoundData now key m sound))
  ]

  pub update-SoundData :
      (missing : Result A) → SoundData (update now key missing (on_stream_mut g) m).1
  update-SoundData missing = elim (Option-cases (stream_view (live now key m))) [
    | inl other ↦ rw ((wrong_type_stream now key m missing g (λ st. (g st).0) other).1) sound
    | inr (st, view) ↦ rw update_lem (elim (Option-cases (live now key m)) [
      | inl absent ↦ rw absent (evict-SoundData now key m sound)
      | inr (e, present) ↦ rw present (
          insert-All SoundEntry key _ m
            (left_sound e st view (
              ap (λ o. (live_or new_stream o).value) (sym present)
              ∙ viewed_value (live now key m) st view))
            sound)
    ])
  ]

-- A command that changes one group keeps the others.
pub on_group_mut-SoundStream :
    {A : Type 0} (group : Bytes) (missing : Result A)
    (f : Stream → ConsumerGroup → Result A × ConsumerGroup) (st : Stream)
    → SoundStream st
    → ((cg : ConsumerGroup) → IsExclusive cg → IsExclusive (f st cg).1)
    → SoundStream (on_group_mut group missing f st).1
on_group_mut-SoundStream group missing f st h keeps =
    elim (Option-cases (Map.get group st.groups)) [
      | inl absent ↦ rw (on_group_mut_absent group missing f st absent) h
      | inr (cg, found) ↦ rw (on_group_mut_lem group missing f st cg found) (
        h.0,
        insert-All IsExclusive group (f st cg).1 st.groups
            (keeps cg (All-get IsExclusive group cg st.groups h.1 found)) h.1,
      )
    ]
