-- ===== src/Streams/Append.antt =====
-- XADD and XREAD, as a client sees them.
use burner_redis.Prelude.{
  ℕ, ◌+◌, ◌^◌, ◌⊎◌, ◌≡◌, ◌<◌, refl, true, false, [], ◌∷◌, ◌++◌, Option, none, some, ltb, arith,
  Bool-cases, inl, inr, ap, ◌∙◌,
}
use burner_redis.Prelude.Key.{bytes_key}
use burner_redis.Value.{Bytes, Instant, Stream, StreamId, new_stream, Result, ok, err, wrong_type}
use burner_redis.Store.{Store, Data, upsert}
use burner_redis.Store.View.{live}
use burner_redis.Streams.{on_stream_mut, append, append_as, next_stream_id, notify_stream, xadd}
use burner_redis.Streams.Id.{id_ltb}
use burner_redis.Streams.Entries.{Fields, insert_entry}
use burner_redis.Streams.View.{stream_view, upsert_stream}
use burner_redis.Streams.Order.{
  is_ordered, ascending, all_up_to, insert_entry_above, ascending-snoc, all_up_to-snoc,
}

-- The identifier that is given is above the last one, unless the sequence number is the greatest.
next_stream_id-above :
    (ms : ℕ) (last : StreamId)
    → last.1 + 1 < 2 ^ 64
    → (i : StreamId) × (next_stream_id ms none last ≡ ok i) × (id_ltb last i ≡ true)
unfolding next_stream_id
next_stream_id-above ms (a, b) h = elim (Bool-cases (ltb a ms)) [
  | inl later ↦ ((ms, 0), rw later refl, ground arith)
  | inr same_time ↦ ((a, b + 1), ground arith, ground arith)
]

-- What a client has after an entry was appended.
pub record Appended (i : StreamId) (fields : Fields) (st st' : Stream) : Type 0 where
  pub above : id_ltb st.last_id i ≡ true
  pub appended : st'.entries ≡ st.entries ++ (i, fields) ∷ []
  pub last : st'.last_id ≡ i
  pub same_groups : st'.groups ≡ st.groups
  pub ordered : is_ordered st' ≡ true

-- The stream after an entry.
abbrev pub with_entry : StreamId → Fields → Stream → Stream
with_entry i fields st = record st { entries = insert_entry i fields st.entries; last_id = i }

with_entry-Appended :
    (i : StreamId) (fields : Fields) (st : Stream)
    → is_ordered st ≡ true
    → id_ltb st.last_id i ≡ true
    → Appended i fields st (with_entry i fields st)
with_entry-Appended i fields st order above =
    let ascends : ascending st.entries ≡ true = ground arith in
    let below : all_up_to st.last_id st.entries ≡ true = ground arith in
    let placed = insert_entry_above st.last_id i fields st.entries below above in
    record {
      above = above;
      appended = placed;
      last = refl;
      same_groups = refl;
      ordered = rw placed (
          ground (
            arith,
            ascending-snoc st.last_id i fields st.entries,
            all_up_to-snoc st.last_id i fields st.entries,
          ));
    }

-- An entry is appended and the waiters are woken once.
abbrev pub XaddAppends :
    Instant → ℕ → Bytes → Fields → Option StreamId → Store → Stream → StreamId → Stream → Type 0
XaddAppends now ms key fields id s st i st' =
    ((xadd now ms key fields id s).0 ≡ ok i)
    × (stream_view (live now key (xadd now ms key fields id s).1.data_map) ≡ some st')
    × Appended i fields st st'
    × ((xadd now ms key fields id s).1.stream_notify ≡ s.stream_notify + 1)

pub notify_stream-parts :
    {A : Type 0} (s : Store) (r : Result A) (m : Data)
    → ((notify_stream s (r, m)).0 ≡ r) × ((notify_stream s (r, m)).1.data_map ≡ m)
notify_stream-parts s (ok a) m = (refl, refl)
notify_stream-parts s (err e) m = (refl, refl)

notify_stream-woken :
    {A : Type 0} (s : Store) (r : Result A) (m : Data) {a : A}
    → r ≡ ok a
    → (notify_stream s (r, m)).1.stream_notify ≡ s.stream_notify + 1
notify_stream-woken s r m h = rw h refl

append_as_lem :
    (ms : ℕ) (fields : Fields) (id : Option StreamId) (st : Stream) (r : Result StreamId)
    → next_stream_id ms id st.last_id ≡ r
    → append ms fields id st ≡ append_as fields st r
append_as_lem ms fields id st r h = ap (append_as fields st) h

append_as-answer :
    (fields : Fields) (st : Stream) (r : Result StreamId) → (append_as fields st r).0 ≡ r
append_as-answer fields st (ok i) = refl
append_as-answer fields st (err e) = refl

-- Appending keeps the order and the groups, where there is room for another entry.
pub append-ordered :
    (ms : ℕ) (fields : Fields) (id : Option StreamId) (st : Stream)
    → ltb (st.last_id.1 + 1) (2 ^ 64) ≡ true
    → is_ordered st ≡ true
    → (is_ordered (append ms fields id st).1 ≡ true)
      × ((append ms fields id st).1.groups ≡ st.groups)
unfolding next_stream_id
append-ordered ms fields none st room order =
    let (i, given, above) = next_stream_id-above ms st.last_id (ground arith) in
    rw (append_as_lem ms fields none st (ok i) given)
      ((with_entry-Appended i fields st order above).ordered, refl)
append-ordered ms fields (some i) st room order = elim (Bool-cases (id_ltb st.last_id i)) [
  | inl above ↦
      rw (append_as_lem ms fields (some i) st (ok i) (ground arith))
        ((with_entry-Appended i fields st order above).ordered, refl)
  | inr below ↦
      rw (append_as_lem ms fields (some i) st (err wrong_type) (ground arith)) (order, refl)
]

module _ (now : Instant) (ms : ℕ) (key : Bytes) (fields : Fields) (id : Option StreamId) (s : Store)
    (st : Stream) (view : stream_view (live now key s.data_map) ≡ some st) where
  -- What XADD does, from the identifier that it gives.
  xadd_given :
      (r : Result StreamId)
      → next_stream_id ms id st.last_id ≡ r
      → ((xadd now ms key fields id s).0 ≡ r)
        × (stream_view (live now key (xadd now ms key fields id s).1.data_map)
            ≡ some (append_as fields st r).1)
        × ((i : StreamId)
            → r ≡ ok i
            → (xadd now ms key fields id s).1.stream_notify ≡ s.stream_notify + 1)
  unfolding xadd
  xadd_given r given =
      let u = upsert now key new_stream (on_stream_mut (append ms fields id)) s.data_map in
      let (answer, seen) = upsert_stream now key s.data_map st view (append ms fields id) in
      let answer' : u.0 ≡ r =
        answer
        ∙ ap (λ p. p.0) (append_as_lem ms fields id st r given)
        ∙ append_as-answer fields st r in
      (
        (notify_stream-parts s u.0 u.1).0 ∙ answer',
        ap (λ m'. stream_view (live now key m')) (notify_stream-parts s u.0 u.1).1
            ∙ seen
            ∙ ap (λ p. some p.1) (append_as_lem ms fields id st r given),
        λ i h. notify_stream-woken s u.0 u.1 (answer' ∙ h),
      )

  xadd_above :
      (i : StreamId)
      → is_ordered st ≡ true
      → next_stream_id ms id st.last_id ≡ ok i
      → id_ltb st.last_id i ≡ true
      → XaddAppends now ms key fields id s st i (with_entry i fields st)
  xadd_above i order given above =
      let (answer, seen, woken) = xadd_given (ok i) given in
      (answer, seen, with_entry-Appended i fields st order above, woken i refl)

module _ (now : Instant) (ms : ℕ) (key : Bytes) (fields : Fields) (s : Store) (st : Stream) where
  -- XADD without an identifier, on a stream in order or a missing key, where the last sequence number
  -- is not the greatest of 64 bits: the answer is an identifier above the last one, the entry is added
  -- behind the others under it, it is the last one from then on, the groups are the same, the stream
  -- is in order again, and the waiters are woken once.
  pub xadd_lem :
      stream_view (live now key s.data_map) ≡ some st
      → is_ordered st ≡ true
      → st.last_id.1 + 1 < 2 ^ 64
      → (i : StreamId) × (st' : Stream) × XaddAppends now ms key fields none s st i st'
  xadd_lem view order room =
      let (i, given, above) = next_stream_id-above ms st.last_id room in
      (i, with_entry i fields st, xadd_above now ms key fields none s st view i order given above)

  -- XADD with an identifier, on a stream in order or a missing key: either it is above the last one,
  -- and is taken as XADD takes the one that it makes, or it is not, the answer is WRONGTYPE and the
  -- stream stays as it was.
  pub xadd_explicit :
      (id : StreamId)
      → stream_view (live now key s.data_map) ≡ some st
      → is_ordered st ≡ true
      → ((st' : Stream) × XaddAppends now ms key fields (some id) s st id st')
        ⊎ ((id_ltb st.last_id id ≡ false)
            × ((xadd now ms key fields (some id) s).0 ≡ err wrong_type)
            × (stream_view (live now key (xadd now ms key fields (some id) s).1.data_map)
                ≡ some st))
  unfolding next_stream_id
  xadd_explicit id view order = elim (Bool-cases (id_ltb st.last_id id)) [
    | inl above ↦ inl (
      with_entry id fields st,
      xadd_above now ms key fields (some id) s st view id order (ground arith) above,
    )
    | inr below ↦
        let (answer, seen, woken) =
          xadd_given now ms key fields (some id) s st view (err wrong_type) (ground arith) in
        inr (below, answer, seen)
  ]
