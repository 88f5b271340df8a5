-- ===== src/Streams/Reading.antt =====
-- XREAD, as a client sees it.
use burner_redis.Prelude.{
  ℕ, zero, suc, ◌+◌, ◌^◌, ◌≡◌, ◌<◌, refl, sym, true, List, [], ◌∷◌, Option, none, some, arith, ◌∙◌,
  ap, Bool, ◌||◌, ◌&&◌, ◌==◌, ltb, if◌then◌else◌,
}
use burner_redis.Prelude.Key.{bytes_key}
use burner_redis.Map
use burner_redis.Value.{
  Bytes, Instant, ValueData, ValueEntry, Stream, StreamId, stream, Result, ok, err, wrong_type,
}
use burner_redis.Store.{Store, Data, evict}
use burner_redis.Store.View.{live, live-evict, get-evict}
use burner_redis.Streams.{Batches, add_batch, read_found, xadd, xread}
use burner_redis.Streams.Entries.{Fields, EntryMap, entries_after, take_count}
use burner_redis.Streams.View.{stream_view}
use burner_redis.Streams.Order.{is_ordered, all_up_to, entries_after-snoc}
use burner_redis.Streams.Append.{xadd_lem}

-- The entries of a stream behind the others, if it has some.
abbrev pub with_batch : Bytes → EntryMap → Result Batches → Result Batches
with_batch key entries (err e) = err e
with_batch key [] (ok rest) = ok rest
with_batch key (x ∷ l) (ok rest) = ok ((key, x ∷ l) ∷ rest)

-- Is the second identifier above the first: later, or in the same millisecond with a greater number?
abbrev pub beyond : StreamId → StreamId → Bool
beyond (ms, seq) (ms', seq') = ltb ms ms' || (ms == ms' && ltb seq seq')

-- The entries above an identifier, in the order in which they stand.
abbrev pub above : StreamId → EntryMap → EntryMap
above start [] = []
above start (e ∷ l) = if beyond start e.0 then e ∷ above start l else above start l

-- The elements of a list up to a limit, from the first.
abbrev pub limited : {A : Type 0} → Option ℕ → List A → List A
limited none l = l
limited (some n) [] = []
limited (some zero) (x ∷ l) = []
limited (some (suc n)) (x ∷ l) = x ∷ limited (some n) l

entries_after-above : (start : StreamId) (l : EntryMap) → entries_after start l ≡ above start l
unfolding entries_after
entries_after-above start [] = refl
entries_after-above start (e ∷ l) = ground (arith, entries_after-above start l)

pub take_count-limited :
    {A : Type 0} (count : Option ℕ) (l : List A) → take_count count l ≡ limited count l
take_count-limited none l = refl
take_count-limited (some zero) [] = refl
take_count-limited (some (suc n)) [] = refl
take_count-limited (some zero) (x ∷ l) = refl
take_count-limited (some (suc n)) (x ∷ l) = ap (λ t. x ∷ t) (take_count-limited (some n) l)

-- What a read of a stream finds.
pub take_count-entries_after :
    (count : Option ℕ) (start : StreamId) (l : EntryMap)
    → take_count count (entries_after start l) ≡ limited count (above start l)
take_count-entries_after count start l =
    take_count-limited count (entries_after start l)
    ∙ ap (limited count) (entries_after-above start l)

abbrev pub read_view : Bytes → StreamId → Option ℕ → Result Batches → Option Stream → Result Batches
read_view key start count rest none = err wrong_type
read_view key start count rest (some st) =
    with_batch key (limited count (above start st.entries)) rest

-- What the streams hold that a client finds, read as they are when the command begins.
abbrev pub read_each : Instant → List (Bytes × StreamId) → Option ℕ → Data → Result Batches
read_each now [] count m = ok []
read_each now ((key, start) ∷ rest) count m =
    read_view key start count (read_each now rest count m) (stream_view (live now key m))

read_each-evict :
    (now : Instant) (key : Bytes) (requests : List (Bytes × StreamId)) (count : Option ℕ) (m : Data)
    → read_each now requests count (evict now key m) ≡ read_each now requests count m
read_each-evict now key [] count m = refl
read_each-evict now key ((j, start) ∷ rest) count m =
    rw (read_each-evict now key rest count m, live-evict now key now j m (omega arith)) refl

pub add_batch-answer :
    (key : Bytes) (entries : EntryMap) (r : Result Batches) (m : Data)
    → (add_batch key entries (r, m)).0 ≡ with_batch key entries r
add_batch-answer key entries (err e) m = refl
add_batch-answer key [] (ok rest) m = refl
add_batch-answer key (x ∷ l) (ok rest) m = refl

with_batch_empty :
    (key : Bytes) (count : Option ℕ) (r : Result Batches)
    → with_batch key (limited {A = StreamId × Fields} count []) r ≡ r
with_batch_empty key none (ok l) = refl
with_batch_empty key none (err e) = refl
with_batch_empty key (some n) (ok l) = refl
with_batch_empty key (some n) (err e) = refl

read_found-answer :
    (key : Bytes) (start : StreamId) (count : Option ℕ) (m : Data) (next : Result Batches × Data)
    (found : Option ValueEntry)
    → (read_found key start count m next found).0
      ≡ read_view key start count next.0 (stream_view found)
unfolding entries_after
read_found-answer key start count m next none = sym (with_batch_empty key count next.0)
read_found-answer key start count m next (some e) = read_value e.value
  where
    read_value :
        (v : ValueData)
        → (read_found key start count m next (some (record e { value = v }))).0
          ≡ read_view key start count next.0 (stream_view (some (record e { value = v })))
    read_value (stream st) =
        add_batch-answer key (take_count count (entries_after start st.entries)) next.0 next.1
        ∙ ap (λ l. with_batch key l next.0) (take_count-entries_after count start st.entries)
    read_value _ = refl

-- XREAD answers as if it read every stream at once, at the time of the command: the entries of each
-- that lie above the identifier asked for, no more than the limit, the streams without any left out,
-- and WRONGTYPE if a key before the end holds another type.
pub xread_lem :
    (now : Instant) (requests : List (Bytes × StreamId)) (count : Option ℕ) (m : Data)
    → (xread now requests count m).0 ≡ read_each now requests count m
unfolding xread
xread_lem now [] count m = refl
xread_lem now ((key, start) ∷ rest) count m =
    let m' = evict now key m in
    let found : Map.get key m' ≡ live now key m = rw (get-evict now key key m) (ground arith) in
    read_found-answer key start count m' (xread now rest count m') (Map.get key m')
    ∙ rw (found, xread_lem now rest count (evict now key m), read_each-evict now key rest count m)
        refl

-- XREAD of one key above the last identifier, right after XADD made a new one there, under the
-- conditions of XADD: the answer is the new entry and no other.
pub xread-xadd :
    (now : Instant) (ms : ℕ) (key : Bytes) (fields : Fields) (s : Store) (st : Stream)
    → stream_view (live now key s.data_map) ≡ some st
    → is_ordered st ≡ true
    → st.last_id.1 + 1 < 2 ^ 64
    → (i : StreamId) × ((xadd now ms key fields none s).0 ≡ ok i)
      × ((xread now ((key, st.last_id) ∷ []) none (xadd now ms key fields none s).1.data_map).0
          ≡ ok ((key, (i, fields) ∷ []) ∷ []))
xread-xadd now ms key fields s st view order room =
    let (i, st', added) = xadd_lem now ms key fields s st view order room in
    let below : all_up_to st.last_id st.entries ≡ true = ground arith in
    let new : above st.last_id st'.entries ≡ (i, fields) ∷ [] =
      sym (entries_after-above st.last_id st'.entries)
      ∙ (rw (added.2.appended)
          (entries_after-snoc st.last_id i fields st.entries below added.2.above)) in
    (
      i,
      added.0,
      xread_lem now ((key, st.last_id) ∷ []) none (xadd now ms key fields none s).1.data_map
          ∙ rw (added.1, new) refl,
    )
