-- ===== src/Streams/Delete.antt =====
-- XDEL, as a client sees it.
use burner_redis.Prelude.{
  ℕ, ◌+◌, ◌≡◌, refl, true, none, some, List, [], ◌∷◌, if◌then◌else◌, arith, length,
}
use burner_redis.Prelude.Key.{bytes_key, stream_id_key, among}
use burner_redis.Map
use burner_redis.Map.Laws.{
  Distinct, len-remove, get-remove, remove-Distinct, contains_key-get, is_some,
}
use burner_redis.Value.{Bytes, Instant, Stream, StreamId, ok}
use burner_redis.Store.{Data}
use burner_redis.Store.View.{live}
use burner_redis.Keys.{count_if}
use burner_redis.Streams.{xdel, xdel_loop, xdel_ids}
use burner_redis.Streams.Entries.{EntryMap}
use burner_redis.Streams.Order.{all_above, ascending, all_up_to, is_ordered}
use burner_redis.Streams.View.{stream_view, update_stream}
use burner_redis.Streams.Trim.{ascending-Distinct}

remove-all_above :
    (k i : StreamId) (l : EntryMap) → all_above i l ≡ true → all_above i (Map.remove k l) ≡ true
unfolding Map.remove
remove-all_above k i [] h = h
remove-all_above k i (e ∷ l) h = ground (arith, remove-all_above k i l)

remove-ascending :
    (k : StreamId) (l : EntryMap) → ascending l ≡ true → ascending (Map.remove k l) ≡ true
unfolding Map.remove
remove-ascending k [] h = h
remove-ascending k (e ∷ l) h = ground (arith, remove-ascending k l, remove-all_above k e.0 l)

remove-all_up_to :
    (k i : StreamId) (l : EntryMap) → all_up_to i l ≡ true → all_up_to i (Map.remove k l) ≡ true
unfolding Map.remove
remove-all_up_to k i [] h = h
remove-all_up_to k i (e ∷ l) h = ground (arith, remove-all_up_to k i l)

xdel_loop-ordered :
    (last : StreamId) (ids : List StreamId) (n : ℕ) (l : EntryMap)
    → ascending l ≡ true
    → all_up_to last l ≡ true
    → (ascending (xdel_loop ids n l).1 ≡ true) × (all_up_to last (xdel_loop ids n l).1 ≡ true)
unfolding xdel_loop
xdel_loop-ordered last [] n l h k = (h, k)
xdel_loop-ordered last (j ∷ ids) n l h k =
    xdel_loop-ordered last ids (n + count_if (is_some (Map.get j l))) (Map.remove j l)
      (remove-ascending j l h) (remove-all_up_to j last l k)

pub xdel_ids-ordered :
    (ids : List StreamId) (st : Stream)
    → is_ordered st ≡ true
    → is_ordered (xdel_ids ids st).1 ≡ true
xdel_ids-ordered ids st h =
    let (order, bound) =
      xdel_loop-ordered st.last_id ids 0 st.entries (ground arith) (ground arith) in
    ground arith

get-xdel_loop :
    (i : StreamId) (ids : List StreamId) (n : ℕ) (l : EntryMap)
    → Map.get i (xdel_loop ids n l).1 ≡ (if among i ids then none else Map.get i l)
unfolding xdel_loop
get-xdel_loop i [] n l = refl
get-xdel_loop i (j ∷ ids) n l = ground (
  arith,
  get-xdel_loop i ids (n + count_if (is_some (Map.get j l))) (Map.remove j l),
  get-remove j i l,
)

len-xdel_loop :
    (ids : List StreamId) (n : ℕ) (l : EntryMap)
    → Distinct l
    → (xdel_loop ids n l).0 + length (xdel_loop ids n l).1 ≡ n + length l
unfolding xdel_loop
len-xdel_loop [] n l d = refl
len-xdel_loop (j ∷ ids) n l d = ground (
  arith,
  len-xdel_loop ids (n + count_if (is_some (Map.get j l))) (Map.remove j l) (remove-Distinct j l d),
  len-remove j l d,
  contains_key-get j l,
)

xdel_nothing : (ids : List StreamId) → xdel_loop ids 0 [] ≡ (0, [])
unfolding xdel_loop Map.get Map.remove
xdel_nothing [] = refl
xdel_nothing (j ∷ ids) = xdel_nothing ids

-- XDEL on a stream in order, or a missing key: the named entries are gone and the others are as
-- before, the answer is the number by which they have become fewer, the last identifier and the groups
-- stay, and the stream is in order again.
pub xdel_lem :
    (now : Instant) (key : Bytes) (ids : List StreamId) (m : Data) (st : Stream)
    → stream_view (live now key m) ≡ some st
    → is_ordered st ≡ true
    → (n : ℕ) × (st' : Stream) × ((xdel now key ids m).0 ≡ ok n)
      × (stream_view (live now key (xdel now key ids m).1) ≡ some st')
      × ((i : StreamId)
          → Map.get i st'.entries ≡ (if among i ids then none else Map.get i st.entries))
      × (n + length st'.entries ≡ length st.entries)
      × (st'.last_id ≡ st.last_id)
      × (st'.groups ≡ st.groups)
      × (is_ordered st' ≡ true)
unfolding xdel
xdel_lem now key ids m st view order =
    let (answer, seen) =
      update_stream now key m st view (ok 0) (xdel_ids ids) (rw (xdel_nothing ids) refl) in
    (
      (xdel_loop ids 0 st.entries).0,
      (xdel_ids ids st).1,
      answer,
      seen,
      λ i. get-xdel_loop i ids 0 st.entries,
      omega (arith, len-xdel_loop ids 0 st.entries (ascending-Distinct st.entries (ground arith))),
      refl,
      refl,
      xdel_ids-ordered ids st order,
    )
