-- ===== src/Lists/Transfer.antt =====
-- LMOVE and RPOPLPUSH, as a client sees them.
use burner_redis.Prelude.{
  ◌+◌, ◌≡◌, ◌≤◌, refl, ap, ◌∙◌, true, false, ◌&&◌, not, none, some, List, [], ◌∷◌, arith, ite,
}
use burner_redis.Prelude.Key.{bytes_key, bytes_discrete, same}
use burner_redis.Map
use burner_redis.Map.Laws.{get-insert, get-remove, insert-insert}
use burner_redis.Value.{Bytes, Instant, ValueEntry, list, new_list, ok, err, wrong_type}
use burner_redis.Store.{Store, Data, evict, or_insert}
use burner_redis.Store.View.{live, live_or, live-evict, get-evict}
use burner_redis.Store.Effects.{with_value}
use burner_redis.ListIndex.{ListEnd, left, right}
use burner_redis.Lists.Seq.{pop_end, push_end}
use burner_redis.Lists.Commands.{list_value}
use burner_redis.Lists.Move.{
  Source, elements, source_of, takes_element, push_entry, finish_push, move_element, move_popped,
  popped_source, evict_both, move_from, lmove_atomic,
}
use burner_redis.Lists.View.{list_view, kept_list}

get-evict_both :
    (now : Instant) (src dst j : Bytes) (m : Data)
    → Map.get j (evict_both now src dst m)
      ≡ ite
          (bytes_discrete src j)
          (live now src m)
          (ite (bytes_discrete dst j) (live now dst m) (Map.get j m))
unfolding live
get-evict_both now src dst j m =
    ground
      (arith, get-evict now src j m, get-evict now src dst m, get-evict now dst j (evict now src m))

live-evict_both :
    (now t : Instant) (src dst j : Bytes) (m : Data)
    → now ≤ t
    → live t j (evict_both now src dst m) ≡ live t j m
live-evict_both now t src dst j m h =
    ground (arith, live-evict now src t j m h, live-evict now dst t j (evict now src m) h)

push_entry_lem :
    (end : ListEnd) (key v : Bytes) (m : Data) (l : List Bytes)
    → list_view (Map.get key m) ≡ some l
    → push_entry end key v m ≡ (
      ok tt,
      Map.insert key
          (record (live_or new_list (Map.get key m)) { value = list (push_end end v l) })
          m,
    )
unfolding push_entry or_insert push_end
push_entry_lem end key v m l view = ground (
  arith,
  get-insert key key new_list m,
  insert-insert key (record new_list { value = list (push_end end v []) }) new_list m,
)

module _ (src dst : Bytes) (from to : ListEnd) (e : ValueEntry) (l rest d : List Bytes) (v : Bytes)
    (m : Data) (s : Store) (popped : pop_end from l ≡ (some v, rest)) where
  move_element_lem :
      list_view (Map.get dst (popped_source src dst e rest m)) ≡ some d
      → move_element src dst from to e l m s ≡ (
        ok (some v),
        record s {
          data_map =
              Map.insert dst
                (record (live_or new_list (Map.get dst (popped_source src dst e rest m))) {
                  value = list (push_end to v d);
                })
                (popped_source src dst e rest m);
          list_notify = s.list_notify + 1;
        },
      )
  unfolding move_element move_popped
  move_element_lem view =
      ap (move_popped src dst to e m s) popped
      ∙ ap (finish_push v s) (push_entry_lem to dst v (popped_source src dst e rest m) d view)

module _ (src dst : Bytes) (e : ValueEntry) (rest : List Bytes) (m : Data) where
  get-popped_source :
      same src dst ≡ false → Map.get dst (popped_source src dst e rest m) ≡ Map.get dst m
  get-popped_source apart = ground (
    arith,
    get-insert src dst (record e { value = list rest }) m,
    get-remove src dst (Map.insert src (record e { value = list rest }) m),
  )

  live-popped_source :
      (t : Instant) (j : Bytes)
      → same src dst ≡ false
      → live t j (popped_source src dst e rest m)
        ≡ ite (bytes_discrete src j) (kept_list t rest e) (live t j m)
  unfolding live
  live-popped_source t j apart = ground (
    arith,
    get-insert src j (record e { value = list rest }) m,
    get-remove src j (Map.insert src (record e { value = list rest }) m),
  )

source_of_popped :
    (from : ListEnd) (e : ValueEntry) (l rest : List Bytes) (v : Bytes)
    → list_value e.value ≡ some l
    → pop_end from l ≡ (some v, rest)
    → source_of (some e) ≡ elements e l
unfolding pop_end
source_of_popped left e [] rest v typed popped = ground arith
source_of_popped right e [] rest v typed popped = ground arith
source_of_popped from e (x ∷ l) rest v typed popped = rw typed refl

module _ (now : Instant) (src dst : Bytes) (from to : ListEnd) (s : Store) (e : ValueEntry)
    (l rest : List Bytes) (v : Bytes) (present : live now src s.data_map ≡ some e)
    (typed : list_value e.value ≡ some l) (popped : pop_end from l ≡ (some v, rest)) where
  evicted : Data
  evicted = evict_both now src dst s.data_map

  live-evicted : (t : Instant) (j : Bytes) → now ≤ t → live t j evicted ≡ live t j s.data_map
  unfolding evicted
  live-evicted t j later = live-evict_both now t src dst j s.data_map later

  source_found : source_of (Map.get src evicted) ≡ elements e l
  unfolding evicted
  source_found =
      ap source_of {y = some e} (ground (arith, get-evict_both now src dst src s.data_map))
      ∙ source_of_popped from e l rest v typed popped

  move_starts :
      not (same src dst) && not (takes_element (Map.get dst evicted)) ≡ false
      → lmove_atomic now src dst from to s ≡ move_element src dst from to e l evicted s
  unfolding lmove_atomic evicted
  move_starts free =
      ap (λ (z : Source). move_from src dst from to z (evict_both now src dst s.data_map) s)
        source_found
      ∙ (rw free refl)

  -- LMOVE from a live list that has an element to another key, with a list or nothing under it: it
  -- answers the element, the source is left without it, and goes when that empties it, the
  -- destination has it at its end, both keep their expiry, other keys are untouched, and the waiters
  -- are woken once.
  pub lmove_lem :
      (d : List Bytes) (t : Instant) (j : Bytes)
      → same src dst ≡ false
      → list_view (live now dst s.data_map) ≡ some d
      → now ≤ t
      → ((lmove_atomic now src dst from to s).0 ≡ ok (some v))
        × ((lmove_atomic now src dst from to s).1.list_notify ≡ s.list_notify + 1)
        × (live t j (lmove_atomic now src dst from to s).1.data_map
            ≡ ite
                (bytes_discrete dst j)
                (with_value t (list (push_end to v d)) (live_or new_list (live now dst s.data_map)))
                (ite (bytes_discrete src j) (kept_list t rest e) (live t j s.data_map)))
  unfolding live
  lmove_lem d t j apart view later =
      let found : Map.get dst evicted ≡ live now dst s.data_map =
        unfold evicted in ground (arith, get-evict_both now src dst dst s.data_map) in
      let taken : takes_element (Map.get dst evicted) ≡ true = ground (arith, found) in
      let kept = get-popped_source src dst e rest evicted apart in
      let stored = record (live_or new_list (Map.get dst (popped_source src dst e rest evicted))) {
        value = list (push_end to v d);
      } in
      rw
        (
          move_starts (ground (arith, taken)),
          move_element_lem src dst from to e l rest d v evicted s popped
              (ground (arith, kept, found)),
        )
        (
          refl,
          refl,
          ground (
            arith,
            get-insert dst j stored (popped_source src dst e rest evicted),
            live-popped_source src dst e rest evicted t j apart,
            live-evicted t j later,
            ap (live_or new_list) (kept ∙ found),
          ),
        )

  refused :
      not (same src dst) && not (takes_element (Map.get dst evicted)) ≡ true
      → lmove_atomic now src dst from to s ≡ (err wrong_type, record s { data_map = evicted })
  unfolding lmove_atomic evicted
  refused barred =
      ap (λ (z : Source). move_from src dst from to z (evict_both now src dst s.data_map) s)
        source_found
      ∙ (rw barred refl)

  -- LMOVE from a live list that has an element onto another key of another type: WRONGTYPE, with
  -- nothing popped, nothing changed in view and no waiter woken.
  pub lmove_wrong_destination :
      (t : Instant) (j : Bytes)
      → same src dst ≡ false
      → list_view (live now dst s.data_map) ≡ none
      → now ≤ t
      → ((lmove_atomic now src dst from to s).0 ≡ err wrong_type)
        × ((lmove_atomic now src dst from to s).1.list_notify ≡ s.list_notify)
        × (live t j (lmove_atomic now src dst from to s).1.data_map ≡ live t j s.data_map)
  lmove_wrong_destination t j apart view later =
      rw (refused (unfold evicted in ground (arith, get-evict_both now src dst dst s.data_map)))
        (refl, refl, live-evicted t j later)

-- LMOVE from a live list that has an element onto itself: the list is rotated in place, with its
-- expiry, even where it has one element only, other keys are untouched, and the waiters are woken
-- once.
pub lmove_rotates :
    (now : Instant) (key : Bytes) (from to : ListEnd) (s : Store) (e : ValueEntry)
    (l rest : List Bytes) (v : Bytes) (t : Instant) (j : Bytes)
    → live now key s.data_map ≡ some e
    → list_value e.value ≡ some l
    → pop_end from l ≡ (some v, rest)
    → now ≤ t
    → ((lmove_atomic now key key from to s).0 ≡ ok (some v))
      × ((lmove_atomic now key key from to s).1.list_notify ≡ s.list_notify + 1)
      × (live t j (lmove_atomic now key key from to s).1.data_map
          ≡ ite
              (bytes_discrete key j)
              (with_value t (list (push_end to v rest)) e)
              (live t j s.data_map))
unfolding live evicted
lmove_rotates now key from to s e l rest v t j present typed popped later =
    let m = evict_both now key key s.data_map in
    let e' = record e { value = list rest } in
    let src : popped_source key key e rest m ≡ Map.insert key e' m = ground arith in
    let found : Map.get key (popped_source key key e rest m) ≡ some e' =
      ground (arith, get-insert key key e' m) in
    rw
      (
        move_starts now key key from to s e l rest v present typed popped (ground arith),
        move_element_lem key key from to e l rest rest v m s popped (ground (arith, found)),
      )
      (
        refl,
        refl,
        ground (
          arith,
          get-insert key j
              (record (live_or new_list (Map.get key (popped_source key key e rest m))) {
                value = list (push_end to v rest);
              })
              (popped_source key key e rest m),
          get-insert key j e' m,
          ap (Map.get j) src,
          ap (live_or new_list) found,
          live-evict_both now t key key j s.data_map later,
        ),
      )
