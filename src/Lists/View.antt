-- ===== src/Lists/View.antt =====
-- The list that a client finds under a key, and what the writes of the list commands make of it.
use burner_redis.Prelude.{
  ℕ, ◌+◌, ◌≡◌, refl, ap, ◌∙◌, Option, none, some, List, [], ◌∷◌, ◌++◌, arith, ite, if◌then◌else◌,
  is_empty, length, reverse,
}
use burner_redis.Prelude.Key.{bytes_key, bytes_discrete}
use burner_redis.Map
use burner_redis.Map.Laws.{get-insert, get-remove}
use burner_redis.Value.{Bytes, Instant, ValueEntry, list, new_list, Result, ok, err}
use burner_redis.Store.{Store, Data, upsert}
use burner_redis.Store.View.{live, upsert_lem, get-evict, evict-live, get_of_live}
use burner_redis.Store.Effects.{with_value, upsert_seen}
use burner_redis.ListIndex.{ListEnd, left, right}
use burner_redis.Lists.Seq.{push_all}
use burner_redis.Lists.Laws.{length-push_all, push_all_left, push_all_right}
use burner_redis.Lists.Commands.{
  list_value, on_list_mut, push_values, notify_list, lpush, rpush, pop_key, pop_entry,
  drop_empty_list, nil,
}

-- A missing key counts as an empty list, and a key of another type has none.
abbrev pub list_view : Option ValueEntry → Option (List Bytes)
list_view none = some []
list_view (some e) = list_value e.value

-- What a client sees of an entry that is dropped with its last element.
abbrev pub kept_list : Instant → List Bytes → ValueEntry → Option ValueEntry
kept_list t l e = if is_empty l then none else with_value t (list l) e

module _ (t : Instant) (key j : Bytes) where
  pub live-drop_empty_list :
      (e : ValueEntry) (l : List Bytes) (m : Data)
      → live t j (drop_empty_list key (Map.insert key (record e { value = list l }) m))
        ≡ ite (bytes_discrete key j) (kept_list t l e) (live t j m)
  unfolding drop_empty_list live
  live-drop_empty_list e l m = ground (
    arith,
    get-insert key key (record e { value = list l }) m,
    get-insert key j (record e { value = list l }) m,
    get-remove key j (Map.insert key (record e { value = list l }) m),
  )

-- LPOP and RPOP on a live list.
pub pop_key-live :
    (end : ListEnd) (now : Instant) (key : Bytes) (n : Option ℕ) (m : Data) {e : ValueEntry}
    (l : List Bytes)
    → live now key m ≡ some e
    → list_value e.value ≡ some l
    → pop_key end now key n m ≡ pop_entry end key n e l m
unfolding pop_key
pop_key-live end now key n m l present typed =
    rw (evict-live now key m present, get_of_live now key m present) (ground arith)

pub pop_key_missing :
    (end : ListEnd) (now : Instant) (key : Bytes) (n : Option ℕ) (m : Data)
    → live now key m ≡ none
    → (pop_key end now key n m).0 ≡ ok nil
unfolding pop_key
pop_key_missing end now key n m absent = ground (arith, get-evict now key key m)

notify_list_ok :
    {A : Type 0} (s : Store) (r : Result A × Data) (a : A)
    → r.0 ≡ ok a
    → notify_list s r ≡ (ok a, record s { data_map = r.1; list_notify = s.list_notify + 1 })
notify_list_ok s (ok b, m) a h = ground arith
notify_list_ok s (err e, m) a h = cc

module _ (end : ListEnd) (now : Instant) (key : Bytes) (values : List Bytes) (s : Store)
    (l : List Bytes) (view : list_view (live now key s.data_map) ≡ some l) where
  push_data : Result ℕ × Data
  push_data = upsert now key new_list (on_list_mut (push_values end values)) s.data_map

  push_answer : push_data.0 ≡ ok (length values + length l)
  unfolding push_data
  push_answer = rw upsert_lem (ground (arith, length-push_all end values l))

  push_view : list_view (live now key push_data.1) ≡ some (push_all end values l)
  unfolding push_data
  push_view =
      rw (upsert_seen now key new_list (on_list_mut (push_values end values)) s.data_map refl)
        (ground arith)

  -- The values are pushed, the answer is the new length, and the waiters are woken once.
  push_lem :
      ((notify_list s push_data).0 ≡ ok (length values + length l))
      × (list_view (live now key (notify_list s push_data).1.data_map)
          ≡ some (push_all end values l))
      × ((notify_list s push_data).1.list_notify ≡ s.list_notify + 1)
  push_lem =
      rw (notify_list_ok s push_data (length values + length l) push_answer) (refl, push_view, refl)

module _ (now : Instant) (key : Bytes) (v : Bytes) (values : List Bytes) (s : Store)
    (l : List Bytes) (view : list_view (live now key s.data_map) ≡ some l) where
  -- LPUSH of at least one value on a list or a missing key: the values stand in front, the last one
  -- first, the answer is the new length, and the waiters are woken once.
  pub lpush_lem :
      ((lpush now key (v ∷ values) s).0 ≡ ok (length (v ∷ values) + length l))
      × (list_view (live now key (lpush now key (v ∷ values) s).1.data_map)
          ≡ some (reverse (v ∷ values) ++ l))
      × ((lpush now key (v ∷ values) s).1.list_notify ≡ s.list_notify + 1)
  unfolding lpush push_data
  lpush_lem =
      let (a, b, c) = push_lem left now key (v ∷ values) s l view in
      (a, b ∙ ap some (push_all_left (v ∷ values) l), c)

  -- RPUSH of at least one value on a list or a missing key: the values stand behind, in their
  -- order, the answer is the new length, and the waiters are woken once.
  pub rpush_lem :
      ((rpush now key (v ∷ values) s).0 ≡ ok (length (v ∷ values) + length l))
      × (list_view (live now key (rpush now key (v ∷ values) s).1.data_map)
          ≡ some (l ++ v ∷ values))
      × ((rpush now key (v ∷ values) s).1.list_notify ≡ s.list_notify + 1)
  unfolding rpush push_data
  rpush_lem =
      let (a, b, c) = push_lem right now key (v ∷ values) s l view in
      (a, b ∙ ap some (push_all_right (v ∷ values) l), c)
