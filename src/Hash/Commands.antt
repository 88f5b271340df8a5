-- ===== src/Hash/Commands.antt =====
-- HSET, HGET, HDEL and the other reads, as a client sees them.
use burner_redis.Prelude.{
  ℕ, ◌+◌, ◌≡◌, ◌≤◌, refl, Option, none, some, List, [], ◌∷◌, arith, if◌then◌else◌, is_empty, not,
  Option-cases, inl, inr,
}
use burner_redis.Prelude.Int.{ℤ}
use burner_redis.Prelude.Key.{among, bytes_key}
use burner_redis.Map
use burner_redis.Map.Laws.{Distinct, is_some}
use burner_redis.Value.{Bytes, Instant, ValueEntry, hash, new_hash, ok, err, wrong_type}
use burner_redis.Store.{Data}
use burner_redis.Store.View.{live, read_lem, upsert_lem, evict-live}
use burner_redis.Store.Effects.{
  upsert_seen, upsert_unchanged, live-read, update_or_drop_seen, update_or_drop-answer,
}
use burner_redis.Hash.{
  FieldMap, on_hash, on_hash_mut, hset, hset_loop, hset_fields, hget, hincrby, hincrby_field, hdel,
  hdel_loop,
}
use burner_redis.Hash.Fields.{assigned, get-hset_loop, len-hset_loop, get-hdel_loop, len-hdel_loop}

-- The fields that a client finds under a key: a missing key counts as an empty hash, and a key of
-- another type has none.
abbrev pub hash_view : Option ValueEntry → Option FieldMap
hash_view none = some []
hash_view (some e) = elim e.value [ hash h ↦ some h | _ ↦ none ]

hdel_nothing : (fields : List Bytes) → hdel_loop fields 0 [] ≡ (0, [])
unfolding hdel_loop Map.get Map.remove
hdel_nothing [] = refl
hdel_nothing (f ∷ fields) = hdel_nothing fields

module _ (now : Instant) (key : Bytes) (fields : List (Bytes × Bytes)) (m : Data) where
  -- HSET on a hash or a missing key: each field has the last value that is assigned to it, every
  -- other field keeps its own, and the answer is the number of fields by which the hash has grown.
  pub hset_lem :
      (h : FieldMap)
      → hash_view (live now key m) ≡ some h
      → (n : ℕ) × (h' : FieldMap) × ((hset now key fields m).0 ≡ ok n)
        × (hash_view (live now key (hset now key fields m).1) ≡ some h')
        × (n + Map.len h ≡ Map.len h')
        × ((f : Bytes) → Map.get f h' ≡ assigned f fields (Map.get f h))
  unfolding hset
  hset_lem h view = (
    (hset_loop fields 0 h).0,
    (hset_loop fields 0 h).1,
    rw upsert_lem (ground arith),
    rw (upsert_seen now key new_hash (on_hash_mut (hset_fields fields)) m refl) (ground arith),
    omega (arith, len-hset_loop fields 0 h),
    λ f. get-hset_loop f fields 0 h,
  )

-- HGET answers with the field of the hash that a client finds, and changes nothing in view.
pub hget_lem :
    (now t : Instant) (key j field : Bytes) (m : Data) (h : FieldMap)
    → hash_view (live now key m) ≡ some h
    → now ≤ t
    → ((hget now key field m).0 ≡ ok (Map.get field h))
      × (live t j (hget now key field m).1 ≡ live t j m)
unfolding hget Map.get
hget_lem now t key j field m h view later = (
  rw read_lem (ground arith),
  live-read now t key j (ok none) (on_hash (λ h. ok (Map.get field h))) m later,
)

-- HGET right after HSET, on a hash or a missing key: the last value that was assigned to the field,
-- or the one it had.
pub hget-hset :
    (now : Instant) (key field : Bytes) (fields : List (Bytes × Bytes)) (m : Data) (h : FieldMap)
    → hash_view (live now key m) ≡ some h
    → (hget now key field (hset now key fields m).1).0
      ≡ ok (assigned field fields (Map.get field h))
hget-hset now key field fields m h view =
    let (n, h', _, seen, _, fs) = hset_lem now key fields m h view in
    rw
      ((hget_lem now now key key field (hset now key fields m).1 h' seen (omega arith)).0, fs field)
      refl

-- HDEL on a hash with no field twice, or on a missing key: the named fields are gone and the others
-- keep their values, the answer is the number of fields by which the hash has shrunk, and the key
-- is there afterwards exactly if a field is left.
pub hdel_lem :
    (now : Instant) (key : Bytes) (fields : List Bytes) (m : Data) (h : FieldMap)
    → Distinct h
    → hash_view (live now key m) ≡ some h
    → (n : ℕ) × (h' : FieldMap) × ((hdel now key fields m).0 ≡ ok n)
      × (hash_view (live now key (hdel now key fields m).1) ≡ some h')
      × (is_some (live now key (hdel now key fields m).1) ≡ not (is_empty h'))
      × (n + Map.len h' ≡ Map.len h)
      × ((f : Bytes) → Map.get f h' ≡ (if among f fields then none else Map.get f h))
unfolding hdel
hdel_lem now key fields m h d view = (
  (hdel_loop fields 0 h).0,
  (hdel_loop fields 0 h).1,
  rw update_or_drop-answer (ground (arith, hdel_nothing fields)),
  rw update_or_drop_seen (ground (arith, hdel_nothing fields)),
  rw update_or_drop_seen (ground (arith, hdel_nothing fields)),
  omega (arith, len-hdel_loop fields 0 h d),
  λ f. get-hdel_loop f fields 0 h,
)

-- A key of another type: HSET, HGET and HINCRBY answer WRONGTYPE and leave the map as it is, and
-- HDEL answers WRONGTYPE.
pub hash_wrong_type :
    (now : Instant) (key field : Bytes) (fields : List (Bytes × Bytes)) (names : List Bytes) (n : ℤ)
    (m : Data)
    → hash_view (live now key m) ≡ none
    → (hset now key fields m ≡ (err wrong_type, m))
      × (hget now key field m ≡ (err wrong_type, m))
      × (hincrby now key field n m ≡ (err wrong_type, m))
      × ((hdel now key names m).0 ≡ err wrong_type)
unfolding hset hget hincrby hdel
hash_wrong_type now key field fields names n m view = elim (Option-cases (live now key m)) [
  | inl absent ↦ ground arith
  | inr (e, present) ↦ (
    rw
        (upsert_unchanged now key new_hash (on_hash_mut (hset_fields fields)) m present
          (ground arith))
        (ground arith),
    rw (read_lem, present, evict-live now key m present) (ground arith),
    rw
        (upsert_unchanged now key new_hash (on_hash_mut (hincrby_field field n)) m present
          (ground arith))
        (ground arith),
    rw (update_or_drop-answer, present) (ground arith),
  )
]
