-- ===== src/Hash/Fields.antt =====
-- The loops of HSET and HDEL over the fields of a hash.
use burner_redis.Prelude.{
  ℕ, ◌+◌, ◌≡◌, refl, Option, none, some, List, [], ◌∷◌, arith, ite, if◌then◌else◌,
}
use burner_redis.Prelude.Key.{among, bytes_key, bytes_discrete}
use burner_redis.Map
use burner_redis.Map.Laws.{
  count_new, is_some, get-insert, get-remove, len-insert, len-remove, contains_key-get, Distinct,
  insert-Distinct, remove-Distinct,
}
use burner_redis.Value.{Bytes}
use burner_redis.Hash.{FieldMap, count_old, hset_loop, hdel_loop}

-- The value of a field after the assignments, in their order: the last one to it wins.
abbrev pub assigned : Bytes → List (Bytes × Bytes) → Option Bytes → Option Bytes
assigned f [] old = old
assigned f ((field, value) ∷ fields) old =
    assigned f fields (ite (bytes_discrete field f) (some value) old)

pub get-hset_loop :
    (f : Bytes) (fields : List (Bytes × Bytes)) (count : ℕ) (h : FieldMap)
    → Map.get f (hset_loop fields count h).1 ≡ assigned f fields (Map.get f h)
unfolding hset_loop
get-hset_loop f [] count h = refl
get-hset_loop f ((field, value) ∷ fields) count h = ground (
  arith,
  get-hset_loop f fields (count + count_new (Map.contains_key field h)) (Map.insert field value h),
  get-insert field f value h,
)

pub len-hset_loop :
    (fields : List (Bytes × Bytes)) (count : ℕ) (h : FieldMap)
    → (hset_loop fields count h).0 + Map.len h ≡ count + Map.len (hset_loop fields count h).1
unfolding hset_loop
len-hset_loop [] count h = refl
len-hset_loop ((field, value) ∷ fields) count h = omega (
  arith,
  len-hset_loop fields (count + count_new (Map.contains_key field h)) (Map.insert field value h),
  len-insert field value h,
)

pub hset_loop-Distinct :
    (fields : List (Bytes × Bytes)) (count : ℕ) (h : FieldMap)
    → Distinct h
    → Distinct (hset_loop fields count h).1
unfolding hset_loop
hset_loop-Distinct [] count h d = d
hset_loop-Distinct ((field, value) ∷ fields) count h d =
    hset_loop-Distinct fields (count + count_new (Map.contains_key field h))
      (Map.insert field value h) (insert-Distinct field value h d)

pub get-hdel_loop :
    (f : Bytes) (fields : List Bytes) (count : ℕ) (h : FieldMap)
    → Map.get f (hdel_loop fields count h).1 ≡ (if among f fields then none else Map.get f h)
unfolding hdel_loop
get-hdel_loop f [] count h = refl
get-hdel_loop f (field ∷ fields) count h = ground (
  arith,
  get-hdel_loop f fields (count + count_old (is_some (Map.get field h))) (Map.remove field h),
  get-remove field f h,
)

pub len-hdel_loop :
    (fields : List Bytes) (count : ℕ) (h : FieldMap)
    → Distinct h
    → (hdel_loop fields count h).0 + Map.len (hdel_loop fields count h).1 ≡ count + Map.len h
unfolding hdel_loop
len-hdel_loop [] count h d = refl
len-hdel_loop (field ∷ fields) count h d = ground (
  arith,
  len-hdel_loop fields (count + count_old (is_some (Map.get field h))) (Map.remove field h)
      (remove-Distinct field h d),
  len-remove field h d,
  contains_key-get field h,
)

pub hdel_loop-Distinct :
    (fields : List Bytes) (count : ℕ) (h : FieldMap)
    → Distinct h
    → Distinct (hdel_loop fields count h).1
unfolding hdel_loop
hdel_loop-Distinct [] count h d = d
hdel_loop-Distinct (field ∷ fields) count h d =
    hdel_loop-Distinct fields (count + count_old (is_some (Map.get field h))) (Map.remove field h)
      (remove-Distinct field h d)
