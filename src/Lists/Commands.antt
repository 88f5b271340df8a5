-- ===== src/Lists/Commands.antt =====
-- The commands on one list.
use burner_redis.Prelude.{
  ℕ, zero, ◌+◌, Bool, ◌||◌, Option, none, some, List, [], ◌∷◌, length, get_elem?, set as set_elem,
  is_empty, if◌then◌else◌, min,
}
use burner_redis.Prelude.Int.{ℤ, pos, negsuc, is_neg, leb_ℤ, to_usize}
use burner_redis.Prelude.Key.{bytes_key}
use burner_redis.Map
use burner_redis.Value.{
  Bytes, Instant, ValueData, ValueEntry, list, new_list, Result, ok, err, wrong_type, no_such_key,
  syntax,
}
use burner_redis.Store.{Store, Data, expired_at, evict, read, update, upsert}
use burner_redis.ListIndex.{
  ListEnd, left, right, InsertPosition, before, after, parse_lrem_count, from_tail,
  normalize_range_indices,
}
use burner_redis.Lists.Seq.{pop_end, push_all, pop_count, insert_at, slice, position, lrem_list}

-- `ValueData::List(l)`, or a value of another type
abbrev pub list_value : ValueData → Option (List Bytes)
list_value (list l) = some l
list_value _ = none

abbrev pub on_list : {A : Type 0} → (List Bytes → Result A) → ValueData → Result A
on_list f (list l) = f l
on_list f _ = err wrong_type

abbrev pub on_list_mut :
    {A : Type 0} → (List Bytes → Result A × List Bytes) → ValueData → Result A × ValueData
on_list_mut f (list l) = let (r, l') = f l in (r, list l')
on_list_mut f v = (err wrong_type, v)

-- `notify_waiters` is called where the push succeeds.
abbrev pub notify_list : {A : Type 0} → Store → Result A × Data → Result A × Store
notify_list s (ok a, m) = (ok a, record s { data_map = m; list_notify = s.list_notify + 1 })
notify_list s (err e, m) = (err e, record s { data_map = m })

abbrev pub push_values : ListEnd → List Bytes → List Bytes → Result ℕ × List Bytes
push_values end values l = let l' = push_all end values l in (ok (length l'), l')

unfoldable pub lpush : Instant → Bytes → List Bytes → Store → Result ℕ × Store
lpush now key [] s = (err (syntax "ERR wrong number of arguments for 'lpush' command"), s)
lpush now key (v ∷ values) s =
    notify_list s (upsert now key new_list (on_list_mut (push_values left (v ∷ values))) s.data_map)

unfoldable pub rpush : Instant → Bytes → List Bytes → Store → Result ℕ × Store
rpush now key [] s = (err (syntax "ERR wrong number of arguments for 'rpush' command"), s)
rpush now key (v ∷ values) s =
    notify_list s
      (upsert now key new_list (on_list_mut (push_values right (v ∷ values))) s.data_map)

unfoldable pub llen : Instant → Bytes → Data → Result ℕ × Data
llen now key = read now key (ok 0) (on_list (λ l. ok (length l)))

-- `actual < 0 || actual >= n`
abbrev pub out_of_range : ℤ → ℤ → Bool
out_of_range n actual = is_neg actual || leb_ℤ n actual

abbrev pub lindex_list : ℤ → List Bytes → Option Bytes
lindex_list index l =
    let n : ℤ = pos (length l) in
    let actual = from_tail n index in
    if out_of_range n actual then none else get_elem? l (to_usize actual)

unfoldable pub lindex : Instant → Bytes → ℤ → Data → Result (Option Bytes) × Data
unfolding from_tail
lindex now key index = read now key (ok none) (on_list (λ l. ok (lindex_list index l)))

abbrev pub slice_range : List Bytes → Option (ℕ × ℕ) → List Bytes
slice_range l none = []
slice_range l (some (s, e)) = slice s e l

unfoldable pub lrange : Instant → Bytes → ℤ → ℤ → Data → Result (List Bytes) × Data
unfolding normalize_range_indices
lrange now key start stop =
    read now key (ok [])
      (on_list (λ l. ok (slice_range l (normalize_range_indices start stop (length l)))))

pub data LPopResult : Type 0 where
  nil : LPopResult
  single : Bytes → LPopResult
  array : List Bytes → LPopResult

abbrev pub single_or_nil : Option Bytes → LPopResult
single_or_nil none = nil
single_or_nil (some v) = single v

-- `data.remove(key)` where the key holds an empty list
unfoldable pub drop_empty_list : Bytes → Data → Data
drop_empty_list key m = elim (Map.get key m) [
  | none ↦ m
  | some entry ↦ elim (list_value entry.value) [
    | none ↦ m
    | some l ↦ if is_empty l then Map.remove key m else m
  ]
]

unfoldable pub pop_list : ListEnd → Option ℕ → List Bytes → LPopResult × List Bytes
unfolding pop_end pop_count
pop_list end none l = let (v, l') = pop_end end l in (single_or_nil v, l')
pop_list end (some n) l =
    let (popped, l') = pop_count end (min n (length l)) l in (array popped, l')

-- LPOP and RPOP on the list under the key; a count of zero changes nothing.
unfoldable pub pop_entry :
    ListEnd → Bytes → Option ℕ → ValueEntry → List Bytes → Data → Result LPopResult × Data
unfolding pop_list drop_empty_list
pop_entry end key (some zero) entry l m = (ok (array []), m)
pop_entry end key count entry l m =
    let (r, l') = pop_list end count l in
    (ok r, drop_empty_list key (Map.insert key (record entry { value = list l' }) m))

abbrev pub pop_found :
    ListEnd → Bytes → Option ℕ → Option ValueEntry → Data → Result LPopResult × Data
pop_found end key count none m = (ok nil, m)
pop_found end key count (some entry) m = elim (list_value entry.value) [
  | none ↦ (err wrong_type, m)
  | some l ↦ pop_entry end key count entry l m
]

unfoldable pub pop_key : ListEnd → Instant → Bytes → Option ℕ → Data → Result LPopResult × Data
unfolding pop_entry evict
pop_key end now key count m =
    let m' = evict now key m in pop_found end key count (Map.get key m') m'

abbrev pub lpop : Instant → Bytes → Option ℕ → Data → Result LPopResult × Data
lpop = pop_key left

abbrev pub rpop : Instant → Bytes → Option ℕ → Data → Result LPopResult × Data
rpop = pop_key right

-- `update`, and the key goes with its last element
unfoldable pub update_list :
    {A : Type 0}
    → Instant
    → Bytes
    → Result A
    → (List Bytes → Result A × List Bytes)
    → Data
    → Result A × Data
unfolding drop_empty_list
update_list now key missing f m =
    let (r, m') = update now key missing (on_list_mut f) m in (r, drop_empty_list key m')

abbrev pub lrem_values : ℤ → Bytes → List Bytes → Result ℕ × List Bytes
lrem_values count value l =
    let (removed, l') = lrem_list (parse_lrem_count count) value l in (ok removed, l')

unfoldable pub lrem : Instant → Bytes → ℤ → Bytes → Data → Result ℕ × Data
unfolding update_list lrem_list parse_lrem_count
lrem now key count value = update_list now key (ok 0) (lrem_values count value)

abbrev pub lset_list : ℤ → Bytes → List Bytes → Result (Unit {0}) × List Bytes
lset_list index value l =
    let n : ℤ = pos (length l) in
    let actual = from_tail n index in
    if out_of_range n actual
    then (err (syntax "ERR index out of range"), l)
    else (ok tt, set_elem l (to_usize actual) value)

unfoldable pub lset : Instant → Bytes → ℤ → Bytes → Data → Result (Unit {0}) × Data
unfolding from_tail
lset now key index value = update now key (err no_such_key) (on_list_mut (lset_list index value))

-- LTRIM on the list under the key: an empty range removes the key.
abbrev pub trim_entry : Bytes → ValueEntry → List Bytes → Option (ℕ × ℕ) → Data → Data
trim_entry key entry l none m = Map.remove key m
trim_entry key entry l (some (s, e)) m =
    drop_empty_list key (Map.insert key (record entry { value = list (slice s e l) }) m)

abbrev pub trim_found : Bytes → ℤ → ℤ → Option ValueEntry → Data → Result (Unit {0}) × Data
trim_found key start stop none m = (ok tt, m)
trim_found key start stop (some entry) m = elim (list_value entry.value) [
  | none ↦ (err wrong_type, m)
  | some l ↦ (ok tt, trim_entry key entry l (normalize_range_indices start stop (length l)) m)
]

unfoldable pub ltrim : Instant → Bytes → ℤ → ℤ → Data → Result (Unit {0}) × Data
unfolding normalize_range_indices drop_empty_list
ltrim now key start stop m =
    if expired_at now key m
    then (ok tt, Map.remove key m)
    else trim_found key start stop (Map.get key m) m

abbrev pub insert_index : InsertPosition → ℕ → ℕ
insert_index before i = i
insert_index after i = i + 1

abbrev pub linsert_list : InsertPosition → Bytes → Bytes → List Bytes → Result ℤ × List Bytes
linsert_list place pivot value l = elim (position pivot 0 l) [
  | none ↦ (ok (negsuc 0), l)
  | some i ↦ let l' = insert_at (insert_index place i) value l in (ok (pos (length l')), l')
]

unfoldable pub linsert : Instant → Bytes → InsertPosition → Bytes → Bytes → Data → Result ℤ × Data
unfolding position insert_at
linsert now key place pivot value =
    update now key (ok (pos 0)) (on_list_mut (linsert_list place pivot value))
