-- ===== src/Keys.antt =====
-- The commands on whole keys, GET, SET, DELETE, EXISTS, KEYS, TTL, MGET, EXPIRE, and the sweep of
-- expired keys (src/store.rs lines 414 to 567, 1262 to 1285 and 1570 to 1595). A command reads the
-- clock once, where the source reads it again for each key under one lock; GET and TTL, which
-- branch on a second reading, take both.
pub mod Strings
pub mod Multi
pub mod Sweep
use burner_redis.Prelude.{
  ℕ, zero, suc, ◌+◌, ◌-◌, ◌/◌, Bool, true, false, ◌&&◌, not, Option, none, some, List, [], ◌∷◌, leb,
  length, if◌then◌else◌,
}
use burner_redis.Prelude.Int.{ℤ, pos, negsuc, leb_ℤ, to_usize}
use burner_redis.Prelude.Key.{bytes_key}
use burner_redis.Map
use burner_redis.Map.Laws.{is_some}
use burner_redis.Value.{
  Bytes, Instant, Duration, from_secs, ValueData, ValueEntry, string, new, is_expired, Result, ok,
  err, wrong_type,
}
use burner_redis.Store.{Data, expired_at, evict}
use burner_redis.Glob.{glob_match}

-- `ValueData::String(ref v)`, or a value of another type
abbrev pub string_value : ValueData → Option Bytes
string_value (string v) = some v
string_value _ = none

-- The part of GET under the read lock. `none` is the fall through to the write lock.
unfoldable pub get_read : Instant → Bytes → Data → Option (Result (Option Bytes))
get_read now key m = elim (Map.get key m) [
  | none ↦ some (ok none)
  | some entry ↦ if is_expired entry now then none else elim (string_value entry.value) [
    | some v ↦ some (ok (some v))
    | none ↦ some (err wrong_type)
  ]
]

-- The part of GET under the write lock, on the map as it is by then.
unfoldable pub get_reap : Instant → Bytes → Data → Data
get_reap now key m = elim (Map.get key m) [
  | none ↦ m
  | some entry ↦ if is_expired entry now then Map.remove key m else m
]

-- GET with no other thread between its two locks; `later` is the second reading of the clock.
unfoldable pub get : Instant → Instant → Bytes → Data → Result (Option Bytes) × Data
unfolding get_read get_reap
get now later key m = elim (get_read now key m) [
  | some r ↦ (r, m)
  | none ↦ (ok none, get_reap later key m)
]

-- `data.get(key)` is there and `!is_expired()`
unfoldable pub key_exists : Instant → Bytes → Data → Bool
key_exists now key m = elim (Map.get key m) [
  | none ↦ false
  | some entry ↦ not (is_expired entry now)
]

unfoldable pub set : Instant → Bytes → Bytes → Option Duration → Bool → Bool → Data → Bool × Data
unfolding key_exists new
set now key v ttl nx xx m =
    if nx && key_exists now key m
    then (false, m)
    else if xx && not (key_exists now key m)
    then (false, m)
    else (true, Map.insert key (new v ttl now) m)

abbrev pub count_if : Bool → ℕ
count_if true = 1
count_if false = 0

unfoldable pub delete_loop : Instant → List Bytes → ℕ → Data → ℕ × Data
unfolding key_exists
delete_loop now [] count m = (count, m)
delete_loop now (key ∷ keys) count m =
    delete_loop now keys (count + count_if (key_exists now key m)) (Map.remove key m)

unfoldable pub delete : Instant → List Bytes → Data → ℕ × Data
unfolding delete_loop
delete now keys m = delete_loop now keys 0 m

unfoldable pub exists_loop : Instant → List Bytes → ℕ → Data → ℕ
unfolding key_exists
exists_loop now [] count m = count
exists_loop now (key ∷ keys) count m =
    exists_loop now keys (count + count_if (key_exists now key m)) m

unfoldable pub exists : Instant → List Bytes → Data → ℕ
unfolding exists_loop
exists now keys m = exists_loop now keys 0 m

-- KEYS walks the entries in the order of iteration.
unfoldable pub keys : Instant → Bytes → Data → List Bytes
keys now pattern [] = []
keys now pattern ((key, entry) ∷ m) =
    let rest = keys now pattern m in
    if not (is_expired entry now) && glob_match pattern key then key ∷ rest else rest

-- TTL: -2 for no key, -1 for no expiry, else the whole seconds that remain. `later` is the reading
-- of the clock after the test of expiry.
unfoldable pub ttl : Instant → Instant → Bytes → Data → ℤ × Data
ttl now later key m = elim (Map.get key m) [
  | none ↦ (negsuc 1, m)
  | some entry ↦
      if is_expired entry now then (negsuc 1, Map.remove key m) else elim entry.expires_at [
        | none ↦ (negsuc 0, m)
        | some exp ↦
            if leb later exp
            then (pos ((exp - later) / 1_000_000_000), m)
            else (negsuc 1, Map.remove key m)
      ]
]

abbrev pub mget_value : Instant → Option ValueEntry → Option Bytes
mget_value now none = none
mget_value now (some entry) = if is_expired entry now then none else string_value entry.value

unfoldable pub mget : Instant → List Bytes → Data → List (Option Bytes)
mget now [] m = []
mget now (key ∷ keys) m = mget_value now (Map.get key m) ∷ mget now keys m

-- EXPIRE; a time of zero or less deletes the key.
unfoldable pub expire : Instant → Bytes → ℤ → Data → Bool × Data
expire now key seconds m =
    if expired_at now key m
    then (false, Map.remove key m)
    else if leb_ℤ seconds (pos 0)
    then (is_some (Map.get key m), Map.remove key m)
    else elim (Map.get key m) [
      | none ↦ (false, m)
      | some entry ↦ (
        true,
        Map.insert key (record entry { expires_at = some (now + from_secs (to_usize seconds)) }) m,
      )
    ]

abbrev pub sweep_limit : ℕ
sweep_limit = 20

-- The scan of `sweep_expired`: `checked` counts the keys with an expiry, and the scan breaks off
-- after the twentieth.
unfoldable pub sweep_scan : Instant → ℕ → Data → List Bytes
sweep_scan now checked [] = []
sweep_scan now checked ((key, entry) ∷ m) =
    let same = sweep_scan now checked m in
    let next = if leb sweep_limit (checked + 1) then [] else sweep_scan now (checked + 1) m in
    elim entry.expires_at [
      | none ↦ same
      | some exp ↦ if is_expired entry now then key ∷ next else next
    ]

unfoldable pub remove_all : List Bytes → Data → Data
remove_all [] m = m
remove_all (key ∷ keys) m = remove_all keys (Map.remove key m)

unfoldable pub sweep_expired : Instant → Data → ℕ × Data
unfolding sweep_scan remove_all
sweep_expired now m =
    let to_remove = sweep_scan now 0 m in (length to_remove, remove_all to_remove m)
