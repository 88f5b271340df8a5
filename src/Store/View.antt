-- ===== src/Store/View.antt =====
-- What a client can see of the key space at a time: the entries that have not expired. The three
-- shapes of a command are functions of that view and of the eviction of the key.
use burner_redis.Prelude.{◌≡◌, ◌≤◌, Option, none, some, arith, if◌then◌else◌, ite}
use burner_redis.Prelude.Key.{bytes_key, bytes_discrete}
use burner_redis.Map
use burner_redis.Map.Laws.{get-insert, get-remove, insert-insert}
use burner_redis.Value.{Bytes, Instant, ValueData, ValueEntry, is_expired, Result}
use burner_redis.Store.{Data, expired_at, evict, read, update, upsert}

abbrev pub keep_live : Instant → Option ValueEntry → Option ValueEntry
keep_live now none = none
keep_live now (some e) = if is_expired e now then none else some e

-- The entry that a client finds under a key at a time.
unfoldable pub live : Instant → Bytes → Data → Option ValueEntry
live now key m = keep_live now (Map.get key m)

-- The answer of a command that looks at a key, from the entry that it finds.
abbrev pub answer : {A : Type 0} → Result A → (ValueData → Result A) → Option ValueEntry → Result A
answer missing f none = missing
answer missing f (some e) = f e.value

-- The entry that a creating command works on.
abbrev pub live_or : ValueEntry → Option ValueEntry → ValueEntry
live_or fresh none = fresh
live_or fresh (some e) = e

-- The map after a changing command, from the entry that it finds.
abbrev pub changed : Instant → Bytes → (ValueData → ValueData) → Option ValueEntry → Data → Data
changed now key f none m = evict now key m
changed now key f (some e) m = Map.insert key (record e { value = f e.value }) m

module _ (now : Instant) (key : Bytes) where
  pub get-evict :
      (j : Bytes) (m : Data)
      → Map.get j (evict now key m) ≡ ite (bytes_discrete key j) (live now key m) (Map.get j m)
  unfolding evict live expired_at
  get-evict j m = ground (arith, get-remove key j m)

  -- Nothing that a client can see from then on is lost by an eviction.
  pub live-evict :
      (t : Instant) (j : Bytes) (m : Data) → now ≤ t → live t j (evict now key m) ≡ live t j m
  unfolding live is_expired
  live-evict t j m h = ground (arith, get-evict j m)

  pub evict-live : (m : Data) {e : ValueEntry} → live now key m ≡ some e → evict now key m ≡ m
  unfolding live evict expired_at
  evict-live m h = ground arith

  pub get_of_live : (m : Data) {e : ValueEntry} → live now key m ≡ some e → Map.get key m ≡ some e
  unfolding live
  get_of_live m h = ground arith

  pub read_lem :
      {A : Type 0} (missing : Result A) (f : ValueData → Result A) (m : Data)
      → read now key missing f m ≡ (answer missing f (live now key m), evict now key m)
  unfolding read live evict expired_at
  read_lem missing f m = ground arith

  pub update_lem :
      {A : Type 0} (missing : Result A) (f : ValueData → Result A × ValueData) (m : Data)
      → update now key missing f m ≡ (
        answer missing (λ v. (f v).0) (live now key m),
        changed now key (λ v. (f v).1) (live now key m) m,
      )
  unfolding update live evict expired_at
  update_lem missing f m = ground arith

  pub upsert_lem :
      {A : Type 0} (fresh : ValueEntry) (f : ValueData → Result A × ValueData) (m : Data)
      → upsert now key fresh f m ≡ (
        (f (live_or fresh (live now key m)).value).0,
        Map.insert key
            (record (live_or fresh (live now key m)) {
              value = (f (live_or fresh (live now key m)).value).1;
            })
            (evict now key m),
      )
  unfolding upsert
  upsert_lem fresh f m = ground (
    arith,
    get-evict key m,
    get-insert key key fresh (evict now key m),
    insert-insert key (record fresh { value = (f fresh.value).1 }) fresh (evict now key m),
  )
