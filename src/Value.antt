-- ===== src/Value.antt =====
-- The values of the store: the data types of src/store.rs lines 17 to 147, and its errors.
use burner_redis.Prelude.{ℕ, ◌+◌, ◌*◌, Bool, false, Option, none, some, List, [], leb, String}
use burner_redis.Map.{Map}

-- Byte strings, `bytes::Bytes`.
abbrev pub Bytes : Type 0
Bytes = List ℕ

-- A monotonic clock reading, in nanoseconds.
abbrev pub Instant : Type 0
Instant = ℕ

-- A length of time, in nanoseconds.
abbrev pub Duration : Type 0
Duration = ℕ

-- `Duration::from_secs`, `Duration::from_millis`
abbrev pub from_secs : ℕ → Duration
from_secs s = s * 1_000_000_000

-- The bit pattern of an IEEE 754 double.
abbrev pub F64 : Type 0
F64 = ℕ

-- `HashSet` is a map to the unit type, as in Rust.
abbrev pub HashSet : Type 0 → Type 0
HashSet K = Map K (Unit {0})

pub record SortedSet : Type 0 where
  pub by_score : List (F64 × Bytes)
  pub by_member : Map Bytes F64

-- (milliseconds, sequence number)
abbrev pub StreamId : Type 0
StreamId = ℕ × ℕ

pub record PendingEntry : Type 0 where
  pub delivery_time : Instant
  pub delivery_count : ℕ

pub record Consumer : Type 0 where
  pub pending : Map StreamId PendingEntry

pub record ConsumerGroup : Type 0 where
  pub last_delivered_id : StreamId
  pub consumers : Map Bytes Consumer

-- `entries` is a `BTreeMap`: its list is in the order of the identifiers.
pub record Stream : Type 0 where
  pub entries : Map StreamId (Map Bytes Bytes)
  pub last_id : StreamId
  pub groups : Map Bytes ConsumerGroup

pub data ValueData : Type 0 where
  string : Bytes → ValueData
  hash : Map Bytes Bytes → ValueData
  set : HashSet Bytes → ValueData
  sorted_set : SortedSet → ValueData
  stream : Stream → ValueData
  list : List Bytes → ValueData

pub record ValueEntry : Type 0 where
  pub value : ValueData
  pub expires_at : Option Instant

unfoldable pub new : Bytes → Option Duration → Instant → ValueEntry
new bytes ttl now = record {
  value = string bytes;
  expires_at = elim ttl [ none ↦ none | some d ↦ some (now + d) ];
}

abbrev pub new_hash : ValueEntry
new_hash = record { value = hash []; expires_at = none }

abbrev pub new_set : ValueEntry
new_set = record { value = set []; expires_at = none }

abbrev pub new_sorted_set : ValueEntry
new_sorted_set = record {
  value = sorted_set (record { by_score = []; by_member = [] });
  expires_at = none;
}

abbrev pub new_stream : ValueEntry
new_stream = record {
  value = stream (record { entries = []; last_id = (0, 0); groups = [] });
  expires_at = none;
}

abbrev pub new_list : ValueEntry
new_list = record { value = list []; expires_at = none }

unfoldable pub is_expired : ValueEntry → Instant → Bool
is_expired entry now = elim entry.expires_at [ none ↦ false | some exp ↦ leb exp now ]

-- `no_group` carries the bytes of the group and of the key, which the source decodes for the text.
pub data StoreError : Type 0 where
  wrong_type busy_group key_not_found no_such_key : StoreError
  no_group : Bytes → Bytes → StoreError
  syntax : String → StoreError

pub data Result {ℓ} (A : Type ℓ) : Type ℓ where
  ok : A → Result A
  err : StoreError → Result A
