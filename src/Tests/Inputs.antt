-- ===== src/Tests/Inputs.antt =====
-- A small key space: a string, a hash, a set and a list, and a string that expires at time 10.
use burner_redis.Prelude.{[], ◌∷◌, none, some, false}
use burner_redis.Value.{Bytes, ValueData, ValueEntry, string, hash, set, list}
use burner_redis.PubSub.{new_registry}
use burner_redis.Store.{Data, Store}

abbrev pub name : Bytes
name = b'n' ∷ []

abbrev pub table : Bytes
table = b't' ∷ []

abbrev pub group : Bytes
group = b'g' ∷ []

abbrev pub queue : Bytes
queue = b'q' ∷ []

abbrev pub session : Bytes
session = b's' ∷ []

abbrev pub missing : Bytes
missing = b'm' ∷ []

abbrev pub a : Bytes
a = b'a' ∷ []

abbrev pub b : Bytes
b = b'b' ∷ []

abbrev pub five : Bytes
five = b'5' ∷ []

abbrev pub permanent : ValueData → ValueEntry
permanent v = record { value = v; expires_at = none }

abbrev pub m : Data
m =
    (name, permanent (string a))
    ∷ (table, permanent (hash ((a, five) ∷ [])))
    ∷ (group, permanent (set ((a, tt) ∷ [])))
    ∷ (queue, record { value = list (a ∷ b ∷ a ∷ []); expires_at = some 100 })
    ∷ (session, record { value = string b; expires_at = some 10 })
    ∷ []

abbrev pub s : Store
s = record {
  data_map = m;
  pubsub = new_registry;
  stream_notify = 0;
  list_notify = 0;
  shutdown = false;
}
