-- ===== src/Keys/Strings.antt =====
-- GET, SET, TTL and EXPIRE against what a client can see of the key space.
use burner_redis.Prelude.{
  ◌+◌, ◌-◌, ◌/◌, ◌≤◌, ◌≡◌, Bool, true, not, Option, none, some, arith, ite, leb, Option-cases, inl,
  inr, if◌then◌else◌,
}
use burner_redis.Prelude.Int.{ℤ, pos, negsuc, pos_part}
use burner_redis.Prelude.Key.{bytes_key, bytes_discrete}
use burner_redis.Map
use burner_redis.Map.Laws.{get-insert, get-remove, is_some}
use burner_redis.Value.{
  Bytes, Instant, Duration, from_secs, ValueEntry, is_expired, Result, ok, err, wrong_type,
}
use burner_redis.Store.{Data, expired_at, evict}
use burner_redis.Store.View.{live}
use burner_redis.Keys.{get, get_reap, ttl, expire, string_value}

-- What GET answers from the entry that a client can see.
abbrev pub get_answer : Option ValueEntry → Result (Option Bytes)
get_answer none = ok none
get_answer (some e) = elim (string_value e.value) [ some v ↦ ok (some v) | none ↦ err wrong_type ]

-- GET answers from the live entry alone, with an error for a value that is no string, and leaves
-- the map as passive expiration leaves it, if the second reading of the clock is not before the first.
pub get_lem :
    (now later : Instant) (key : Bytes) (m : Data)
    → now ≤ later
    → get now later key m ≡ (get_answer (live now key m), evict now key m)
unfolding get live evict expired_at is_expired
get_lem now later key m h = ground arith

-- The removal under GET's write lock, on whatever map it meets there, hides no entry that is live
-- then or later.
pub live-get_reap :
    (now t : Instant) (key j : Bytes) (m : Data)
    → now ≤ t
    → live t j (get_reap now key m) ≡ live t j m
unfolding get_reap live is_expired
live-get_reap now t key j m h = ground (arith, get-remove key j m)

-- Whether SET writes.
abbrev pub set_allowed : Bool → Bool → Option ValueEntry → Bool
set_allowed nx xx none = not xx
set_allowed nx xx (some e) = not nx

-- A time to live still runs at `t`.
abbrev pub still_runs : Instant → Option Duration → Instant → Bool
still_runs now none t = true
still_runs now (some d) t = not (leb (now + d) t)

-- What TTL answers from the entry that a client can see.
abbrev pub ttl_answer : Instant → Option ValueEntry → ℤ
ttl_answer later none = negsuc 1
ttl_answer later (some e) = elim e.expires_at [
  | none ↦ negsuc 0
  | some exp ↦ if leb later exp then pos ((exp - later) / 1_000_000_000) else negsuc 1
]

-- TTL answers -2, -1 or the whole seconds that remain at its second reading of the clock, and
-- hides nothing that is live from then on.
pub ttl_lem :
    (now later t : Instant) (key j : Bytes) (m : Data)
    → now ≤ later
    → later ≤ t
    → ((ttl now later key m).0 ≡ ttl_answer later (live now key m))
      × (live t j (ttl now later key m).1 ≡ live t j m)
unfolding ttl live is_expired
ttl_lem now later t key j m h k = (ground arith, ground (arith, get-remove key j m))

-- The entry with a new expiry, as a client sees it at `t`.
abbrev pub expiring : Instant → Instant → Option ValueEntry → Option ValueEntry
expiring deadline t none = none
expiring deadline t (some e) =
    if leb deadline t then none else some (record e { expires_at = some deadline })

abbrev pub deadline_of : Instant → ℤ → Instant
deadline_of now seconds = now + from_secs (pos_part seconds)

-- EXPIRE says whether the key is live. From then on a live key is gone at its deadline, at once
-- where the time is zero or less, and keeps its value until then; other keys are untouched.
pub expire_lem :
    (now t : Instant) (key j : Bytes) (seconds : ℤ) (m : Data)
    → now ≤ t
    → ((expire now key seconds m).0 ≡ is_some (live now key m))
      × (live t j (expire now key seconds m).1
          ≡ ite
              (bytes_discrete key j)
              (expiring (deadline_of now seconds) t (live now key m))
              (live t j m))
unfolding expire live expired_at is_expired
expire_lem now t key j (pos seconds) m h = (
  ground arith,
  elim (Option-cases (Map.get key m)) [
    | inl absent ↦ ground (arith, get-remove key j m)
    | inr (e, present) ↦ ground (
      arith,
      get-remove key j m,
      get-insert key j (record e { expires_at = some (deadline_of now (pos seconds)) }) m,
    )
  ],
)
expire_lem now t key j (negsuc seconds) m h = (ground arith, ground (arith, get-remove key j m))
