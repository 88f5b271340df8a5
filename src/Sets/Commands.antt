-- ===== src/Sets/Commands.antt =====
-- SADD, SREM, SISMEMBER and SMEMBERS, as a client sees them.
use burner_redis.Prelude.{
  ℕ, ◌+◌, ◌≡◌, refl, false, ◌||◌, not, Option, none, some, List, [], ◌∷◌, arith, if◌then◌else◌,
  is_empty,
}
use burner_redis.Prelude.Key.{among, bytes_key}
use burner_redis.Map
use burner_redis.Map.Laws.{count_new, is_some, len-insert, len-remove, Distinct, remove-Distinct}
use burner_redis.Map.Members.{contains_key-insert, contains_key-remove}
use burner_redis.Value.{Bytes, Instant, ValueEntry, set, new_set, ok}
use burner_redis.Store.{Data}
use burner_redis.Store.View.{live, read_lem, upsert_lem}
use burner_redis.Store.Effects.{upsert_seen, update_or_drop_seen, update_or_drop-answer}
use burner_redis.Hash.{count_old}
use burner_redis.Sets.{
  Members, on_set_mut, sadd, sadd_loop, sadd_members, srem, srem_loop, sismember,
}

sadd_loop_lem :
    (members : List Bytes) (count : ℕ) (s : Members)
    → ((sadd_loop members count s).0 + Map.len s ≡ count + Map.len (sadd_loop members count s).1)
      × ((x : Bytes)
          → Map.contains_key x (sadd_loop members count s).1
            ≡ (among x members || Map.contains_key x s))
unfolding sadd_loop
sadd_loop_lem [] count s = (refl, λ x. refl)
sadd_loop_lem (y ∷ members) count s =
    let (counted, found) =
      sadd_loop_lem members (count + count_new (Map.contains_key y s)) (Map.insert y tt s) in
    (
      omega (arith, counted, len-insert y tt s),
      λ x. ground (arith, found x, contains_key-insert y x s),
    )

srem_loop_lem :
    (members : List Bytes) (count : ℕ) (s : Members)
    → Distinct s
    → ((srem_loop members count s).0 + Map.len (srem_loop members count s).1 ≡ count + Map.len s)
      × ((x : Bytes)
          → Map.contains_key x (srem_loop members count s).1
            ≡ (if among x members then false else Map.contains_key x s))
unfolding srem_loop
srem_loop_lem [] count s d = (refl, λ x. refl)
srem_loop_lem (y ∷ members) count s d =
    let (counted, found) =
      srem_loop_lem members (count + count_old (Map.contains_key y s)) (Map.remove y s)
        (remove-Distinct y s d) in
    (
      ground (arith, counted, len-remove y s d),
      λ x. ground (arith, found x, contains_key-remove y x s),
    )

srem_nothing : (members : List Bytes) → srem_loop members 0 [] ≡ (0, [])
unfolding srem_loop Map.contains_key Map.remove
srem_nothing [] = refl
srem_nothing (x ∷ members) = srem_nothing members

-- The members that a client finds under a key: a missing key counts as an empty set, and a key of
-- another type has none.
abbrev pub set_view : Option ValueEntry → Option Members
set_view none = some []
set_view (some e) = elim e.value [ set s ↦ some s | _ ↦ none ]

module _ (now : Instant) (key : Bytes) (members : List Bytes) (m : Data) (s : Members)
    (view : set_view (live now key m) ≡ some s) where
  -- SADD on a set or a missing key: a member of the result is one that was there or one that was
  -- named, and the answer is the number of members by which the set has grown.
  pub sadd_lem :
      (n : ℕ) × (s' : Members) × ((sadd now key members m).0 ≡ ok n)
      × (set_view (live now key (sadd now key members m).1) ≡ some s')
      × (n + Map.len s ≡ Map.len s')
      × ((x : Bytes) → Map.contains_key x s' ≡ (among x members || Map.contains_key x s))
  unfolding sadd
  sadd_lem = (
    (sadd_loop members 0 s).0,
    (sadd_loop members 0 s).1,
    rw upsert_lem (ground arith),
    rw (upsert_seen now key new_set (on_set_mut (sadd_members members)) m refl) (ground arith),
    omega (arith, (sadd_loop_lem members 0 s).0),
    (sadd_loop_lem members 0 s).1,
  )

  -- SREM on a set with no member twice, or on a missing key: the named members are gone and the
  -- others stay, the answer is the number of members by which the set has shrunk, and the key is
  -- there afterwards exactly if a member is left.
  pub srem_lem :
      Distinct s
      → (n : ℕ) × (s' : Members) × ((srem now key members m).0 ≡ ok n)
        × (set_view (live now key (srem now key members m).1) ≡ some s')
        × (is_some (live now key (srem now key members m).1) ≡ not (is_empty s'))
        × (n + Map.len s' ≡ Map.len s)
        × ((x : Bytes)
            → Map.contains_key x s' ≡ (if among x members then false else Map.contains_key x s))
  unfolding srem
  srem_lem d = (
    (srem_loop members 0 s).0,
    (srem_loop members 0 s).1,
    rw update_or_drop-answer (ground (arith, srem_nothing members)),
    rw update_or_drop_seen (ground (arith, srem_nothing members)),
    rw update_or_drop_seen (ground (arith, srem_nothing members)),
    omega (arith, (srem_loop_lem members 0 s d).0),
    (srem_loop_lem members 0 s d).1,
  )

-- SISMEMBER right after SADD, on a set or a missing key: true for what was there and for what was
-- named, and for nothing else.
pub sismember-sadd :
    (now : Instant) (key x : Bytes) (members : List Bytes) (m : Data) (s : Members)
    → set_view (live now key m) ≡ some s
    → (sismember now key x (sadd now key members m).1).0
      ≡ ok (among x members || Map.contains_key x s)
unfolding sismember Map.contains_key
sismember-sadd now key x members m s view =
    let (n, s', _, seen, _, found) = sadd_lem now key members m s view in
    rw (read_lem, ← found x) (ground arith)
