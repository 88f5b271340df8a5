-- ===== src/Keys/Multi.antt =====
-- DELETE, EXISTS, MGET and KEYS against what a client can see of the key space.
use burner_redis.Prelude.{
  map, ℕ, ◌+◌, ◌≡◌, refl, ◌&&◌, not, Option, none, some, List, [], ◌∷◌, arith, if◌then◌else◌,
}
use burner_redis.Prelude.Key.{among, bytes_key, same}
use burner_redis.Map
use burner_redis.Map.Laws.{get-remove, is_some, Distinct}
use burner_redis.Value.{Bytes, Instant, ValueEntry}
use burner_redis.Store.{Data}
use burner_redis.Store.View.{live}
use burner_redis.Glob.{glob_match}
use burner_redis.Keys.{
  delete, delete_loop, exists, exists_loop, key_exists, count_if, mget, string_value, keys,
}

-- The live keys among these, each as often as it is named.
abbrev pub live_count : Instant → List Bytes → Data → ℕ
live_count now [] m = 0
live_count now (k ∷ ks) m = count_if (is_some (live now k m)) + live_count now ks m

-- The live keys among these, each once: those that an earlier name has removed count no more.
abbrev pub removed_count : Instant → List Bytes → List Bytes → Data → ℕ
removed_count now before [] m = 0
removed_count now before (k ∷ ks) m =
    count_if (is_some (live now k m) && not (among k before)) + removed_count now (k ∷ before) ks m

pub key_exists-live :
    (now : Instant) (key : Bytes) (m : Data) → key_exists now key m ≡ is_some (live now key m)
unfolding key_exists live
key_exists-live now key m = ground arith

exists_loop-live_count :
    (now : Instant) (ks : List Bytes) (count : ℕ) (m : Data)
    → exists_loop now ks count m ≡ count + live_count now ks m
unfolding exists_loop
exists_loop-live_count now [] count m = omega arith
exists_loop-live_count now (k ∷ ks) count m =
    rw (key_exists-live now k m)
      (omega (arith, exists_loop-live_count now ks (count + count_if (is_some (live now k m))) m))

-- EXISTS counts the live keys among its arguments, a key that is named twice twice.
pub exists_lem :
    (now : Instant) (ks : List Bytes) (m : Data) → exists now ks m ≡ live_count now ks m
unfolding exists
exists_lem now ks m = rw exists_loop-live_count (omega arith)

live-remove :
    (now : Instant) (k j : Bytes) (m : Data)
    → live now j (Map.remove k m) ≡ (if same k j then none else live now j m)
unfolding live
live-remove now k j m = ground (arith, get-remove k j m)

-- After DELETE no client finds one of its keys, at any time, and every other key is as it was.
delete_loop_view :
    (now t : Instant) (ks : List Bytes) (count : ℕ) (j : Bytes) (m : Data)
    → live t j (delete_loop now ks count m).1 ≡ (if among j ks then none else live t j m)
unfolding delete_loop
delete_loop_view now t [] count j m = refl
delete_loop_view now t (k ∷ ks) count j m = ground (
  arith,
  delete_loop_view now t ks (count + count_if (key_exists now k m)) j (Map.remove k m),
  live-remove t k j m,
)

-- What is left of `m` once the keys of `before` are gone.
abbrev Without : Instant → List Bytes → Data → Data → Type 0
Without now before m m' =
    (j : Bytes) → live now j m' ≡ (if among j before then none else live now j m)

delete_loop_count :
    (now : Instant) (before ks : List Bytes) (count : ℕ) (m m' : Data)
    → Without now before m m'
    → (delete_loop now ks count m').0 ≡ count + removed_count now before ks m
unfolding delete_loop
delete_loop_count now before [] count m m' h = omega arith
delete_loop_count now before (k ∷ ks) count m m' h =
    rw
      (delete_loop_count now (k ∷ before) ks (count + count_if (key_exists now k m')) m
        (Map.remove k m') (λ j. ground (arith, h j, live-remove now k j m')))
      (ground (arith, key_exists-live now k m', h k))

-- DELETE counts the live keys among its arguments, each once, and after it no client finds one of
-- them at any time; every other key is as it was.
pub delete_lem :
    (now : Instant) (ks : List Bytes) (m : Data)
    → ((delete now ks m).0 ≡ removed_count now [] ks m)
      × ((t : Instant) (j : Bytes)
          → live t j (delete now ks m).1 ≡ (if among j ks then none else live t j m))
unfolding delete
delete_lem now ks m = (
  rw (delete_loop_count now [] ks 0 m m (λ j. refl)) (omega arith),
  λ t j. delete_loop_view now t ks 0 j m,
)

abbrev pub mget_answer : Option ValueEntry → Option Bytes
mget_answer none = none
mget_answer (some e) = string_value e.value

-- MGET answers for each key what is live under it, and nothing for a value that is no string.
pub mget_lem :
    (now : Instant) (ks : List Bytes) (m : Data)
    → mget now ks m ≡ map (λ k. mget_answer (live now k m)) ks
unfolding mget live
mget_lem now [] m = refl
mget_lem now (k ∷ ks) m = ground (arith, mget_lem now ks m)

-- KEYS, on a map with no key twice, lists a key exactly if it is live and the pattern matches it.
pub keys_lem :
    (now : Instant) (pattern key : Bytes) (m : Data)
    → Distinct m
    → among key (keys now pattern m) ≡ (is_some (live now key m) && glob_match pattern key)
unfolding keys live Map.get
keys_lem now pattern key [] h = refl
keys_lem now pattern key ((k, e) ∷ m) h = ground (arith, keys_lem now pattern key m)
