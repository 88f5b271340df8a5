-- ===== src/SortedSets.antt =====
-- The sorted sets of src/store.rs: `SortedSet`, lines 19 to 65, and ZADD, ZREM, ZCARD and ZSCORE, lines
-- 869 to 970 and 1183 to 1227. The order of `OrderedFloat`, of another library, is a parameter.
pub mod Members
pub mod Ranges
pub mod Consistent
pub mod Ascending
pub mod Sound
pub mod Commands
pub mod Queries
pub mod Stored
use burner_redis.Prelude.{
  ℕ, ◌+◌, ◌-◌, ◌%◌, ◌^◌, Bool, true, false, ◌&&◌, not, Option, none, some, List, [], ◌∷◌, ltb,
  if◌then◌else◌, ◌≡◌, refl, arith, ite,
}
use burner_redis.Prelude.Int.{ℤ, pos, sub_ℕ, leb_ℤ}
use burner_redis.Prelude.Key.{bytes_key, same}
use burner_redis.Map
use burner_redis.Value.{
  Bytes, Instant, F64, ValueData, SortedSet, sorted_set, new_sorted_set, Result, ok, err,
  wrong_type,
}
use burner_redis.Store.{Data, read, zset_len, update_or_drop, remove_if_empty, upsert}
use burner_redis.PubSub.{bytes_leb}
use burner_redis.Keys.{count_if}

abbrev pub on_sorted_set : {A : Type 0} → (SortedSet → Result A) → ValueData → Result A
on_sorted_set f (sorted_set zset) = f zset
on_sorted_set f _ = err wrong_type

unfoldable pub zcard : Instant → Bytes → Data → Result ℕ × Data
zcard now key = read now key (ok 0) (on_sorted_set (λ zset. ok (zset_len zset)))

unfoldable pub zscore : Instant → Bytes → Bytes → Data → Result (Option F64) × Data
zscore now key member =
    read now key (ok none) (on_sorted_set (λ zset. ok (Map.get member zset.by_member)))

-- The number that an `f64` stands for, scaled: the sign, and the bits below it.
abbrev pub f64_key : F64 → ℤ
f64_key x = if ltb x (2 ^ 63) then pos x else sub_ℕ 0 (x - 2 ^ 63)

abbrev pub is_nan : F64 → Bool
is_nan x = ltb 0x7ff0000000000000 (x % 2 ^ 63)

-- `<=` and `==` of IEEE 754, which hold of no NaN.
abbrev pub f64_le : F64 → F64 → Bool
f64_le a b = not (is_nan a) && not (is_nan b) && leb_ℤ (f64_key a) (f64_key b)

abbrev pub f64_eq : F64 → F64 → Bool
f64_eq a b = f64_le a b && f64_le b a

-- Does ZADD write the score, by its flags?
abbrev pub updates : Bool → Bool → Bool → F64 → F64 → Bool
updates nx gt lt score old_score =
    not nx
    && not (gt && f64_le score old_score)
    && not (lt && f64_le old_score score)
    && not (f64_eq score old_score)

-- What ZADD does with one pair, from the score that the member has.
abbrev pub zadd_choose : {A : Type 0} → Bool → Bool → Bool → Bool → F64 → A → A → A → Option F64 → A
zadd_choose nx xx gt lt score skip updated new none = if xx then skip else new
zadd_choose nx xx gt lt score skip updated new (some old_score) =
    if updates nx gt lt score old_score then updated else skip

-- `score_leb` is `<=` of `OrderedFloat`, a total order of another library.
module _ (score_leb : F64 → F64 → Bool) where
  abbrev pub same_entry : F64 × Bytes → F64 × Bytes → Bool
  same_entry (s, m) (t, n) = score_leb s t && score_leb t s && same m n

  abbrev pub entry_leb : F64 × Bytes → F64 × Bytes → Bool
  entry_leb (s, m) (t, n) = if score_leb s t && score_leb t s then bytes_leb m n else score_leb s t

  -- `by_score.insert`, which keeps a key that is there
  unfoldable pub score_insert : F64 × Bytes → List (F64 × Bytes) → List (F64 × Bytes)
  score_insert e [] = e ∷ []
  score_insert e (x ∷ l) =
      let rest = score_insert e l in
      if same_entry e x then x ∷ l else if entry_leb e x then e ∷ x ∷ l else x ∷ rest

  unfoldable pub score_remove : F64 × Bytes → List (F64 × Bytes) → List (F64 × Bytes)
  score_remove e [] = []
  score_remove e (x ∷ l) = let rest = score_remove e l in if same_entry e x then l else x ∷ rest

  -- `SortedSet::insert`: is the member new?
  unfoldable pub zset_insert : Bytes → F64 → SortedSet → Bool × SortedSet
  unfolding score_insert score_remove
  zset_insert member score zset = elim (Map.get member zset.by_member) [
    | some old_score ↦ (
      false,
      record {
        by_score = score_insert (score, member) (score_remove (old_score, member) zset.by_score);
        by_member = Map.insert member score zset.by_member;
      },
    )
    | none ↦ (
      true,
      record {
        by_score = score_insert (score, member) zset.by_score;
        by_member = Map.insert member score zset.by_member;
      },
    )
  ]

  -- `SortedSet::remove`: was the member there?
  unfoldable pub zset_remove : Bytes → SortedSet → Bool × SortedSet
  unfolding score_remove
  zset_remove member zset = elim (Map.get member zset.by_member) [
    | some score ↦ (
      true,
      record {
        by_score = score_remove (score, member) zset.by_score;
        by_member = Map.remove member zset.by_member;
      },
    )
    | none ↦ (false, zset)
  ]

  -- The loop of ZADD: the counts `added` and `changed`, and the sorted set.
  unfoldable pub zadd_loop :
      Bool → Bool → Bool → Bool → List (F64 × Bytes) → ℕ → ℕ → SortedSet → ℕ × ℕ × SortedSet
  unfolding zset_insert
  zadd_loop nx xx gt lt [] added changed zset = (added, changed, zset)
  zadd_loop nx xx gt lt ((score, member) ∷ members) added changed zset =
      let skip = zadd_loop nx xx gt lt members added changed zset in
      let written = (zset_insert member score zset).1 in
      let updated = zadd_loop nx xx gt lt members added (changed + 1) written in
      let new = zadd_loop nx xx gt lt members (added + 1) (changed + 1) written in
      zadd_choose nx xx gt lt score skip updated new (Map.get member zset.by_member)

  abbrev pub zadd_answer : Bool → ℕ × ℕ × SortedSet → Result ℕ × ValueData
  zadd_answer ch (added, changed, zset) = (ok (if ch then changed else added), sorted_set zset)

  abbrev pub zadd_value :
      Bool → Bool → Bool → Bool → Bool → List (F64 × Bytes) → ValueData → Result ℕ × ValueData
  zadd_value nx xx gt lt ch members (sorted_set zset) =
      zadd_answer ch (zadd_loop nx xx gt lt members 0 0 zset)
  zadd_value nx xx gt lt ch members v = (err wrong_type, v)

  -- XX on a key that was not there adds nothing, and the empty set goes again.
  unfoldable pub zadd :
      Instant
      → Bytes
      → List (F64 × Bytes)
      → Bool
      → Bool
      → Bool
      → Bool
      → Bool
      → Data
      → Result ℕ × Data
  unfolding zadd_loop upsert remove_if_empty
  zadd now key members nx xx gt lt ch m =
      let (r, m') = upsert now key new_sorted_set (zadd_value nx xx gt lt ch members) m in
      (r, remove_if_empty key m')

  unfoldable pub zrem_loop : List Bytes → ℕ → SortedSet → ℕ × SortedSet
  unfolding zset_remove
  zrem_loop [] count zset = (count, zset)
  zrem_loop (member ∷ members) count zset =
      let (found, zset') = zset_remove member zset in
      zrem_loop members (count + count_if found) zset'

  abbrev pub zrem_value : List Bytes → ValueData → Result ℕ × ValueData
  zrem_value members (sorted_set zset) =
      let (count, zset') = zrem_loop members 0 zset in (ok count, sorted_set zset')
  zrem_value members v = (err wrong_type, v)

  unfoldable pub zrem : Instant → Bytes → List Bytes → Data → Result ℕ × Data
  unfolding zrem_loop update_or_drop
  zrem now key members = update_or_drop now key (ok 0) (zrem_value members)
