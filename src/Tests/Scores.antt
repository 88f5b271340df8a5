-- ===== src/Tests/Scores.antt =====
-- ZADD on a small sorted set; the scores are 1.0, 2.0 and 3.0.
use burner_redis.Prelude.{
  ℕ, ◌+◌, some, none, Bool, ◌||◌, length, if◌then◌else◌, arith, leb, ◌≡◌, refl, [], ◌∷◌, true,
  false, List, ite,
}
use burner_redis.Prelude.Key.{bytes_discrete, bytes_key}
use burner_redis.Map
use burner_redis.Prelude.Int.{pos, negsuc, ℤ, leb_ℤ}
use burner_redis.Value.{Bytes, F64, SortedSet, sorted_set, ok, is_expired}
use burner_redis.SortedSets.{
  zadd_loop, zadd, zset_insert, zset_remove, score_insert, score_remove, f64_le, f64_key, is_nan,
}
use burner_redis.SortedSets.Members.{scored, writes}
use burner_redis.SortedSets.Ranges.{
  zrange, zrangebyscore, zcount, zremrangebyscore, zrangestore, with_scores, score_range,
  remove_members, insert_each,
}
use burner_redis.SortedSets.Consistent.{IsScoreOrder}
use burner_redis.SortedSets.Sound.{IsSound}
use burner_redis.SortedSets.Commands.{zset_view}
use burner_redis.SortedSets.Queries.{
  IsRange, inside, outside, zadd_lem, zrangebyscore_lem, zremrangebyscore_lem,
}
use burner_redis.SortedSets.Stored.{zrangestore_lem, stored}
use burner_redis.Store.{
  Data, read, update_or_drop, write_entry, remove_if_empty, expired_at, evict, upsert,
}
use burner_redis.Store.View.{live}
use burner_redis.PubSub.{bytes_leb}
use burner_redis.Tests.Inputs.{a, b, five, m, permanent}

abbrev one : F64
one = 0x3ff0000000000000

abbrev two : F64
two = 0x4000000000000000

abbrev three : F64
three = 0x4008000000000000

abbrev z : SortedSet
z = record { by_score = (two, a) ∷ []; by_member = (a, two) ∷ [] }

abbrev two_members : SortedSet
two_members = record {
  by_score = (two, a) ∷ (three, b) ∷ [];
  by_member = (b, three) ∷ (a, two) ∷ [];
}

abbrev board : Bytes
board = b'z' ∷ []

abbrev scores : Data
scores = (board, permanent (sorted_set two_members)) ∷ m

abbrev pairs : List (F64 × Bytes)
pairs = (one, a) ∷ (three, b) ∷ (one, b) ∷ []

-- With GT neither score falls.
zadd_greater : zadd_loop leb false false true false pairs 0 0 z ≡ (
  1,
  1,
  record { by_score = (two, a) ∷ (three, b) ∷ []; by_member = (a, two) ∷ (b, three) ∷ [] },
)
unfolding zadd_loop Map.get Map.insert bytes_discrete
zadd_greater = refl

-- The order of `OrderedFloat`: a NaN is above all, and two are equal.
abbrev pub ordered_leb : F64 → F64 → Bool
ordered_leb x y = is_nan y || f64_le x y

leb_ℤ_total : (x y : ℤ) → (leb_ℤ x y || leb_ℤ y x) ≡ true
leb_ℤ_total x y = ground arith

leb_ℤ_trans : (x y w : ℤ) → leb_ℤ x y ≡ true → leb_ℤ y w ≡ true → leb_ℤ x w ≡ true
leb_ℤ_trans x y w h k = ground arith

pub ordered_leb-IsScoreOrder : IsScoreOrder ordered_leb
ordered_leb-IsScoreOrder = record {
  total = λ x y. ground (arith, leb_ℤ_total (f64_key x) (f64_key y));
  trans = λ x y w h k. ground (arith, leb_ℤ_trans (f64_key x) (f64_key y) (f64_key w));
  below = λ x y w h k. ground (arith, leb_ℤ_trans (f64_key x) (f64_key y) (f64_key w));
}

run_scores : Unit {0}
unfolding zadd zset_insert zset_remove score_insert score_remove zrange zrangebyscore zcount
    zremrangebyscore zrangestore score_range remove_members insert_each zadd_loop Map.get Map.insert
    Map.remove Map.contains_key bytes_discrete live is_expired read update_or_drop write_entry
    remove_if_empty expired_at evict upsert bytes_leb
run_scores = tt

zrange-last : (zrange 3 board (negsuc 0) (negsuc 0) false scores).0 ≡ ok ((b, none) ∷ [])
unfolding run_scores
zrange-last = refl

zrange_all :
    (zrange 3 board (negsuc 9) (pos 9) true scores).0 ≡ ok ((a, some two) ∷ (b, some three) ∷ [])
unfolding run_scores
zrange_all = refl

zrangebyscore-board :
    (zrangebyscore ordered_leb 3 board two two true scores).0 ≡ ok ((a, some two) ∷ [])
unfolding run_scores
zrangebyscore-board = refl

zrangestore-board :
    live 3 five (zrangestore ordered_leb 3 five board three three scores).1
    ≡ some (
        permanent (sorted_set (record { by_score = (three, b) ∷ []; by_member = (b, three) ∷ [] })))
unfolding run_scores
zrangestore-board = refl

-- With no member in the range the destination goes.
zrangestore_nothing : live 3 board (zrangestore ordered_leb 3 board board one one scores).1 ≡ none
unfolding run_scores
zrangestore_nothing = refl

two_members-IsSound : IsSound ordered_leb two_members
unfolding run_scores
two_members-IsSound = (λ k. ground arith, refl)

zadd_lem_example :
    (added : ℕ) × (z' : SortedSet) × ((zadd ordered_leb 3 board pairs false false true false true
        scores).0
      ≡ ok (if true then writes false false true false pairs two_members.by_member else added))
    × (zset_view
          (live 3 board (zadd ordered_leb 3 board pairs false false true false true scores).1)
        ≡ some z')
    × IsSound ordered_leb z'
    × (added + 2 ≡ Map.len z'.by_member)
    × ((k : Bytes)
        → Map.get k z'.by_member
          ≡ scored false false true false k pairs (Map.get k two_members.by_member))
unfolding run_scores
zadd_lem_example =
    zadd_lem ordered_leb ordered_leb-IsScoreOrder 3 board scores two_members refl
      two_members-IsSound pairs false false true false true

zrangebyscore_lem_example :
    (l : List (F64 × Bytes)) × IsRange ordered_leb one two two_members l
    × ((zrangebyscore ordered_leb 3 board one two true scores).0 ≡ ok (with_scores true l))
    × ((zcount ordered_leb 3 board one two scores).0 ≡ ok (length l))
unfolding run_scores
zrangebyscore_lem_example =
    zrangebyscore_lem ordered_leb ordered_leb-IsScoreOrder 3 board scores two_members refl
      two_members-IsSound one two true

zremrangebyscore_lem_example :
    (l : List (F64 × Bytes)) × (z' : SortedSet) × IsRange ordered_leb one two two_members l
    × ((zremrangebyscore ordered_leb 3 board one two scores).0 ≡ ok (length l))
    × (zset_view (live 3 board (zremrangebyscore ordered_leb 3 board one two scores).1) ≡ some z')
    × IsSound ordered_leb z'
    × ((k : Bytes)
        → Map.get k z'.by_member ≡ outside ordered_leb one two (Map.get k two_members.by_member))
unfolding run_scores
zremrangebyscore_lem_example =
    zremrangebyscore_lem ordered_leb ordered_leb-IsScoreOrder 3 board scores two_members refl
      two_members-IsSound one two

zrangestore_lem_example :
    (l : List (F64 × Bytes)) × (z' : SortedSet) × IsRange ordered_leb two three two_members l
    × ((zrangestore ordered_leb 3 five board two three scores).0 ≡ ok (length l))
    × ((j : Bytes)
        → live 3 j (zrangestore ordered_leb 3 five board two three scores).1
          ≡ ite (bytes_discrete five j) (stored l z') (live 3 j scores))
    × IsSound ordered_leb z'
    × ((k : Bytes)
        → Map.get k z'.by_member ≡ inside ordered_leb two three (Map.get k two_members.by_member))
unfolding run_scores
zrangestore_lem_example =
    zrangestore_lem ordered_leb ordered_leb-IsScoreOrder 3 five board two three scores two_members
      refl two_members-IsSound
