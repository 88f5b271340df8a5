-- ===== src/Tests/Lists.antt =====
-- The list commands on the small key space.
use burner_redis.Prelude.{
  ◌≡◌, refl, arith, none, some, [], ◌∷◌, true, if◌then◌else◌, ite, ◌&&◌, is_empty, length,
}
use burner_redis.Prelude.Int.{pos, negsuc, in_i64}
use burner_redis.Prelude.Key.{bytes_key, bytes_discrete}
use burner_redis.Map
use burner_redis.Value.{is_expired, ok, Bytes, list, Instant, ValueEntry}
use burner_redis.Store.{read, expired_at}
use burner_redis.Store.View.{live}
use burner_redis.ListIndex.{normalize_range_indices, from_tail, range_start, range_end, tail, right}
use burner_redis.ListIndex.Bounds.{index_sums_in_i64, between}
use burner_redis.Lists.Seq.{lrem_list}
use burner_redis.Lists.Remove.{lrem_list_lem, lrem_spec}
use burner_redis.Lists.Commands.{lrange, ltrim, pop_key, array}
use burner_redis.Lists.View.{kept_list}
use burner_redis.Lists.Pops.{popped, left_over, pop_key_lem}
use burner_redis.Lists.Ranges.{select, lrange_lem, ltrim_lem}
use burner_redis.Tests.Inputs.{queue, a, b, m}

program : Unit {0}
unfolding Map.get Map.insert Map.remove bytes_discrete is_expired live read expired_at
    normalize_range_indices from_tail lrem_list lrange pop_key
program = tt

abbrev stored : ValueEntry
stored = record { value = list (a ∷ b ∷ a ∷ []); expires_at = some 100 }

lrem_from_tail : lrem_list (tail 1) a (a ∷ b ∷ a ∷ b ∷ []) ≡ (1, a ∷ b ∷ b ∷ [])
unfolding program
lrem_from_tail = refl

lrange-queue : (lrange 3 queue (negsuc 1) (pos 9) m).0 ≡ ok (b ∷ a ∷ [])
unfolding program
lrange-queue = refl

index_sums_in_i64_example :
    in_i64 (from_tail (pos 3) (negsuc 9))
      && in_i64 (range_start (pos 3) (negsuc 9))
      && in_i64 (range_end (pos 3) (negsuc 9))
    ≡ true
index_sums_in_i64_example = index_sums_in_i64 (negsuc 9) 3 refl (omega arith) (omega arith)

lrem_list_lem_example :
    lrem_list (tail 1) a (a ∷ b ∷ a ∷ b ∷ []) ≡ lrem_spec (tail 1) a (a ∷ b ∷ a ∷ b ∷ [])
lrem_list_lem_example = lrem_list_lem (tail 1) a (a ∷ b ∷ a ∷ b ∷ [])

pop_key_lem_example :
    ((pop_key right 3 queue (some 2) m).0 ≡ ok (array (popped right 2 (a ∷ b ∷ a ∷ []))))
    × ((t : Instant) (j : Bytes)
        → live t j (pop_key right 3 queue (some 2) m).1
          ≡ ite
              (bytes_discrete queue j)
              (kept_list t (left_over right 2 (a ∷ b ∷ a ∷ [])) stored)
              (live t j m))
unfolding program
pop_key_lem_example = pop_key_lem right 3 queue m stored (a ∷ b ∷ a ∷ []) refl refl 1

lrange_lem_example :
    (lrange 3 queue (negsuc 1) (pos 9) m).0
    ≡ ok (select (between (negsuc 1) (pos 9) (length (a ∷ b ∷ a ∷ []))) 0 (a ∷ b ∷ a ∷ []))
unfolding program
lrange_lem_example = lrange_lem 3 queue (negsuc 1) (pos 9) m (a ∷ b ∷ a ∷ []) refl

ltrim_lem_example :
    ((ltrim 3 queue (pos 1) (negsuc 0) m).0 ≡ ok tt)
    × (live 3 queue (ltrim 3 queue (pos 1) (negsuc 0) m).1 ≡ (
        if is_empty
          (select (between (pos 1) (negsuc 0) (length (a ∷ b ∷ a ∷ []))) 0 (a ∷ b ∷ a ∷ []))
        then none
        else some (record stored {
          value =
              list
                (select (between (pos 1) (negsuc 0) (length (a ∷ b ∷ a ∷ []))) 0 (a ∷ b ∷ a ∷ []));
        })))
unfolding program
ltrim_lem_example = ltrim_lem 3 queue (pos 1) (negsuc 0) m stored (a ∷ b ∷ a ∷ []) refl refl
