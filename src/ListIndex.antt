-- ===== src/ListIndex.antt =====
-- The index helpers of src/commands/lists.rs: ends, positions, LREM's count and index ranges.
pub mod Bounds
use burner_redis.Prelude.{
  ℕ, zero, suc, ◌+◌, Bool, true, false, ◌||◌, Option, none, some, List, if◌then◌else◌, ◌==◌,
}
use burner_redis.Prelude.Int.{ℤ, pos, negsuc, ◌+ℤ◌, ltb_ℤ, leb_ℤ, is_neg, max_ℤ, min_ℤ, to_usize}

pub data ListEnd : Type 0 where
  left right : ListEnd

pub data InsertPosition : Type 0 where
  before after : InsertPosition

pub data LremDirection : Type 0 where
  head tail : ℕ → LremDirection
  all : LremDirection

-- `count.unsigned_abs()` of a negative count -(n + 1) is n + 1.
unfoldable pub parse_lrem_count : ℤ → LremDirection
parse_lrem_count (pos zero) = all
parse_lrem_count (pos (suc n)) = head (suc n)
parse_lrem_count (negsuc n) = tail (suc n)

-- `if index < 0 { index + n } else { index }`
unfoldable pub from_tail : ℤ → ℤ → ℤ
from_tail n index = if is_neg index then index +ℤ n else index

unfoldable pub range_start : ℤ → ℤ → ℤ
range_start n start = if is_neg start then max_ℤ (start +ℤ n) (pos 0) else start

unfoldable pub range_end : ℤ → ℤ → ℤ
range_end n stop = if is_neg stop then stop +ℤ n else min_ℤ stop (n +ℤ negsuc 0)

unfoldable pub normalize_range_indices : ℤ → ℤ → ℕ → Option (ℕ × ℕ)
unfolding range_start range_end
normalize_range_indices start stop len =
    if len == 0
    then none
    else let n : ℤ = pos len in
      let s = range_start n start in
      let e = range_end n stop in
      if leb_ℤ n s || is_neg e || ltb_ℤ e s then none else some (to_usize s, to_usize e)
