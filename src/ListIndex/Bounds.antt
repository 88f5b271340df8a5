-- ===== src/ListIndex/Bounds.antt =====
-- The ranges of LRANGE and LTRIM: their bounds, the elements that they take, and that no
-- intermediate value leaves the range of an `i64`.
use burner_redis.Prelude.{
  ℕ, ◌≤◌, ◌<◌, ◌^◌, ◌≡◌, Bool, true, false, ◌&&◌, Option, none, some, arith, leb,
}
use burner_redis.Prelude.Int.{ℤ, pos, negsuc, leb_ℤ, in_i64}
use burner_redis.ListIndex.{normalize_range_indices, from_tail, range_start, range_end}

-- A range that is not empty lies within the list.
pub normalize_range_indices_bounds :
    (start stop : ℤ) (len : ℕ) {s e : ℕ}
    → normalize_range_indices start stop len ≡ some (s, e)
    → (s ≤ e) × (e < len)
unfolding normalize_range_indices
normalize_range_indices_bounds start stop len h = ground arith

-- Does the index lie between the two, counted from the tail where they are negative?
abbrev pub between : ℤ → ℤ → ℕ → ℕ → Bool
between start stop len k =
    leb_ℤ (from_tail (pos len) start) (pos k) && leb_ℤ (pos k) (from_tail (pos len) stop)

abbrev pub covers : Option (ℕ × ℕ) → ℕ → Bool
covers none k = false
covers (some (s, e)) k = leb s k && leb k e

-- The range takes exactly the indices of the list that lie between the two arguments, counted from
-- the tail where they are negative.
pub covers-normalize_range_indices :
    (start stop : ℤ) (len k : ℕ)
    → k < len
    → covers (normalize_range_indices start stop len) k ≡ between start stop len k
unfolding normalize_range_indices from_tail
covers-normalize_range_indices (pos i) (pos j) len k h = ground arith
covers-normalize_range_indices (pos i) (negsuc j) len k h = ground arith
covers-normalize_range_indices (negsuc i) (pos j) len k h = ground arith
covers-normalize_range_indices (negsuc i) (negsuc j) len k h = ground arith

-- For an index that is an `i64` and a list that is not empty and shorter than 2^63, the index from
-- the tail and both ends of a range stay in the range of an `i64`.
pub index_sums_in_i64 :
    (index : ℤ) (len : ℕ)
    → in_i64 index ≡ true
    → 0 < len
    → len < 2 ^ 63
    → in_i64 (from_tail (pos len) index)
        && in_i64 (range_start (pos len) index)
        && in_i64 (range_end (pos len) index)
      ≡ true
unfolding from_tail range_start range_end
index_sums_in_i64 (pos i) len p o q = ground arith
index_sums_in_i64 (negsuc i) len p o q = ground arith
