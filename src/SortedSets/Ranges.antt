-- ===== src/SortedSets/Ranges.antt =====
-- ZRANGE, ZRANGEBYSCORE, ZRANGESTORE, ZREMRANGEBYSCORE and ZCOUNT of src/store.rs, lines 972 to 1181 and
-- 1229 to 1258.
use burner_redis.Prelude.{
  ℕ, ◌+◌, ◌-◌, Bool, ◌||◌, Option, none, some, List, [], ◌∷◌, if◌then◌else◌, length, take, drop,
  map, keep_if, ◌==◌,
}
use burner_redis.Prelude.Int.{ℤ, pos, negsuc, ◌+ℤ◌, is_neg, leb_ℤ, ltb_ℤ, max_ℤ, min_ℤ, to_usize}
use burner_redis.Prelude.Key.{bytes_key}
use burner_redis.Map
use burner_redis.Value.{
  Bytes, Instant, F64, ValueData, ValueEntry, SortedSet, sorted_set, Result, ok, err, wrong_type,
}
use burner_redis.Store.{Data, read, evict, zset_len, update_or_drop}
use burner_redis.SortedSets.{on_sorted_set, f64_le, entry_leb, zset_insert, zset_remove}

-- `(member.clone(), if withscores { Some(score) } else { None })`
abbrev pub Scored : Type 0
Scored = List (Bytes × Option F64)

abbrev pub with_scores : Bool → List (F64 × Bytes) → Scored
with_scores withscores = map (λ e. (e.1, if withscores then some e.0 else none))

-- An index from the tail is counted from there, and both ends are clamped.
abbrev pub rank_start : ℤ → ℤ → ℤ
rank_start n start = max_ℤ (if is_neg start then n +ℤ start else start) (pos 0)

abbrev pub rank_stop : ℤ → ℤ → ℤ
rank_stop n stop = min_ℤ (if is_neg stop then n +ℤ stop else stop) (n +ℤ negsuc 0)

abbrev pub by_rank : ℤ → ℤ → ℤ → List (F64 × Bytes) → List (F64 × Bytes)
by_rank n start stop l =
    let real_start = rank_start n start in
    let real_stop = rank_stop n stop in
    if ltb_ℤ real_stop real_start || leb_ℤ n real_start
    then []
    else take (to_usize real_stop - to_usize real_start + 1) (drop (to_usize real_start) l)

abbrev pub zrange_value : ℤ → ℤ → Bool → SortedSet → Result Scored
zrange_value start stop withscores zset =
    if zset_len zset == 0
    then ok []
    else ok (with_scores withscores (by_rank (pos (zset_len zset)) start stop zset.by_score))

unfoldable pub zrange : Instant → Bytes → ℤ → ℤ → Bool → Data → Result Scored × Data
zrange now key start stop withscores =
    read now key (ok []) (on_sorted_set (zrange_value start stop withscores))

-- `take_while`
abbrev pub take_while {ℓ} : {A : Type ℓ} → (A → Bool) → List A → List A
take_while p [] = []
take_while p (x ∷ l) = if p x then x ∷ take_while p l else []

-- `SortedSet::new`
abbrev pub empty_zset : SortedSet
empty_zset = record { by_score = []; by_member = [] }

module _ (score_leb : F64 → F64 → Bool) where
  -- `range` from the least entry with the lower bound for its score, up to the upper bound
  unfoldable pub score_range : F64 → F64 → List (F64 × Bytes) → List (F64 × Bytes)
  score_range min max l =
      take_while (λ e. f64_le e.0 max) (keep_if (λ e. entry_leb score_leb (min, []) e) l)

  unfoldable pub zrangebyscore : Instant → Bytes → F64 → F64 → Bool → Data → Result Scored × Data
  unfolding score_range
  zrangebyscore now key min max withscores =
      read now key (ok [])
        (on_sorted_set (λ zset. ok (with_scores withscores (score_range min max zset.by_score))))

  unfoldable pub zcount : Instant → Bytes → F64 → F64 → Data → Result ℕ × Data
  unfolding score_range
  zcount now key min max =
      read now key (ok 0) (on_sorted_set (λ zset. ok (length (score_range min max zset.by_score))))

  -- The loop over the members that were collected.
  unfoldable pub remove_members : List (F64 × Bytes) → SortedSet → SortedSet
  unfolding zset_remove
  remove_members [] zset = zset
  remove_members (e ∷ l) zset = remove_members l (zset_remove score_leb e.1 zset).1

  abbrev pub zremrange_value : F64 → F64 → ValueData → Result ℕ × ValueData
  zremrange_value min max (sorted_set zset) =
      let to_remove = score_range min max zset.by_score in
      (ok (length to_remove), sorted_set (remove_members to_remove zset))
  zremrange_value min max v = (err wrong_type, v)

  unfoldable pub zremrangebyscore : Instant → Bytes → F64 → F64 → Data → Result ℕ × Data
  unfolding score_range remove_members
  zremrangebyscore now key min max = update_or_drop now key (ok 0) (zremrange_value min max)

  unfoldable pub insert_each : List (F64 × Bytes) → SortedSet → SortedSet
  unfolding zset_insert
  insert_each [] zset = zset
  insert_each (e ∷ l) zset = insert_each l (zset_insert score_leb e.1 e.0 zset).1

  -- The members of the source, as its entry has them.
  abbrev pub members_of : F64 → F64 → Option ValueEntry → Result (List (F64 × Bytes))
  members_of min max none = ok []
  members_of min max (some entry) = elim entry.value [
    | sorted_set zset ↦ ok (score_range min max zset.by_score)
    | _ ↦ err wrong_type
  ]

  -- No member leaves no destination; else it is replaced, whatever it was.
  abbrev pub store_range : Bytes → Data → Result (List (F64 × Bytes)) → Result ℕ × Data
  store_range dst m (err e) = (err e, m)
  store_range dst m (ok []) = (ok 0, Map.remove dst m)
  store_range dst m (ok (e ∷ l)) = (
    ok (length (e ∷ l)),
    Map.insert dst
        (record { value = sorted_set (insert_each (e ∷ l) empty_zset); expires_at = none }) m,
  )

  unfoldable pub zrangestore : Instant → Bytes → Bytes → F64 → F64 → Data → Result ℕ × Data
  unfolding evict score_range insert_each
  zrangestore now dst src min max m =
      let m' = evict now src m in store_range dst m' (members_of min max (Map.get src m'))
