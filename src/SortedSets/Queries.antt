-- ===== src/SortedSets/Queries.antt =====
-- ZADD, ZRANGEBYSCORE, ZCOUNT and ZREMRANGEBYSCORE, as a client sees them.
use burner_redis.Prelude.{
  ℕ, ◌+◌, ◌≡◌, refl, ap, ◌∙◌, Bool, true, ◌&&◌, not, Option, none, some, List, [], ◌∷◌,
  if◌then◌else◌, arith, Bool-cases, inl, inr, keep_if, map, is_empty, length,
}
use burner_redis.Prelude.Key.{bytes_key, among}
use burner_redis.Map
use burner_redis.Value.{Bytes, Instant, F64, SortedSet, ok}
use burner_redis.Store.{Data}
use burner_redis.Store.View.{live}
use burner_redis.SortedSets.{f64_le, zadd, zadd_loop, zadd_value}
use burner_redis.SortedSets.Members.{scored, writes, zadd_loop_lem}
use burner_redis.SortedSets.Ranges.{
  with_scores, score_range, zrangebyscore, zcount, remove_members, zremrange_value,
  zremrangebyscore,
}
use burner_redis.SortedSets.Consistent.{IsScoreOrder, scores_of, own_entry}
use burner_redis.SortedSets.Ascending.{is_ascending, all_from, between, score_range-between}
use burner_redis.SortedSets.Sound.{
  IsSound, zadd_loop-IsSound, remove_members-IsSound, get-remove_members,
}
use burner_redis.SortedSets.Commands.{zset_view, read_zset, drop_zset, upsert_zset}

scores_of-keep_if :
    (p : F64 × Bytes → Bool) (k : Bytes) (l : List (F64 × Bytes))
    → scores_of k (keep_if p l) ≡ keep_if p (scores_of k l)
scores_of-keep_if p k [] = refl
scores_of-keep_if p k (e ∷ l) = ground (arith, scores_of-keep_if p k l)

among-members :
    (k : Bytes) (l : List (F64 × Bytes))
    → among k (map (λ e. e.1) l) ≡ not (is_empty (scores_of k l))
among-members k [] = refl
among-members k (e ∷ l) = ground (arith, among-members k l)

module _ (score_leb : F64 → F64 → Bool) where
  all_from-keep_if :
      (p : F64 × Bytes → Bool) (s : F64) (l : List (F64 × Bytes))
      → all_from score_leb s l ≡ true
      → all_from score_leb s (keep_if p l) ≡ true
  all_from-keep_if p s [] h = refl
  all_from-keep_if p s (e ∷ l) h = ground (arith, all_from-keep_if p s l)

  keep_if-is_ascending :
      (p : F64 × Bytes → Bool) (l : List (F64 × Bytes))
      → is_ascending score_leb l ≡ true
      → is_ascending score_leb (keep_if p l) ≡ true
  keep_if-is_ascending p [] h = refl
  keep_if-is_ascending p (e ∷ l) h =
      ground (arith, keep_if-is_ascending p l, all_from-keep_if p e.0 l)

  abbrev pub in_bounds : F64 → F64 → F64 → Bool
  in_bounds min max s = score_leb min s && f64_le s max

  -- The score of a member that has one between the bounds.
  abbrev pub inside : F64 → F64 → Option F64 → Option F64
  inside min max none = none
  inside min max (some s) = if in_bounds min max s then some s else none

  -- The score of a member that has one which is not between them.
  abbrev pub outside : F64 → F64 → Option F64 → Option F64
  outside min max none = none
  outside min max (some s) = if in_bounds min max s then none else some s

  -- The entries in order of their scores, of exactly the members with a score between the bounds.
  abbrev pub IsRange : F64 → F64 → SortedSet → List (F64 × Bytes) → Type 0
  IsRange min max z l =
      (is_ascending score_leb l ≡ true)
      × ((k : Bytes) → scores_of k l ≡ own_entry k (inside min max (Map.get k z.by_member)))

  pub between-IsRange :
      (min max : F64) (z : SortedSet)
      → IsSound score_leb z
      → IsRange min max z (between score_leb min max z.by_score)
  between-IsRange min max z h = (
    keep_if-is_ascending (λ e. score_leb min e.0 && f64_le e.0 max) z.by_score h.1,
    λ k.
        scores_of-keep_if (λ e. score_leb min e.0 && f64_le e.0 max) k z.by_score
        ∙ ap (keep_if (λ e. score_leb min e.0 && f64_le e.0 max)) (h.0 k)
        ∙ kept k (Map.get k z.by_member),
  )
    where
      kept :
          (k : Bytes) (o : Option F64)
          → keep_if (λ e. score_leb min e.0 && f64_le e.0 max) (own_entry k o)
            ≡ own_entry k (inside min max o)
      kept k none = refl
      kept k (some s) = ground arith

removed_outside :
    (score_leb : F64 → F64 → Bool) (min max : F64) (k : Bytes) (l : List (F64 × Bytes))
    (o : Option F64)
    → scores_of k l ≡ own_entry k (inside score_leb min max o)
    → (if among k (map (λ e. e.1) l) then none else o) ≡ outside score_leb min max o
removed_outside score_leb min max k l none h = ground (arith, among-members k l)
removed_outside score_leb min max k l (some s) h =
    elim (Bool-cases (in_bounds score_leb min max s)) [
      | inl within ↦
          let own : scores_of k l ≡ (s, k) ∷ [] = h ∙ (rw within refl) in
          rw (among-members k l, own, within) refl
      | inr beyond ↦
          let own : scores_of k l ≡ [] = h ∙ (rw beyond refl) in
          rw (among-members k l, own, beyond) refl
    ]

module _ (score_leb : F64 → F64 → Bool) (order : IsScoreOrder score_leb) (now : Instant)
    (key : Bytes) (m : Data) (z : SortedSet) (view : zset_view (live now key m) ≡ some z)
    (sound : IsSound score_leb z) where
  -- ZADD on a sorted set or a missing key: each member has the score that the pairs leave it by the
  -- flags, in their order; the indexes of the set agree and its scores are in order again; the answer
  -- is the number by which the members have become more, or with CH the number of pairs that were
  -- written, each taken after the ones before it.
  pub zadd_lem :
      (members : List (F64 × Bytes)) (nx xx gt lt ch : Bool)
      → (added : ℕ) × (z' : SortedSet) × ((zadd score_leb now key members nx xx gt lt ch m).0
          ≡ ok (if ch then writes nx xx gt lt members z.by_member else added))
        × (zset_view (live now key (zadd score_leb now key members nx xx gt lt ch m).1) ≡ some z')
        × IsSound score_leb z'
        × (added + Map.len z.by_member ≡ Map.len z'.by_member)
        × ((k : Bytes)
            → Map.get k z'.by_member ≡ scored nx xx gt lt k members (Map.get k z.by_member))
  unfolding zadd
  zadd_lem members nx xx gt lt ch =
      let r = zadd_loop score_leb nx xx gt lt members 0 0 z in
      let sound' = zadd_loop-IsSound score_leb order nx xx gt lt members 0 0 z sound in
      let (answer, seen) =
        upsert_zset now key m z (zadd_value score_leb nx xx gt lt ch members)
          (ok (if ch then r.1 else r.0)) r.2 view refl sound'.0 in
      let (total, counted, _) = zadd_loop_lem score_leb nx xx gt lt key members 0 0 z in
      (
        r.0,
        r.2,
        answer ∙ ap (λ n. ok (if ch then n else r.0)) (counted ∙ omega arith),
        seen,
        sound',
        omega (arith, total),
        λ k. (zadd_loop_lem score_leb nx xx gt lt k members 0 0 z).2,
      )

  -- ZRANGEBYSCORE and ZCOUNT on a sorted set whose indexes agree and whose scores are in order, or a
  -- missing key: the answers are the entries of exactly the members with a score between the bounds, in
  -- order of their scores, and the number of them.
  pub zrangebyscore_lem :
      (min max : F64) (withscores : Bool)
      → (l : List (F64 × Bytes)) × IsRange score_leb min max z l
        × ((zrangebyscore score_leb now key min max withscores m).0 ≡ ok (with_scores withscores l))
        × ((zcount score_leb now key min max m).0 ≡ ok (length l))
  unfolding zrangebyscore zcount score_range
  zrangebyscore_lem min max withscores =
      let l = between score_leb min max z.by_score in
      let range = score_range-between score_leb order min max z.by_score sound.1 in
      (
        l,
        between-IsRange score_leb min max z sound,
        read_zset now key m z view (ok [])
              (λ x. ok (with_scores withscores (score_range score_leb min max x.by_score))) refl
            ∙ ap (λ e. ok (with_scores withscores e)) range,
        read_zset now key m z view (ok 0)
              (λ x. ok (length (score_range score_leb min max x.by_score))) refl
            ∙ ap (λ e. ok (length e)) range,
      )

  -- ZREMRANGEBYSCORE on such a set, or a missing key: the members with a score between the bounds are
  -- gone, the others keep their scores, the answer is the number of entries that ZRANGEBYSCORE finds,
  -- and the indexes agree and the scores are in order again.
  pub zremrangebyscore_lem :
      (min max : F64)
      → (l : List (F64 × Bytes)) × (z' : SortedSet) × IsRange score_leb min max z l
        × ((zremrangebyscore score_leb now key min max m).0 ≡ ok (length l))
        × (zset_view (live now key (zremrangebyscore score_leb now key min max m).1) ≡ some z')
        × IsSound score_leb z'
        × ((k : Bytes) → Map.get k z'.by_member ≡ outside score_leb min max (Map.get k z.by_member))
  unfolding zremrangebyscore score_range
  zremrangebyscore_lem min max =
      let l = between score_leb min max z.by_score in
      let is_range = between-IsRange score_leb min max z sound in
      let range = score_range-between score_leb order min max z.by_score sound.1 in
      let z' = remove_members score_leb l z in
      let sound' = remove_members-IsSound score_leb order l z sound in
      let (answer, seen) =
        drop_zset now key m z view (ok 0) (ok (length l)) (zremrange_value score_leb min max) z'
          refl (rw range refl) sound'.0 in
      (
        l,
        z',
        is_range,
        answer,
        seen,
        sound',
        λ k.
            get-remove_members score_leb k l z
            ∙ removed_outside score_leb min max k l (Map.get k z.by_member) (is_range.1 k),
      )
