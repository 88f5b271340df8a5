-- ===== src/SortedSets/Consistent.antt =====
-- The two indexes of a sorted set hold the same members with the same scores, after each operation.
use burner_redis.Prelude.{
  ◌≡◌, ap, ◌∙◌, Bool, true, ◌||◌, Option, none, some, List, [], ◌∷◌, arith, ite, Option-cases, inl,
  inr, keep_if,
}
use burner_redis.Prelude.Key.{bytes_key, bytes_discrete, same}
use burner_redis.Map
use burner_redis.Map.Laws.{get-insert, get-remove}
use burner_redis.Value.{Bytes, F64, SortedSet}
use burner_redis.SortedSets.{f64_le, score_insert, score_remove, zset_insert, zset_remove}

-- What the order of `OrderedFloat` is documented to be: total, and on the numbers that of IEEE 754,
-- below which no number rises by going down.
pub record IsScoreOrder (score_leb : F64 → F64 → Bool) : Type 0 where
  pub total : (a b : F64) → (score_leb a b || score_leb b a) ≡ true
  pub trans : (a b c : F64) → score_leb a b ≡ true → score_leb b c ≡ true → score_leb a c ≡ true
  pub below : (a b c : F64) → score_leb a b ≡ true → f64_le b c ≡ true → f64_le a c ≡ true

-- The entries of one member.
abbrev pub scores_of : Bytes → List (F64 × Bytes) → List (F64 × Bytes)
scores_of m = keep_if (λ e. same e.1 m)

abbrev pub own_entry : Bytes → Option F64 → List (F64 × Bytes)
own_entry m none = []
own_entry m (some s) = (s, m) ∷ []

-- Each member stands in `by_score` once, with the score that `by_member` has for it.
abbrev pub IsConsistent : SortedSet → Type 0
IsConsistent zset = (m : Bytes) → scores_of m zset.by_score ≡ own_entry m (Map.get m zset.by_member)

module _ (score_leb : F64 → F64 → Bool) (order : IsScoreOrder score_leb) where
  scores_of-score_insert :
      (m : Bytes) (e : F64 × Bytes) (l : List (F64 × Bytes))
      → scores_of e.1 l ≡ []
      → scores_of m (score_insert score_leb e l)
        ≡ ite (bytes_discrete e.1 m) (e ∷ []) (scores_of m l)
  unfolding score_insert
  scores_of-score_insert m e [] h = ground arith
  scores_of-score_insert m e (x ∷ l) h =
      let rest : scores_of e.1 l ≡ [] = ground arith in
      elim (bytes_discrete x.1 e.1) [
        | yes q ↦ absurd (ground arith)
        | no q ↦ ground (arith, scores_of-score_insert m e l rest, ap (λ i. scores_of i l))
      ]

  scores_of-score_remove :
      (m k : Bytes) (s : F64) (l : List (F64 × Bytes))
      → scores_of k l ≡ (s, k) ∷ []
      → scores_of m (score_remove score_leb (s, k) l) ≡ ite (bytes_discrete k m) [] (scores_of m l)
  unfolding score_remove
  scores_of-score_remove m k s [] h = absurd (ground arith)
  scores_of-score_remove m k s (x ∷ l) h = elim (bytes_discrete x.1 k) [
    | yes p ↦ ground (arith, order.total s s, ap (λ i. scores_of i l))
    | no p ↦ ground (arith, scores_of-score_remove m k s l)
  ]

  pub zset_insert-IsConsistent :
      (k : Bytes) (s : F64) (z : SortedSet)
      → IsConsistent z
      → IsConsistent (zset_insert score_leb k s z).1
  unfolding zset_insert
  zset_insert-IsConsistent k s z h m = elim (Option-cases (Map.get k z.by_member)) [
    | inl absent ↦
        let free : scores_of k z.by_score ≡ [] = h k ∙ ap (own_entry k) absent in
        rw (zset_insert, absent)
          (ground (
            arith,
            scores_of-score_insert m (s, k) z.by_score free,
            get-insert k m s z.by_member,
            h m,
          ))
    | inr (old, present) ↦
        let own : scores_of k z.by_score ≡ (old, k) ∷ [] = h k ∙ ap (own_entry k) present in
        let left = score_remove score_leb (old, k) z.by_score in
        let free : scores_of k left ≡ [] =
          ground (arith, scores_of-score_remove k k old z.by_score own) in
        rw (zset_insert, present)
          (ground (
            arith,
            scores_of-score_insert m (s, k) left free,
            scores_of-score_remove m k old z.by_score own,
            get-insert k m s z.by_member,
            h m,
          ))
  ]

  pub zset_remove-IsConsistent :
      (k : Bytes) (z : SortedSet) → IsConsistent z → IsConsistent (zset_remove score_leb k z).1
  unfolding zset_remove
  zset_remove-IsConsistent k z h m = elim (Option-cases (Map.get k z.by_member)) [
    | inl absent ↦ rw (zset_remove, absent) (h m)
    | inr (old, present) ↦
        let own : scores_of k z.by_score ≡ (old, k) ∷ [] = h k ∙ ap (own_entry k) present in
        rw (zset_remove, present)
          (ground
            (arith, scores_of-score_remove m k old z.by_score own, get-remove k m z.by_member, h m))
  ]
