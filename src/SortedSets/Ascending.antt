-- ===== src/SortedSets/Ascending.antt =====
-- `by_score` is in the order of the scores, after each operation.
use burner_redis.Prelude.{
  ◌≡◌, refl, Bool, true, false, ◌&&◌, List, [], ◌∷◌, arith, Bool-cases, inl, inr, keep_if,
}
use burner_redis.Prelude.Key.{bytes_key}
use burner_redis.Value.{Bytes, F64}
use burner_redis.SortedSets.{f64_le, entry_leb, score_insert, score_remove}
use burner_redis.PubSub.{bytes_leb}
use burner_redis.SortedSets.Ranges.{score_range}
use burner_redis.SortedSets.Consistent.{IsScoreOrder}

module _ (score_leb : F64 → F64 → Bool) where
  abbrev pub all_from : F64 → List (F64 × Bytes) → Bool
  all_from s [] = true
  all_from s (e ∷ l) = score_leb s e.0 && all_from s l

  abbrev pub is_ascending : List (F64 × Bytes) → Bool
  is_ascending [] = true
  is_ascending (e ∷ l) = all_from e.0 l && is_ascending l

  -- The entries whose score lies between the bounds.
  abbrev pub between : F64 → F64 → List (F64 × Bytes) → List (F64 × Bytes)
  between min max = keep_if (λ e. score_leb min e.0 && f64_le e.0 max)

module _ (score_leb : F64 → F64 → Bool) (order : IsScoreOrder score_leb) where
  all_from_trans :
      (s t : F64) (l : List (F64 × Bytes))
      → score_leb s t ≡ true
      → all_from score_leb t l ≡ true
      → all_from score_leb s l ≡ true
  all_from_trans s t [] h k = refl
  all_from_trans s t (e ∷ l) h k = ground (arith, all_from_trans s t l, order.trans s t e.0)

  all_from-score_insert :
      (s : F64) (e : F64 × Bytes) (l : List (F64 × Bytes))
      → score_leb s e.0 ≡ true
      → all_from score_leb s l ≡ true
      → all_from score_leb s (score_insert score_leb e l) ≡ true
  unfolding score_insert
  all_from-score_insert s e [] h k = ground arith
  all_from-score_insert s e (x ∷ l) h k = ground (arith, all_from-score_insert s e l)

  pub score_insert-is_ascending :
      (e : F64 × Bytes) (l : List (F64 × Bytes))
      → is_ascending score_leb l ≡ true
      → is_ascending score_leb (score_insert score_leb e l) ≡ true
  unfolding score_insert
  score_insert-is_ascending e [] h = refl
  score_insert-is_ascending e (x ∷ l) h = ground (
    arith,
    score_insert-is_ascending e l,
    all_from-score_insert x.0 e l,
    all_from_trans e.0 x.0 l,
    order.total e.0 x.0,
  )

  all_from-score_remove :
      (s : F64) (e : F64 × Bytes) (l : List (F64 × Bytes))
      → all_from score_leb s l ≡ true
      → all_from score_leb s (score_remove score_leb e l) ≡ true
  unfolding score_remove
  all_from-score_remove s e [] h = refl
  all_from-score_remove s e (x ∷ l) h = ground (arith, all_from-score_remove s e l)

  pub score_remove-is_ascending :
      (e : F64 × Bytes) (l : List (F64 × Bytes))
      → is_ascending score_leb l ≡ true
      → is_ascending score_leb (score_remove score_leb e l) ≡ true
  unfolding score_remove
  score_remove-is_ascending e [] h = refl
  score_remove-is_ascending e (x ∷ l) h =
      ground (arith, score_remove-is_ascending e l, all_from-score_remove x.0 e l)

  none_between :
      (min max s : F64) (l : List (F64 × Bytes))
      → f64_le s max ≡ false
      → all_from score_leb s l ≡ true
      → between score_leb min max l ≡ []
  none_between min max s [] h k = refl
  none_between min max s (e ∷ l) h k =
      ground (arith, none_between min max s l, order.below s e.0 max)

  -- The least entry with a score is below another exactly if the score is.
  least_entry : (min : F64) (e : F64 × Bytes) → entry_leb score_leb (min, []) e ≡ score_leb min e.0
  unfolding bytes_leb
  least_entry min e = elim (Bool-cases (score_leb min e.0 && score_leb e.0 min)) [
    | inl equal ↦ ground arith
    | inr other ↦ ground arith
  ]

  pub score_range-between :
      (min max : F64) (l : List (F64 × Bytes))
      → is_ascending score_leb l ≡ true
      → score_range score_leb min max l ≡ between score_leb min max l
  unfolding score_range
  score_range-between min max [] h = refl
  score_range-between min max (e ∷ l) h =
      let here = least_entry min e in
      let rest = score_range-between min max l (ground arith) in
      elim (Bool-cases (score_leb min e.0)) [
        | inr low ↦ ground (arith, here, rest)
        | inl reached ↦ elim (Bool-cases (f64_le e.0 max)) [
          | inl inside ↦ ground (arith, here, rest)
          | inr beyond ↦ ground (arith, here, none_between min max e.0 l)
        ]
      ]
