-- ===== src/SortedSets/Sound.antt =====
-- A sorted set whose indexes agree and whose scores are in order stays one.
use burner_redis.Prelude.{
  ℕ, ◌+◌, ◌≡◌, refl, sym, ap, ◌∙◌, Bool, true, false, Option, none, some, List, [], ◌∷◌,
  if◌then◌else◌, arith, Option-cases, Bool-cases, inl, inr, map, ◌==◌,
}
use burner_redis.Prelude.Key.{bytes_key, among}
use burner_redis.Map
use burner_redis.Map.{Map}
use burner_redis.Map.Laws.{get-remove, remove_absent}
use burner_redis.Value.{Bytes, F64, SortedSet}
use burner_redis.SortedSets.{
  updates, score_remove, zset_insert, zset_remove, zadd_loop, zadd_choose,
}
use burner_redis.SortedSets.Ranges.{remove_members, empty_zset}
use burner_redis.SortedSets.Consistent.{
  IsScoreOrder, IsConsistent, scores_of, own_entry, zset_insert-IsConsistent,
  zset_remove-IsConsistent,
}
use burner_redis.SortedSets.Ascending.{
  is_ascending, score_insert-is_ascending, score_remove-is_ascending,
}

abbrev pub IsSound : (F64 → F64 → Bool) → SortedSet → Type 0
IsSound score_leb z = IsConsistent z × (is_ascending score_leb z.by_score ≡ true)

pub empty-IsSound : (score_leb : F64 → F64 → Bool) → IsSound score_leb empty_zset
unfolding Map.get
empty-IsSound score_leb = (λ m. refl, refl)

module _ (score_leb : F64 → F64 → Bool) (order : IsScoreOrder score_leb) where
  insert_is_ascending :
      (k : Bytes) (s : F64) (z : SortedSet)
      → is_ascending score_leb z.by_score ≡ true
      → is_ascending score_leb (zset_insert score_leb k s z).1.by_score ≡ true
  unfolding zset_insert
  insert_is_ascending k s z h = elim (Option-cases (Map.get k z.by_member)) [
    | inl absent ↦
        rw (zset_insert, absent) (score_insert-is_ascending score_leb order (s, k) z.by_score h)
    | inr (old, present) ↦
        rw (zset_insert, present)
          (score_insert-is_ascending score_leb order (s, k)
            (score_remove score_leb (old, k) z.by_score)
            (score_remove-is_ascending score_leb order (old, k) z.by_score h))
  ]

  pub zset_insert-IsSound :
      (k : Bytes) (s : F64) (z : SortedSet)
      → IsSound score_leb z
      → IsSound score_leb (zset_insert score_leb k s z).1
  zset_insert-IsSound k s z h =
      (zset_insert-IsConsistent score_leb order k s z h.0, insert_is_ascending k s z h.1)

  remove_is_ascending :
      (k : Bytes) (z : SortedSet)
      → is_ascending score_leb z.by_score ≡ true
      → is_ascending score_leb (zset_remove score_leb k z).1.by_score ≡ true
  unfolding zset_remove
  remove_is_ascending k z h = elim (Option-cases (Map.get k z.by_member)) [
    | inl absent ↦ rw (zset_remove, absent) h
    | inr (old, present) ↦
        rw (zset_remove, present) (score_remove-is_ascending score_leb order (old, k) z.by_score h)
  ]

  pub zset_remove-IsSound :
      (k : Bytes) (z : SortedSet)
      → IsSound score_leb z
      → IsSound score_leb (zset_remove score_leb k z).1
  zset_remove-IsSound k z h =
      (zset_remove-IsConsistent score_leb order k z h.0, remove_is_ascending k z h.1)

  choose-IsSound :
      (nx xx gt lt : Bool) (score : F64) (skip updated new : ℕ × ℕ × SortedSet) (o : Option F64)
      → IsSound score_leb skip.2
      → IsSound score_leb updated.2
      → IsSound score_leb new.2
      → IsSound score_leb (zadd_choose nx xx gt lt score skip updated new o).2
  choose-IsSound nx true gt lt score skip updated new none s u n = s
  choose-IsSound nx false gt lt score skip updated new none s u n = n
  choose-IsSound nx xx gt lt score skip updated new (some old) s u n =
      elim (Bool-cases (updates nx gt lt score old)) [
        | inl written ↦ rw written u
        | inr left ↦ rw left s
      ]

  pub zadd_loop-IsSound :
      (nx xx gt lt : Bool) (members : List (F64 × Bytes)) (added changed : ℕ) (z : SortedSet)
      → IsSound score_leb z
      → IsSound score_leb (zadd_loop score_leb nx xx gt lt members added changed z).2
  unfolding zadd_loop
  zadd_loop-IsSound nx xx gt lt [] added changed z h = h
  zadd_loop-IsSound nx xx gt lt ((s, k) ∷ members) added changed z h =
      let written = (zset_insert score_leb k s z).1 in
      let sound = zset_insert-IsSound k s z h in
      choose-IsSound nx xx gt lt s _ _ _ (Map.get k z.by_member)
        (zadd_loop-IsSound nx xx gt lt members added changed z h)
        (zadd_loop-IsSound nx xx gt lt members added (changed + 1) written sound)
        (zadd_loop-IsSound nx xx gt lt members (added + 1) (changed + 1) written sound)

  pub remove_members-IsSound :
      (es : List (F64 × Bytes)) (z : SortedSet)
      → IsSound score_leb z
      → IsSound score_leb (remove_members score_leb es z)
  unfolding remove_members
  remove_members-IsSound [] z h = h
  remove_members-IsSound (e ∷ es) z h =
      remove_members-IsSound es (zset_remove score_leb e.1 z).1 (zset_remove-IsSound e.1 z h)

by_member_removed :
    (score_leb : F64 → F64 → Bool) (k : Bytes) (z : SortedSet)
    → (zset_remove score_leb k z).1.by_member ≡ Map.remove k z.by_member
unfolding zset_remove
by_member_removed score_leb k z = elim (Option-cases (Map.get k z.by_member)) [
  | inl absent ↦ rw (zset_remove, absent) (sym (remove_absent k z.by_member absent))
  | inr (old, present) ↦ rw (zset_remove, present) refl
]

pub get-remove_members :
    (score_leb : F64 → F64 → Bool) (m : Bytes) (es : List (F64 × Bytes)) (z : SortedSet)
    → Map.get m (remove_members score_leb es z).by_member
      ≡ (if among m (map (λ e. e.1) es) then none else Map.get m z.by_member)
unfolding remove_members
get-remove_members score_leb m [] z = refl
get-remove_members score_leb m (e ∷ es) z =
    let here = ap (Map.get m) (by_member_removed score_leb e.1 z) ∙ get-remove e.1 m z.by_member in
    ground (arith, here, get-remove_members score_leb m es (zset_remove score_leb e.1 z).1)

-- A sorted set with no member has no entry.
no_entry : (l : List (F64 × Bytes)) → ((m : Bytes) → scores_of m l ≡ []) → l ≡ []
no_entry [] h = refl
no_entry (e ∷ l) h = absurd (ground (arith, h e.1))

len_zero : (bm : Map Bytes F64) → (Map.len bm == 0) ≡ true → bm ≡ []
len_zero [] h = refl
len_zero (x ∷ bm) h = absurd (ground arith)

pub empty_zset_lem :
    (z : SortedSet) → IsConsistent z → (Map.len z.by_member == 0) ≡ true → z ≡ empty_zset
unfolding Map.get
empty_zset_lem z h none_left =
    let members = len_zero z.by_member none_left in
    let entries = no_entry z.by_score (λ m. h m ∙ ap (λ bm. own_entry m (Map.get m bm)) members) in
    ap (λ l. record { by_score = l; by_member = z.by_member }) entries
    ∙ ap (λ bm. record { by_score = []; by_member = bm }) members
