-- ===== src/SortedSets/Members.antt =====
-- The members of a sorted set and their scores under ZADD.
use burner_redis.Prelude.{
  ℕ, ◌+◌, ◌≡◌, refl, ap, ◌∙◌, Bool, false, not, ◌&&◌, Option, none, some, List, [], ◌∷◌, arith, ite,
  if◌then◌else◌, Option-cases, inl, inr,
}
use burner_redis.Prelude.Key.{bytes_key, bytes_discrete}
use burner_redis.Map
use burner_redis.Map.{Map}
use burner_redis.Map.Laws.{get-insert, len-insert, contains_key-get, count_new, is_some}
use burner_redis.Value.{Bytes, F64, SortedSet}
use burner_redis.Keys.{count_if}
use burner_redis.SortedSets.{f64_le, zset_insert, zadd_loop, zadd_choose}

-- Is the score of a pair written, by the flags and the score that its member has? XX needs one that is
-- there, NX one that is not, GT a score that is not at or below the old one, LT one that is not at or
-- above it; and a score equal to the old one is not written.
abbrev pub is_written : Bool → Bool → Bool → Bool → F64 → Option F64 → Bool
is_written nx xx gt lt score none = not xx
is_written nx xx gt lt score (some old) =
    if nx
    then false
    else if gt && f64_le score old
    then false
    else if lt && f64_le old score
    then false
    else not (f64_le score old && f64_le old score)

-- The score of a member after one pair of ZADD that names it.
abbrev pub settle : Bool → Bool → Bool → Bool → F64 → Option F64 → Option F64
settle nx xx gt lt score o = if is_written nx xx gt lt score o then some score else o

-- How many of the pairs are written, each after the ones before it.
abbrev pub writes : Bool → Bool → Bool → Bool → List (F64 × Bytes) → Map Bytes F64 → ℕ
writes nx xx gt lt [] m = 0
writes nx xx gt lt ((score, k) ∷ rest) m =
    let written = is_written nx xx gt lt score (Map.get k m) in
    count_if written + writes nx xx gt lt rest (if written then Map.insert k score m else m)

-- The score of a member after the pairs of ZADD, in order.
abbrev pub scored : Bool → Bool → Bool → Bool → Bytes → List (F64 × Bytes) → Option F64 → Option F64
scored nx xx gt lt m [] o = o
scored nx xx gt lt m ((score, k) ∷ rest) o =
    scored nx xx gt lt m rest (ite (bytes_discrete k m) (settle nx xx gt lt score o) o)

module _ (score_leb : F64 → F64 → Bool) (k : Bytes) (score : F64) (z : SortedSet) where
  written : SortedSet
  written = (zset_insert score_leb k score z).1

  by_member_written : written.by_member ≡ Map.insert k score z.by_member
  unfolding written zset_insert
  by_member_written = elim (Option-cases (Map.get k z.by_member)) [
    | inl absent ↦ ground (arith, absent)
    | inr (old, present) ↦ ground (arith, present)
  ]

  get-written :
      (m : Bytes)
      → Map.get m written.by_member ≡ ite (bytes_discrete k m) (some score) (Map.get m z.by_member)
  get-written m = ap (Map.get m) by_member_written ∙ get-insert k m score z.by_member

  len-written :
      Map.len written.by_member ≡ Map.len z.by_member + count_new (is_some (Map.get k z.by_member))
  len-written =
      ap Map.len by_member_written
      ∙ len-insert k score z.by_member
      ∙ ap (λ (c : Bool). Map.len z.by_member + count_new c) (contains_key-get k z.by_member)

module _ (score_leb : F64 → F64 → Bool) (nx xx gt lt : Bool) (m : Bytes) where
  -- The loop ends with `r`: `added` has grown as the number of members has, `changed` by the pairs that
  -- are written, and `m` has the score that the pairs leave it.
  abbrev pub Adds : List (F64 × Bytes) → ℕ → ℕ → SortedSet → ℕ × ℕ × SortedSet → Type 0
  Adds members added changed z r =
      (r.0 + Map.len z.by_member ≡ added + Map.len r.2.by_member)
      × (r.1 ≡ changed + writes nx xx gt lt members z.by_member)
      × (Map.get m r.2.by_member ≡ scored nx xx gt lt m members (Map.get m z.by_member))

  chosen :
      (score : F64) (k : Bytes) (members : List (F64 × Bytes)) (added changed : ℕ) (z : SortedSet)
      (skip updated new : ℕ × ℕ × SortedSet) (o : Option F64)
      → Map.get k z.by_member ≡ o
      → Adds members added changed z skip
      → Adds members added (changed + 1) (written score_leb k score z) updated
      → Adds members (added + 1) (changed + 1) (written score_leb k score z) new
      → Adds
          ((score, k) ∷ members)
          added
          changed
          z
          (zadd_choose nx xx gt lt score skip updated new o)
  chosen score k members added changed z skip updated new none e s u n = elim (bytes_discrete k m) [
    | yes p ↦ ground (
      arith,
      get-written score_leb k score z m,
      len-written score_leb k score z,
      by_member_written score_leb k score z,
      ap (λ (i : Bytes). Map.get i z.by_member) p,
    )
    | no p ↦ ground (
      arith,
      get-written score_leb k score z m,
      len-written score_leb k score z,
      by_member_written score_leb k score z,
    )
  ]
  chosen score k members added changed z skip updated new (some old) e s u n =
      elim (bytes_discrete k m) [
        | yes p ↦ ground (
          arith,
          get-written score_leb k score z m,
          len-written score_leb k score z,
          by_member_written score_leb k score z,
          ap (λ (i : Bytes). Map.get i z.by_member) p,
        )
        | no p ↦ ground (
          arith,
          get-written score_leb k score z m,
          len-written score_leb k score z,
          by_member_written score_leb k score z,
        )
      ]

  -- The loop of ZADD, whatever the order of the scores: each member has the score that the pairs
  -- leave it by the flags, in their order, `added` has grown as the number of members has, and
  -- `changed` by the number of pairs that are written.
  pub zadd_loop_lem :
      (members : List (F64 × Bytes)) (added changed : ℕ) (z : SortedSet)
      → Adds members added changed z (zadd_loop score_leb nx xx gt lt members added changed z)
  unfolding zadd_loop written
  zadd_loop_lem [] added changed z = (refl, omega arith, refl)
  zadd_loop_lem ((score, k) ∷ members) added changed z =
      chosen score k members added changed z _ _ _ (Map.get k z.by_member) refl
        (zadd_loop_lem members added changed z)
        (zadd_loop_lem members added (changed + 1) (written score_leb k score z))
        (zadd_loop_lem members (added + 1) (changed + 1) (written score_leb k score z))
