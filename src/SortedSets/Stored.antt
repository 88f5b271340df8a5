-- ===== src/SortedSets/Stored.antt =====
-- ZRANGESTORE, as a client sees it.
use burner_redis.Prelude.{
  ◌≡◌, refl, ap, ◌∙◌, Bool, Option, none, some, List, [], ◌∷◌, arith, ite, if_pos, if_neg,
  Option-cases, inl, inr, length,
}
use burner_redis.Prelude.Key.{bytes_key, bytes_discrete}
use burner_redis.Map
use burner_redis.Map.Laws.{get-insert, get-remove}
use burner_redis.Value.{Bytes, Instant, F64, ValueEntry, SortedSet, sorted_set, ok, is_expired}
use burner_redis.Store.{Data, evict}
use burner_redis.Store.View.{live, get-evict, live-evict}
use burner_redis.SortedSets.{zset_insert}
use burner_redis.SortedSets.Ranges.{
  zrangestore, members_of, store_range, insert_each, score_range, empty_zset,
}
use burner_redis.SortedSets.Consistent.{IsScoreOrder, scores_of, own_entry}
use burner_redis.SortedSets.Ascending.{between, score_range-between}
use burner_redis.SortedSets.Sound.{IsSound, empty-IsSound, zset_insert-IsSound}
use burner_redis.SortedSets.Commands.{zset_view, viewed_value}
use burner_redis.SortedSets.Queries.{IsRange, inside, between-IsRange}

-- The last score that a list of entries has for a member.
abbrev pub last_score : List (F64 × Bytes) → Option F64 → Option F64
last_score [] o = o
last_score (e ∷ l) o = last_score l (some e.0)

by_member_inserted :
    (score_leb : F64 → F64 → Bool) (k : Bytes) (s : F64) (z : SortedSet)
    → (zset_insert score_leb k s z).1.by_member ≡ Map.insert k s z.by_member
unfolding zset_insert
by_member_inserted score_leb k s z = elim (Option-cases (Map.get k z.by_member)) [
  | inl absent ↦ rw (zset_insert, absent) refl
  | inr (old, present) ↦ rw (zset_insert, present) refl
]

get-insert_each :
    (score_leb : F64 → F64 → Bool) (k : Bytes) (es : List (F64 × Bytes)) (z : SortedSet)
    → Map.get k (insert_each score_leb es z).by_member
      ≡ last_score (scores_of k es) (Map.get k z.by_member)
unfolding insert_each
get-insert_each score_leb k [] z = refl
get-insert_each score_leb k (e ∷ es) z =
    let here =
      ap (Map.get k) (by_member_inserted score_leb e.1 e.0 z) ∙ get-insert e.1 k e.0 z.by_member in
    get-insert_each score_leb k es (zset_insert score_leb e.1 e.0 z).1
    ∙ rw here (elim (bytes_discrete e.1 k) [
      | yes p ↦ rw (if_pos _ p) (ground arith)
      | no p ↦ rw (if_neg _ p) (ground arith)
    ])

insert_each-IsSound :
    (score_leb : F64 → F64 → Bool) (order : IsScoreOrder score_leb) (es : List (F64 × Bytes))
    (z : SortedSet)
    → IsSound score_leb z
    → IsSound score_leb (insert_each score_leb es z)
unfolding insert_each
insert_each-IsSound score_leb order [] z h = h
insert_each-IsSound score_leb order (e ∷ es) z h =
    insert_each-IsSound score_leb order es (zset_insert score_leb e.1 e.0 z).1
      (zset_insert-IsSound score_leb order e.1 e.0 z h)

last_of_own : (k : Bytes) (o : Option F64) → last_score (own_entry k o) none ≡ o
last_of_own k none = refl
last_of_own k (some s) = refl

-- The source that a client finds, read for its range.
members_lem :
    (score_leb : F64 → F64 → Bool) (order : IsScoreOrder score_leb) (min max : F64)
    (o : Option ValueEntry) (z : SortedSet)
    → zset_view o ≡ some z
    → IsSound score_leb z
    → members_of score_leb min max o ≡ ok (between score_leb min max z.by_score)
unfolding score_range
members_lem score_leb order min max none z view sound =
    let here : empty_zset ≡ z = ground arith in
    ap (λ x. ok (between score_leb min max x.by_score)) here
members_lem score_leb order min max (some e) z view sound =
    rw (viewed_value (some e) z view)
      (ap ok (score_range-between score_leb order min max z.by_score sound.1))

-- What stands under the destination for the entries of a range.
abbrev pub stored : List (F64 × Bytes) → SortedSet → Option ValueEntry
stored [] z' = none
stored (e ∷ l) z' = some (record { value = sorted_set z'; expires_at = none })

store_range_lem :
    (score_leb : F64 → F64 → Bool) (now : Instant) (dst : Bytes) (m : Data) (l : List (F64 × Bytes))
    → ((store_range score_leb dst m (ok l)).0 ≡ ok (length l))
      × ((j : Bytes)
          → live now j (store_range score_leb dst m (ok l)).1
            ≡ ite
                (bytes_discrete dst j)
                (stored l (insert_each score_leb l empty_zset))
                (live now j m))
unfolding live is_expired insert_each
store_range_lem score_leb now dst m [] = (refl, λ j. ground (arith, get-remove dst j m))
store_range_lem score_leb now dst m (e ∷ l) =
    let entry : ValueEntry = record {
      value = sorted_set (insert_each score_leb (e ∷ l) empty_zset);
      expires_at = none;
    } in
    (refl, λ j. ground (arith, get-insert dst j entry m))

-- ZRANGESTORE from a sorted set whose indexes agree and whose scores are in order, or a missing key:
-- whatever the destination held, if no member of the source has a score between the bounds, no key is
-- there; else it is a sorted set without expiry of exactly the members with such a score, with their
-- scores, whose indexes agree and whose scores are in order. A client finds under every other key what
-- it found, and the answer is the number of entries of the range.
pub zrangestore_lem :
    (score_leb : F64 → F64 → Bool) (order : IsScoreOrder score_leb) (now : Instant)
    (dst src : Bytes) (min max : F64) (m : Data) (z : SortedSet)
    → zset_view (live now src m) ≡ some z
    → IsSound score_leb z
    → (l : List (F64 × Bytes)) × (z' : SortedSet) × IsRange score_leb min max z l
      × ((zrangestore score_leb now dst src min max m).0 ≡ ok (length l))
      × ((j : Bytes)
          → live now j (zrangestore score_leb now dst src min max m).1
            ≡ ite (bytes_discrete dst j) (stored l z') (live now j m))
      × IsSound score_leb z'
      × ((k : Bytes) → Map.get k z'.by_member ≡ inside score_leb min max (Map.get k z.by_member))
unfolding zrangestore Map.get
zrangestore_lem score_leb order now dst src min max m z view sound =
    let l = between score_leb min max z.by_score in
    let range = between-IsRange score_leb min max z sound in
    let m' = evict now src m in
    let found : Map.get src m' ≡ live now src m = rw (get-evict now src src m) (ground arith) in
    let members : members_of score_leb min max (Map.get src m') ≡ ok l =
      ap (members_of score_leb min max) found
      ∙ members_lem score_leb order min max (live now src m) z view sound in
    let (answer, seen) = store_range_lem score_leb now dst m' l in
    (
      l,
      insert_each score_leb l empty_zset,
      range,
      ap (λ r. (store_range score_leb dst m' r).0) members ∙ answer,
      λ j.
          ap (λ r. live now j (store_range score_leb dst m' r).1) members
          ∙ seen j
          ∙ ap (ite (bytes_discrete dst j) (stored l (insert_each score_leb l empty_zset)))
              (live-evict now src now j m (omega arith)),
      insert_each-IsSound score_leb order l empty_zset (empty-IsSound score_leb),
      λ k.
          get-insert_each score_leb k l empty_zset
          ∙ ap (λ es. last_score es none) (range.1 k)
          ∙ last_of_own k (inside score_leb min max (Map.get k z.by_member)),
    )
