-- ===== src/SortedSets/Commands.antt =====
-- The shapes of a command on a sorted set, as a client sees it.
use burner_redis.Prelude.{
  ℕ, ◌≡◌, refl, sym, ap, ◌∙◌, Option, none, some, if◌then◌else◌, arith, Option-cases, Bool-cases,
  inl, inr, ◌==◌,
}
use burner_redis.Prelude.Key.{bytes_key}
use burner_redis.Map.Laws.{get-remove}
use burner_redis.Value.{
  Bytes, Instant, ValueData, ValueEntry, SortedSet, sorted_set, new_sorted_set, Result,
}
use burner_redis.Store.{
  Data, read, upsert, update_or_drop, remove_if_empty, is_empty_value, zset_len,
}
use burner_redis.Store.View.{live, live_or, read_lem, upsert_lem, get_of_live}
use burner_redis.Store.Effects.{upsert_seen, update_or_drop_seen, update_or_drop-answer}
use burner_redis.SortedSets.{on_sorted_set}
use burner_redis.SortedSets.Ranges.{empty_zset}
use burner_redis.SortedSets.Consistent.{IsConsistent}
use burner_redis.SortedSets.Sound.{empty_zset_lem}

-- The sorted set that a client finds under a key: a missing key counts as an empty one, and a key of
-- another type has none.
abbrev pub zset_view : Option ValueEntry → Option SortedSet
zset_view none = some empty_zset
zset_view (some e) = elim e.value [ sorted_set z ↦ some z | _ ↦ none ]

pub viewed_value :
    (o : Option ValueEntry) (z : SortedSet)
    → zset_view o ≡ some z
    → (live_or new_sorted_set o).value ≡ sorted_set z
viewed_value none z view = ground arith
viewed_value (some e) z view = ground arith

-- What a command leaves is seen, also where it drops the key with the last member.
left_view :
    (z : SortedSet) (e : ValueEntry)
    → IsConsistent z
    → zset_view
        (if is_empty_value (sorted_set z) then none else some (record e { value = sorted_set z }))
      ≡ some z
left_view z e h = elim (Bool-cases (zset_len z == 0)) [
  | inl nothing ↦ rw nothing (ap some (sym (empty_zset_lem z h nothing)))
  | inr some_left ↦ rw some_left refl
]

module _ (now : Instant) (key : Bytes) (m : Data) (z : SortedSet)
    (view : zset_view (live now key m) ≡ some z) where
  pub read_zset :
      {A : Type 0} (missing : Result A) (f : SortedSet → Result A)
      → f empty_zset ≡ missing
      → (read now key missing (on_sorted_set f) m).0 ≡ f z
  read_zset missing f nothing = rw read_lem (ground arith)

  -- A command that drops the key with the last member, and has nothing to do on an empty set.
  pub drop_zset :
      (missing r : Result ℕ) (f : ValueData → Result ℕ × ValueData) (z' : SortedSet)
      → f (sorted_set empty_zset) ≡ (missing, sorted_set empty_zset)
      → f (sorted_set z) ≡ (r, sorted_set z')
      → IsConsistent z'
      → ((update_or_drop now key missing f m).0 ≡ r)
        × (zset_view (live now key (update_or_drop now key missing f m).1) ≡ some z')
  drop_zset missing r f z' nothing does sound = elim (Option-cases (live now key m)) [
    | inl absent ↦
        let here : empty_zset ≡ z = ground arith in
        let same_result : (missing, sorted_set empty_zset) ≡ (r, sorted_set z') =
          sym nothing ∙ ap (λ x. f (sorted_set x)) here ∙ does in
        (
          rw (update_or_drop-answer, absent) (ap (λ p. p.0) same_result),
          rw (update_or_drop_seen, absent) (ground (arith, ap (λ p. p.1) same_result)),
        )
    | inr (e, present) ↦
        let value : e.value ≡ sorted_set z =
          ap (λ o. (live_or new_sorted_set o).value) (sym present)
          ∙ viewed_value (live now key m) z view in
        let result = ap f value ∙ does in
        (
          rw (update_or_drop-answer, present) (ap (λ p. p.0) result),
          rw (update_or_drop_seen, present) (rw (ap (λ p. p.1) result) (left_view z' e sound)),
        )
  ]

live-remove_if_empty :
    (now : Instant) (key : Bytes) (m : Data) (e : ValueEntry)
    → live now key m ≡ some e
    → live now key (remove_if_empty key m) ≡ (if is_empty_value e.value then none else some e)
unfolding remove_if_empty live
live-remove_if_empty now key m e present =
    ground (arith, get_of_live now key m present, get-remove key key m)

-- A command that creates the set and drops it if it stays empty.
pub upsert_zset :
    (now : Instant) (key : Bytes) (m : Data) (z : SortedSet) (f : ValueData → Result ℕ × ValueData)
    (r : Result ℕ) (z' : SortedSet)
    → zset_view (live now key m) ≡ some z
    → f (sorted_set z) ≡ (r, sorted_set z')
    → IsConsistent z'
    → ((upsert now key new_sorted_set f m).0 ≡ r)
      × (zset_view (live now key (remove_if_empty key (upsert now key new_sorted_set f m).1))
          ≡ some z')
upsert_zset now key m z f r z' view does sound =
    let value = viewed_value (live now key m) z view in
    let result = ap f value ∙ does in
    let e = live_or new_sorted_set (live now key m) in
    (
      rw upsert_lem (ap (λ p. p.0) result),
      rw
          (live-remove_if_empty now key (upsert now key new_sorted_set f m).1 _
            (upsert_seen now key new_sorted_set f m refl))
          (rw (ap (λ p. p.1) result) (left_view z' e sound)),
    )
