-- ===== src/Lists/Pops.antt =====
-- LPOP, RPOP and the blocking polls on the list that a client finds.
use burner_redis.Prelude.{
  ℕ, zero, suc, ◌≡◌, refl, ap, none, some, List, [], ◌∷◌, arith, ite, length, length-reverse, take,
  drop, reverse, min,
}
use burner_redis.Prelude.Key.{bytes_key, bytes_discrete}
use burner_redis.Map
use burner_redis.Value.{Bytes, Instant, ValueEntry, list, ok}
use burner_redis.Store.{Data}
use burner_redis.Store.View.{live}
use burner_redis.ListIndex.{ListEnd, left, right}
use burner_redis.Lists.Seq.{pop_end}
use burner_redis.Lists.Laws.{pop_count_left, pop_count_right}
use burner_redis.Lists.Commands.{
  LPopResult, single, array, list_value, pop_list, pop_entry, pop_key, drop_empty_list,
}
use burner_redis.Lists.View.{kept_list, live-drop_empty_list, pop_key-live}

-- The elements that a pop of `n` takes, in the order in which it takes them, and those it leaves.
abbrev pub popped : ListEnd → ℕ → List Bytes → List Bytes
popped left n l = take n l
popped right n l = take n (reverse l)

abbrev pub left_over : ListEnd → ℕ → List Bytes → List Bytes
left_over left n l = drop n l
left_over right n l = reverse (drop n (reverse l))

min-zero : (n : ℕ) → min n 0 ≡ 0
min-zero n = omega arith

zero-min : (n : ℕ) → min 0 n ≡ 0
zero-min n = omega arith

min-suc : (n k : ℕ) → min (suc n) (suc k) ≡ suc (min n k)
min-suc n k = omega arith

take-min : (n : ℕ) (l : List Bytes) → take (min n (length l)) l ≡ take n l
take-min zero l = rw (zero-min (length l)) refl
take-min (suc n) [] = rw (min-zero (suc n)) refl
take-min (suc n) (x ∷ l) = rw (min-suc n (length l)) (ap (◌∷◌ x) (take-min n l))

drop-min : (n : ℕ) (l : List Bytes) → drop (min n (length l)) l ≡ drop n l
drop-min zero l = rw (zero-min (length l)) refl
drop-min (suc n) [] = rw (min-zero (suc n)) refl
drop-min (suc n) (x ∷ l) = rw (min-suc n (length l)) (drop-min n l)

pop_list-popped :
    (end : ListEnd) (n : ℕ) (l : List Bytes)
    → pop_list end (some n) l ≡ (array (popped end n l), left_over end n l)
unfolding pop_list
pop_list-popped left n l = rw (pop_count_left, take-min n l, drop-min n l) refl
pop_list-popped right n l =
    rw (pop_count_right, ← length-reverse l, take-min n (reverse l), drop-min n (reverse l)) refl

pop_entry-popped :
    (end : ListEnd) (key : Bytes) (n : ℕ) (e : ValueEntry) (l : List Bytes) (m : Data)
    → pop_entry end key (some (suc n)) e l m ≡ (
      ok (array (popped end (suc n) l)),
      drop_empty_list key (Map.insert key (record e { value = list (left_over end (suc n) l) }) m),
    )
unfolding pop_entry
pop_entry-popped end key n e l m =
    ap
      (λ (p : LPopResult × List Bytes).
        (ok p.0, drop_empty_list key (Map.insert key (record e { value = list p.1 }) m)))
      (pop_list-popped end (suc n) l)

module _ (end : ListEnd) (now : Instant) (key : Bytes) (m : Data) (e : ValueEntry) (l : List Bytes)
    (present : live now key m ≡ some e) (typed : list_value e.value ≡ some l) where
  -- LPOP and RPOP of a positive count on a live list: they answer the first elements, or the last
  -- ones from the tail on, and leave the others under the key, with its expiry; an emptied list goes
  -- with its key, and other keys are untouched.
  pub pop_key_lem :
      (n : ℕ)
      → ((pop_key end now key (some (suc n)) m).0 ≡ ok (array (popped end (suc n) l)))
        × ((t : Instant) (j : Bytes)
            → live t j (pop_key end now key (some (suc n)) m).1
              ≡ ite (bytes_discrete key j) (kept_list t (left_over end (suc n) l) e) (live t j m))
  pop_key_lem n =
      rw (pop_key-live end now key (some (suc n)) m l present typed, pop_entry-popped)
        (refl, λ t j. live-drop_empty_list t key j e (left_over end (suc n) l) m)

  -- LPOP and RPOP of one element on a live list that has one: they answer the first, or the last,
  -- and leave the others under the key, with its expiry; an emptied list goes with its key, and
  -- other keys are untouched.
  pub pop_one_lem :
      (v : Bytes) (rest : List Bytes)
      → pop_end end l ≡ (some v, rest)
      → ((pop_key end now key none m).0 ≡ ok (single v))
        × ((t : Instant) (j : Bytes)
            → live t j (pop_key end now key none m).1
              ≡ ite (bytes_discrete key j) (kept_list t rest e) (live t j m))
  unfolding pop_entry pop_list
  pop_one_lem v rest popped =
      rw (pop_key-live end now key none m l present typed, popped)
        (refl, λ t j. live-drop_empty_list t key j e rest m)
