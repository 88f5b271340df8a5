-- ===== src/Lists/Polling.antt =====
-- The scans of BLPOP and BRPOP: what they answer, and what they leave.
use burner_redis.Prelude.{
  ◌≡◌, ◌≤◌, refl, sym, subst, ap, ◌∙◌, Option, none, some, List, [], ◌∷◌, arith, ite, if◌then◌else◌,
  is_empty, Option-cases, inl, inr,
}
use burner_redis.Prelude.Key.{bytes_key, bytes_discrete}
use burner_redis.Map
use burner_redis.Map.Laws.{get-insert, get-remove}
use burner_redis.Value.{Bytes, Instant, ValueEntry, list, Result, ok, err, wrong_type}
use burner_redis.Store.{Data, evict}
use burner_redis.Store.View.{live, live-evict, get-evict, evict-live, get_of_live}
use burner_redis.ListIndex.{ListEnd}
use burner_redis.Lists.Seq.{pop_end}
use burner_redis.Lists.Commands.{list_value}
use burner_redis.Lists.Move.{poll, poll_found, poll_list, poll_popped}
use burner_redis.Lists.View.{kept_list}

-- What an entry offers to a scan: an element with what it leaves, nothing, or the wrong type.
abbrev pub offer_popped : Option Bytes × List Bytes → Result (Option (Bytes × List Bytes))
offer_popped (none, rest) = ok none
offer_popped (some v, rest) = ok (some (v, rest))

abbrev pub offer_list : ListEnd → Option (List Bytes) → Result (Option (Bytes × List Bytes))
offer_list end none = err wrong_type
offer_list end (some l) = offer_popped (pop_end end l)

abbrev pub offer : ListEnd → Option ValueEntry → Result (Option (Bytes × List Bytes))
offer end none = ok none
offer end (some e) = offer_list end (list_value e.value)

-- The offer of a key, or what the later keys offer where it has none.
abbrev pub or_next :
    Bytes
    → Result (Option (Bytes × List Bytes))
    → Result (Option (Bytes × Bytes × List Bytes))
    → Result (Option (Bytes × Bytes × List Bytes))
or_next k (err e) next = err e
or_next k (ok none) next = next
or_next k (ok (some (v, rest))) next = ok (some (k, v, rest))

-- The first key that offers an element or has the wrong type.
abbrev pub first_offer :
    ListEnd → Instant → List Bytes → Data → Result (Option (Bytes × Bytes × List Bytes))
first_offer end now [] m = ok none
first_offer end now (k ∷ keys) m = or_next k (offer end (live now k m)) (first_offer end now keys m)

abbrev pub offered : Result (Option (Bytes × Bytes × List Bytes)) → Result (Option (Bytes × Bytes))
offered (err e) = err e
offered (ok none) = ok none
offered (ok (some (k, v, rest))) = ok (some (k, v))

-- What a client finds after an offer is taken: the rest of the list, and no key where it is empty.
abbrev pub after_offer :
    Instant
    → Instant
    → Bytes
    → Data
    → Result (Option (Bytes × Bytes × List Bytes))
    → Option ValueEntry
after_offer now t j m (err e) = live t j m
after_offer now t j m (ok none) = live t j m
after_offer now t j m (ok (some (k, v, rest))) =
    ite (bytes_discrete k j) (elim (live now k m) [ none ↦ none | some e ↦ kept_list t rest e ])
      (live t j m)

first_offer-evict :
    (end : ListEnd) (now : Instant) (k : Bytes) (keys : List Bytes) (m : Data)
    → first_offer end now keys (evict now k m) ≡ first_offer end now keys m
first_offer-evict end now k [] m = refl
first_offer-evict end now k (i ∷ keys) m =
    ap
      (λ (o : Option ValueEntry).
        or_next i (offer end o) (first_offer end now keys (evict now k m)))
      (live-evict now k now i m (omega arith))
    ∙ ap (or_next i (offer end (live now i m))) (first_offer-evict end now k keys m)

after_offer-evict :
    (now t : Instant) (k j : Bytes) (m : Data) (o : Result (Option (Bytes × Bytes × List Bytes)))
    → now ≤ t
    → after_offer now t j (evict now k m) o ≡ after_offer now t j m o
after_offer-evict now t k j m (err e) later = live-evict now k t j m later
after_offer-evict now t k j m (ok none) later = live-evict now k t j m later
after_offer-evict now t k j m (ok (some (i, v, rest))) later =
    ground (arith, live-evict now k t j m later, live-evict now k now i m (omega arith))

-- What the scan has to do, and what it does at the first key.
abbrev PollsWell : ListEnd → Instant → Instant → Bytes → List Bytes → Data → Type 0
PollsWell end now t j keys m =
    ((poll end now keys m).0 ≡ offered (first_offer end now keys m))
    × (live t j (poll end now keys m).1 ≡ after_offer now t j m (first_offer end now keys m))

module _ (end : ListEnd) (now t : Instant) (k j : Bytes) (keys : List Bytes) (m : Data)
    (later : now ≤ t) where
  poll_missing :
      live now k m ≡ none
      → PollsWell end now t j keys (evict now k m)
      → PollsWell end now t j (k ∷ keys) m
  poll_missing absent (answer, view) =
      let m' = evict now k m in
      let gone : Map.get k m' ≡ none = ground (arith, get-evict now k k m) in
      let start : poll end now (k ∷ keys) m ≡ poll end now keys m' =
        unfold poll in ap (poll_found end k m' (poll end now keys m')) gone in
      let same_offer = first_offer-evict end now k keys m in
      rw (start, absent)
        (
          answer ∙ ap offered same_offer,
          view
              ∙ ap (after_offer now t j m') same_offer
              ∙ after_offer-evict now t k j m (first_offer end now keys m) later,
        )

  poll_start :
      (e : ValueEntry)
      → live now k m ≡ some e
      → poll end now (k ∷ keys) m ≡ poll_list end k e m (poll end now keys m) (list_value e.value)
  unfolding poll
  poll_start e present =
      ap (λ (m' : Data). poll_found end k m' (poll end now keys m') (Map.get k m'))
        (evict-live now k m present)
      ∙ ap (poll_found end k m (poll end now keys m)) (get_of_live now k m present)

  live-rest :
      (e : ValueEntry) (rest : List Bytes)
      → live now k m ≡ some e
      → live t j (
          if is_empty rest
          then Map.remove k (Map.insert k (record e { value = list rest }) m)
          else Map.insert k (record e { value = list rest }) m)
        ≡ ite
            (bytes_discrete k j)
            (elim (live now k m) [ none ↦ none | some e ↦ kept_list t rest e ])
            (live t j m)
  live-rest e rest present = rw present (
      unfold live in
      ground (
        arith,
        get-insert k j (record e { value = list rest }) m,
        get-remove k j (Map.insert k (record e { value = list rest }) m),
      ))

  module _ (e : ValueEntry) (present : live now k m ≡ some e)
      (next : PollsWell end now t j keys m) where
    popped_well :
        (p : Option Bytes × List Bytes)
        → ((poll_popped k e m (poll end now keys m) p).0
            ≡ offered (or_next k (offer_popped p) (first_offer end now keys m)))
          × (live t j (poll_popped k e m (poll end now keys m) p).1
              ≡ after_offer now t j m (or_next k (offer_popped p) (first_offer end now keys m)))
    popped_well (none, rest) = next
    popped_well (some v, rest) = (refl, live-rest e rest present)

    list_well :
        (o : Option (List Bytes))
        → ((poll_list end k e m (poll end now keys m) o).0
            ≡ offered (or_next k (offer_list end o) (first_offer end now keys m)))
          × (live t j (poll_list end k e m (poll end now keys m) o).1
              ≡ after_offer now t j m (or_next k (offer_list end o) (first_offer end now keys m)))
    list_well none = (refl, refl)
    list_well (some l) = popped_well (pop_end end l)

    poll_present : PollsWell end now t j (k ∷ keys) m
    poll_present = rw (poll_start e present) (
        subst
          (λ (o : Option ValueEntry).
            ((poll_list end k e m (poll end now keys m) (list_value e.value)).0
              ≡ offered (or_next k (offer end o) (first_offer end now keys m)))
            × (live t j (poll_list end k e m (poll end now keys m) (list_value e.value)).1
                ≡ after_offer now t j m (or_next k (offer end o) (first_offer end now keys m))))
          (sym present) (list_well (list_value e.value)))

-- BLPOP and BRPOP scan their keys from left to right: the answer is the element at that end of the
-- first list that has one, with its key, or WRONGTYPE at a key of another type before it, or nothing.
-- The list keeps the others and its expiry, an emptied key goes, and nothing else changes in view.
pub poll_lem :
    (end : ListEnd) (now t : Instant) (j : Bytes) (keys : List Bytes) (m : Data)
    → now ≤ t
    → ((poll end now keys m).0 ≡ offered (first_offer end now keys m))
      × (live t j (poll end now keys m).1 ≡ after_offer now t j m (first_offer end now keys m))
unfolding poll
poll_lem end now t j [] m later = (refl, refl)
poll_lem end now t j (k ∷ keys) m later = elim (Option-cases (live now k m)) [
  | inl absent ↦
      poll_missing end now t k j keys m later absent
        (poll_lem end now t j keys (evict now k m) later)
  | inr (e, present) ↦
      poll_present end now t k j keys m later e present (poll_lem end now t j keys m later)
]
