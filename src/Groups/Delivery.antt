-- ===== src/Groups/Delivery.antt =====
-- What XREADGROUP with `>` leaves of a group.
use burner_redis.Prelude.{
  ℕ, zero, suc, ◌≡◌, ◌≤◌, refl, subst, ap, true, ◌||◌, ◌&&◌, Option, none, some, [], ◌∷◌,
  if◌then◌else◌, arith, if_pos, if_neg, Bool-cases, inl, inr, take,
}
use burner_redis.Prelude.Key.{
  bytes_key, stream_id_key, stream_id_discrete, bytes_discrete, same, among,
}
use burner_redis.Map
use burner_redis.Map.Laws.{insert-Distinct, get-insert, contains_key-get}
use burner_redis.Value.{Bytes, Instant, StreamId, PendingEntry, ConsumerGroup, Stream}
use burner_redis.Keys.{count_if}
use burner_redis.Streams.Id.{id_ltb, id_leb, id_ltb_trans, id_ltb_irrefl, id_leb_ltb_trans}
use burner_redis.Streams.Entries.{EntryMap, entries_after}
use burner_redis.Streams.Order.{
  all_above, ascending, end_of, all_above-entries_after, ascending-entries_after,
}
use burner_redis.Groups.{deliver, new_entries}
use burner_redis.Groups.Pending.{Pel, Consumers, pending_of, mark_delivered}
use burner_redis.Groups.Holders.{has, holders, holders-insert, pending_of-insert}
use burner_redis.Groups.Exclusive.{IsExclusive}

abbrev pub fresh : Instant → PendingEntry
fresh now = record { delivery_time = now; delivery_count = 1 }

mark_delivered-last :
    (now : Instant) (l : EntryMap) (last : StreamId) (pel : Pel)
    → (mark_delivered now l (last, pel)).0 ≡ end_of last l
unfolding mark_delivered
mark_delivered-last now [] last pel = refl
mark_delivered-last now (e ∷ l) last pel =
    mark_delivered-last now l e.0 (Map.insert e.0 (fresh now) pel)

get-mark_delivered :
    (id : StreamId) (now : Instant) (l : EntryMap) (last : StreamId) (pel : Pel)
    → Map.get id (mark_delivered now l (last, pel)).1
      ≡ (if among id (Map.keys l) then some (fresh now) else Map.get id pel)
unfolding mark_delivered
get-mark_delivered id now [] last pel = refl
get-mark_delivered id now (e ∷ l) last pel = ground (
  arith,
  get-mark_delivered id now l e.0 (Map.insert e.0 (fresh now) pel),
  get-insert e.0 id (fresh now) pel,
)

among_above :
    (id s : StreamId) (l : EntryMap)
    → all_above s l ≡ true
    → among id (Map.keys l) ≡ true
    → id_ltb s id ≡ true
among_above id s [] h m = ground arith
among_above id s (e ∷ l) h m = ground (arith, among_above id s l, ap (id_ltb s))

end_of-above :
    (s : StreamId) (l : EntryMap)
    → all_above s l ≡ true
    → ascending l ≡ true
    → id_leb s (end_of s l) ≡ true
end_of-above s [] h asc = ground (arith, id_ltb_irrefl s)
end_of-above s (e ∷ l) h asc = ground (arith, end_of-above e.0 l, id_ltb_trans (end_of e.0 l) s e.0)

among_end :
    (id s : StreamId) (l : EntryMap)
    → ascending l ≡ true
    → among id (Map.keys l) ≡ true
    → id_leb id (end_of s l) ≡ true
among_end id s [] asc m = ground arith
among_end id s (e ∷ l) asc m = elim (stream_id_discrete e.0 id) [
  | yes p ↦
      subst (λ i. id_leb i (end_of e.0 l) ≡ true) p
        (end_of-above e.0 l (ground arith) (ground arith))
  | no p ↦ ground (arith, among_end id e.0 l)
]

all_above-take :
    (n : ℕ) (s : StreamId) (l : EntryMap) → all_above s l ≡ true → all_above s (take n l) ≡ true
all_above-take zero s l h = refl
all_above-take (suc n) s [] h = refl
all_above-take (suc n) s (e ∷ l) h = ground (arith, all_above-take n s l)

ascending-take : (n : ℕ) (l : EntryMap) → ascending l ≡ true → ascending (take n l) ≡ true
ascending-take zero l h = refl
ascending-take (suc n) [] h = refl
ascending-take (suc n) (e ∷ l) h = ground (arith, ascending-take n l, all_above-take n e.0 l)

-- The new entries lie above what has been delivered, in order.
pub new_entries-ordered :
    (count : Option ℕ) (st : Stream) (cg : ConsumerGroup)
    → ascending st.entries ≡ true
    → (all_above cg.last_delivered_id (new_entries count st cg) ≡ true)
      × (ascending (new_entries count st cg) ≡ true)
new_entries-ordered none st cg h = (
  all_above-entries_after cg.last_delivered_id st.entries,
  ascending-entries_after cg.last_delivered_id st.entries h,
)
new_entries-ordered (some n) st cg h = (
  all_above-take n cg.last_delivered_id (entries_after cg.last_delivered_id st.entries)
      (all_above-entries_after cg.last_delivered_id st.entries),
  ascending-take n (entries_after cg.last_delivered_id st.entries)
      (ascending-entries_after cg.last_delivered_id st.entries h),
)

pub deliver-last :
    (now : Instant) (consumer : Bytes) (l : EntryMap) (cg : ConsumerGroup)
    → (deliver now consumer l cg).last_delivered_id ≡ end_of cg.last_delivered_id l
deliver-last now consumer [] cg = refl
deliver-last now consumer (e ∷ l) cg =
    mark_delivered-last now (e ∷ l) cg.last_delivered_id (pending_of consumer cg.consumers)

pub get-deliver :
    (id : StreamId) (name : Bytes) (now : Instant) (consumer : Bytes) (l : EntryMap)
    (cg : ConsumerGroup)
    → Map.get id (pending_of name (deliver now consumer l cg).consumers) ≡ (
        if same consumer name && among id (Map.keys l)
        then some (fresh now)
        else Map.get id (pending_of name cg.consumers))
get-deliver id name now consumer [] cg = ground arith
get-deliver id name now consumer (e ∷ l) cg =
    let pel =
      (mark_delivered now (e ∷ l) (cg.last_delivered_id, pending_of consumer cg.consumers)).1 in
    let marked =
      get-mark_delivered id now (e ∷ l) cg.last_delivered_id (pending_of consumer cg.consumers) in
    elim (bytes_discrete consumer name) [
      | yes p ↦
          rw (pending_of-insert name consumer (record { pending = pel }) cg.consumers, if_pos _ p)
            (ground (arith, marked, ap (λ b. Map.get id (pending_of b cg.consumers)) p))
      | no p ↦
          rw (pending_of-insert name consumer (record { pending = pel }) cg.consumers, if_neg _ p)
            (ground arith)
    ]

-- Inserting the delivered entries: each is held by the consumer, and by no other as it is new.
delivered-Bounded :
    (id last : StreamId) (now : Instant) (consumer : Bytes) (l : EntryMap) (consumers : Consumers)
    → all_above last l ≡ true
    → ascending l ≡ true
    → holders id consumers ≤ count_if (id_leb id last)
    → holders id (
        Map.insert consumer
          (record { pending = (mark_delivered now l (last, pending_of consumer consumers)).1 })
          consumers)
      ≤ count_if (id_leb id (end_of last l))
delivered-Bounded id last now consumer l consumers above asc bound =
    let old = pending_of consumer consumers in
    let pel = (mark_delivered now l (last, old)).1 in
    let counted = holders-insert id consumer (record { pending = pel }) consumers in
    let marked = get-mark_delivered id now l last old in
    let held : Map.contains_key id pel ≡ (among id (Map.keys l) || has id consumer consumers) =
      ground (arith, contains_key-get id pel, contains_key-get id old, marked) in
    let later = end_of-above last l above asc in
    elim (Bool-cases (among id (Map.keys l))) [
      | inl new ↦
          let behind = among_above id last l above new in
          let served = among_end id last l asc new in ground (arith, counted, held)
      | inr same_as_before ↦ ground (arith, counted, held, id_leb_ltb_trans last (end_of last l) id)
    ]

pub deliver-IsExclusive :
    (now : Instant) (consumer : Bytes) (l : EntryMap) (cg : ConsumerGroup)
    → all_above cg.last_delivered_id l ≡ true
    → ascending l ≡ true
    → IsExclusive cg
    → IsExclusive (deliver now consumer l cg)
deliver-IsExclusive now consumer [] cg above asc h = h
deliver-IsExclusive now consumer (e ∷ l) cg above asc h =
    let last = cg.last_delivered_id in
    let pel = (mark_delivered now (e ∷ l) (last, pending_of consumer cg.consumers)).1 in
    (
      insert-Distinct consumer (record { pending = pel }) cg.consumers h.0,
      λ id.
          rw (mark_delivered-last now (e ∷ l) last (pending_of consumer cg.consumers))
            (delivered-Bounded id last now consumer (e ∷ l) cg.consumers above asc (h.1 id)),
    )
