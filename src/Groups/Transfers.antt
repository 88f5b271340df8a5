-- ===== src/Groups/Transfers.antt =====
-- The steps of XAUTOCLAIM and XCLAIM on the pending entries: they move from consumer to consumer.
use burner_redis.Prelude.{
  ℕ, ◌+◌, ◌%◌, ◌^◌, ◌≡◌, refl, Bool, true, ◌||◌, ◌&&◌, not, Option, none, some, List, [], ◌∷◌,
  arith, if_pos, Option-cases, Bool-cases, inl, inr, every, every_mono, leb,
}
use burner_redis.Prelude.Key.{bytes_key, stream_id_key, stream_id_discrete}
use burner_redis.Map
use burner_redis.Map.Laws.{Distinct, contains_key-get}
use burner_redis.Value.{Bytes, Instant, Duration, StreamId, PendingEntry, ConsumerGroup, Stream}
use burner_redis.Streams.Id.{id_leb}
use burner_redis.Streams.Entries.{EntryMap}
use burner_redis.Groups.Pending.{
  Consumers, add_pending, remove_pending, find_pending, from_millis, idle_of, sort_by_id,
}
use burner_redis.Groups.Claim.{
  Qualified, transfer, claim_each, ClaimOptions, claim_one, claim_found, claim_forced, claim_ids,
  qualifying, to_process, autoclaim,
}
use burner_redis.Groups.Holders.{
  has, holders, holders-add_pending, has-remove_pending, has-add_pending, has-cons,
}
use burner_redis.Groups.Exclusive.{Bounded, Shrinks, moved-Shrinks, add_pending-Distinct}
use burner_redis.Groups.Qualify.{processed_pending, is_pending, has_behind}

-- The consumer that is named, or the one that claims, has it pending.
abbrev pub is_held : Bytes → Consumers → Qualified → Bool
is_held consumer l q = has q.0 q.2 l || has q.0 consumer l

transfer-is_held :
    (now : Instant) (consumer : Bytes) (q r : Qualified) (l : Consumers)
    → is_held consumer l r ≡ true
    → is_held consumer (transfer now consumer q l) r ≡ true
unfolding transfer
transfer-is_held now consumer (j, n, from) (id, k, other) l h =
    let l' = remove_pending j from l in
    let pe : PendingEntry = record { delivery_time = now; delivery_count = (n + 1) % 2 ^ 64 } in
    ground (
      arith,
      has-add_pending id j pe other consumer l',
      has-add_pending id j pe consumer consumer l',
      has-remove_pending id j other from l,
      has-remove_pending id j consumer from l,
    )

transfer-Shrinks :
    (now : Instant) (consumer : Bytes) (q : Qualified) (l : Consumers)
    → Distinct l
    → is_held consumer l q ≡ true
    → Shrinks l (transfer now consumer q l)
unfolding transfer
transfer-Shrinks now consumer (j, n, from) l d h =
    moved-Shrinks j (record { delivery_time = now; delivery_count = (n + 1) % 2 ^ 64 }) from
      consumer l d h

claim_each-Shrinks :
    (now : Instant) (consumer : Bytes) (entries : EntryMap) (qs : List Qualified) (l : Consumers)
    → Distinct l
    → every (is_held consumer l) qs ≡ true
    → Shrinks l (claim_each now consumer entries qs l).1
unfolding claim_each
claim_each-Shrinks now consumer entries [] l d h = (d, λ id. omega arith)
claim_each-Shrinks now consumer entries (q ∷ qs) l d h =
    let l' = transfer now consumer q l in
    let first = transfer-Shrinks now consumer q l d (ground arith) in
    let others =
      every_mono (is_held consumer l) (is_held consumer l') qs
        (λ r held. transfer-is_held now consumer q r l held) (ground arith) in
    let rest = claim_each-Shrinks now consumer entries qs l' first.0 others in
    (rest.0, λ id. omega (arith, rest.1 id, first.1 id))

pub autoclaim-Shrinks :
    (now : Instant) (consumer : Bytes) (min_idle_ms : ℕ) (start : StreamId) (count : Option ℕ)
    (st : Stream) (cg : ConsumerGroup)
    → Distinct cg.consumers
    → Shrinks cg.consumers (autoclaim now consumer min_idle_ms start count st cg).1.consumers
autoclaim-Shrinks now consumer min_idle_ms start count st cg d =
    let qs =
      to_process count
        (sort_by_id (λ q. q.0) (qualifying now (from_millis min_idle_ms) start cg.consumers)) in
    claim_each-Shrinks now consumer st.entries qs cg.consumers d (
      every_mono (is_pending cg.consumers) (is_held consumer cg.consumers) qs (λ q h. ground arith)
        (processed_pending now (from_millis min_idle_ms) start count cg.consumers d))

-- The consumer that the search finds has the identifier pending.
find_pending-has :
    (id : StreamId) (l : Consumers) (name : Bytes) (pe : PendingEntry)
    → Distinct l
    → find_pending id l ≡ some (name, pe)
    → has id name l ≡ true
unfolding find_pending
find_pending-has id [] name pe d h = ground arith
find_pending-has id ((n, c) ∷ l) name pe d h = elim (Option-cases (Map.get id c.pending)) [
  | inl absent ↦ has_behind id name n c l d.0 (find_pending-has id l name pe d.1 (ground arith))
  | inr (e, present) ↦
      let p : n ≡ name = ground arith in
      rw (has-cons id name n c l, if_pos _ p) (ground (arith, contains_key-get id c.pending))
]

find_pending-none : (id : StreamId) (l : Consumers) → find_pending id l ≡ none → holders id l ≡ 0
unfolding find_pending holders
find_pending-none id [] h = refl
find_pending-none id ((n, c) ∷ l) h =
    ground (arith, find_pending-none id l, contains_key-get id c.pending)

-- What a claim leaves within the bound.
abbrev pub Kept : StreamId → Consumers → Type 0
Kept last l = Distinct l × Bounded last l

Shrinks-Kept :
    (last : StreamId) (before after : Consumers)
    → Kept last before
    → Shrinks before after
    → Kept last after
Shrinks-Kept last before after h s = (s.0, λ id. omega (arith, h.1 id, s.1 id))

-- FORCE makes an entry only up to the bound.
abbrev pub may_force : ClaimOptions → StreamId → StreamId → Bool
may_force o last id = not o.force || id_leb id last

add_pending-Bounded :
    (last j : StreamId) (pe : PendingEntry) (name : Bytes) (l : Consumers)
    → holders j l ≡ 0
    → id_leb j last ≡ true
    → Bounded last l
    → Bounded last (add_pending j pe name l)
add_pending-Bounded last j pe name l free below h id = elim (stream_id_discrete j id) [
  | yes p ↦
      let free' : holders id l ≡ 0 = rw p at free in
      let below' : id_leb id last ≡ true = rw p at below in
      ground (arith, holders-add_pending id j pe name l)
  | no p ↦ ground (arith, holders-add_pending id j pe name l, h id)
]

module _ (earlier : Instant → Duration → Instant) where
  claim_forced-Kept :
      (now : Instant) (consumer : Bytes) (o : ClaimOptions) (entries : EntryMap) (last j : StreamId)
      (l : Consumers)
      → holders j l ≡ 0
      → may_force o last j ≡ true
      → Kept last l
      → Kept last (claim_forced earlier now consumer o entries j l).1
  unfolding claim_forced
  claim_forced-Kept now consumer o entries last j l free may h =
      elim (Bool-cases (o.force && Map.contains_key j entries)) [
        | inr not_made ↦ rw not_made h
        | inl made ↦ rw made (
          add_pending-Distinct j _ consumer l h.0,
          add_pending-Bounded last j _ consumer l free (ground arith) h.1,
        )
      ]

  claim_found-Kept :
      (now : Instant) (consumer : Bytes) (o : ClaimOptions) (entries : EntryMap) (last j : StreamId)
      (name : Bytes) (pe : PendingEntry) (l : Consumers)
      → has j name l ≡ true
      → Kept last l
      → Kept last (claim_found earlier now consumer o entries j (name, pe) l).1
  unfolding claim_found
  claim_found-Kept now consumer o entries last j name pe l held h =
      elim (Bool-cases (leb (from_millis o.min_idle_ms) (idle_of now pe) || o.force)) [
        | inr too_young ↦ rw too_young h
        | inl old ↦
            rw old (Shrinks-Kept last l _ h (moved-Shrinks j _ name consumer l h.0 (ground arith)))
      ]

  claim_one-Kept :
      (now : Instant) (consumer : Bytes) (o : ClaimOptions) (entries : EntryMap) (last j : StreamId)
      (l : Consumers)
      → may_force o last j ≡ true
      → Kept last l
      → Kept last (claim_one earlier now consumer o entries j l).1
  unfolding claim_one
  claim_one-Kept now consumer o entries last j l may h = elim (Option-cases (find_pending j l)) [
    | inl nowhere ↦
        rw nowhere
          (claim_forced-Kept now consumer o entries last j l (find_pending-none j l nowhere) may h)
    | inr ((name, pe), found) ↦ rw found (
        claim_found-Kept now consumer o entries last j name pe l
          (find_pending-has j l name pe h.0 found) h)
  ]

  pub claim_ids-Kept :
      (now : Instant) (consumer : Bytes) (o : ClaimOptions) (entries : EntryMap) (last : StreamId)
      (ids : List StreamId) (l : Consumers)
      → every (may_force o last) ids ≡ true
      → Kept last l
      → Kept last (claim_ids earlier now consumer o entries ids l).1
  unfolding claim_ids
  claim_ids-Kept now consumer o entries last [] l may h = h
  claim_ids-Kept now consumer o entries last (j ∷ ids) l may h =
      claim_ids-Kept now consumer o entries last ids
        (claim_one earlier now consumer o entries j l).1 (ground arith)
        (claim_one-Kept now consumer o entries last j l (ground arith) h)
