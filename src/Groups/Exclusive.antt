-- ===== src/Groups/Exclusive.antt =====
-- Each identifier is pending with one consumer of a group at most, and with none before it has been
-- delivered: the steps of the group's commands on the pending entries keep that.
use burner_redis.Prelude.{
  ℕ, ◌+◌, ◌≡◌, ◌≤◌, refl, ap, true, ◌||◌, ◌&&◌, none, List, [], ◌∷◌, arith, Option-cases,
  Bool-cases, inl, inr,
}
use burner_redis.Prelude.Key.{bytes_key, stream_id_key, stream_id_discrete, bytes_discrete, same}
use burner_redis.Map
use burner_redis.Map.Laws.{Distinct, insert-Distinct}
use burner_redis.Value.{Bytes, StreamId, PendingEntry, ConsumerGroup}
use burner_redis.Keys.{count_if}
use burner_redis.Streams.Id.{id_leb}
use burner_redis.Groups.{ack_loop}
use burner_redis.Groups.Pending.{Consumers, pending_of, add_pending, remove_pending, ack_one}
use burner_redis.Groups.Holders.{
  has, holders, has_held, holders-add_pending, holders-remove_pending, has-remove_pending,
  contains_key-remove_pel,
}

-- An identifier is held once, if the group has been served up to it, and else not at all.
abbrev pub Bounded : StreamId → Consumers → Type 0
Bounded last l = (id : StreamId) → holders id l ≤ count_if (id_leb id last)

-- No consumer stands twice, as in a `HashMap`.
abbrev pub IsExclusive : ConsumerGroup → Type 0
IsExclusive cg = Distinct cg.consumers × Bounded cg.last_delivered_id cg.consumers

-- No identifier is held more often than before.
abbrev pub NoneAdded : Consumers → Consumers → Type 0
NoneAdded before after = (id : StreamId) → holders id after ≤ holders id before

-- An entry that moves to a consumer from another, or stays with it, is not held more often.
moved_once :
    (j : StreamId) (pe : PendingEntry) (from to : Bytes) (l : Consumers)
    → (has j from l || has j to l) ≡ true
    → NoneAdded l (add_pending j pe to (remove_pending j from l))
moved_once j pe from to l held id =
    let l' = remove_pending j from l in
    let removed = holders-remove_pending id j from l in
    let added = holders-add_pending id j pe to l' in
    let left = has-remove_pending id j to from l in
    elim (stream_id_discrete j id) [
      | yes p ↦ elim (bytes_discrete from to) [
        | yes q ↦ ground (
          arith,
          has_held id to l,
          removed,
          added,
          left,
          ap (λ n. has id n l) q,
          ap (λ i. has i from l) p,
          ap (λ i. has i to l) p,
        )
        | no q ↦ ground (
          arith,
          has_held id to l,
          removed,
          added,
          left,
          ap (λ i. has i from l) p,
          ap (λ i. has i to l) p,
        )
      ]
      | no p ↦ ground (arith, removed, added, left)
    ]

pub ack_one-count :
    (id j : StreamId) (l : Consumers)
    → holders id (ack_one j l).1 + count_if (same j id && (ack_one j l).0) ≡ holders id l
unfolding holders ack_one
ack_one-count id j [] = ground arith
ack_one-count id j ((name, c) ∷ l) = elim (Bool-cases (Map.contains_key j c.pending)) [
  | inl here ↦ ground (
    arith,
    contains_key-remove_pel id j c.pending,
    ap (λ (i : StreamId). Map.contains_key i c.pending),
  )
  | inr elsewhere ↦ ground (arith, ack_one-count id j l)
]

pub ack_one-NoneAdded : (j : StreamId) (l : Consumers) → NoneAdded l (ack_one j l).1
ack_one-NoneAdded j l id = omega (arith, ack_one-count id j l)

get-ack_one :
    (name : Bytes) (j : StreamId) (l : Consumers)
    → Map.get name l ≡ none
    → Map.get name (ack_one j l).1 ≡ none
unfolding Map.get ack_one
get-ack_one name j [] h = refl
get-ack_one name j ((n, c) ∷ l) h = ground (arith, get-ack_one name j l)

pub ack_one-Distinct : (j : StreamId) (l : Consumers) → Distinct l → Distinct (ack_one j l).1
unfolding ack_one
ack_one-Distinct j [] d = tt
ack_one-Distinct j ((n, c) ∷ l) d = elim (Bool-cases (Map.contains_key j c.pending)) [
  | inl here ↦ rw here (d.0, d.1)
  | inr elsewhere ↦ rw elsewhere (get-ack_one n j l d.0, ack_one-Distinct j l d.1)
]

remove_pending-Distinct :
    (j : StreamId) (name : Bytes) (l : Consumers) → Distinct l → Distinct (remove_pending j name l)
unfolding remove_pending
remove_pending-Distinct j name l d = elim (Option-cases (Map.get name l)) [
  | inl absent ↦ rw (remove_pending, absent) d
  | inr (c, present) ↦
      rw (remove_pending, present)
        (insert-Distinct name (record { pending = Map.remove j c.pending }) l d)
]

pub add_pending-Distinct :
    (j : StreamId) (pe : PendingEntry) (name : Bytes) (l : Consumers)
    → Distinct l
    → Distinct (add_pending j pe name l)
unfolding add_pending
add_pending-Distinct j pe name l d =
    insert-Distinct name (record { pending = Map.insert j pe (pending_of name l) }) l d

-- What a step leaves of consumers that stand once: they still do, and none has gained an entry.
abbrev pub Shrinks : Consumers → Consumers → Type 0
Shrinks before after = Distinct after × NoneAdded before after

pub moved-Shrinks :
    (j : StreamId) (pe : PendingEntry) (from to : Bytes) (l : Consumers)
    → Distinct l
    → (has j from l || has j to l) ≡ true
    → Shrinks l (add_pending j pe to (remove_pending j from l))
moved-Shrinks j pe from to l d held = (
  add_pending-Distinct j pe to (remove_pending j from l) (remove_pending-Distinct j from l d),
  moved_once j pe from to l held,
)

pub ack_loop-Shrinks :
    (ids : List StreamId) (n : ℕ) (l : Consumers) → Distinct l → Shrinks l (ack_loop ids n l).1
unfolding ack_loop
ack_loop-Shrinks [] n l d = (d, λ id. omega arith)
ack_loop-Shrinks (j ∷ ids) n l d =
    let rest =
      ack_loop-Shrinks ids (n + count_if (ack_one j l).0) (ack_one j l).1
        (ack_one-Distinct j l d) in
    (rest.0, λ id. omega (arith, rest.1 id, ack_one-NoneAdded j l id))
