-- ===== src/Groups/Acks.antt =====
-- XACK, as a client sees it.
use burner_redis.Prelude.{
  ℕ, ◌+◌, ◌≡◌, ◌≤◌, refl, ap, false, none, some, List, [], ◌∷◌, if◌then◌else◌, arith, Bool-cases,
  inl, inr, ite, if_pos, if_neg, ◌∙◌,
}
use burner_redis.Prelude.Key.{bytes_key, stream_id_key, bytes_discrete, same, among}
use burner_redis.Map
use burner_redis.Map.Laws.{
  Distinct, get-remove, contains_key-get, len-remove, remove-Distinct, count_new,
}
use burner_redis.Value.{Bytes, Instant, StreamId, Consumer, ConsumerGroup, Stream, ok}
use burner_redis.Store.{Data}
use burner_redis.Store.View.{live}
use burner_redis.Keys.{count_if}
use burner_redis.Streams.View.{stream_view}
use burner_redis.Groups.{xack, ack_loop, ack_ids}
use burner_redis.Groups.Pending.{Pel, Consumers, ack_one, pending_of}
use burner_redis.Groups.Info.{total_pending}
use burner_redis.Groups.View.{with_group, update-group, update_absent_group}
use burner_redis.Groups.Holders.{has, has_held, holders}
use burner_redis.Groups.Exclusive.{ack_one-NoneAdded}

-- No identifier stands twice in what a consumer has pending, as in a `HashMap`.
abbrev pub PelsDistinct : Consumers → Type 0
PelsDistinct [] = Unit
PelsDistinct ((name, c) ∷ l) = Distinct c.pending × PelsDistinct l

total-ack_one :
    (j : StreamId) (l : Consumers)
    → PelsDistinct l
    → (count_if (ack_one j l).0 + total_pending (ack_one j l).1 ≡ total_pending l)
      × PelsDistinct (ack_one j l).1
unfolding ack_one total_pending
total-ack_one j [] d = (refl, tt)
total-ack_one j ((name, c) ∷ l) d = elim (Bool-cases (Map.contains_key j c.pending)) [
  | inl here ↦ rw here (
    omega (arith, len-remove j c.pending d.0, ap count_new here),
    (remove-Distinct j c.pending d.0, d.1),
  )
  | inr elsewhere ↦
      rw elsewhere (omega (arith, (total-ack_one j l d.1).0), (d.0, (total-ack_one j l d.1).1))
]

total-ack_loop :
    (ids : List StreamId) (n : ℕ) (l : Consumers)
    → PelsDistinct l
    → (ack_loop ids n l).0 + total_pending (ack_loop ids n l).1 ≡ n + total_pending l
unfolding ack_loop
total-ack_loop [] n l d = refl
total-ack_loop (j ∷ ids) n l d =
    let (total, d') = total-ack_one j l d in
    omega (arith, total, total-ack_loop ids (n + count_if (ack_one j l).0) (ack_one j l).1 d')

nothing_of : (i : StreamId) (name : Bytes) → Map.get i (pending_of name []) ≡ none
unfolding pending_of Map.get
nothing_of i name = refl

pending_of-cons :
    (name j : Bytes) (d : Consumer) (l : Consumers)
    → pending_of name ((j, d) ∷ l) ≡ ite (bytes_discrete j name) d.pending (pending_of name l)
unfolding pending_of Map.get
pending_of-cons name j d l = elim (bytes_discrete j name) [
  | yes p ↦ rw (if_pos _ p, if_pos _ p) refl
  | no p ↦ rw (if_neg _ p, if_neg _ p) refl
]

get_free : (j : StreamId) (pel : Pel) → Map.contains_key j pel ≡ false → Map.get j pel ≡ none
get_free j pel h = ground (arith, contains_key-get j pel)

-- What a consumer has pending after one identifier, which one consumer at most has, and after all.
get-ack_one :
    (j i : StreamId) (name : Bytes) (l : Consumers)
    → holders j l ≤ 1
    → Map.get i (pending_of name (ack_one j l).1)
      ≡ (if same j i then none else Map.get i (pending_of name l))
unfolding ack_one holders
get-ack_one j i name [] h = ground (arith, nothing_of i name)
get-ack_one j i name ((other, c) ∷ l) h = elim (Bool-cases (Map.contains_key j c.pending)) [
  | inl here ↦
      let alone : holders j l ≡ 0 = ground (arith, here) in
      let free : has j name l ≡ false = ground (arith, has_held j name l) in
      rw
        (
          here,
          pending_of-cons name other (record { pending = Map.remove j c.pending }) l,
          pending_of-cons name other c l,
        )
        (ground (
          arith,
          get-remove j i c.pending,
          get_free j (pending_of name l) free,
          ap (λ (k : StreamId). Map.get k (pending_of name l)),
        ))
  | inr elsewhere ↦
      rw (elsewhere, pending_of-cons name other c (ack_one j l).1, pending_of-cons name other c l)
        (ground (
          arith,
          get-ack_one j i name l,
          get_free j c.pending elsewhere,
          ap (λ (k : StreamId). Map.get k c.pending),
        ))
]

get-ack_loop :
    (i : StreamId) (name : Bytes) (ids : List StreamId) (n : ℕ) (l : Consumers)
    → ((j : StreamId) → holders j l ≤ 1)
    → Map.get i (pending_of name (ack_loop ids n l).1)
      ≡ (if among i ids then none else Map.get i (pending_of name l))
unfolding ack_loop
get-ack_loop i name [] n l h = refl
get-ack_loop i name (j ∷ ids) n l h =
    let rest =
      get-ack_loop i name ids (n + count_if (ack_one j l).0) (ack_one j l).1
        (λ k. omega (arith, h k, ack_one-NoneAdded j l k)) in
    ground (arith, rest, get-ack_one j i name l (h j))

holders-ack_loop :
    (ids : List StreamId) (n : ℕ) (l : Consumers) (i : StreamId)
    → holders i (ack_loop ids n l).1 ≤ holders i l
unfolding ack_loop
holders-ack_loop [] n l i = omega arith
holders-ack_loop (j ∷ ids) n l i = omega (
  arith,
  holders-ack_loop ids (n + count_if (ack_one j l).0) (ack_one j l).1 i,
  ack_one-NoneAdded j l i,
)

keys-ack_one : (j : StreamId) (l : Consumers) → Map.keys (ack_one j l).1 ≡ Map.keys l
unfolding ack_one
keys-ack_one j [] = refl
keys-ack_one j ((name, c) ∷ l) = ground (arith, keys-ack_one j l)

keys-ack_loop :
    (ids : List StreamId) (n : ℕ) (l : Consumers) → Map.keys (ack_loop ids n l).1 ≡ Map.keys l
unfolding ack_loop
keys-ack_loop [] n l = refl
keys-ack_loop (j ∷ ids) n l =
    keys-ack_loop ids (n + count_if (ack_one j l).0) (ack_one j l).1 ∙ keys-ack_one j l

module _ (now : Instant) (key group : Bytes) (ids : List StreamId) (m : Data) (st : Stream)
    (view : stream_view (live now key m) ≡ some st) where
  -- XACK in a group that is there, where no identifier is pending with two consumers: no consumer has a
  -- named identifier pending afterwards, every other pending entry is with its consumer as before, with
  -- its time and its count, the answer is the number by which the pending entries have become fewer, the
  -- consumers and the last delivered identifier stay, and so does the rest of the stream.
  pub xack_lem :
      (cg : ConsumerGroup)
      → Map.get group st.groups ≡ some cg
      → ((id : StreamId) → holders id cg.consumers ≤ 1)
      → PelsDistinct cg.consumers
      → (n : ℕ) × (cg' : ConsumerGroup) × ((xack now key group ids m).0 ≡ ok n)
        × (stream_view (live now key (xack now key group ids m).1) ≡ some (with_group group cg' st))
        × ((name : Bytes) (id : StreamId)
            → Map.get id (pending_of name cg'.consumers)
              ≡ (if among id ids then none else Map.get id (pending_of name cg.consumers)))
        × (n + total_pending cg'.consumers ≡ total_pending cg.consumers)
        × (Map.keys cg'.consumers ≡ Map.keys cg.consumers)
        × (cg'.last_delivered_id ≡ cg.last_delivered_id)
        × ((id : StreamId) → holders id cg'.consumers ≤ 1)
  unfolding xack
  xack_lem cg found once pels =
      let (answer, seen) = update-group now key group m st (ok 0) (ack_ids ids) view cg found in
      (
        (ack_loop ids 0 cg.consumers).0,
        record cg { consumers = (ack_loop ids 0 cg.consumers).1 },
        answer,
        seen,
        λ name id. get-ack_loop id name ids 0 cg.consumers once,
        omega (arith, total-ack_loop ids 0 cg.consumers pels),
        keys-ack_loop ids 0 cg.consumers,
        refl,
        λ id. omega (arith, once id, holders-ack_loop ids 0 cg.consumers id),
      )

  -- XACK without the group, or without the key: zero, and the stream is as before.
  pub xack_no_group :
      Map.get group st.groups ≡ none
      → ((xack now key group ids m).0 ≡ ok 0)
        × (stream_view (live now key (xack now key group ids m).1) ≡ some st)
  unfolding xack
  xack_no_group absent = update_absent_group now key group m st (ok 0) (ack_ids ids) view absent
