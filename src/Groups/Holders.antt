-- ===== src/Groups/Holders.antt =====
-- How many consumers of a group have an identifier pending, after each step on them.
use burner_redis.Prelude.{
  ℕ, ◌+◌, ◌≡◌, ◌≤◌, refl, ap, ◌∙◌, Bool, false, ◌||◌, none, some, [], ◌∷◌, if◌then◌else◌, arith,
  ite, if_pos, if_neg, Option-cases, inl, inr,
}
use burner_redis.Prelude.Key.{bytes_key, stream_id_key, bytes_discrete, same}
use burner_redis.Map
use burner_redis.Map.Laws.{get-insert, get-remove, contains_key-get}
use burner_redis.Value.{Bytes, StreamId, PendingEntry, Consumer}
use burner_redis.Keys.{count_if}
use burner_redis.Groups.Pending.{Pel, Consumers, pending_of, add_pending, remove_pending}

-- Does the consumer have the identifier pending?
abbrev pub has : StreamId → Bytes → Consumers → Bool
has id name consumers = Map.contains_key id (pending_of name consumers)

unfoldable pub holders : StreamId → Consumers → ℕ
holders id [] = 0
holders id ((name, c) ∷ l) = count_if (Map.contains_key id c.pending) + holders id l

has_none : (id : StreamId) (name : Bytes) → has id name [] ≡ false
unfolding pending_of Map.get Map.contains_key
has_none id name = refl

pub has-cons :
    (id : StreamId) (name j : Bytes) (d : Consumer) (l : Consumers)
    → has id name ((j, d) ∷ l)
      ≡ ite (bytes_discrete j name) (Map.contains_key id d.pending) (has id name l)
unfolding pending_of Map.get
has-cons id name j d l = elim (bytes_discrete j name) [
  | yes p ↦ rw (if_pos _ p, if_pos _ p) refl
  | no p ↦ rw (if_neg _ p, if_neg _ p) refl
]

module _ (id : StreamId) where
  pub holders-insert :
      (name : Bytes) (c : Consumer) (l : Consumers)
      → holders id (Map.insert name c l) + count_if (has id name l)
        ≡ holders id l + count_if (Map.contains_key id c.pending)
  unfolding holders Map.insert
  holders-insert name c [] = rw (has_none id name) (omega arith)
  holders-insert name c ((j, d) ∷ l) = elim (bytes_discrete j name) [
    | yes p ↦ rw (if_pos _ p, has-cons id name j d l, if_pos _ p) (omega arith)
    | no p ↦
        rw (if_neg _ p, has-cons id name j d l, if_neg _ p) (omega (arith, holders-insert name c l))
  ]

  pub has_held : (name : Bytes) (l : Consumers) → count_if (has id name l) ≤ holders id l
  unfolding holders
  has_held name [] = rw (has_none id name) (omega arith)
  has_held name ((j, d) ∷ l) = elim (bytes_discrete j name) [
    | yes p ↦ rw (has-cons id name j d l, if_pos _ p) (omega arith)
    | no p ↦ rw (has-cons id name j d l, if_neg _ p) (omega (arith, has_held name l))
  ]

pub contains_key-insert_pel :
    (id j : StreamId) (pe : PendingEntry) (pel : Pel)
    → Map.contains_key id (Map.insert j pe pel) ≡ (same j id || Map.contains_key id pel)
contains_key-insert_pel id j pe pel = ground (
  arith,
  contains_key-get id pel,
  contains_key-get id (Map.insert j pe pel),
  get-insert j id pe pel,
)

pub contains_key-remove_pel :
    (id j : StreamId) (pel : Pel)
    → Map.contains_key id (Map.remove j pel)
      ≡ (if same j id then false else Map.contains_key id pel)
contains_key-remove_pel id j pel =
    ground
      (arith, contains_key-get id pel, contains_key-get id (Map.remove j pel), get-remove j id pel)

pub has_absent :
    (id : StreamId) (name : Bytes) (l : Consumers) → Map.get name l ≡ none → has id name l ≡ false
unfolding pending_of Map.contains_key
has_absent id name l h = rw (pending_of, h) refl

remove_pending_absent :
    (id : StreamId) (name : Bytes) (l : Consumers)
    → Map.get name l ≡ none
    → remove_pending id name l ≡ l
unfolding remove_pending
remove_pending_absent id name l h = rw (remove_pending, h) refl

remove_pending_present :
    (id : StreamId) (name : Bytes) (l : Consumers) (c : Consumer)
    → Map.get name l ≡ some c
    → (remove_pending id name l ≡ Map.insert name (record { pending = Map.remove id c.pending }) l)
      × ((j : StreamId) → has j name l ≡ Map.contains_key j c.pending)
unfolding remove_pending pending_of
remove_pending_present id name l c h = (rw (remove_pending, h) refl, λ j. rw (pending_of, h) refl)

pub pending_of-insert :
    (name other : Bytes) (c : Consumer) (l : Consumers)
    → pending_of name (Map.insert other c l)
      ≡ ite (bytes_discrete other name) c.pending (pending_of name l)
unfolding pending_of
pending_of-insert name other c l =
    rw (pending_of, get-insert other name c l)
      (elim (bytes_discrete other name) [
        | yes p ↦ rw (if_pos _ p, if_pos _ p) refl
        | no p ↦ rw (if_neg _ p, if_neg _ p) refl
      ])

pub has-insert :
    (id : StreamId) (name other : Bytes) (c : Consumer) (l : Consumers)
    → has id name (Map.insert other c l)
      ≡ ite (bytes_discrete other name) (Map.contains_key id c.pending) (has id name l)
has-insert id name other c l =
    rw (pending_of-insert name other c l) (elim (bytes_discrete other name) [
      | yes p ↦ rw (if_pos _ p, if_pos _ p) refl
      | no p ↦ rw (if_neg _ p, if_neg _ p) refl
    ])

-- Inserting a pending entry, as a claim does.
module _ (id j : StreamId) where
  pub holders-add_pending :
      (pe : PendingEntry) (name : Bytes) (l : Consumers)
      → holders id (add_pending j pe name l) + count_if (has id name l)
        ≡ holders id l + count_if (same j id || has id name l)
  unfolding add_pending
  holders-add_pending pe name l = omega (
    arith,
    holders-insert id name (record { pending = Map.insert j pe (pending_of name l) }) l,
    ap count_if (contains_key-insert_pel id j pe (pending_of name l)),
  )

  pub holders-remove_pending :
      (name : Bytes) (l : Consumers)
      → holders id (remove_pending j name l) + count_if (has id name l)
        ≡ holders id l + count_if (if same j id then false else has id name l)
  holders-remove_pending name l = elim (Option-cases (Map.get name l)) [
    | inl absent ↦
        rw (remove_pending_absent j name l absent, has_absent id name l absent) (ground arith)
    | inr (c, present) ↦
        let (replaced, held) = remove_pending_present j name l c present in
        let kept = holders-insert id name (record { pending = Map.remove j c.pending }) l in
        rw replaced (
          omega (
            arith,
            kept,
            ap count_if (contains_key-remove_pel id j c.pending),
            ap (λ b. count_if (if same j id then false else b)) (held id),
          ))
  ]

  pub has-remove_pending :
      (name other : Bytes) (l : Consumers)
      → has id name (remove_pending j other l) ≡ (
          if same j id
          then ite (bytes_discrete other name) false (has id name l)
          else has id name l)
  has-remove_pending name other l = elim (Option-cases (Map.get other l)) [
    | inl absent ↦
        rw (remove_pending_absent j other l absent) (ground (arith, has_absent id other l absent))
    | inr (c, present) ↦
        let (replaced, held) = remove_pending_present j other l c present in
        rw (replaced, has-insert id name other (record { pending = Map.remove j c.pending }) l)
          (ground (arith, held id, contains_key-remove_pel id j c.pending))
  ]

  pub has-add_pending :
      (pe : PendingEntry) (name other : Bytes) (l : Consumers)
      → has id name (add_pending j pe other l)
        ≡ ite (bytes_discrete other name) (same j id || has id other l) (has id name l)
  unfolding add_pending
  has-add_pending pe name other l =
      has-insert id name other (record { pending = Map.insert j pe (pending_of other l) }) l
      ∙ ap (λ b. ite (bytes_discrete other name) b (has id name l))
          (contains_key-insert_pel id j pe (pending_of other l))
