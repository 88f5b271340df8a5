-- ===== src/Groups/History.antt =====
-- The identifiers that XREADGROUP sorts and the entries that it looks up for them.
use burner_redis.Prelude.{
  ℕ, zero, suc, ◌≡◌, refl, ap, ◌∙◌, Bool, true, false, not, ◌&&◌, ◌||◌, Option, none, some, List,
  [], ◌∷◌, arith, keep_if, if◌then◌else◌, Bool-cases, Option-cases, inl, inr,
}
use burner_redis.Prelude.Key.{bytes_key, stream_id_key, same, among}
use burner_redis.Map
use burner_redis.Map.Laws.{Distinct, contains_key-get}
use burner_redis.Value.{Bytes, StreamId, Stream, Consumer}
use burner_redis.Streams.Id.{id_ltb, id_leb, id_ltb_trans, id_antisymm}
use burner_redis.Streams.Entries.{EntryMap}
use burner_redis.Streams.Reading.{beyond, limited, take_count-limited}
use burner_redis.Streams.Text.{parse_stream_id, split_dash, parse_parts, parse_u64}
use burner_redis.Groups.{existing, pending_from, history, start_of}
use burner_redis.Groups.Pending.{Pel, pending_or_new, sort_by_id, insert_by_id}

-- Identifiers that ascend strictly.
abbrev pub each_beyond : StreamId → List StreamId → Bool
each_beyond i [] = true
each_beyond i (j ∷ ids) = beyond i j && each_beyond i ids

abbrev pub ids_ascend : List StreamId → Bool
ids_ascend [] = true
ids_ascend (i ∷ ids) = each_beyond i ids && ids_ascend ids

each_beyond_trans :
    (i j : StreamId) (ids : List StreamId)
    → beyond i j ≡ true
    → each_beyond j ids ≡ true
    → each_beyond i ids ≡ true
each_beyond_trans i j [] h k = refl
each_beyond_trans i j (x ∷ ids) h k = ground (arith, each_beyond_trans i j ids, id_ltb_trans i j x)

module _ (x : StreamId) where
  abbrev inserted : List StreamId → List StreamId
  inserted = insert_by_id (λ (i : StreamId). i) x

  among-inserted :
      (i : StreamId) (ids : List StreamId) → among i (inserted ids) ≡ (same x i || among i ids)
  among-inserted i [] = refl
  among-inserted i (y ∷ ids) = ground (arith, among-inserted i ids)

  each_beyond-inserted :
      (i : StreamId) (ids : List StreamId)
      → beyond i x ≡ true
      → each_beyond i ids ≡ true
      → each_beyond i (inserted ids) ≡ true
  each_beyond-inserted i [] h k = ground arith
  each_beyond-inserted i (y ∷ ids) h k = ground (arith, each_beyond-inserted i ids)

  inserted-ids_ascend :
      (ids : List StreamId)
      → among x ids ≡ false
      → ids_ascend ids ≡ true
      → ids_ascend (inserted ids) ≡ true
  inserted-ids_ascend [] new h = refl
  inserted-ids_ascend (y ∷ ids) new h = elim (Bool-cases (id_ltb y x)) [
    | inl before ↦ rw before (ground (arith, inserted-ids_ascend ids, each_beyond-inserted y ids))
    | inr behind ↦ elim (Bool-cases (id_ltb x y)) [
      | inl below ↦ rw behind (ground (arith, each_beyond_trans x y ids))
      | inr same_id ↦ absurd (ground (arith, id_antisymm x y same_id behind))
    ]
  ]

abbrev sorted : List StreamId → List StreamId
sorted = sort_by_id (λ (i : StreamId). i)

among-sorted : (i : StreamId) (ids : List StreamId) → among i (sorted ids) ≡ among i ids
unfolding sort_by_id
among-sorted i [] = refl
among-sorted i (x ∷ ids) = ground (arith, among-sorted i ids, among-inserted x i (sorted ids))

-- None stands twice.
abbrev none_twice : List StreamId → Bool
none_twice [] = true
none_twice (i ∷ ids) = not (among i ids) && none_twice ids

sorted-ids_ascend : (ids : List StreamId) → none_twice ids ≡ true → ids_ascend (sorted ids) ≡ true
unfolding sort_by_id
sorted-ids_ascend [] h = refl
sorted-ids_ascend (x ∷ ids) h =
    inserted-ids_ascend x (sorted ids) (ground (arith, among-sorted x ids))
      (sorted-ids_ascend ids (ground arith))

among-keep_if :
    (p : StreamId → Bool) (i : StreamId) (ids : List StreamId)
    → among i (keep_if p ids) ≡ (p i && among i ids)
among-keep_if p i [] = ground arith
among-keep_if p i (x ∷ ids) = ground (arith, among-keep_if p i ids, ap (λ (j : StreamId). p j))

none_twice-keep_if :
    (p : StreamId → Bool) (ids : List StreamId)
    → none_twice ids ≡ true
    → none_twice (keep_if p ids) ≡ true
none_twice-keep_if p [] h = refl
none_twice-keep_if p (x ∷ ids) h = ground (arith, none_twice-keep_if p ids, among-keep_if p x ids)

among-pel : (i : StreamId) (pel : Pel) → among i (Map.keys pel) ≡ Map.contains_key i pel
unfolding Map.contains_key
among-pel i [] = refl
among-pel i ((j, pe) ∷ pel) = ground (arith, among-pel i pel)

none_twice-pel : (pel : Pel) → Distinct pel → none_twice (Map.keys pel) ≡ true
none_twice-pel [] d = refl
none_twice-pel ((j, pe) ∷ pel) d =
    ground (arith, none_twice-pel pel d.1, among-pel j pel, contains_key-get j pel, d.0)

-- The identifiers that are pending from one on.
pub pending_from_lem :
    (start : StreamId) (pel : Pel)
    → Distinct pel
    → (ids_ascend (pending_from start pel) ≡ true)
      × ((i : StreamId)
          → among i (pending_from start pel) ≡ (not (beyond i start) && Map.contains_key i pel))
pending_from_lem start pel d = (
  sorted-ids_ascend (keep_if (id_leb start) (Map.keys pel))
      (none_twice-keep_if (id_leb start) (Map.keys pel) (none_twice-pel pel d)),
  λ i.
      among-sorted i (keep_if (id_leb start) (Map.keys pel))
      ∙ among-keep_if (id_leb start) i (Map.keys pel)
      ∙ ap (λ b. id_leb start i && b) (among-pel i pel),
)

-- The entries that are still there, of identifiers that ascend.
module _ (entries : EntryMap) where
  pub get-existing :
      (i : StreamId) (ids : List StreamId)
      → Map.get i (existing entries ids) ≡ (if among i ids then Map.get i entries else none)
  unfolding Map.get
  get-existing i [] = refl
  get-existing i (x ∷ ids) = elim (Option-cases (Map.get x entries)) [
    | inl absent ↦
        rw absent (ground (arith, get-existing i ids, ap (λ (j : StreamId). Map.get j entries)))
    | inr (fields, there) ↦
        rw there (ground (arith, get-existing i ids, ap (λ (j : StreamId). Map.get j entries)))
  ]

  each_beyond-existing :
      (i : StreamId) (ids : List StreamId)
      → each_beyond i ids ≡ true
      → each_beyond i (Map.keys (existing entries ids)) ≡ true
  each_beyond-existing i [] h = refl
  each_beyond-existing i (x ∷ ids) h = elim (Option-cases (Map.get x entries)) [
    | inl absent ↦ rw absent (each_beyond-existing i ids (ground arith))
    | inr (fields, there) ↦ rw there (ground (arith, each_beyond-existing i ids))
  ]

  pub existing-ids_ascend :
      (ids : List StreamId)
      → ids_ascend ids ≡ true
      → ids_ascend (Map.keys (existing entries ids)) ≡ true
  existing-ids_ascend [] h = refl
  existing-ids_ascend (x ∷ ids) h = elim (Option-cases (Map.get x entries)) [
    | inl absent ↦ rw absent (existing-ids_ascend ids (ground arith))
    | inr (fields, there) ↦
        rw there (ground (arith, existing-ids_ascend ids, each_beyond-existing x ids))
  ]

each_beyond-limited :
    (i : StreamId) (n : ℕ) (ids : List StreamId)
    → each_beyond i ids ≡ true
    → each_beyond i (limited (some n) ids) ≡ true
each_beyond-limited i n [] h = refl
each_beyond-limited i zero (x ∷ ids) h = refl
each_beyond-limited i (suc n) (x ∷ ids) h = ground (arith, each_beyond-limited i n ids)

pub limited-ids_ascend :
    (count : Option ℕ) (ids : List StreamId)
    → ids_ascend ids ≡ true
    → ids_ascend (limited count ids) ≡ true
limited-ids_ascend none ids h = h
limited-ids_ascend (some n) [] h = refl
limited-ids_ascend (some zero) (x ∷ ids) h = refl
limited-ids_ascend (some (suc n)) (x ∷ ids) h =
    ground (arith, limited-ids_ascend (some n) ids, each_beyond-limited x n ids)

pub history-existing :
    (start : StreamId) (count : Option ℕ) (st : Stream) (c : Option Consumer)
    → history start count st c
      ≡ existing st.entries (limited count (pending_from start (pending_or_new c)))
unfolding sort_by_id
history-existing start none st none = refl
history-existing start (some n) st none = refl
history-existing start count st (some c) =
    ap (existing st.entries) (take_count-limited count (pending_from start c.pending))

-- The identifier that a text stands for, and the lowest one for a text that stands for none.
abbrev pub lowest_or : Option StreamId → StreamId
lowest_or none = (0, 0)
lowest_or (some i) = i

lowest_texts :
    (parse_stream_id (b'0' ∷ []) ≡ none) × (parse_stream_id (b'0' ∷ b'-' ∷ b'0' ∷ []) ≡ some (0, 0))
unfolding parse_stream_id split_dash parse_parts parse_u64
lowest_texts = (refl, refl)

pub start_of-lowest_or : (id : Bytes) → start_of id ≡ lowest_or (parse_stream_id id)
unfolding start_of
start_of-lowest_or id = ground (
  arith,
  lowest_texts.0,
  lowest_texts.1,
  ap parse_stream_id {x = id} {y = b'0' ∷ []},
  ap parse_stream_id {x = id} {y = b'0' ∷ b'-' ∷ b'0' ∷ []},
)
