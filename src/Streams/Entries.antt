-- ===== src/Streams/Entries.antt =====
-- The entries of a stream: a `BTreeMap`, here the list of its entries in the order of their
-- identifiers, with the operations that the commands use.
use burner_redis.Prelude.{
  ℕ, ◌+◌, ◌&&◌, Option, none, some, List, [], ◌∷◌, if◌then◌else◌, ltb, length, keep_if, take,
}
use burner_redis.Prelude.Key.{stream_id_key}
use burner_redis.Map
use burner_redis.Map.{Map}
use burner_redis.Value.{Bytes, StreamId}
use burner_redis.Streams.Id.{id_ltb, id_leb}

abbrev pub Fields : Type 0
Fields = Map Bytes Bytes

abbrev pub EntryMap : Type 0
EntryMap = Map StreamId Fields

-- `BTreeMap::insert`
unfoldable pub insert_entry : StreamId → Fields → EntryMap → EntryMap
insert_entry id fields [] = (id, fields) ∷ []
insert_entry id fields ((j, g) ∷ l) =
    let rest = insert_entry id fields l in
    if id_ltb id j
    then (id, fields) ∷ (j, g) ∷ l
    else if id_ltb j id
    then (j, g) ∷ rest
    else (id, fields) ∷ l

-- `range((Excluded(start), Unbounded))`, `range(..min)` and `range(min..=max)`
unfoldable pub entries_after : StreamId → EntryMap → EntryMap
entries_after start = keep_if (λ e. id_ltb start e.0)

unfoldable pub entries_below : StreamId → EntryMap → EntryMap
entries_below min = keep_if (λ e. id_ltb e.0 min)

unfoldable pub entries_within : StreamId → StreamId → EntryMap → EntryMap
entries_within min max = keep_if (λ e. id_leb min e.0 && id_leb e.0 max)

-- `take(count.unwrap_or(usize::MAX))`; no list has more elements than `usize::MAX`.
abbrev pub take_count : {A : Type 0} → Option ℕ → List A → List A
take_count none l = l
take_count (some n) l = take n l

-- The loop of XTRIM over MAXLEN: how many entries it has removed, and what is left.
unfoldable pub trim_loop : ℕ → ℕ → EntryMap → ℕ × EntryMap
trim_loop max removed [] = (removed, [])
trim_loop max removed (e ∷ l) =
    let rest = trim_loop max (removed + 1) l in
    if ltb max (length (e ∷ l)) then rest else (removed, e ∷ l)

unfoldable pub remove_ids : List StreamId → EntryMap → EntryMap
remove_ids [] entries = entries
remove_ids (id ∷ ids) entries = remove_ids ids (Map.remove id entries)
