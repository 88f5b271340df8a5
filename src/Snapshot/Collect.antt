-- ===== src/Snapshot/Collect.antt =====
-- Collecting the pairs of a map gives the map back.
use burner_redis.Prelude.{
  ◌≡◌, refl, sym, ap, ◌∙◌, true, none, some, List, [], ◌∷◌, ◌++◌, map, arith, if_pos, if_neg,
}
use burner_redis.Prelude.Key.{Key}
use burner_redis.Map
use burner_redis.Map.{Map}
use burner_redis.Map.Laws.{Distinct}
use burner_redis.Value.{StreamId}
use burner_redis.Streams.Id.{id_ltb, id_ltb_trans, id_ltb_irrefl}
use burner_redis.Streams.Entries.{Fields, EntryMap, insert_entry}
use burner_redis.Streams.Order.{ascending, all_above}
use burner_redis.Snapshot.{collect, collect_into, collect_entries}

pub append-cons : {A : Type 0} (l m : List A) (x : A) → (l ++ x ∷ []) ++ m ≡ l ++ x ∷ m
append-cons [] m x = refl
append-cons (y ∷ l) m x = ap (λ t. y ∷ t) (append-cons l m x)

pub append-nil : {A : Type 0} (l : List A) → l ++ [] ≡ l
append-nil [] = refl
append-nil (y ∷ l) = ap (λ t. y ∷ t) (append-nil l)

module _ {K V : Type 0} ⦃key : Key K⦄ where
  pub insert_absent :
      (k : K) (v : V) (m : Map K V) → Map.get k m ≡ none → Map.insert k v m ≡ m ++ (k, v) ∷ []
  unfolding Map.get Map.insert
  insert_absent k v [] h = refl
  insert_absent k v ((j, w) ∷ m) h = ground (arith, insert_absent k v m)

  get_front : (k : K) (m l : Map K V) → Map.get k (m ++ l) ≡ none → Map.get k m ≡ none
  unfolding Map.get
  get_front k [] l h = refl
  get_front k ((j, w) ∷ m) l h = ground (arith, get_front k m l)

  get_back : (k : K) (m l : Map K V) → Map.get k (m ++ l) ≡ none → Map.get k l ≡ none
  unfolding Map.get
  get_back k [] l h = h
  get_back k ((j, w) ∷ m) l h = ground (arith, get_back k m l)

  pub get_middle : (k : K) (v : V) (m l : Map K V) → Distinct (m ++ (k, v) ∷ l) → Map.get k m ≡ none
  unfolding Map.get
  get_middle k v [] l d = refl
  get_middle k v ((j, w) ∷ m) l d = elim (key.dec j k) [
    | yes p ↦ absurd (ground (arith, get_back j m ((k, v) ∷ l) d.0, sym p))
    | no p ↦ rw (if_neg _ p) (get_middle k v m l d.1)
  ]

  collect_into_lem : (m l : Map K V) → Distinct (m ++ l) → collect_into m l ≡ m ++ l
  unfolding collect_into
  collect_into_lem m [] d = sym (append-nil m)
  collect_into_lem m ((k, v) ∷ l) d =
      let placed = insert_absent k v m (get_middle k v m l d) in
      rw placed (
        collect_into_lem (m ++ (k, v) ∷ []) l (rw (append-cons m l (k, v)) d)
        ∙ append-cons m l (k, v))

  pub collect_lem : (l : Map K V) → Distinct l → collect l ≡ l
  collect_lem l d = collect_into_lem [] l d

module _ {K V W : Type 0} ⦃key : Key K⦄ (f : V → W) where
  -- The values of a map, one by one.
  abbrev pub map_values : Map K V → Map K W
  map_values = map (λ e. (e.0, f e.1))

  pub map_values-absent :
      (k : K) (m : Map K V) → Map.get k m ≡ none → Map.get k (map_values m) ≡ none
  unfolding Map.get
  map_values-absent k [] h = refl
  map_values-absent k ((j, w) ∷ m) h = ground (arith, map_values-absent k m)

  here :
      (j : K) (w : V) (m : Map K V) (k : K) (v : V)
      → j ≡ k
      → Map.get k ((j, w) ∷ m) ≡ some v
      → w ≡ v
  unfolding Map.get
  here j w m k v p h = ground arith

  pub map_values-present :
      (k : K) (v : V) (m : Map K V) → Map.get k m ≡ some v → Map.get k (map_values m) ≡ some (f v)
  unfolding Map.get
  map_values-present k v [] h = absurd (ground arith)
  map_values-present k v ((j, w) ∷ m) h = elim (key.dec j k) [
    | yes p ↦ rw (if_pos _ p) (ap (λ x. some (f x)) (here j w m k v p h))
    | no p ↦ rw (if_neg _ p) (map_values-present k v m (ground arith))
  ]

  pub map_values-Distinct : (m : Map K V) → Distinct m → Distinct (map_values m)
  map_values-Distinct [] d = tt
  map_values-Distinct ((j, w) ∷ m) d = (map_values-absent j m d.0, map_values-Distinct m d.1)

all_above_middle :
    (i id : StreamId) (fields : Fields) (m l : EntryMap)
    → all_above i (m ++ (id, fields) ∷ l) ≡ true
    → id_ltb i id ≡ true
all_above_middle i id fields [] l h = ground arith
all_above_middle i id fields (e ∷ m) l h = all_above_middle i id fields m l (ground arith)

insert_entry_last :
    (id : StreamId) (fields : Fields) (m l : EntryMap)
    → ascending (m ++ (id, fields) ∷ l) ≡ true
    → insert_entry id fields m ≡ m ++ (id, fields) ∷ []
unfolding insert_entry
insert_entry_last id fields [] l h = refl
insert_entry_last id fields (e ∷ m) l h =
    let above = all_above_middle e.0 id fields m l (ground arith) in
    ground (arith, insert_entry_last id fields m l, id_ltb_trans id e.0 id, id_ltb_irrefl id)

pub collect_entries_lem :
    (m l : EntryMap) → ascending (m ++ l) ≡ true → collect_entries m l ≡ m ++ l
unfolding collect_entries
collect_entries_lem m [] h = sym (append-nil m)
collect_entries_lem m ((id, fields) ∷ l) h =
    let placed = insert_entry_last id fields m l h in
    rw placed (
      collect_entries_lem (m ++ (id, fields) ∷ []) l (rw (append-cons m l (id, fields)) h)
      ∙ append-cons m l (id, fields))
