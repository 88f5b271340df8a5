-- ===== src/Snapshot/Reload.antt =====
-- What a store holds after a snapshot is taken and loaded.
use burner_redis.Prelude.{
  ◌+◌, ◌-◌, ◌*◌, ◌/◌, ◌%◌, ◌^◌, ◌≡◌, ◌≤◌, ◌<◌, refl, ap, ◌∙◌, Bool, true, false, not, none, some,
  Option, List, [], ◌∷◌, arith, keep_if, leb, ◌==◌, ltb, ◌&&◌, ◌||◌, Option-cases, Bool-cases, inl,
  inr,
}
use burner_redis.Prelude.Key.{bytes_key}
use burner_redis.Map
use burner_redis.Map.Laws.{Distinct}
use burner_redis.Map.All.{All, All-get}
use burner_redis.Value.{Bytes, Instant, F64, ValueEntry, is_expired}
use burner_redis.Store.{Data}
use burner_redis.Store.View.{live}
use burner_redis.SortedSets.Consistent.{IsScoreOrder}
use burner_redis.Snapshot.{
  from_store, into_runtime, save_entry, load_entry, remaining_ms, expiry_of, collect,
}
use burner_redis.Snapshot.Collect.{
  collect_lem, map_values, map_values-Distinct, map_values-present, map_values-absent,
}
use burner_redis.Snapshot.RoundTrip.{IsWhole, Restores, load-save_value}

abbrev kept : Instant → Data → Data
kept t = keep_if (λ e. not (is_expired e.1 t))

kept-absent :
    (t : Instant) (k : Bytes) (m : Data) → Map.get k m ≡ none → Map.get k (kept t m) ≡ none
unfolding Map.get
kept-absent t k [] h = refl
kept-absent t k ((j, e) ∷ m) h = ground (arith, kept-absent t k m)

kept-Distinct : (t : Instant) (m : Data) → Distinct m → Distinct (kept t m)
kept-Distinct t [] d = tt
kept-Distinct t ((j, e) ∷ m) d = elim (Bool-cases (is_expired e t)) [
  | inl expired ↦ rw expired (kept-Distinct t m d.1)
  | inr there ↦ rw there (kept-absent t j m d.0, kept-Distinct t m d.1)
]

get-kept : (t : Instant) (k : Bytes) (m : Data) → Distinct m → Map.get k (kept t m) ≡ live t k m
unfolding Map.get live
get-kept t k [] d = refl
get-kept t k ((j, e) ∷ m) d = ground (
  arith,
  get-kept t k m d.1,
  kept-absent t k m,
  kept-absent t j m d.0,
  ap (λ x. Map.get x (kept t m)),
)

-- A value that is saved at `now` and loaded at `later`.
module _ (score_leb : F64 → F64 → Bool) (now later : Instant) where
  abbrev pub reload : ValueEntry → ValueEntry
  reload e = load_entry score_leb later (save_entry now e)

  reload_each :
      (m : Data)
      → map_values (load_entry score_leb later) (map_values (save_entry now) m)
        ≡ map_values reload m
  reload_each [] = refl
  reload_each ((k, e) ∷ m) = ap (λ l. (k, reload e) ∷ l) (reload_each m)

  loaded_map :
      (t : Instant) (data_map : Data) (scripts : List (Bytes × Bytes))
      → Distinct data_map
      → (into_runtime score_leb later (from_store now t data_map scripts)).0
        ≡ map_values reload (kept t data_map)
  unfolding into_runtime from_store
  loaded_map t data_map scripts d =
      ap collect (reload_each (kept t data_map))
      ∙ collect_lem (map_values reload (kept t data_map))
          (map_values-Distinct reload (kept t data_map) (kept-Distinct t data_map d))

-- There is a whole millisecond left, and the milliseconds left fit in 64 bits.
abbrev pub has_time : Instant → Option Instant → Bool
has_time now none = true
has_time now (some exp) = leb (now + 1_000_000) exp && ltb ((exp - now) / 1_000_000) (2 ^ 64)

-- An entry that can be reloaded, unless it has expired at `t`.
abbrev pub IsReloadable : (F64 → F64 → Bool) → Instant → Instant → ValueEntry → Type 0
IsReloadable score_leb now t e =
    IsWhole score_leb e.value × ((is_expired e t || has_time now e.expires_at) ≡ true)

-- The expiry is as far from the loading as it was from the snapshot, less a part of a millisecond.
abbrev pub KeepsExpiry : Instant → Instant → Option Instant → Option Instant → Type 0
KeepsExpiry now later none found = found ≡ none
KeepsExpiry now later (some exp) found =
    (at : Instant) × (found ≡ some at)
    × (at ≤ later + (exp - now))
    × (later + (exp - now) < at + 1_000_000)

-- What is found under a key, from what was.
abbrev pub Reloads :
    (F64 → F64 → Bool) → Instant → Instant → Option ValueEntry → Option ValueEntry → Type 0
Reloads score_leb now later none found = found ≡ none
Reloads score_leb now later (some e) found =
    (e' : ValueEntry) × (found ≡ some e')
    × Restores score_leb later e.value e'.value
    × KeepsExpiry now later e.expires_at e'.expires_at

expiry-reload :
    (now later : Instant) (expires_at : Option Instant)
    → has_time now expires_at ≡ true
    → KeepsExpiry now later expires_at (expiry_of later (remaining_ms now expires_at))
expiry-reload now later none h = refl
expiry-reload now later (some exp) h =
    let late : now + 1_000_000 ≤ exp = ground arith in
    let fits : (exp - now) / 1_000_000 < 2 ^ 64 = ground arith in
    let unexpired : leb exp now ≡ false = ground arith in
    let whole : (exp - now) / 1_000_000 % 2 ^ 64 ≡ (exp - now) / 1_000_000 = omega arith in
    let some_left : ((exp - now) / 1_000_000 == 0) ≡ false = ground arith in
    (
      later + (exp - now) / 1_000_000 * 1_000_000,
      rw (unexpired, whole, some_left) refl,
      omega arith,
      omega arith,
    )

live-get :
    (t : Instant) (k : Bytes) (m : Data) (e : ValueEntry)
    → live t k m ≡ some e
    → (Map.get k m ≡ some e) × (is_expired e t ≡ false)
unfolding live
live-get t k m e h = ground arith

-- After a snapshot is taken and loaded, a client finds exactly the keys that it found before: each has
-- its value again (the indexes of a sorted set agreeing, the groups of a stream with what is pending,
-- the times of delivery set to that of loading), and an expiry as far off as before, less a part of a
-- millisecond. No key stands twice in a map, the entries of a stream
-- ascend, every expiry that has not passed is a millisecond off at least and fits in 64 bits of milliseconds, and
-- `score_leb` has the laws of an order.
pub into_runtime-from_store :
    (score_leb : F64 → F64 → Bool) (order : IsScoreOrder score_leb) (now t later : Instant)
    (data_map : Data) (scripts : List (Bytes × Bytes)) (key : Bytes)
    → Distinct data_map
    → All (IsReloadable score_leb now t) data_map
    → Reloads score_leb now later
        (live t key data_map)
        (Map.get key (into_runtime score_leb later (from_store now t data_map scripts)).0)
into_runtime-from_store score_leb order now t later data_map scripts key d all =
    elim (Option-cases (live t key data_map)) [
      | inl absent ↦
          rw (loaded_map score_leb now later t data_map scripts d, absent)
            (map_values-absent (reload score_leb now later) key (kept t data_map)
              (get-kept t key data_map d ∙ absent))
      | inr (e, there) ↦
          let (stored, unexpired) = live-get t key data_map e there in
          let good = All-get (IsReloadable score_leb now t) key e data_map all stored in
          rw (loaded_map score_leb now later t data_map scripts d, there)
            (
              reload score_leb now later e,
              map_values-present (reload score_leb now later) key e (kept t data_map)
                  (get-kept t key data_map d ∙ there),
              load-save_value score_leb order later e.value good.0,
              expiry-reload now later e.expires_at (ground (arith, good.1)),
            )
    ]
