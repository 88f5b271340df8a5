-- ===== src/Store/Effects.antt =====
-- What a client can see after a command of each shape: under its key the value that the command
-- leaves there, until the entry expires, and under every other key what was there before.
use burner_redis.Prelude.{
  ◌≡◌, ◌≤◌, refl, ap, false, Option, none, some, arith, if◌then◌else◌, ite, if_pos, Option-cases,
  inl, inr,
}
use burner_redis.Prelude.Key.{bytes_key, bytes_discrete}
use burner_redis.Map
use burner_redis.Map.Laws.{get-insert, get-remove, insert_self}
use burner_redis.Value.{Bytes, Instant, ValueData, ValueEntry, is_expired, Result}
use burner_redis.Store.{
  Data, expired_at, evict, read, write_entry, update, update_or_drop, upsert, remove_if_empty,
  is_empty_value,
}
use burner_redis.Store.View.{
  live, keep_live, answer, live_or, read_lem, update_lem, upsert_lem, live-evict, get-evict,
  evict-live, get_of_live,
}

-- The entry with a new value, as a client sees it at `t`.
abbrev pub with_value : Instant → ValueData → ValueEntry → Option ValueEntry
with_value t v e = keep_live t (some (record e { value = v }))

-- The entry that a changing command leaves; it creates none.
abbrev pub updated : Instant → (ValueData → ValueData) → Option ValueEntry → Option ValueEntry
updated t f none = none
updated t f (some e) = with_value t (f e.value) e

-- The same for a command that drops the key with the last element.
abbrev pub updated_or_dropped :
    Instant → (ValueData → ValueData) → Option ValueEntry → Option ValueEntry
updated_or_dropped t f none = none
updated_or_dropped t f (some e) =
    if is_empty_value (f e.value) then none else with_value t (f e.value) e

module _ (now t : Instant) (key j : Bytes) where
  pub live-read :
      {A : Type 0} (missing : Result A) (f : ValueData → Result A) (m : Data)
      → now ≤ t
      → live t j (read now key missing f m).1 ≡ live t j m
  live-read missing f m h = rw read_lem (live-evict now key t j m h)

  pub live-upsert :
      {A : Type 0} (fresh : ValueEntry) (f : ValueData → Result A × ValueData) (m : Data)
      → live t j (upsert now key fresh f m).1
        ≡ ite
            (bytes_discrete key j)
            (with_value t
              (f (live_or fresh (live now key m)).value).1
              (live_or fresh (live now key m)))
            (live t j m)
  live-upsert fresh f m = rw upsert_lem (
      unfold live in
      ground (
        arith,
        get-insert key j
            (record (live_or fresh (live now key m)) {
              value = (f (live_or fresh (live now key m)).value).1;
            })
            (evict now key m),
        get-evict now key j m,
      ))

  pub live-update :
      {A : Type 0} (missing : Result A) (f : ValueData → Result A × ValueData) (m : Data)
      → now ≤ t
      → live t j (update now key missing f m).1
        ≡ ite (bytes_discrete key j) (updated t (λ v. (f v).1) (live now key m)) (live t j m)
  unfolding update write_entry live expired_at is_expired
  live-update missing f m h = elim (Option-cases (Map.get key m)) [
    | inl absent ↦ ground (arith, get-remove key j m)
    | inr (e, present) ↦
        ground (arith, get-remove key j m, get-insert key j (record e { value = (f e.value).1 }) m)
  ]

  pub live-update_or_drop :
      {A : Type 0} (missing : Result A) (f : ValueData → Result A × ValueData) (m : Data)
      → now ≤ t
      → live t j (update_or_drop now key missing f m).1
        ≡ ite
            (bytes_discrete key j)
            (updated_or_dropped t (λ v. (f v).1) (live now key m))
            (live t j m)
  unfolding update_or_drop write_entry remove_if_empty live expired_at is_expired
  live-update_or_drop missing f m h = elim (Option-cases (Map.get key m)) [
    | inl absent ↦ ground (arith, get-remove key j m)
    | inr (e, present) ↦ ground (
      arith,
      get-remove key j m,
      get-insert key j (record e { value = (f e.value).1 }) m,
      get-insert key key (record e { value = (f e.value).1 }) m,
      get-remove key j (Map.insert key (record e { value = (f e.value).1 }) m),
    )
  ]

pub update_or_drop-answer :
    {A : Type 0} (now : Instant) (key : Bytes) (missing : Result A)
    (f : ValueData → Result A × ValueData) (m : Data)
    → (update_or_drop now key missing f m).0 ≡ answer missing (λ v. (f v).0) (live now key m)
unfolding update_or_drop write_entry live expired_at
update_or_drop-answer now key missing f m = ground arith

-- An entry that a client sees at `now` has not expired at `now`.
pub live_not_expired :
    (now : Instant) (key : Bytes) (m : Data) {e : ValueEntry}
    → live now key m ≡ some e
    → is_expired e now ≡ false
unfolding live
live_not_expired now key m h = ground arith

module _ (now : Instant) (key : Bytes) where
  -- At the time of the command its key holds what the command has left there.
  pub upsert_seen :
      {A : Type 0} (fresh : ValueEntry) (f : ValueData → Result A × ValueData) (m : Data)
      → fresh.expires_at ≡ none
      → live now key (upsert now key fresh f m).1
        ≡ some (record (live_or fresh (live now key m)) {
          value = (f (live_or fresh (live now key m)).value).1;
        })
  unfolding is_expired
  upsert_seen fresh f m permanent =
      rw (live-upsert now now key key fresh f m, if_pos _ refl)
        (elim (Option-cases (live now key m)) [
          | inl absent ↦ rw absent (ground arith)
          | inr (e, present) ↦ rw present (ground (arith, live_not_expired now key m present))
        ])

  pub update_seen :
      {A : Type 0} (missing : Result A) (f : ValueData → Result A × ValueData) (m : Data)
      → live now key (update now key missing f m).1
        ≡ elim (live now key m) [ none ↦ none | some e ↦ some (record e { value = (f e.value).1 }) ]
  unfolding is_expired
  update_seen missing f m =
      rw (live-update now now key key missing f m (omega arith), if_pos _ refl)
        (elim (Option-cases (live now key m)) [
          | inl absent ↦ rw absent refl
          | inr (e, present) ↦ rw present (ground (arith, live_not_expired now key m present))
        ])

  pub update_or_drop_seen :
      {A : Type 0} (missing : Result A) (f : ValueData → Result A × ValueData) (m : Data)
      → live now key (update_or_drop now key missing f m).1 ≡ elim (live now key m) [
        | none ↦ none
        | some e ↦
            if is_empty_value (f e.value).1 then none else some (record e { value = (f e.value).1 })
      ]
  unfolding is_expired
  update_or_drop_seen missing f m =
      rw (live-update_or_drop now now key key missing f m (omega arith), if_pos _ refl)
        (elim (Option-cases (live now key m)) [
          | inl absent ↦ rw absent refl
          | inr (e, present) ↦ rw present (ground (arith, live_not_expired now key m present))
        ])

  -- A command that leaves the live value as it is leaves the map as it is.
  pub upsert_unchanged :
      {A : Type 0} (fresh : ValueEntry) (f : ValueData → Result A × ValueData) (m : Data)
      {e : ValueEntry}
      → live now key m ≡ some e
      → (f e.value).1 ≡ e.value
      → upsert now key fresh f m ≡ ((f e.value).0, m)
  upsert_unchanged fresh f m {e} present same =
      rw (upsert_lem, present, evict-live now key m present)
        (ground (
          arith,
          insert_self key e m (get_of_live now key m present),
          ap (λ (v : ValueData). Map.insert key (record e { value = v }) m) same,
        ))

  pub update_unchanged :
      {A : Type 0} (missing : Result A) (f : ValueData → Result A × ValueData) (m : Data)
      {e : ValueEntry}
      → live now key m ≡ some e
      → (f e.value).1 ≡ e.value
      → update now key missing f m ≡ ((f e.value).0, m)
  update_unchanged missing f m {e} present same =
      rw (update_lem, present)
        (ground (
          arith,
          insert_self key e m (get_of_live now key m present),
          ap (λ (v : ValueData). Map.insert key (record e { value = v }) m) same,
        ))
