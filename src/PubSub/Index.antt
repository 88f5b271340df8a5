-- ===== src/PubSub/Index.antt =====
-- A map from keys to sets, as the registry of src/store.rs keeps four of them (lines 260 to 287):
-- the three ways in which it changes them, and what they do to the pairs that such a map holds.
use burner_redis.Prelude.{
  ℕ, ◌≡◌, sym, subst, Bool, false, ◌&&◌, ◌||◌, Option, none, some, [], arith, if◌then◌else◌,
  is_empty, Option-cases, Bool-cases, inl, inr,
}
use burner_redis.Prelude.Key.{Key, same}
use burner_redis.Map
use burner_redis.Map.{Map}
use burner_redis.Map.Laws.{
  get-insert, get-remove, is_empty-insert, Distinct, insert-Distinct, remove-Distinct,
}
use burner_redis.Map.Members.{contains_key-insert, contains_key-remove, empty_no_key}
use burner_redis.Value.{HashSet}

-- `or_default()`
abbrev pub or_default : {A : Type 0} → Option (HashSet A) → HashSet A
or_default none = []
or_default (some s) = s

-- `map(|s| s.len()).unwrap_or(0)`
abbrev pub set_len : {A : Type 0} → Option (HashSet A) → ℕ
set_len none = 0
set_len (some s) = Map.len s

module _ {V : Type 0} ⦃kv : Key V⦄ where
  abbrev pub has : V → Option (HashSet V) → Bool
  has v none = false
  has v (some s) = Map.contains_key v s

module _ {K V : Type 0} ⦃kk : Key K⦄ ⦃kv : Key V⦄ where
  -- `index.entry(k).or_default().insert(v)`
  unfoldable pub add : K → V → Map K (HashSet V) → Map K (HashSet V)
  add k v index = Map.insert k (Map.insert v tt (or_default (Map.get k index))) index

  -- The set under `k` loses `v`, and stays when that empties it.
  unfoldable pub take_out : K → V → Map K (HashSet V) → Map K (HashSet V)
  take_out k v index = elim (Map.get k index) [
    | none ↦ index
    | some s ↦ Map.insert k (Map.remove v s) index
  ]

  -- The set under `k` loses `v`, and goes when that empties it.
  unfoldable pub drop_out : K → V → Map K (HashSet V) → Map K (HashSet V)
  drop_out k v index = elim (Map.get k index) [
    | none ↦ index
    | some s ↦
        let s' = Map.remove v s in
        let index' = Map.insert k s' index in if is_empty s' then Map.remove k index' else index'
  ]

  -- Is `v` in the set under `k`?
  abbrev pub linked : K → V → Map K (HashSet V) → Bool
  linked k v index = has v (Map.get k index)

  pub linked-add :
      (k j : K) (v w : V) (index : Map K (HashSet V))
      → linked j w (add k v index) ≡ ((same k j && same v w) || linked j w index)
  unfolding add Map.contains_key
  linked-add k j v w index = ground (
    arith,
    get-insert k j (Map.insert v tt (or_default (Map.get k index))) index,
    contains_key-insert v w (or_default (Map.get k index)),
  )

  pub linked-take_out :
      (k j : K) (v w : V) (index : Map K (HashSet V))
      → linked j w (take_out k v index) ≡ (if same k j && same v w then false else linked j w index)
  unfolding take_out
  linked-take_out k j v w index = elim (Option-cases (Map.get k index)) [
    | inl absent ↦ ground arith
    | inr (s, present) ↦
        ground (arith, get-insert k j (Map.remove v s) index, contains_key-remove v w s)
  ]

  pub linked-drop_out :
      (k j : K) (v w : V) (index : Map K (HashSet V))
      → linked j w (drop_out k v index) ≡ (if same k j && same v w then false else linked j w index)
  unfolding drop_out
  linked-drop_out k j v w index = elim (Option-cases (Map.get k index)) [
    | inl absent ↦ ground arith
    | inr (s, present) ↦ ground (
      arith,
      get-insert k j (Map.remove v s) index,
      get-remove k j (Map.insert k (Map.remove v s) index),
      contains_key-remove v w s,
      empty_no_key w (Map.remove v s),
    )
  ]

  -- No key with an empty set, and none twice.
  abbrev pub Full : Map K (HashSet V) → Type 0
  Full index =
      ((k : K) (s : HashSet V) → Map.get k index ≡ some s → is_empty s ≡ false) × Distinct index

  pub add-Full : (k : K) (v : V) (index : Map K (HashSet V)) → Full index → Full (add k v index)
  unfolding add
  add-Full k v index full = (
    λ j s h. ground (
      arith,
      get-insert k j (Map.insert v tt (or_default (Map.get k index))) index,
      is_empty-insert v tt (or_default (Map.get k index)),
      full.0 j s,
    ),
    insert-Distinct k (Map.insert v tt (or_default (Map.get k index))) index full.1,
  )

  drop_out-Distinct :
      (k : K) (v : V) (index : Map K (HashSet V)) → Distinct index → Distinct (drop_out k v index)
  unfolding drop_out
  drop_out-Distinct k v index d = elim (Option-cases (Map.get k index)) [
    | inl absent ↦ subst Distinct (sym {a = drop_out k v index} (ground arith)) d
    | inr (r, present) ↦
        let index' = Map.insert k (Map.remove v r) index in
        let d' = insert-Distinct k (Map.remove v r) index d in
        elim (Bool-cases (is_empty (Map.remove v r))) [
          | inl bare ↦
              subst Distinct (sym {a = drop_out k v index} (ground arith))
                (remove-Distinct k index' d')
          | inr more ↦ subst Distinct (sym {a = drop_out k v index} (ground arith)) d'
        ]
  ]

  pub drop_out-Full :
      (k : K) (v : V) (index : Map K (HashSet V)) → Full index → Full (drop_out k v index)
  unfolding drop_out
  drop_out-Full k v index full = (
    λ j s h. elim (Option-cases (Map.get k index)) [
      | inl absent ↦ ground (arith, full.0 j s)
      | inr (r, present) ↦ ground (
        arith,
        get-insert k j (Map.remove v r) index,
        get-remove k j (Map.insert k (Map.remove v r) index),
        full.0 j s,
      )
    ],
    drop_out-Distinct k v index full.1,
  )
