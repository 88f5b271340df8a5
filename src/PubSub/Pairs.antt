-- ===== src/PubSub/Pairs.antt =====
-- Who listens to what, after each operation on the registry.
use burner_redis.Prelude.{
  ℕ, ◌≡◌, refl, Bool, false, ◌&&◌, ◌||◌, List, [], ◌∷◌, arith, if◌then◌else◌, Option-cases, inl,
  inr,
}
use burner_redis.Prelude.Key.{among, bytes_key, nat_key, same}
use burner_redis.Map
use burner_redis.Map.{Map}
use burner_redis.Map.Laws.{get-remove}
use burner_redis.Map.Members.{empty_no_key}
use burner_redis.Value.{Bytes, HashSet}
use burner_redis.PubSub.{Pair, add_loop, drop_loop, clean_up, drop_each}
use burner_redis.PubSub.Index.{
  add, take_out, drop_out, linked, linked-add, linked-take_out, linked-drop_out, Full, add-Full,
  drop_out-Full,
}

-- Does the name have the subscriber among its listeners?
abbrev pub heard : ℕ → Bytes → Pair → Bool
heard id name p = linked name id p.0

-- Does the subscriber have the name among its subscriptions?
abbrev pub listens : ℕ → Bytes → Pair → Bool
listens id name p = linked id name p.1

-- The two maps say the same, and no name is kept without a listener.
abbrev pub Sound : Pair → Type 0
Sound p = ((id : ℕ) (name : Bytes) → heard id name p ≡ listens id name p) × Full p.0

module _ (id other : ℕ) where
  pub heard-add_loop :
      (names : List Bytes) (p : Pair) (j : ℕ) (n : Bytes)
      → heard j n (add_loop id other names p).1 ≡ ((same id j && among n names) || heard j n p)
  unfolding add_loop
  heard-add_loop [] p j n = ground arith
  heard-add_loop (name ∷ names) p j n = ground (
    arith,
    heard-add_loop names (add name id p.0, add id name p.1) j n,
    linked-add name n id j p.0,
  )

  pub listens-add_loop :
      (names : List Bytes) (p : Pair) (j : ℕ) (n : Bytes)
      → listens j n (add_loop id other names p).1 ≡ ((same id j && among n names) || listens j n p)
  unfolding add_loop
  listens-add_loop [] p j n = ground arith
  listens-add_loop (name ∷ names) p j n = ground (
    arith,
    listens-add_loop names (add name id p.0, add id name p.1) j n,
    linked-add id j name n p.1,
  )

  pub add_loop-Full :
      (names : List Bytes) (p : Pair) → Full p.0 → Full (add_loop id other names p).1.0
  unfolding add_loop
  add_loop-Full [] p full = full
  add_loop-Full (name ∷ names) p full =
      add_loop-Full names (add name id p.0, add id name p.1) (add-Full name id p.0 full)

  pub heard-drop_loop :
      (names : List Bytes) (p : Pair) (j : ℕ) (n : Bytes)
      → heard j n (drop_loop id other names p).1
        ≡ (if same id j && among n names then false else heard j n p)
  unfolding drop_loop
  heard-drop_loop [] p j n = ground arith
  heard-drop_loop (name ∷ names) p j n = ground (
    arith,
    heard-drop_loop names (drop_out name id p.0, take_out id name p.1) j n,
    linked-drop_out name n id j p.0,
  )

  pub listens-drop_loop :
      (names : List Bytes) (p : Pair) (j : ℕ) (n : Bytes)
      → listens j n (drop_loop id other names p).1
        ≡ (if same id j && among n names then false else listens j n p)
  unfolding drop_loop
  listens-drop_loop [] p j n = ground arith
  listens-drop_loop (name ∷ names) p j n = ground (
    arith,
    listens-drop_loop names (drop_out name id p.0, take_out id name p.1) j n,
    linked-take_out id j name n p.1,
  )

  pub drop_loop-Full :
      (names : List Bytes) (p : Pair) → Full p.0 → Full (drop_loop id other names p).1.0
  unfolding drop_loop
  drop_loop-Full [] p full = full
  drop_loop-Full (name ∷ names) p full =
      drop_loop-Full names (drop_out name id p.0, take_out id name p.1)
        (drop_out-Full name id p.0 full)

pub among-keys : (n : Bytes) (s : HashSet Bytes) → among n (Map.keys s) ≡ Map.contains_key n s
unfolding Map.contains_key
among-keys n [] = refl
among-keys n ((k, u) ∷ s) = ground (arith, among-keys n s)

pub listens-clean_up :
    (id j : ℕ) (n : Bytes) (p : Pair) → listens j n (clean_up id p) ≡ listens j n p
unfolding clean_up
listens-clean_up id j n p = elim (Option-cases (Map.get id p.1)) [
  | inl absent ↦ ground (arith, get-remove id j p.1)
  | inr (s, present) ↦ ground (arith, get-remove id j p.1, empty_no_key n s)
]

pub clean_up_heard : (id : ℕ) (p : Pair) → (clean_up id p).0 ≡ p.0
unfolding clean_up
clean_up_heard id p = ground arith

pub heard-drop_each :
    (id : ℕ) (names : List Bytes) (subscribers : Map Bytes (HashSet ℕ)) (j : ℕ) (n : Bytes)
    → linked n j (drop_each id names subscribers)
      ≡ (if same id j && among n names then false else linked n j subscribers)
unfolding drop_each
heard-drop_each id [] subscribers j n = ground arith
heard-drop_each id (name ∷ names) subscribers j n = ground (
  arith,
  heard-drop_each id names (drop_out name id subscribers) j n,
  linked-drop_out name n id j subscribers,
)

pub drop_each-Full :
    (id : ℕ) (names : List Bytes) (subscribers : Map Bytes (HashSet ℕ))
    → Full subscribers
    → Full (drop_each id names subscribers)
unfolding drop_each
drop_each-Full id [] subscribers full = full
drop_each-Full id (name ∷ names) subscribers full =
    drop_each-Full id names (drop_out name id subscribers) (drop_out-Full name id subscribers full)
