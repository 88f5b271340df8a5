-- ===== src/PubSub/Subscriptions.antt =====
-- SUBSCRIBE, UNSUBSCRIBE, their pattern forms, and the end of a listener, on the whole registry.
use burner_redis.Prelude.{
  ℕ, ◌≡◌, refl, ap, ◌∙◌, Bool, false, ◌&&◌, ◌||◌, List, [], ◌∷◌, arith, if◌then◌else◌, is_empty,
}
use burner_redis.Prelude.Key.{among, bytes_key, nat_key, same}
use burner_redis.Map
use burner_redis.Map.{Map}
use burner_redis.Map.Laws.{get-remove}
use burner_redis.Value.{Bytes}
use burner_redis.PubSub.{
  Pair, PubSubRegistry, add_loop, drop_loop, names_to_remove, unsubscribe_pair, leave, subscribe,
  psubscribe, unsubscribe, punsubscribe, stop_subscriber_listener,
}
use burner_redis.PubSub.Index.{or_default, linked}
use burner_redis.PubSub.Pairs.{
  heard, listens, Sound, heard-add_loop, listens-add_loop, add_loop-Full, heard-drop_loop,
  listens-drop_loop, drop_loop-Full, among-keys, listens-clean_up, clean_up_heard, heard-drop_each,
  drop_each-Full,
}

-- Does a subscriber hear a name once `id` has asked for these names, or has given them up? No name
-- at all gives up every one.
abbrev pub gains : ℕ → List Bytes → Pair → ℕ → Bytes → Bool
gains id names p j n = (same id j && among n names) || heard j n p

abbrev pub loses : ℕ → List Bytes → Pair → ℕ → Bytes → Bool
loses id names p j n = if same id j && (is_empty names || among n names) then false else heard j n p

module _ (id other : ℕ) (names : List Bytes) (p : Pair) where
  add_loop-Sound : Sound p → Sound (add_loop id other names p).1
  add_loop-Sound sound = (
    λ j n. ground (
      arith,
      heard-add_loop id other names p j n,
      listens-add_loop id other names p j n,
      sound.0 j n,
    ),
    add_loop-Full id other names p sound.1,
  )

  unsubscribe_pair-Sound : Sound p → Sound (unsubscribe_pair id other names p).1
  unfolding unsubscribe_pair
  unsubscribe_pair-Sound sound =
      let all = names_to_remove id names p in
      let q = (drop_loop id other all p).1 in
      (
        λ j n. ground (
          arith,
          heard-drop_loop id other all p j n,
          listens-drop_loop id other all p j n,
          listens-clean_up id j n q,
          ap (linked n j) (clean_up_heard id q),
          sound.0 j n,
        ),
        rw clean_up_heard (drop_loop-Full id other all p sound.1),
      )

listens_default :
    (id : ℕ) (n : Bytes) (p : Pair)
    → Map.contains_key n (or_default (Map.get id p.1)) ≡ listens id n p
unfolding Map.contains_key
listens_default id n p = ground arith

names_to_remove_lem :
    (id : ℕ) (names : List Bytes) (p : Pair) (n : Bytes)
    → among n (names_to_remove id names p)
      ≡ (if is_empty names then listens id n p else among n names)
names_to_remove_lem id [] p n = among-keys n (or_default (Map.get id p.1)) ∙ listens_default id n p
names_to_remove_lem id (name ∷ names) p n = refl

heard-unsubscribe_pair :
    (id other : ℕ) (names : List Bytes) (p : Pair) (j : ℕ) (n : Bytes)
    → Sound p
    → heard j n (unsubscribe_pair id other names p).1 ≡ loses id names p j n
unfolding unsubscribe_pair
heard-unsubscribe_pair id other names p j n sound =
    let all = names_to_remove id names p in
    let q = (drop_loop id other all p).1 in
    ap (linked n j) (clean_up_heard id q)
    ∙ (ground
        (arith, heard-drop_loop id other all p j n, names_to_remove_lem id names p n, sound.0 j n))

-- SUBSCRIBE and PSUBSCRIBE on a registry whose maps are inverse to each other: the subscriber hears
-- the names that it has asked for and every one hears what it heard, the two maps stay inverse to
-- each other, and the other pair is as it was.
pub subscribe_lem :
    (id j : ℕ) (names : List Bytes) (n : Bytes) (r : PubSubRegistry)
    → Sound r.channels
    → Sound r.patterns
    → (heard j n (subscribe id names r).1.channels ≡ gains id names r.channels j n)
      × Sound (subscribe id names r).1.channels
      × ((subscribe id names r).1.patterns ≡ r.patterns)
      × (heard j n (psubscribe id names r).1.patterns ≡ gains id names r.patterns j n)
      × Sound (psubscribe id names r).1.patterns
      × ((psubscribe id names r).1.channels ≡ r.channels)
unfolding subscribe psubscribe
subscribe_lem id j names n r sound sound' = (
  heard-add_loop id _ names r.channels j n,
  add_loop-Sound id _ names r.channels sound,
  refl,
  heard-add_loop id _ names r.patterns j n,
  add_loop-Sound id _ names r.patterns sound',
  refl,
)

-- UNSUBSCRIBE and PUNSUBSCRIBE on a registry whose maps are inverse to each other: the subscriber
-- no longer hears the names that it gives up, all of them where it names none, every one hears what
-- else it heard, the two maps stay inverse to each other, and nothing else in the registry changes: the
-- other pair, the messages, the handles of the listeners, the signals and the next number.
pub unsubscribe_lem :
    (id j : ℕ) (names : List Bytes) (n : Bytes) (r : PubSubRegistry)
    → Sound r.channels
    → Sound r.patterns
    → (heard j n (unsubscribe id names r).1.channels ≡ loses id names r.channels j n)
      × Sound (unsubscribe id names r).1.channels
      × ((unsubscribe id names r).1 ≡ record r { channels = (unsubscribe id names r).1.channels })
      × (heard j n (punsubscribe id names r).1.patterns ≡ loses id names r.patterns j n)
      × Sound (punsubscribe id names r).1.patterns
      × ((punsubscribe id names r).1 ≡ record r { patterns = (punsubscribe id names r).1.patterns })
unfolding unsubscribe punsubscribe
unsubscribe_lem id j names n r sound sound' = (
  heard-unsubscribe_pair id _ names r.channels j n sound,
  unsubscribe_pair-Sound id _ names r.channels sound,
  refl,
  heard-unsubscribe_pair id _ names r.patterns j n sound',
  unsubscribe_pair-Sound id _ names r.patterns sound',
  refl,
)

heard-leave :
    (id : ℕ) (p : Pair) (j : ℕ) (n : Bytes)
    → Sound p
    → heard j n (leave id p) ≡ (if same id j then false else heard j n p)
unfolding leave
heard-leave id p j n sound =
    let all = Map.keys (or_default (Map.get id p.1)) in
    ground (
      arith,
      heard-drop_each id all p.0 j n,
      among-keys n (or_default (Map.get id p.1)) ∙ listens_default id n p,
      sound.0 j n,
    )

listens-leave :
    (id : ℕ) (p : Pair) (j : ℕ) (n : Bytes)
    → listens j n (leave id p) ≡ (if same id j then false else listens j n p)
unfolding leave
listens-leave id p j n = ground (arith, get-remove id j p.1)

leave-Sound : (id : ℕ) (p : Pair) → Sound p → Sound (leave id p)
unfolding leave
leave-Sound id p sound = (
  λ j n. ground (arith, heard-leave id p j n sound, listens-leave id p j n, sound.0 j n),
  drop_each-Full id (Map.keys (or_default (Map.get id p.1))) p.0 sound.1,
)

-- The end of a listener, on a registry whose maps are inverse to each other: its subscriber hears
-- nothing any more, the others hear what they heard, and the two maps of each pair stay inverse to
-- each other.
pub stop_subscriber_listener_lem :
    (id j : ℕ) (n : Bytes) (r : PubSubRegistry)
    → Sound r.channels
    → Sound r.patterns
    → (heard j n (stop_subscriber_listener id r).1.channels
        ≡ (if same id j then false else heard j n r.channels))
      × (heard j n (stop_subscriber_listener id r).1.patterns
          ≡ (if same id j then false else heard j n r.patterns))
      × Sound (stop_subscriber_listener id r).1.channels
      × Sound (stop_subscriber_listener id r).1.patterns
unfolding stop_subscriber_listener
stop_subscriber_listener_lem id j n r sound sound' = (
  heard-leave id r.channels j n sound,
  heard-leave id r.patterns j n sound',
  leave-Sound id r.channels sound,
  leave-Sound id r.patterns sound',
)
