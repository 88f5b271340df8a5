-- ===== src/Store/Shutdown.antt =====
-- What a shutdown leaves of the registry.
use burner_redis.Prelude.{ℕ, ◌+◌, ◌≡◌, refl, true, false, none, List, [], ◌∷◌, arith, if◌then◌else◌}
use burner_redis.Prelude.Key.{among, same, nat_key, bytes_key}
use burner_redis.Map
use burner_redis.Map.{Map}
use burner_redis.Map.Laws.{get-remove, is_some}
use burner_redis.Value.{Bytes}
use burner_redis.Store.{Store, stop_each, shutdown}
use burner_redis.PubSub.{PubSubRegistry, ListenerStopHandle, stop_subscriber_listener}
use burner_redis.PubSub.Pairs.{Sound, heard}
use burner_redis.PubSub.Subscriptions.{stop_subscriber_listener_lem}

stopper_gone :
    (id j : ℕ) (r : PubSubRegistry)
    → Map.get j (stop_subscriber_listener id r).1.listener_stoppers
      ≡ (if same id j then none else Map.get j r.listener_stoppers)
unfolding stop_subscriber_listener
stopper_gone id j r = ground (arith, get-remove id j r.listener_stoppers)

stop_each_lem :
    (ids : List ℕ) (j : ℕ) (n : Bytes) (r : PubSubRegistry)
    → Sound r.channels
    → Sound r.patterns
    → (heard j n (stop_each ids r).channels ≡ (if among j ids then false else heard j n r.channels))
      × (heard j n (stop_each ids r).patterns
          ≡ (if among j ids then false else heard j n r.patterns))
      × (Map.get j (stop_each ids r).listener_stoppers
          ≡ (if among j ids then none else Map.get j r.listener_stoppers))
unfolding stop_each
stop_each_lem [] j n r c p = (refl, refl, refl)
stop_each_lem (id ∷ ids) j n r c p =
    let (heard_c, heard_p, c', p') = stop_subscriber_listener_lem id j n r c p in
    let (rest_c, rest_p, rest) = stop_each_lem ids j n (stop_subscriber_listener id r).1 c' p' in
    (
      ground (arith, heard_c, rest_c),
      ground (arith, heard_p, rest_p),
      ground (arith, rest, stopper_gone id j r),
    )

among-keys : (j : ℕ) (m : Map ℕ ListenerStopHandle) → among j (Map.keys m) ≡ is_some (Map.get j m)
unfolding Map.get
among-keys j [] = refl
among-keys j ((k, h) ∷ m) = ground (arith, among-keys j m)

-- A shutdown, on a registry whose maps are inverse to each other, sets the flag, wakes the waiters
-- of lists and streams once, leaves no listener registered, and a subscriber that had one hears
-- nothing any more; the others hear what they heard.
pub shutdown_lem :
    (s : Store) (j : ℕ) (n : Bytes)
    → Sound s.pubsub.channels
    → Sound s.pubsub.patterns
    → ((shutdown s).shutdown ≡ true)
      × ((shutdown s).list_notify ≡ s.list_notify + 1)
      × ((shutdown s).stream_notify ≡ s.stream_notify + 1)
      × (Map.get j (shutdown s).pubsub.listener_stoppers ≡ none)
      × (heard j n (shutdown s).pubsub.channels ≡ (
          if is_some (Map.get j s.pubsub.listener_stoppers)
          then false
          else heard j n s.pubsub.channels))
      × (heard j n (shutdown s).pubsub.patterns ≡ (
          if is_some (Map.get j s.pubsub.listener_stoppers)
          then false
          else heard j n s.pubsub.patterns))
unfolding shutdown
shutdown_lem s j n c p =
    let r = s.pubsub in
    let named = among-keys j r.listener_stoppers in
    let (heard_c, heard_p, gone) = stop_each_lem (Map.keys r.listener_stoppers) j n r c p in
    (
      refl,
      refl,
      refl,
      ground (arith, gone, named),
      ground (arith, heard_c, named),
      ground (arith, heard_p, named),
    )
