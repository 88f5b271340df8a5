-- ===== src/PubSub/Reach.antt =====
-- The registries that a program can reach by the operations, from the empty one.
use burner_redis.Prelude.{ℕ, refl, sym, subst, List, [], arith}
use burner_redis.Prelude.Key.{bytes_key, nat_key}
use burner_redis.Map
use burner_redis.Value.{Bytes}
use burner_redis.PubSub.{
  PubSubRegistry, ListenerStopHandle, new_registry, new_subscriber, register_listener_stopper,
  subscribe, psubscribe, unsubscribe, punsubscribe, stop_subscriber_listener, publish,
}
use burner_redis.PubSub.Pairs.{Sound}
use burner_redis.PubSub.Subscriptions.{subscribe_lem, unsubscribe_lem, stop_subscriber_listener_lem}

-- One operation on the registry.
pub data Step : PubSubRegistry → PubSubRegistry → Type 0 where
  arrive : (r : PubSubRegistry) → Step r (new_subscriber r).1
  register :
      (id : ℕ) (handle : ListenerStopHandle) (r : PubSubRegistry)
      → Step r (register_listener_stopper id handle r)
  by_subscribe :
      (id : ℕ) (names : List Bytes) (r : PubSubRegistry) → Step r (subscribe id names r).1
  by_psubscribe :
      (id : ℕ) (names : List Bytes) (r : PubSubRegistry) → Step r (psubscribe id names r).1
  by_unsubscribe :
      (id : ℕ) (names : List Bytes) (r : PubSubRegistry) → Step r (unsubscribe id names r).1
  by_punsubscribe :
      (id : ℕ) (names : List Bytes) (r : PubSubRegistry) → Step r (punsubscribe id names r).1
  stop : (id : ℕ) (r : PubSubRegistry) → Step r (stop_subscriber_listener id r).1
  by_publish : (channel payload : Bytes) (r : PubSubRegistry) → Step r (publish channel payload r).1

pub data Reachable : PubSubRegistry → Type 0 where
  start : Reachable new_registry
  after : {r s : PubSubRegistry} → Reachable r → Step r s → Reachable s

abbrev pub BothSound : PubSubRegistry → Type 0
BothSound r = Sound r.channels × Sound r.patterns

empty-Sound : Sound ([], [])
unfolding Map.get
empty-Sound = (λ id name. refl, (λ k s h. ground arith, tt))

Step-BothSound : {r s : PubSubRegistry} → Step r s → BothSound r → BothSound s
unfolding new_subscriber register_listener_stopper publish
Step-BothSound (arrive r) sound = sound
Step-BothSound (register id handle r) sound = sound
Step-BothSound (by_subscribe id names r) (c, p) =
    let (_, c', e, _, _, _) = subscribe_lem id id names [] r c p in
    (c', subst Sound (sym {a = (subscribe id names r).1.patterns} e) p)
Step-BothSound (by_psubscribe id names r) (c, p) =
    let (_, _, _, _, p', e) = subscribe_lem id id names [] r c p in
    (subst Sound (sym {a = (psubscribe id names r).1.channels} e) c, p')
Step-BothSound (by_unsubscribe id names r) (c, p) =
    let (_, c', e, _, _, _) = unsubscribe_lem id id names [] r c p in
    (c', subst (λ (s : PubSubRegistry). Sound s.patterns) (sym e) p)
Step-BothSound (by_punsubscribe id names r) (c, p) =
    let (_, _, _, _, p', e) = unsubscribe_lem id id names [] r c p in
    (subst (λ (s : PubSubRegistry). Sound s.channels) (sym e) c, p')
Step-BothSound (stop id r) (c, p) =
    let (_, _, c', p') = stop_subscriber_listener_lem id id [] r c p in (c', p')
Step-BothSound (by_publish channel payload r) sound = sound

-- In every registry that can be reached, the two maps of each pair are inverse to each other, no name
-- is kept without a listener, and none stands twice.
pub Reachable-BothSound : {r : PubSubRegistry} → Reachable r → BothSound r
Reachable-BothSound start = (empty-Sound, empty-Sound)
Reachable-BothSound (after before step) = Step-BothSound step (Reachable-BothSound before)
