-- ===== src/Tests/PubSub.antt =====
-- A registry with two subscribers, one by a channel and one by a pattern, and the operations on it.
use burner_redis.Prelude.{
  if◌then◌else◌, ◌≡◌, refl, List, [], ◌∷◌, ◌++◌, ◌==◌, ltb, ◌&&◌, none, some, is_empty,
}
use burner_redis.Prelude.Key.{nat_key, bytes_key, bytes_discrete}
use burner_redis.Map
use burner_redis.Map.Laws.{is_some}
use burner_redis.Value.{Bytes}
use burner_redis.Glob.{glob_match}
use burner_redis.PubSub.{
  PubSubRegistry, PubSubMessage, message, pmessage, new_registry, register_listener_stopper,
  subscribe, psubscribe, unsubscribe, punsubscribe, stop_subscriber_listener, publish,
  pubsub_channels, pubsub_numsub, pubsub_numpat,
}
use burner_redis.PubSub.Index.{set_len}
use burner_redis.PubSub.Pairs.{Sound, heard}
use burner_redis.PubSub.Subscriptions.{gains, loses, subscribe_lem, unsubscribe_lem}
use burner_redis.PubSub.Publish.{sent_for, reached, publish_lem}
use burner_redis.PubSub.Reach.{
  Reachable, start, after, register, by_subscribe, by_psubscribe, BothSound, Reachable-BothSound,
}
use burner_redis.Tests.Inputs.{name, group, a}

abbrev star : Bytes
star = b'*' ∷ []

abbrev pair_up : PubSubRegistry
pair_up = (subscribe 1 (name ∷ group ∷ []) new_registry).1

abbrev quiet : PubSubRegistry
quiet = (psubscribe 2 (star ∷ []) pair_up).1

abbrev crowd : PubSubRegistry
crowd =
    register_listener_stopper 1 (record { stop_tx = 0; stop_flag = 0; join_handle = some 7 }) quiet

crowd_reached : Reachable crowd
crowd_reached =
    after
      (after (after start (by_subscribe 1 (name ∷ group ∷ []) new_registry))
        (by_psubscribe 2 (star ∷ []) pair_up))
      (register 1 (record { stop_tx = 0; stop_flag = 0; join_handle = some 7 }) quiet)

crowd_sound : BothSound crowd
crowd_sound = Reachable-BothSound crowd_reached

program : Unit {0}
unfolding Map.get Map.insert Map.remove Map.contains_key bytes_discrete subscribe psubscribe
    unsubscribe stop_subscriber_listener register_listener_stopper publish pubsub_channels
    pubsub_numsub pubsub_numpat glob_match
program = tt

publish_twice : (publish name a crowd).0 ≡ 2
unfolding program
publish_twice = refl

unsubscribe-all : (unsubscribe 1 [] crowd).0 ≡ (name, 1) ∷ (group, 0) ∷ []
unfolding program
unsubscribe-all = refl

pubsub_channels_sorted : pubsub_channels none crowd ≡ group ∷ name ∷ []
unfolding program
pubsub_channels_sorted = refl

subscribe_lem_example :
    (heard 2 name (subscribe 2 (name ∷ []) crowd).1.channels
      ≡ gains 2 (name ∷ []) crowd.channels 2 name)
    × Sound (subscribe 2 (name ∷ []) crowd).1.channels
    × ((subscribe 2 (name ∷ []) crowd).1.patterns ≡ crowd.patterns)
    × (heard 2 name (psubscribe 2 (name ∷ []) crowd).1.patterns
        ≡ gains 2 (name ∷ []) crowd.patterns 2 name)
    × Sound (psubscribe 2 (name ∷ []) crowd).1.patterns
    × ((psubscribe 2 (name ∷ []) crowd).1.channels ≡ crowd.channels)
subscribe_lem_example = subscribe_lem 2 2 (name ∷ []) name crowd crowd_sound.0 crowd_sound.1

unsubscribe_lem_example :
    (heard 1 name (unsubscribe 1 [] crowd).1.channels ≡ loses 1 [] crowd.channels 1 name)
    × Sound (unsubscribe 1 [] crowd).1.channels
    × ((unsubscribe 1 [] crowd).1 ≡ record crowd { channels = (unsubscribe 1 [] crowd).1.channels })
    × (heard 1 name (punsubscribe 1 [] crowd).1.patterns ≡ loses 1 [] crowd.patterns 1 name)
    × Sound (punsubscribe 1 [] crowd).1.patterns
    × ((punsubscribe 1 [] crowd).1
        ≡ record crowd { patterns = (punsubscribe 1 [] crowd).1.patterns })
unsubscribe_lem_example = unsubscribe_lem 1 1 [] name crowd crowd_sound.0 crowd_sound.1

publish_lem_example :
    (messages : List PubSubMessage) × ((publish name a crowd).1
      ≡ record crowd { sent = crowd.sent ++ messages })
    × ((publish name a crowd).0 ≡ reached crowd.channels crowd.patterns messages)
    × (((publish name a crowd).0 == 0) ≡ is_empty messages)
    × (sent_for none messages ≡ (
        if ltb 0 (set_len (Map.get name crowd.channels.0))
        then record { kind = message; pattern = none; channel = name; payload = a } ∷ []
        else []))
    × (sent_for (some star) messages ≡ (
        if is_some (Map.get star crowd.patterns.0) && glob_match star name
        then record { kind = pmessage; pattern = some star; channel = name; payload = a } ∷ []
        else []))
publish_lem_example = publish_lem name a star crowd crowd_sound.1

Reachable-BothSound_example : BothSound crowd
Reachable-BothSound_example = Reachable-BothSound crowd_reached
