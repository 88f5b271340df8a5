-- ===== src/PubSub.antt =====
-- The registry of subscribers of src/store.rs, lines 236 to 302 and 2534 to 2808. Two pairs of maps
-- say who listens to what, one pair for channels and one for patterns; each pair is modelled by one
-- set of functions, as the source writes the same code for both. The broadcast channel and the
-- handles of the listener tasks are of another library: what is sent and signalled is a log.
pub mod Index
pub mod Pairs
pub mod Subscriptions
pub mod Publish
pub mod Reach
use burner_redis.Prelude.{
  ℕ, ◌+◌, ◌%◌, ◌^◌, Bool, true, false, ◌&&◌, ◌||◌, Option, none, some, List, [], ◌∷◌, ◌++◌, ◌==◌,
  ltb, is_empty, if◌then◌else◌, map,
}
use burner_redis.Prelude.Key.{nat_key, bytes_key}
use burner_redis.Map
use burner_redis.Map.{Map}
use burner_redis.Value.{Bytes, HashSet}
use burner_redis.Glob.{glob_match}
use burner_redis.PubSub.Index.{add, take_out, drop_out, or_default, set_len}

pub data Kind : Type 0 where
  message pmessage : Kind

pub record PubSubMessage : Type 0 where
  pub kind : Kind
  pub pattern : Option Bytes
  pub channel : Bytes
  pub payload : Bytes

-- The flag, the sender and the task, each by its number.
pub record ListenerStopHandle : Type 0 where
  pub stop_tx : ℕ
  pub stop_flag : ℕ
  pub join_handle : Option ℕ

pub data Signal : Type 0 where
  flag_stored : ℕ → Signal
  stop_sent : ℕ → Signal

-- Who listens to a name, and what a subscriber listens to.
abbrev pub Pair : Type 0
Pair = Map Bytes (HashSet ℕ) × Map ℕ (HashSet Bytes)

-- `channels` are `channel_subscribers` and `subscriber_channels`, `patterns` the other two maps.
pub record PubSubRegistry : Type 0 where
  pub sent : List PubSubMessage
  pub channels : Pair
  pub patterns : Pair
  pub listener_stoppers : Map ℕ ListenerStopHandle
  pub signals : List Signal
  pub next_id : ℕ

abbrev pub new_registry : PubSubRegistry
new_registry = record {
  sent = [];
  channels = ([], []);
  patterns = ([], []);
  listener_stoppers = [];
  signals = [];
  next_id = 0;
}

-- `fetch_add` wraps round.
unfoldable pub new_subscriber : PubSubRegistry → ℕ × PubSubRegistry
new_subscriber r = (r.next_id, record r { next_id = (r.next_id + 1) % 2 ^ 64 })

unfoldable pub register_listener_stopper : ℕ → ListenerStopHandle → PubSubRegistry → PubSubRegistry
register_listener_stopper id handle r = record r {
  listener_stoppers = Map.insert id handle r.listener_stoppers;
}

-- The loop of SUBSCRIBE and PSUBSCRIBE: each name with the number of subscriptions of the
-- subscriber by then, `other` of them in the other pair.
unfoldable pub add_loop : ℕ → ℕ → List Bytes → Pair → List (Bytes × ℕ) × Pair
unfolding add
add_loop id other [] p = ([], p)
add_loop id other (name ∷ names) p =
    let p' : Pair = (add name id p.0, add id name p.1) in
    let (results, q) = add_loop id other names p' in
    ((name, set_len (Map.get id p'.1) + other) ∷ results, q)

-- The loop of UNSUBSCRIBE and PUNSUBSCRIBE.
unfoldable pub drop_loop : ℕ → ℕ → List Bytes → Pair → List (Bytes × ℕ) × Pair
unfolding drop_out take_out
drop_loop id other [] p = ([], p)
drop_loop id other (name ∷ names) p =
    let p' : Pair = (drop_out name id p.0, take_out id name p.1) in
    let (results, q) = drop_loop id other names p' in
    ((name, set_len (Map.get id p'.1) + other) ∷ results, q)

-- The names that are asked for, or all of the subscriber's where none is.
abbrev pub names_to_remove : ℕ → List Bytes → Pair → List Bytes
names_to_remove id [] p = Map.keys (or_default (Map.get id p.1))
names_to_remove id (name ∷ names) p = name ∷ names

-- The empty set of a subscriber goes after the loop.
unfoldable pub clean_up : ℕ → Pair → Pair
clean_up id p = if is_empty (or_default (Map.get id p.1)) then (p.0, Map.remove id p.1) else p

unfoldable pub unsubscribe_pair : ℕ → ℕ → List Bytes → Pair → List (Bytes × ℕ) × Pair
unfolding drop_loop clean_up
unsubscribe_pair id other names p =
    let (results, q) = drop_loop id other (names_to_remove id names p) p in (results, clean_up id q)

unfoldable pub subscribe : ℕ → List Bytes → PubSubRegistry → List (Bytes × ℕ) × PubSubRegistry
unfolding add_loop
subscribe id names r =
    let (results, p) = add_loop id (set_len (Map.get id r.patterns.1)) names r.channels in
    (results, record r { channels = p })

unfoldable pub psubscribe : ℕ → List Bytes → PubSubRegistry → List (Bytes × ℕ) × PubSubRegistry
unfolding add_loop
psubscribe id names r =
    let (results, p) = add_loop id (set_len (Map.get id r.channels.1)) names r.patterns in
    (results, record r { patterns = p })

unfoldable pub unsubscribe : ℕ → List Bytes → PubSubRegistry → List (Bytes × ℕ) × PubSubRegistry
unfolding unsubscribe_pair
unsubscribe id names r =
    let (results, p) = unsubscribe_pair id (set_len (Map.get id r.patterns.1)) names r.channels in
    (results, record r { channels = p })

unfoldable pub punsubscribe : ℕ → List Bytes → PubSubRegistry → List (Bytes × ℕ) × PubSubRegistry
unfolding unsubscribe_pair
punsubscribe id names r =
    let (results, p) = unsubscribe_pair id (set_len (Map.get id r.channels.1)) names r.patterns in
    (results, record r { patterns = p })

unfoldable pub drop_each : ℕ → List Bytes → Map Bytes (HashSet ℕ) → Map Bytes (HashSet ℕ)
unfolding drop_out
drop_each id [] subscribers = subscribers
drop_each id (name ∷ names) subscribers = drop_each id names (drop_out name id subscribers)

-- A subscriber leaves one pair of maps.
unfoldable pub leave : ℕ → Pair → Pair
unfolding drop_each
leave id p = (drop_each id (Map.keys (or_default (Map.get id p.1))) p.0, Map.remove id p.1)

-- The flag is stored before the sender fires.
abbrev pub stop_signals : Option ListenerStopHandle → List Signal
stop_signals none = []
stop_signals (some h) = flag_stored h.stop_flag ∷ stop_sent h.stop_tx ∷ []

abbrev pub taken_handle : Option ListenerStopHandle → Option ℕ
taken_handle none = none
taken_handle (some h) = h.join_handle

unfoldable pub stop_subscriber_listener : ℕ → PubSubRegistry → Option ℕ × PubSubRegistry
unfolding leave
stop_subscriber_listener id r =
    let handle = Map.get id r.listener_stoppers in
    (
      taken_handle handle,
      record r {
        channels = leave id r.channels;
        patterns = leave id r.patterns;
        listener_stoppers = Map.remove id r.listener_stoppers;
        signals = r.signals ++ stop_signals handle;
      },
    )

-- The loop of PUBLISH over the patterns: the count of subscribers, and the messages.
unfoldable pub match_loop : Bytes → Bytes → Map Bytes (HashSet ℕ) → ℕ × List PubSubMessage
match_loop channel payload [] = (0, [])
match_loop channel payload ((pattern, subs) ∷ rest) =
    let (count, messages) = match_loop channel payload rest in
    if glob_match pattern channel
    then (
      Map.len subs + count,
      record { kind = pmessage; pattern = some pattern; channel = channel; payload = payload }
          ∷ messages,
    )
    else (count, messages)

-- The message to the listeners of the channel itself, if there are any.
abbrev pub exact_message : Bytes → Bytes → ℕ → List PubSubMessage
exact_message channel payload channel_count =
    if ltb 0 channel_count
    then record { kind = message; pattern = none; channel = channel; payload = payload } ∷ []
    else []

unfoldable pub publish : Bytes → Bytes → PubSubRegistry → ℕ × PubSubRegistry
unfolding match_loop
publish channel payload r =
    let channel_count = set_len (Map.get channel r.channels.0) in
    let (pattern_count, messages) = match_loop channel payload r.patterns.0 in
    (
      channel_count + pattern_count,
      record r { sent = r.sent ++ (messages ++ exact_message channel payload channel_count) },
    )

abbrev pub passes : Option Bytes → Bytes → Bool
passes none channel = true
passes (some pattern) channel = glob_match pattern channel

-- Bytes in the order of their bytes, a prefix first.
unfoldable pub bytes_leb : Bytes → Bytes → Bool
bytes_leb [] b = true
bytes_leb (x ∷ a) [] = false
bytes_leb (x ∷ a) (y ∷ b) = let rest = bytes_leb a b in ltb x y || (x == y && rest)

unfoldable pub insert_sorted : Bytes → List Bytes → List Bytes
unfolding bytes_leb
insert_sorted x [] = x ∷ []
insert_sorted x (y ∷ l) =
    let rest = insert_sorted x l in if bytes_leb x y then x ∷ y ∷ l else y ∷ rest

unfoldable pub sort : List Bytes → List Bytes
unfolding insert_sorted
sort [] = []
sort (x ∷ l) = insert_sorted x (sort l)

unfoldable pub matching_names : Option Bytes → Map Bytes (HashSet ℕ) → List Bytes
matching_names pattern [] = []
matching_names pattern ((channel, subs) ∷ rest) =
    let others = matching_names pattern rest in
    if passes pattern channel then channel ∷ others else others

unfoldable pub pubsub_channels : Option Bytes → PubSubRegistry → List Bytes
unfolding matching_names sort
pubsub_channels pattern r = sort (matching_names pattern r.channels.0)

unfoldable pub pubsub_numsub : List Bytes → PubSubRegistry → List (Bytes × ℕ)
pubsub_numsub channels r = map (λ ch. (ch, set_len (Map.get ch r.channels.0))) channels

unfoldable pub sum_len : Map Bytes (HashSet ℕ) → ℕ
sum_len [] = 0
sum_len ((pattern, subs) ∷ rest) = Map.len subs + sum_len rest

unfoldable pub pubsub_numpat : PubSubRegistry → ℕ
unfolding sum_len
pubsub_numpat r = sum_len r.patterns.0
