-- ===== src/Lib.antt =====
-- burner-redis, an in-process Redis: the key space of `src/store.rs` and the helpers of
-- `src/commands`, with the theorems that make the commands correct.
--
-- The program. `Store` keeps one map from keys to entries under a lock, a registry of subscribers,
-- a cache of scripts, two wake-up handles (one for the readers of streams, one for the waiters on
-- lists) and a shutdown flag. An entry is a typed value and an optional time of expiry. Each
-- command is one method of `Store` that takes the lock, drops the entry under the key when it has
-- expired, looks at the type of the value, and answers a value or an error; `src/lib.rs` binds the
-- methods to Python, and `src/scripting.rs` to Lua.
--
-- The files.
--   Prelude, Prelude/Tests, Prelude/Lists, Prelude/Int, Prelude/Key: numbers, lists, Boolean tests,
--     integers, and the decidable equality of keys, which the other files share.
--   Map, Map/Laws, Map/Members, Map/All: `HashMap` and `HashSet` as association lists; the order of the list is
--     the order of iteration.
--   Value: `ValueData`, `ValueEntry`, `Stream`, `SortedSet` and `StoreError` (lines 16 to 233 of
--     src/store.rs).
--   Store: the state, and the frames that the commands share: passive expiry, reading a typed value,
--     updating one in place, creating one, and `remove_if_empty`. Store/View: what a client finds
--     under a key at a time. Store/Effects: what the frames do to it.
--   Glob, Glob/Total: `glob_match` of src/commands/pubsub.rs.
--   Decimal: the text of an `i64` and its parser, which HINCRBY uses.
--   Keys, Keys/Strings, Keys/Multi, Keys/Sweep: GET, SET, DELETE, EXISTS, KEYS, TTL, MGET, EXPIRE
--     and `sweep_expired`.
--   Hash, Hash/Fields, Hash/Commands, Hash/Increment: the hash commands and `hincrby_value`.
--   Sets, Sets/Commands: the set commands.
--   ListIndex, ListIndex/Bounds: the helpers of src/commands/lists.rs.
--   Lists, Lists/Seq, Lists/Commands, Lists/Move: the list commands; Lists/Laws, Lists/Remove,
--     Lists/View, Lists/Pops, Lists/Ranges, Lists/Transfer, Lists/Polling: what is proved of them.
--   SortedSets, SortedSets/Ranges: `SortedSet`, ZADD, ZREM, ZCARD, ZSCORE, ZRANGE, ZRANGEBYSCORE,
--     ZRANGESTORE, ZREMRANGEBYSCORE and ZCOUNT; SortedSets/Members, SortedSets/Consistent,
--     SortedSets/Ascending, SortedSets/Sound, SortedSets/Commands, SortedSets/Queries,
--     SortedSets/Stored: the agreement of the two indexes, and the commands as a client sees them.
--   Streams, Streams/Id, Streams/Entries, Streams/Text: XADD, XREAD, XLEN, XTRIM, XDEL, XRANGE, XINFO
--     STREAM and the text of identifiers (src/commands/streams.rs); Streams/Order, Streams/View,
--     Streams/Append, Streams/Reading, Streams/Trim, Streams/Delete: what is proved of them.
--   Groups, Groups/Pending, Groups/Claim, Groups/Info: the consumer groups (XGROUP, XREADGROUP, XACK,
--     XAUTOCLAIM, XCLAIM, XINFO GROUPS and CONSUMERS, XPENDING). Groups/View, Groups/Delivery,
--     Groups/Reading, Groups/History, Groups/Create, Groups/Queue, Groups/Acks: delivery and acknowledgement as a client
--     sees them; Groups/Holders, Groups/Exclusive, Groups/Qualify, Groups/Transfers, Groups/Sound,
--     Groups/Kept, Groups/Steps: who has an entry pending, and the key spaces that can be reached.
--   PubSub: `PubSubRegistry` and its operations (lines 236 to 302 and 2534 to 2808 of src/store.rs);
--     PubSub/Index, PubSub/Pairs, PubSub/Subscriptions, PubSub/Publish, PubSub/Reach: its maps, who
--     hears what after each operation, and the registries that can be reached. Store/Shutdown: the
--     end of the store.
--   Snapshot: `PersistableStore` and its conversions (lines 3495 to 3783 of src/store.rs);
--     Snapshot/Collect, Snapshot/RoundTrip, Snapshot/Reload: what loading a snapshot gives back.
--   Tests: runs on small inputs, and the theorems at concrete inputs.
--
-- How the source is read.
--   A command is a function of the time, its arguments and the state, to its answer and the new
--   state. The source holds the lock for a whole command, so a command is one step; GET, which takes
--   two locks, is also modelled as its two parts. A command reads the clock once where the source
--   reads it once for each key under one lock; where the source branches on two readings (GET, TTL)
--   both are arguments.
--   Times are nanoseconds on the natural numbers; an `Instant` is taken not to overflow.
--   An `i64` argument is an integer; the sums of an index and a length are not wrapped round, as a
--   list is shorter than 2^63, and HINCRBY checks its sum. Counts and lengths are natural numbers.
--   What is sent on the broadcast channel, and what is signalled to the listener tasks, is a log.
--   A wake-up handle is the number of times that the waiters were woken.
--   An `f64` is its bit pattern, which the comparisons of IEEE 754 read; the order of `OrderedFloat`,
--   of another library, is a parameter whose documented laws are hypotheses. The strings of an error
--   that names a key are bytes.
--   The counters of XADD and of the deliveries are 64 bits wide and wrap round, as in a release build; the
--   counts of entries are not. The time before the clock's that XCLAIM sets for IDLE is a difference of
--   an `Instant` and a `Duration`, of the standard library, which is a parameter.
--   `glob_match` runs on fuel, `(n + 1) * (n + m + 2) + 1` rounds for a string of `n` bytes and a
--   pattern of `m`: it goes back to a star at most `n + 1` times, and between two such rounds each
--   round takes a byte of the string or a star of the pattern. Every other loop is a recursion on a
--   list.
--
-- Not modelled: the file of a snapshot and its bytes (src/persistence.rs), the cache of scripts, the Lua
-- engine (mlua), the parsers of LEFT, RIGHT, BEFORE and AFTER, and the bindings to Python (PyO3,
-- tokio), whose own logic is the conversion of arguments.
mod Prelude
pub mod Map
pub mod Value
pub mod Store
pub mod Glob
pub mod Decimal
pub mod Keys
pub mod Hash
pub mod Sets
pub mod ListIndex
pub mod Lists
pub mod SortedSets
pub mod Streams
pub mod Groups
pub mod Snapshot
pub mod PubSub
mod Tests
