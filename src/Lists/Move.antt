-- ===== src/Lists/Move.antt =====
-- LMOVE, RPOPLPUSH, and the scans that BLPOP and BRPOP repeat.
use burner_redis.Prelude.{
  ◌+◌, Bool, true, false, ◌&&◌, not, Option, none, some, List, [], ◌∷◌, is_empty, if◌then◌else◌,
}
use burner_redis.Prelude.Key.{bytes_key, same}
use burner_redis.Map
use burner_redis.Value.{Bytes, Instant, ValueEntry, list, new_list, Result, ok, err, wrong_type}
use burner_redis.Store.{Store, Data, evict, or_insert}
use burner_redis.ListIndex.{ListEnd, left, right}
use burner_redis.Lists.Seq.{pop_end, push_end}
use burner_redis.Lists.Commands.{list_value}

-- What LMOVE finds under the source key.
pub data Source : Type 0 where
  nothing wrong : Source
  elements : ValueEntry → List Bytes → Source

abbrev pub source_list : ValueEntry → Option (List Bytes) → Source
source_list entry none = wrong
source_list entry (some []) = nothing
source_list entry (some (x ∷ l)) = elements entry (x ∷ l)

abbrev pub source_of : Option ValueEntry → Source
source_of none = nothing
source_of (some entry) = source_list entry (list_value entry.value)

-- May the destination take the element? A key that is not there may.
abbrev pub takes_element : Option ValueEntry → Bool
takes_element none = true
takes_element (some entry) = elim (list_value entry.value) [ none ↦ false | some l ↦ true ]

-- The push onto the destination, which is created where it is not there.
unfoldable pub push_entry : ListEnd → Bytes → Bytes → Data → Result (Unit {0}) × Data
unfolding or_insert push_end
push_entry end key v m =
    let m' = or_insert key new_list m in
    elim (Map.get key m') [
      | none ↦ (err wrong_type, m')
      | some entry ↦ elim (list_value entry.value) [
        | none ↦ (err wrong_type, m')
        | some l ↦ (ok tt, Map.insert key (record entry { value = list (push_end end v l) }) m')
      ]
    ]

abbrev pub finish_push : Bytes → Store → Result (Unit {0}) × Data → Result (Option Bytes) × Store
finish_push v s (err e, m) = (err e, record s { data_map = m })
finish_push v s (ok _, m) =
    (ok (some v), record s { data_map = m; list_notify = s.list_notify + 1 })

-- The source after the pop; an emptied one goes, unless it is the destination too.
abbrev pub popped_source : Bytes → Bytes → ValueEntry → List Bytes → Data → Data
popped_source src dst entry l m =
    let m₁ = Map.insert src (record entry { value = list l }) m in
    if is_empty l && not (same src dst) then Map.remove src m₁ else m₁

-- What follows the pop: the push of the element, if there is one.
unfoldable pub move_popped :
    Bytes
    → Bytes
    → ListEnd
    → ValueEntry
    → Data
    → Store
    → Option Bytes × List Bytes
    → Result (Option Bytes) × Store
unfolding push_entry
move_popped src dst to entry m s (none, l) =
    (ok none, record s { data_map = Map.insert src (record entry { value = list l }) m })
move_popped src dst to entry m s (some v, l) =
    finish_push v s (push_entry to dst v (popped_source src dst entry l m))

unfoldable pub move_element :
    Bytes
    → Bytes
    → ListEnd
    → ListEnd
    → ValueEntry
    → List Bytes
    → Data
    → Store
    → Result (Option Bytes) × Store
unfolding pop_end move_popped
move_element src dst from to entry l m s = move_popped src dst to entry m s (pop_end from l)

abbrev pub evict_both : Instant → Bytes → Bytes → Data → Data
evict_both now src dst m = let m' = evict now src m in if same src dst then m' else evict now dst m'

abbrev pub move_from :
    Bytes → Bytes → ListEnd → ListEnd → Source → Data → Store → Result (Option Bytes) × Store
move_from src dst from to nothing m s = (ok none, record s { data_map = m })
move_from src dst from to wrong m s = (err wrong_type, record s { data_map = m })
move_from src dst from to (elements entry l) m s =
    if not (same src dst) && not (takes_element (Map.get dst m))
    then (err wrong_type, record s { data_map = m })
    else move_element src dst from to entry l m s

unfoldable pub lmove_atomic :
    Instant → Bytes → Bytes → ListEnd → ListEnd → Store → Result (Option Bytes) × Store
unfolding evict move_element
lmove_atomic now src dst from to s =
    let m = evict_both now src dst s.data_map in
    move_from src dst from to (source_of (Map.get src m)) m s

unfoldable pub rpoplpush_atomic : Instant → Bytes → Bytes → Store → Result (Option Bytes) × Store
unfolding lmove_atomic
rpoplpush_atomic now src dst = lmove_atomic now src dst right left

-- What a scan answers, and the map that it leaves.
abbrev pub Polled : Type 0
Polled = Result (Option (Bytes × Bytes)) × Data

-- A scan at one key, from what is popped of its list; `next` is the scan of the later keys.
abbrev pub poll_popped : Bytes → ValueEntry → Data → Polled → Option Bytes × List Bytes → Polled
poll_popped k entry m next (none, l) = next
poll_popped k entry m next (some v, l) =
    let m₁ = Map.insert k (record entry { value = list l }) m in
    (ok (some (k, v)), if is_empty l then Map.remove k m₁ else m₁)

abbrev pub poll_list : ListEnd → Bytes → ValueEntry → Data → Polled → Option (List Bytes) → Polled
poll_list end k entry m next none = (err wrong_type, m)
poll_list end k entry m next (some l) = poll_popped k entry m next (pop_end end l)

abbrev pub poll_found : ListEnd → Bytes → Data → Polled → Option ValueEntry → Polled
poll_found end k m next none = next
poll_found end k m next (some entry) = poll_list end k entry m next (list_value entry.value)

-- One scan over the keys, from left to right: an element of the first list that has one.
unfoldable pub poll : ListEnd → Instant → List Bytes → Data → Polled
unfolding evict pop_end
poll end now [] m = (ok none, m)
poll end now (k ∷ keys) m =
    let m' = evict now k m in poll_found end k m' (poll end now keys m') (Map.get k m')

abbrev pub blpop_poll : Instant → List Bytes → Data → Polled
blpop_poll = poll left

abbrev pub brpop_poll : Instant → List Bytes → Data → Polled
brpop_poll = poll right
