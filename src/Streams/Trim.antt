-- ===== src/Streams/Trim.antt =====
-- XTRIM, XDEL and XLEN, as a client sees them.
use burner_redis.Prelude.{
  ℕ, zero, suc, ◌+◌, ◌-◌, ◌≡◌, refl, Bool, true, false, not, [], ◌∷◌, Option, none, some, ltb,
  arith, length, keep_if, drop, map, Bool-cases, inl, inr, ap, ◌∙◌, length-drop,
}
use burner_redis.Prelude.Key.{bytes_key, stream_id_key}
use burner_redis.Map
use burner_redis.Map.Laws.{remove_absent, Distinct}
use burner_redis.Value.{Bytes, Instant, Stream, StreamId, ok}
use burner_redis.Store.{Data}
use burner_redis.Store.View.{live}
use burner_redis.Streams.{xtrim, trim, trim_length, trim_below}
use burner_redis.Streams.Id.{id_ltb, id_ltb_trans, id_ltb_irrefl}
use burner_redis.Streams.Entries.{EntryMap, Fields, entries_below, trim_loop, remove_ids}
use burner_redis.Streams.Order.{all_above, ascending, all_up_to, is_ordered}
use burner_redis.Streams.View.{stream_view, update_stream, empty_stream}

get_above : (i : StreamId) (l : EntryMap) → all_above i l ≡ true → Map.get i l ≡ none
unfolding Map.get
get_above i [] h = refl
get_above i (e ∷ l) h = ground (arith, get_above i l, ap (id_ltb i), id_ltb_irrefl i)

pub ascending-Distinct : (l : EntryMap) → ascending l ≡ true → Distinct l
ascending-Distinct [] h = tt
ascending-Distinct (e ∷ l) h = (get_above e.0 l (ground arith), ascending-Distinct l (ground arith))

remove_first :
    (e : StreamId × Fields) (l : EntryMap) → all_above e.0 l ≡ true → Map.remove e.0 (e ∷ l) ≡ l
unfolding Map.remove
remove_first e l h = ground (arith, remove_absent e.0 l (get_above e.0 l h))

trim_loop_lem :
    (max removed : ℕ) (l : EntryMap)
    → trim_loop max removed l ≡ (removed + (length l - max), drop (length l - max) l)
unfolding trim_loop
trim_loop_lem max removed [] = ground arith
trim_loop_lem max removed (e ∷ l) = elim (Bool-cases (ltb max (length (e ∷ l)))) [
  | inl long ↦
      let one_more : length (e ∷ l) - max ≡ suc (length l - max) = ground arith in
      let moved : removed + 1 + (length l - max) ≡ removed + suc (length l - max) = omega arith in
      rw (long, one_more, trim_loop_lem max (removed + 1) l, moved) refl
  | inr short ↦
      let none_more : length (e ∷ l) - max ≡ 0 = ground arith in
      rw (short, none_more) (ground arith)
]

-- The entries that are not below an identifier.
abbrev pub from_id : StreamId → EntryMap → EntryMap
from_id min = keep_if (λ e. not (id_ltb e.0 min))

none_below :
    (min i : StreamId) (l : EntryMap)
    → id_ltb i min ≡ false
    → all_above i l ≡ true
    → (entries_below min l ≡ []) × (from_id min l ≡ l)
unfolding entries_below
none_below min i [] h above = (refl, refl)
none_below min i (e ∷ l) h above = ground (arith, none_below min i l, id_ltb_trans i e.0 min)

remove_below :
    (min : StreamId) (l : EntryMap)
    → ascending l ≡ true
    → remove_ids (map (λ e. e.0) (entries_below min l)) l ≡ from_id min l
unfolding entries_below remove_ids
remove_below min [] h = refl
remove_below min (e ∷ l) h = elim (Bool-cases (id_ltb e.0 min)) [
  | inl below ↦ rw below (
      ap (remove_ids (map (λ e'. e'.0) (entries_below min l))) (remove_first e l (ground arith))
      ∙ remove_below min l (ground arith))
  | inr kept ↦
      rw
        (
          kept,
          (none_below min e.0 l kept (ground arith)).0,
          (none_below min e.0 l kept (ground arith)).1,
        )
        refl
]

abbrev pub kept_of : Option ℕ → Option StreamId → EntryMap → EntryMap
kept_of none none l = l
kept_of (some max) none l = drop (length l - max) l
kept_of none (some min) l = from_id min l
kept_of (some max) (some min) l = from_id min (drop (length l - max) l)

length-below :
    (min : StreamId) (l : EntryMap)
    → length (map (λ e. e.0) (entries_below min l)) + length (from_id min l) ≡ length l
unfolding entries_below
length-below min [] = refl
length-below min (e ∷ l) = ground (arith, length-below min l)

all_above-drop :
    (n : ℕ) (i : StreamId) (l : EntryMap) → all_above i l ≡ true → all_above i (drop n l) ≡ true
all_above-drop zero i l h = h
all_above-drop (suc n) i [] h = h
all_above-drop (suc n) i (e ∷ l) h = all_above-drop n i l (ground arith)

ascending-drop : (n : ℕ) (l : EntryMap) → ascending l ≡ true → ascending (drop n l) ≡ true
ascending-drop zero l h = h
ascending-drop (suc n) [] h = h
ascending-drop (suc n) (e ∷ l) h = ascending-drop n l (ground arith)

all_above-keep_if :
    (p : StreamId × Fields → Bool) (i : StreamId) (l : EntryMap)
    → all_above i l ≡ true
    → all_above i (keep_if p l) ≡ true
all_above-keep_if p i [] h = h
all_above-keep_if p i (e ∷ l) h = ground (arith, all_above-keep_if p i l)

ascending-keep_if :
    (p : StreamId × Fields → Bool) (l : EntryMap)
    → ascending l ≡ true
    → ascending (keep_if p l) ≡ true
ascending-keep_if p [] h = h
ascending-keep_if p (e ∷ l) h = ground (arith, ascending-keep_if p l, all_above-keep_if p e.0 l)

-- What trimming answers and leaves, of the entries `l` with `removed` gone before.
abbrev Trims : ℕ → EntryMap → EntryMap → ℕ × EntryMap → Type 0
Trims removed l kept r = (r.1 ≡ kept) × (r.0 + length kept ≡ removed + length l)

trim_length_lem :
    (max : Option ℕ) (l : EntryMap) → Trims 0 l (kept_of max none l) (trim_length max l)
trim_length_lem none l = (refl, refl)
trim_length_lem (some max) l =
    rw (trim_loop_lem max 0 l) (refl, omega (arith, length-drop (length l - max) l))

trim_below_lem :
    (min : Option StreamId) (removed : ℕ) (l : EntryMap)
    → ascending l ≡ true
    → Trims removed l (kept_of none min l) (trim_below min (removed, l))
trim_below_lem none removed l h = (refl, refl)
trim_below_lem (some min) removed l h = (remove_below min l h, omega (arith, length-below min l))

kept_of-both :
    (max : Option ℕ) (min : Option StreamId) (l : EntryMap)
    → kept_of none min (kept_of max none l) ≡ kept_of max min l
kept_of-both none none l = refl
kept_of-both none (some min) l = refl
kept_of-both (some max) none l = refl
kept_of-both (some max) (some min) l = refl

kept_of-ascending :
    (max : Option ℕ) (l : EntryMap) → ascending l ≡ true → ascending (kept_of max none l) ≡ true
kept_of-ascending none l h = h
kept_of-ascending (some max) l h = ascending-drop (length l - max) l h

pub trim_lem :
    (max : Option ℕ) (min : Option StreamId) (st : Stream)
    → ascending st.entries ≡ true
    → (n : ℕ) × (trim max min st ≡ (ok n, record st { entries = kept_of max min st.entries }))
      × (n + length (kept_of max min st.entries) ≡ length st.entries)
trim_lem max min st h =
    let l = st.entries in
    let (left, count) = trim_length_lem max l in
    let order : ascending (trim_length max l).1 ≡ true = rw left (kept_of-ascending max l h) in
    let (rest, total) = trim_below_lem min (trim_length max l).0 (trim_length max l).1 order in
    let same = ap (kept_of none min) left ∙ kept_of-both max min l in
    (
      (trim_below min (trim_length max l)).0,
      rw (rest, same) refl,
      omega (arith, total, count, ap length same, ap length left),
    )

trim_nothing :
    (max : Option ℕ) (min : Option StreamId) → trim max min empty_stream ≡ (ok 0, empty_stream)
unfolding trim_loop entries_below remove_ids
trim_nothing none none = refl
trim_nothing none (some i) = refl
trim_nothing (some n) none = refl
trim_nothing (some n) (some i) = refl

all_up_to-drop :
    (n : ℕ) (i : StreamId) (l : EntryMap) → all_up_to i l ≡ true → all_up_to i (drop n l) ≡ true
all_up_to-drop zero i l h = h
all_up_to-drop (suc n) i [] h = h
all_up_to-drop (suc n) i (e ∷ l) h = all_up_to-drop n i l (ground arith)

all_up_to-keep_if :
    (p : StreamId × Fields → Bool) (i : StreamId) (l : EntryMap)
    → all_up_to i l ≡ true
    → all_up_to i (keep_if p l) ≡ true
all_up_to-keep_if p i [] h = h
all_up_to-keep_if p i (e ∷ l) h = ground (arith, all_up_to-keep_if p i l)

drop-ordered :
    (n : ℕ) (st : Stream)
    → is_ordered st ≡ true
    → is_ordered (record st { entries = drop n st.entries }) ≡ true
drop-ordered n st h =
    ground (arith, ascending-drop n st.entries, all_up_to-drop n st.last_id st.entries)

keep_if-ordered :
    (p : StreamId × Fields → Bool) (st : Stream)
    → is_ordered st ≡ true
    → is_ordered (record st { entries = keep_if p st.entries }) ≡ true
keep_if-ordered p st h =
    ground (arith, ascending-keep_if p st.entries, all_up_to-keep_if p st.last_id st.entries)

pub kept_of-ordered :
    (max : Option ℕ) (min : Option StreamId) (st : Stream)
    → is_ordered st ≡ true
    → is_ordered (record st { entries = kept_of max min st.entries }) ≡ true
kept_of-ordered none none st h = h
kept_of-ordered (some max) none st h = drop-ordered (length st.entries - max) st h
kept_of-ordered none (some min) st h = keep_if-ordered (λ e. not (id_ltb e.0 min)) st h
kept_of-ordered (some max) (some min) st h =
    keep_if-ordered (λ e. not (id_ltb e.0 min))
      (record st { entries = drop (length st.entries - max) st.entries })
      (drop-ordered (length st.entries - max) st h)

-- XTRIM on a stream in order, or a missing key: the entries with the greatest identifiers are left,
-- as many as MAXLEN allows, and of those the ones that are not below MINID, each option only where it
-- is given; the answer is the number of the others, the last identifier and the groups stay, and the
-- stream is in order again.
pub xtrim_lem :
    (now : Instant) (key : Bytes) (max : Option ℕ) (min : Option StreamId) (m : Data) (st : Stream)
    → stream_view (live now key m) ≡ some st
    → is_ordered st ≡ true
    → (n : ℕ) × (st' : Stream) × ((xtrim now key max min m).0 ≡ ok n)
      × (stream_view (live now key (xtrim now key max min m).1) ≡ some st')
      × (st' ≡ record st { entries = kept_of max min st.entries })
      × (n + length st'.entries ≡ length st.entries)
      × (is_ordered st' ≡ true)
unfolding xtrim
xtrim_lem now key max min m st view order =
    let (n, trimmed, total) = trim_lem max min st (ground arith) in
    let (answer, seen) =
      update_stream now key m st view (ok 0) (trim max min) (trim_nothing max min) in
    (
      n,
      record st { entries = kept_of max min st.entries },
      answer ∙ ap (λ p. p.0) trimmed,
      seen ∙ ap (λ p. some p.1) trimmed,
      refl,
      total,
      kept_of-ordered max min st order,
    )
