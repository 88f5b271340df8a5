-- ===== src/Streams/Order.antt =====
-- The order of a stream's entries: they ascend strictly, and none is above the last identifier.
use burner_redis.Prelude.{
  ℕ, zero, suc, ◌≡◌, refl, Bool, true, false, ◌&&◌, [], ◌∷◌, ◌++◌, sym, arith, take, drop,
  Bool-cases, inl, inr, ◌∙◌,
}
use burner_redis.Value.{StreamId, Stream}
use burner_redis.Streams.Id.{
  id_ltb, id_leb, id_ltb_trans, id_ltb_irrefl, id_leb_ltb_trans, id_antisymm,
}
use burner_redis.Streams.Entries.{Fields, EntryMap, insert_entry, entries_after}

abbrev pub all_above : StreamId → EntryMap → Bool
all_above i [] = true
all_above i (e ∷ l) = id_ltb i e.0 && all_above i l

abbrev pub ascending : EntryMap → Bool
ascending [] = true
ascending (e ∷ l) = all_above e.0 l && ascending l

abbrev pub all_up_to : StreamId → EntryMap → Bool
all_up_to i [] = true
all_up_to i (e ∷ l) = id_leb e.0 i && all_up_to i l

abbrev pub is_ordered : Stream → Bool
is_ordered st = ascending st.entries && all_up_to st.last_id st.entries

pub insert_entry_above :
    (last i : StreamId) (fields : Fields) (l : EntryMap)
    → all_up_to last l ≡ true
    → id_ltb last i ≡ true
    → insert_entry i fields l ≡ l ++ (i, fields) ∷ []
unfolding insert_entry
insert_entry_above last i fields [] h above = refl
insert_entry_above last i fields ((j, g) ∷ l) h above =
    let below = id_leb_ltb_trans j last i (ground arith) above in
    ground (arith, insert_entry_above last i fields l, id_ltb_trans i j i, id_ltb_irrefl i)

pub all_above_trans :
    (i j : StreamId) (l : EntryMap)
    → id_ltb i j ≡ true
    → all_above j l ≡ true
    → all_above i l ≡ true
all_above_trans i j [] h above = refl
all_above_trans i j (e ∷ l) h above = ground (arith, all_above_trans i j l, id_ltb_trans i j e.0)

pub all_above-snoc :
    (j i : StreamId) (fields : Fields) (l : EntryMap)
    → all_above j l ≡ true
    → id_ltb j i ≡ true
    → all_above j (l ++ (i, fields) ∷ []) ≡ true
all_above-snoc j i fields [] h above = ground arith
all_above-snoc j i fields (e ∷ l) h above = ground (arith, all_above-snoc j i fields l)

pub ascending-snoc :
    (last i : StreamId) (fields : Fields) (l : EntryMap)
    → ascending l ≡ true
    → all_up_to last l ≡ true
    → id_ltb last i ≡ true
    → ascending (l ++ (i, fields) ∷ []) ≡ true
ascending-snoc last i fields [] h below above = refl
ascending-snoc last i fields (e ∷ l) h below above =
    let under = id_leb_ltb_trans e.0 last i (ground arith) above in
    ground (arith, ascending-snoc last i fields l, all_above-snoc e.0 i fields l)

pub all_up_to-snoc :
    (last i : StreamId) (fields : Fields) (l : EntryMap)
    → all_up_to last l ≡ true
    → id_ltb last i ≡ true
    → all_up_to i (l ++ (i, fields) ∷ []) ≡ true
all_up_to-snoc last i fields [] below above = ground (arith, id_ltb_irrefl i)
all_up_to-snoc last i fields (e ∷ l) below above =
    let under = id_leb_ltb_trans e.0 last i (ground arith) above in
    ground (arith, all_up_to-snoc last i fields l, id_ltb_trans i e.0 i, id_ltb_irrefl i)

pub entries_after-snoc :
    (last i : StreamId) (fields : Fields) (l : EntryMap)
    → all_up_to last l ≡ true
    → id_ltb last i ≡ true
    → entries_after last (l ++ (i, fields) ∷ []) ≡ (i, fields) ∷ []
unfolding entries_after
entries_after-snoc last i fields [] below above = ground arith
entries_after-snoc last i fields (e ∷ l) below above =
    ground (arith, entries_after-snoc last i fields l)

-- The identifier up to which a group has been served, after these entries.
abbrev pub end_of : StreamId → EntryMap → StreamId
end_of start [] = start
end_of start (e ∷ l) = end_of e.0 l

pub entries_after_all : (i : StreamId) (l : EntryMap) → all_above i l ≡ true → entries_after i l ≡ l
unfolding entries_after
entries_after_all i [] h = refl
entries_after_all i (e ∷ l) h = ground (arith, entries_after_all i l)

pub entries_after_ascending :
    (i j : StreamId) (l : EntryMap)
    → id_ltb i j ≡ true
    → entries_after j (entries_after i l) ≡ entries_after j l
unfolding entries_after
entries_after_ascending i j [] h = refl
entries_after_ascending i j (e ∷ l) h =
    ground (arith, entries_after_ascending i j l, id_ltb_trans i j e.0)

pub all_above-entries_after : (i : StreamId) (l : EntryMap) → all_above i (entries_after i l) ≡ true
unfolding entries_after
all_above-entries_after i [] = refl
all_above-entries_after i (e ∷ l) = ground (arith, all_above-entries_after i l)

pub all_above_filtered :
    (j i : StreamId) (l : EntryMap) → all_above j l ≡ true → all_above j (entries_after i l) ≡ true
unfolding entries_after
all_above_filtered j i [] h = refl
all_above_filtered j i (e ∷ l) h = ground (arith, all_above_filtered j i l)

pub ascending-entries_after :
    (i : StreamId) (l : EntryMap) → ascending l ≡ true → ascending (entries_after i l) ≡ true
unfolding entries_after
ascending-entries_after i [] h = refl
ascending-entries_after i (e ∷ l) h =
    ground (arith, ascending-entries_after i l, all_above_filtered e.0 i l)

pub end_of-take :
    (n : ℕ) (s : StreamId) (l : EntryMap)
    → all_above s l ≡ true
    → ascending l ≡ true
    → id_ltb (end_of s (take n l)) s ≡ false
end_of-take zero s l h asc = id_ltb_irrefl s
end_of-take (suc n) s [] h asc = id_ltb_irrefl s
end_of-take (suc n) s (e ∷ l) h asc =
    let rest = end_of-take n e.0 l (ground arith) (ground arith) in
    ground (arith, id_ltb_trans (end_of e.0 (take n l)) s e.0)

-- After the first entries that follow an identifier come the others.
pub entries_after-end_of :
    (n : ℕ) (s : StreamId) (l : EntryMap)
    → all_above s l ≡ true
    → ascending l ≡ true
    → entries_after (end_of s (take n l)) l ≡ drop n l
unfolding entries_after
entries_after-end_of zero s l h asc = entries_after_all s l h
entries_after-end_of (suc n) s [] h asc = refl
entries_after-end_of (suc n) s (e ∷ l) h asc =
    let behind = end_of-take n e.0 l (ground arith) (ground arith) in
    ground (arith, entries_after-end_of n e.0 l)

pub entries_after_later :
    (i j : StreamId) (l : EntryMap)
    → id_ltb j i ≡ false
    → entries_after j (entries_after i l) ≡ entries_after j l
entries_after_later i j l h = elim (Bool-cases (id_ltb i j)) [
  | inl before ↦ entries_after_ascending i j l before
  | inr not_before ↦
      rw (id_antisymm j i h not_before)
        (entries_after_all i (entries_after i l) (all_above-entries_after i l))
]

-- Reading on from the last of the entries that were read gives the rest of them.
pub entries_after-read :
    (n : ℕ) (start : StreamId) (l : EntryMap)
    → ascending l ≡ true
    → entries_after (end_of start (take n (entries_after start l))) l
      ≡ drop n (entries_after start l)
entries_after-read n start l asc =
    sym (
      entries_after_later start (end_of start (take n (entries_after start l))) l (
        end_of-take n start (entries_after start l) (all_above-entries_after start l)
          (ascending-entries_after start l asc)))
    ∙ entries_after-end_of n start (entries_after start l) (all_above-entries_after start l)
        (ascending-entries_after start l asc)
