-- ===== src/Lists/Ranges.antt =====
-- LINDEX, LRANGE and LTRIM by the indices that their arguments name.
use burner_redis.Prelude.{
  ℕ, zero, suc, ◌+◌, ◌-◌, ◌≤◌, ◌<◌, ◌≡◌, refl, ap, ◌∙◌, sym, Bool, false, ◌&&◌, Option, none, some,
  List, [], ◌∷◌, arith, if_pos, if◌then◌else◌, is_empty, length, take, drop, leb, Bool-cases, inl,
  inr,
}
use burner_redis.Prelude.Int.{ℤ}
use burner_redis.Prelude.Key.{bytes_key, bytes_discrete}
use burner_redis.Map.Laws.{get-remove}
use burner_redis.Value.{Bytes, Instant, ValueEntry, list, is_expired, ok}
use burner_redis.Store.{Data, expired_at}
use burner_redis.Store.View.{live, answer, read_lem}
use burner_redis.Store.Effects.{live_not_expired}
use burner_redis.ListIndex.{normalize_range_indices}
use burner_redis.ListIndex.Bounds.{
  between, covers, normalize_range_indices_bounds, covers-normalize_range_indices,
}
use burner_redis.Lists.Seq.{slice}
use burner_redis.Lists.Commands.{list_value, slice_range, lrange, ltrim, trim_entry, on_list}
use burner_redis.Lists.View.{list_view, kept_list, live-drop_empty_list}

-- The elements whose index, counted from `i`, passes the test.
abbrev pub select : (ℕ → Bool) → ℕ → List Bytes → List Bytes
select p i [] = []
select p i (x ∷ l) = if p i then x ∷ select p (suc i) l else select p (suc i) l

select_ext :
    (p q : ℕ → Bool) (i : ℕ) (l : List Bytes)
    → ((k : ℕ) → k < i + length l → p k ≡ q k)
    → select p i l ≡ select q i l
select_ext p q i [] h = refl
select_ext p q i (x ∷ l) h =
    ground (arith, h i (omega arith), select_ext p q (suc i) l (λ k b. h k (omega arith)))

select_none :
    (p : ℕ → Bool) (i : ℕ) (l : List Bytes) → ((k : ℕ) → i ≤ k → p k ≡ false) → select p i l ≡ []
select_none p i [] h = refl
select_none p i (x ∷ l) h =
    ground (arith, h i (omega arith), select_none p (suc i) l (λ k b. h k (omega arith)))

take_nil : (n : ℕ) → take {A = Bytes} n [] ≡ []
take_nil zero = refl
take_nil (suc n) = refl

drop_nil : (n : ℕ) → drop {A = Bytes} n [] ≡ []
drop_nil zero = refl
drop_nil (suc n) = refl

select-take :
    (s e i : ℕ) (l : List Bytes) → s ≤ i → select (λ k. leb s k && leb k e) i l ≡ take (suc e - i) l
select-take s e i [] h = sym (take_nil (suc e - i))
select-take s e i (x ∷ l) h = elim (Bool-cases (leb i e)) [
  | inl inside ↦
      let n : suc e - i ≡ suc (suc e - suc i) = ground arith in
      rw n (ground (arith, select-take s e (suc i) l))
  | inr outside ↦
      let n : suc e - i ≡ 0 = ground arith in
      let n' : suc e - suc i ≡ 0 = ground arith in
      let ih : select (λ k. leb s k && leb k e) (suc i) l ≡ [] =
        select-take s e (suc i) l (omega arith) ∙ ap (λ (j : ℕ). take j l) n' in
      rw n (ground arith)
]

select_slice :
    (s e i : ℕ) (l : List Bytes)
    → i ≤ s
    → select (λ k. leb s k && leb k e) i l ≡ take (suc e - s) (drop (s - i) l)
select_slice s e i [] h = sym (ap (take (suc e - s)) (drop_nil (s - i)) ∙ take_nil (suc e - s))
select_slice s e i (x ∷ l) h = elim (Bool-cases (leb s i)) [
  | inl at ↦
      let n : s - i ≡ 0 = ground arith in
      let n' : s ≡ i = ground arith in
      rw n (
        select-take s e i (x ∷ l) (ground arith)
        ∙ ap (λ (j : ℕ). take (suc e - j) (x ∷ l)) (sym n'))
  | inr before ↦
      let n : s - i ≡ suc (s - suc i) = ground arith in
      rw n (ground (arith, select_slice s e (suc i) l))
]

slice_covers :
    (r : Option (ℕ × ℕ)) (l : List Bytes)
    → ((s e : ℕ) → r ≡ some (s, e) → s ≤ e)
    → slice_range l r ≡ select (covers r) 0 l
slice_covers none l h = sym (select_none (covers none) 0 l (λ k b. refl))
slice_covers (some (s, e)) l h =
    let n : e - s + 1 ≡ suc e - s = omega (arith, h s e refl) in
    let n' : s - 0 ≡ s = omega arith in
    ap (λ (j : ℕ). take j (drop s l)) n
    ∙ sym (select_slice s e 0 l (omega arith) ∙ ap (λ (j : ℕ). take (suc e - s) (drop j l)) n')

-- The range that the indices of LRANGE and LTRIM stand for holds exactly the elements between them.
slice_range-select :
    (start stop : ℤ) (l : List Bytes)
    → slice_range l (normalize_range_indices start stop (length l))
      ≡ select (between start stop (length l)) 0 l
slice_range-select start stop l =
    slice_covers (normalize_range_indices start stop (length l)) l
      (λ s e h. (normalize_range_indices_bounds start stop (length l) h).0)
    ∙ select_ext (covers (normalize_range_indices start stop (length l)))
        (between start stop (length l)) 0 l
        (λ k b. covers-normalize_range_indices start stop (length l) k (omega arith))

-- LRANGE on a list or a missing key answers, in order, the elements whose index lies between its
-- two arguments.
pub lrange_lem :
    (now : Instant) (key : Bytes) (start stop : ℤ) (m : Data) (l : List Bytes)
    → list_view (live now key m) ≡ some l
    → (lrange now key start stop m).0 ≡ ok (select (between start stop (length l)) 0 l)
lrange_lem now key start stop m l view =
    rw (← slice_range-select start stop l)
      (unfold lrange in rw read_lem (lrange_answer (live now key m) view))
  where
    lrange_answer :
        (o : Option ValueEntry)
        → list_view o ≡ some l
        → answer
            (ok [])
            (on_list (λ l. ok (slice_range l (normalize_range_indices start stop (length l)))))
            o
          ≡ ok (slice_range l (normalize_range_indices start stop (length l)))
    lrange_answer o h = ground (arith, slice_range-select start stop [])

trim_entry_seen :
    (now : Instant) (key : Bytes) (e : ValueEntry) (l : List Bytes) (r : Option (ℕ × ℕ)) (m : Data)
    → is_expired e now ≡ false
    → live now key (trim_entry key e l r m) ≡ kept_list now (slice_range l r) e
unfolding live
trim_entry_seen now key e l none m h = ground (arith, get-remove key key m)
trim_entry_seen now key e l (some (s, f)) m h =
    live-drop_empty_list now key key e (slice s f l) m ∙ if_pos (bytes_discrete key key) refl _ _

ltrim-live :
    (now : Instant) (key : Bytes) (start stop : ℤ) (m : Data) {e : ValueEntry} (l : List Bytes)
    → live now key m ≡ some e
    → list_value e.value ≡ some l
    → ltrim now key start stop m
      ≡ (ok tt, trim_entry key e l (normalize_range_indices start stop (length l)) m)
unfolding ltrim expired_at live
ltrim-live now key start stop m l present typed = ground arith

-- LTRIM on a live list leaves, in order, the elements whose index lies between its two arguments,
-- and the key is there afterwards exactly if one is left.
pub ltrim_lem :
    (now : Instant) (key : Bytes) (start stop : ℤ) (m : Data) (e : ValueEntry) (l : List Bytes)
    → live now key m ≡ some e
    → list_value e.value ≡ some l
    → ((ltrim now key start stop m).0 ≡ ok tt)
      × (live now key (ltrim now key start stop m).1 ≡ (
          if is_empty (select (between start stop (length l)) 0 l)
          then none
          else some (record e { value = list (select (between start stop (length l)) 0 l) })))
unfolding is_expired
ltrim_lem now key start stop m e l present typed =
    rw (ltrim-live now key start stop m l present typed) (
      refl,
      trim_entry_seen now key e l (normalize_range_indices start stop (length l)) m
            (live_not_expired now key m present)
          ∙ (rw (slice_range-select start stop l)
              (ground (arith, live_not_expired now key m present))),
    )
