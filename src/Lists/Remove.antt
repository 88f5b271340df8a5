-- ===== src/Lists/Remove.antt =====
-- LREM on the list itself: the three directions against one function that drops the first matches.
use burner_redis.Prelude.{
  ℕ, zero, suc, ◌+◌, ◌≤◌, ◌<◌, ◌≡◌, refl, sym, ap, ◌∙◌, false, List, [], ◌∷◌, ◌++◌, arith, length,
  take, reverse, length-reverse, if◌then◌else◌, min, Bool-cases, inl, inr,
}
use mathlib.Core.List.{reverse-append, reverse-reverse, reverse-cons}
use burner_redis.Prelude.Key.{bytes_key, same}
use burner_redis.Value.{Bytes}
use burner_redis.ListIndex.{LremDirection, head, tail, all}
use burner_redis.Lists.Seq.{
  retain_head, match_indices, remove_at, remove_each, remove_tail, retain_others, lrem_list,
}

-- How often the value stands in the list.
abbrev pub count : Bytes → List Bytes → ℕ
count value [] = 0
count value (x ∷ l) = if same x value then suc (count value l) else count value l

-- The list without the first `n` of the value.
unfoldable pub drop_first : ℕ → Bytes → List Bytes → List Bytes
drop_first zero value l = l
drop_first (suc n) value [] = []
drop_first (suc n) value (x ∷ l) =
    let fewer = drop_first n value l in
    let kept = drop_first (suc n) value l in if same x value then fewer else x ∷ kept

retain_head_done :
    (target : ℕ) (value : Bytes) (removed : ℕ) (l : List Bytes)
    → target ≤ removed
    → retain_head target value removed l ≡ (removed, l)
unfolding retain_head
retain_head_done target value removed [] h = refl
retain_head_done target value removed (x ∷ l) h =
    ground (arith, retain_head_done target value removed l)

retain_head-drop_first :
    (n target : ℕ) (value : Bytes) (removed : ℕ) (l : List Bytes)
    → removed + n ≡ target
    → retain_head target value removed l ≡ (removed + min n (count value l), drop_first n value l)
unfolding retain_head drop_first
retain_head-drop_first zero target value removed l h =
    ground (arith, retain_head_done target value removed l)
retain_head-drop_first (suc n) target value removed [] h = ground arith
retain_head-drop_first (suc n) target value removed (x ∷ l) h = ground (
  arith,
  retain_head-drop_first (suc n) target value removed l,
  retain_head-drop_first n target value (removed + 1) l,
)

drop_first_other :
    (n : ℕ) (value x : Bytes) (l : List Bytes)
    → same x value ≡ false
    → drop_first n value (x ∷ l) ≡ x ∷ drop_first n value l
unfolding drop_first
drop_first_other zero value x l h = refl
drop_first_other (suc n) value x l h = rw h refl

retain_others-drop_first :
    (value : Bytes) (l : List Bytes) → retain_others value l ≡ drop_first (count value l) value l
unfolding retain_others drop_first
retain_others-drop_first value [] = refl
retain_others-drop_first value (x ∷ l) =
    ground (arith, retain_others-drop_first value l, drop_first_other (count value l) value x l)

length-retain_others :
    (value : Bytes) (l : List Bytes) → length (retain_others value l) + count value l ≡ length l
unfolding retain_others
length-retain_others value [] = refl
length-retain_others value (x ∷ l) = ground (arith, length-retain_others value l)

match_indices-append :
    (value : Bytes) (i : ℕ) (a b : List Bytes)
    → match_indices value i (a ++ b)
      ≡ match_indices value i a ++ match_indices value (i + length a) b
unfolding match_indices
match_indices-append value i [] b = ap (λ (j : ℕ). match_indices value j b) (omega arith)
match_indices-append value i (x ∷ a) b =
    let e : (i + 1) + length a ≡ i + suc (length a) = omega arith in
    let ih =
      match_indices-append value (i + 1) a b
      ∙ ap (λ (j : ℕ). match_indices value (i + 1) a ++ match_indices value j b) e in
    ground arith

-- The indices of the matches from the tail on, over the list read backwards.
abbrev from_tail : Bytes → List Bytes → List ℕ
from_tail value [] = []
from_tail value (x ∷ r) = if same x value then length r ∷ from_tail value r else from_tail value r

reverse-match_indices :
    (value : Bytes) (r : List Bytes)
    → reverse (match_indices value 0 (reverse r)) ≡ from_tail value r
unfolding match_indices
reverse-match_indices value [] = refl
reverse-match_indices value (x ∷ r) =
    rw
      (
        reverse-cons x r,
        match_indices-append value 0 (reverse r) (x ∷ []),
        reverse-append,
        reverse-match_indices value r,
        length-reverse r,
      )
      (ground arith)

-- Indices that fall, all below a bound: each can be removed without moving the next.
abbrev Falling : ℕ → List ℕ → Type 0
Falling n [] = Unit
Falling n (i ∷ indices) = (i < n) × Falling i indices

Falling-le : (n k : ℕ) (indices : List ℕ) → n ≤ k → Falling n indices → Falling k indices
Falling-le n k [] h f = tt
Falling-le n k (i ∷ indices) h f = (omega arith, f.1)

from_tail-Falling : (value : Bytes) (r : List Bytes) → Falling (length r) (from_tail value r)
from_tail-Falling value [] = tt
from_tail-Falling value (x ∷ r) = elim (Bool-cases (same x value)) [
  | inl hit ↦ rw hit (omega arith, from_tail-Falling value r)
  | inr miss ↦ rw miss (
      Falling-le (length r) (suc (length r)) (from_tail value r) (omega arith)
        (from_tail-Falling value r))
]

take-Falling : (t n : ℕ) (indices : List ℕ) → Falling n indices → Falling n (take t indices)
take-Falling zero n indices f = tt
take-Falling (suc t) n [] f = tt
take-Falling (suc t) n (i ∷ indices) f = (f.0, take-Falling t i indices f.1)

remove_at-append :
    (i : ℕ) (a b : List Bytes)
    → i < length a
    → (remove_at i (a ++ b) ≡ remove_at i a ++ b) × (suc (length (remove_at i a)) ≡ length a)
unfolding remove_at
remove_at-append i [] b h = absurd (omega arith)
remove_at-append zero (x ∷ a) b h = (refl, refl)
remove_at-append (suc i) (x ∷ a) b h =
    let (e, n) = remove_at-append i a b (omega arith) in (ap (◌∷◌ x) e, ap suc n)

remove_at-length : (a : List Bytes) (x : Bytes) → remove_at (length a) (a ++ x ∷ []) ≡ a
unfolding remove_at
remove_at-length [] x = refl
remove_at-length (y ∷ a) x = ap (◌∷◌ y) (remove_at-length a x)

remove_at_last :
    (r : List Bytes) (x : Bytes) → remove_at (length r) (reverse r ++ x ∷ []) ≡ reverse r
remove_at_last r x =
    ap (λ (n : ℕ). remove_at n (reverse r ++ x ∷ [])) (sym (length-reverse r))
    ∙ remove_at-length (reverse r) x

remove_each-append :
    (indices : List ℕ) (a b : List Bytes)
    → Falling (length a) indices
    → remove_each indices (a ++ b) ≡ remove_each indices a ++ b
unfolding remove_each
remove_each-append [] a b f = refl
remove_each-append (i ∷ indices) a b f =
    let (e, n) = remove_at-append i a b f.0 in
    rw e (
      remove_each-append indices (remove_at i a) b
        (Falling-le i (length (remove_at i a)) indices (omega arith) f.1))

remove_each-from_tail :
    (t : ℕ) (value : Bytes) (r : List Bytes)
    → remove_each (take t (from_tail value r)) (reverse r) ≡ reverse (drop_first t value r)
unfolding remove_each drop_first
remove_each-from_tail zero value r = refl
remove_each-from_tail (suc t) value [] = refl
remove_each-from_tail (suc t) value (x ∷ r) = elim (Bool-cases (same x value)) [
  | inl hit ↦ rw (hit, reverse-cons x r, remove_at_last r x) (remove_each-from_tail t value r)
  | inr miss ↦
      rw (miss, reverse-cons x r)
        (remove_each-append (take (suc t) (from_tail value r)) (reverse r) (x ∷ []) (
            rw (length-reverse r)
              (take-Falling (suc t) (length r) (from_tail value r) (from_tail-Falling value r)))
          ∙ ap (λ (l : List Bytes). l ++ x ∷ []) (remove_each-from_tail (suc t) value r)
          ∙ sym (reverse-cons x (drop_first (suc t) value r)))
]

length-take-from_tail :
    (t : ℕ) (value : Bytes) (r : List Bytes)
    → length (take t (from_tail value r)) ≡ min t (count value r)
length-take-from_tail zero value r = omega arith
length-take-from_tail (suc t) value [] = omega arith
length-take-from_tail (suc t) value (x ∷ r) =
    ground (arith, length-take-from_tail t value r, length-take-from_tail (suc t) value r)

-- How many elements LREM takes, and what it leaves: the first matches go for a positive count, the
-- last ones for a negative count, and all for zero.
abbrev pub lrem_spec : LremDirection → Bytes → List Bytes → ℕ × List Bytes
lrem_spec (head n) value l = (min n (count value l), drop_first n value l)
lrem_spec (tail n) value l = (min n (count value l), reverse (drop_first n value (reverse l)))
lrem_spec all value l = (count value l, drop_first (count value l) value l)

count-append :
    (value : Bytes) (a b : List Bytes) → count value (a ++ b) ≡ count value a + count value b
count-append value [] b = omega arith
count-append value (x ∷ a) b = ground (arith, count-append value a b)

count-reverse : (value : Bytes) (l : List Bytes) → count value (reverse l) ≡ count value l
count-reverse value [] = refl
count-reverse value (x ∷ l) =
    rw (reverse-cons x l, count-append value (reverse l) (x ∷ []), count-reverse value l)
      (ground arith)

remove_tail-spec :
    (n : ℕ) (value : Bytes) (l : List Bytes) → remove_tail n value l ≡ lrem_spec (tail n) value l
unfolding remove_tail
remove_tail-spec n value l =
    let indices : reverse (match_indices value 0 l) ≡ from_tail value (reverse l) =
      ap (λ (k : List Bytes). reverse (match_indices value 0 k)) (sym (reverse-reverse l))
      ∙ reverse-match_indices value (reverse l) in
    rw (indices, length-take-from_tail n value (reverse l), count-reverse value l)
      (ap
          (λ (k : List Bytes).
            (min n (count value l), remove_each (take n (from_tail value (reverse l))) k))
          (sym (reverse-reverse l))
        ∙ ap (λ (k : List Bytes). (min n (count value l), k))
            (remove_each-from_tail n value (reverse l)))

-- The three loops of LREM answer how many of the value they take and leave what `lrem_spec` says;
-- that from the tail, which removes by index, is that from the head on the reversed list.
pub lrem_list_lem :
    (d : LremDirection) (value : Bytes) (l : List Bytes) → lrem_list d value l ≡ lrem_spec d value l
unfolding lrem_list
lrem_list_lem (head n) value l = retain_head-drop_first n n value 0 l (omega arith) ∙ (ground arith)
lrem_list_lem (tail n) value l = remove_tail-spec n value l
lrem_list_lem all value l =
    ground (arith, length-retain_others value l, retain_others-drop_first value l)
