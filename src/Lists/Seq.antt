-- ===== src/Lists/Seq.antt =====
-- What the list commands do to the `VecDeque` itself.
use burner_redis.Prelude.{
  ℕ, zero, suc, ◌+◌, ◌-◌, ◌&&◌, Option, none, some, List, [], ◌∷◌, ◌++◌, ltb, length, take, drop,
  reverse, if◌then◌else◌,
}
use burner_redis.Prelude.Key.{bytes_key, same}
use burner_redis.Value.{Bytes}
use burner_redis.ListIndex.{ListEnd, left, right, LremDirection, head, tail, all}

module _ {ℓ} {A : Type ℓ} where
  unfoldable pub pop_front : List A → Option A × List A
  pop_front [] = (none, [])
  pop_front (x ∷ l) = (some x, l)

  unfoldable pub pop_back : List A → Option A × List A
  pop_back [] = (none, [])
  pop_back (x ∷ []) = (some x, [])
  pop_back (x ∷ y ∷ l) = let (last, rest) = pop_back (y ∷ l) in (last, x ∷ rest)

  unfoldable pub pop_end : ListEnd → List A → Option A × List A
  unfolding pop_front pop_back
  pop_end left l = pop_front l
  pop_end right l = pop_back l

  unfoldable pub push_end : ListEnd → A → List A → List A
  push_end left x l = x ∷ l
  push_end right x l = l ++ x ∷ []

  -- `for v in values { list.push_…(v) }`
  unfoldable pub push_all : ListEnd → List A → List A → List A
  unfolding push_end
  push_all end [] l = l
  push_all end (v ∷ values) l = push_all end values (push_end end v l)

  abbrev pub cons_some : Option A → List A → List A
  cons_some none l = l
  cons_some (some x) l = x ∷ l

  -- `(0..actual).map(|_| list.pop_…())`, and the list that is left
  unfoldable pub pop_count : ListEnd → ℕ → List A → List A × List A
  unfolding pop_end
  pop_count end zero l = ([], l)
  pop_count end (suc n) l =
      let (x, l') = pop_end end l in
      let (popped, rest) = pop_count end n l' in (cons_some x popped, rest)

  -- `list.insert(i, x)`
  unfoldable pub insert_at : ℕ → A → List A → List A
  insert_at zero x l = x ∷ l
  insert_at (suc i) x [] = x ∷ []
  insert_at (suc i) x (y ∷ l) = y ∷ insert_at i x l

  -- `list.remove(i)`
  unfoldable pub remove_at : ℕ → List A → List A
  remove_at i [] = []
  remove_at zero (x ∷ l) = l
  remove_at (suc i) (x ∷ l) = x ∷ remove_at i l

  unfoldable pub remove_each : List ℕ → List A → List A
  unfolding remove_at
  remove_each [] l = l
  remove_each (i ∷ indices) l = remove_each indices (remove_at i l)

  -- `list.iter().skip(s).take(e - s + 1)`
  abbrev pub slice : ℕ → ℕ → List A → List A
  slice s e l = take (e - s + 1) (drop s l)

-- `list.iter().position(|v| v == pivot)`, from index `i` on
unfoldable pub position : Bytes → ℕ → List Bytes → Option ℕ
position pivot i [] = none
position pivot i (x ∷ l) =
    let rest = position pivot (i + 1) l in if same x pivot then some i else rest

-- `LremDirection::Head`: the closure of `retain` counts what it has removed.
unfoldable pub retain_head : ℕ → Bytes → ℕ → List Bytes → ℕ × List Bytes
retain_head target value removed [] = (removed, [])
retain_head target value removed (x ∷ l) =
    let hit = ltb removed target && same x value in
    let (total, rest) = retain_head target value (if hit then removed + 1 else removed) l in
    (total, if hit then rest else x ∷ rest)

-- The indices of the matches, ascending.
unfoldable pub match_indices : Bytes → ℕ → List Bytes → List ℕ
match_indices value i [] = []
match_indices value i (x ∷ l) =
    let rest = match_indices value (i + 1) l in if same x value then i ∷ rest else rest

-- `LremDirection::Tail`: the last matches, from the tail on, are removed one by one.
unfoldable pub remove_tail : ℕ → Bytes → List Bytes → ℕ × List Bytes
unfolding match_indices remove_each
remove_tail target value l =
    let indices = take target (reverse (match_indices value 0 l)) in
    (length indices, remove_each indices l)

-- `retain(|v| v != &value)`
unfoldable pub retain_others : Bytes → List Bytes → List Bytes
retain_others value [] = []
retain_others value (x ∷ l) =
    let rest = retain_others value l in if same x value then rest else x ∷ rest

unfoldable pub lrem_list : LremDirection → Bytes → List Bytes → ℕ × List Bytes
unfolding retain_head remove_tail retain_others
lrem_list (head target) value l = retain_head target value 0 l
lrem_list (tail target) value l = remove_tail target value l
lrem_list all value l = let kept = retain_others value l in (length l - length kept, kept)
