-- ===== src/Lists/Laws.antt =====
-- The list functions against plain ones: popping undoes pushing, a pop of `n` takes the first or
-- the last `n` elements, and a slice is read by index.
use burner_redis.Prelude.{
  ℕ, zero, suc, ◌+◌, ◌<◌, ◌≡◌, refl, sym, ap, ◌∙◌, some, List, [], ◌∷◌, ◌++◌, arith, length, take,
  drop, get_elem?, reverse, length-append,
}
use mathlib.Core.List.{append-nil, append_assoc, reverse-reverse, reverse-cons}
use burner_redis.ListIndex.{ListEnd, left, right}
use burner_redis.Lists.Seq.{pop_front, pop_back, pop_end, push_end, push_all, pop_count}

module _ {ℓ} {A : Type ℓ} where
  pub pop_back-append : (l : List A) (x : A) → pop_back (l ++ x ∷ []) ≡ (some x, l)
  unfolding pop_back
  pop_back-append [] x = refl
  pop_back-append (y ∷ []) x = refl
  pop_back-append (y ∷ z ∷ l) x = rw (pop_back-append (z ∷ l) x) refl

  -- A pop at the end where an element was pushed gives it back and leaves the list as it was.
  pub pop_end-push_end :
      (end : ListEnd) (x : A) (l : List A) → pop_end end (push_end end x l) ≡ (some x, l)
  unfolding pop_end push_end pop_front
  pop_end-push_end left x l = refl
  pop_end-push_end right x l = pop_back-append l x

  -- A non-empty list gives an element, and pushing it back where it came from restores the list.
  pub push_end-pop_end :
      (end : ListEnd) (x : A) (l : List A)
      → (y : A) × (rest : List A) × (pop_end end (x ∷ l) ≡ (some y, rest))
        × (push_end end y rest ≡ x ∷ l)
  unfolding pop_end push_end pop_front pop_back
  push_end-pop_end left x l = (x, l, refl, refl)
  push_end-pop_end right x [] = (x, [], refl, refl)
  push_end-pop_end right x (y ∷ l) =
      let (z, rest, popped, restored) = push_end-pop_end right y l in
      (z, x ∷ rest, rw popped refl, ap (◌∷◌ x) restored)

  pub length-push_end :
      (end : ListEnd) (x : A) (l : List A) → length (push_end end x l) ≡ suc (length l)
  unfolding push_end
  length-push_end left x l = refl
  length-push_end right x l = omega (arith, length-append l (x ∷ []))

  pub length-push_all :
      (end : ListEnd) (values l : List A)
      → length (push_all end values l) ≡ length values + length l
  unfolding push_all
  length-push_all end [] l = omega arith
  length-push_all end (v ∷ values) l =
      omega (arith, length-push_all end values (push_end end v l), length-push_end end v l)

  -- LPUSH puts the values in front, the last one first.
  pub push_all_left : (values l : List A) → push_all left values l ≡ reverse values ++ l
  unfolding push_all push_end
  push_all_left [] l = refl
  push_all_left (v ∷ values) l =
      push_all_left values (v ∷ l)
      ∙ rw (reverse-cons v values) (sym (append_assoc (reverse values) (v ∷ []) l))

  -- RPUSH puts the values behind, in their order.
  pub push_all_right : (values l : List A) → push_all right values l ≡ l ++ values
  unfolding push_all push_end
  push_all_right [] l = sym (append-nil l)
  push_all_right (v ∷ values) l =
      push_all_right values (l ++ v ∷ []) ∙ append_assoc l (v ∷ []) values

  -- A pop of `n` from the head takes the first `n` elements.
  pub pop_count_left : (n : ℕ) (l : List A) → pop_count left n l ≡ (take n l, drop n l)
  unfolding pop_count pop_end pop_front
  pop_count_left zero l = refl
  pop_count_left (suc n) [] = rw (pop_count_left n []) (nothing n)
    where
      nothing : (n : ℕ) → ◌≡◌ {A = List A × List A} (take n [], drop n []) ([], [])
      nothing zero = refl
      nothing (suc n) = refl
  pop_count_left (suc n) (x ∷ l) = rw (pop_count_left n l) refl

  pop_count-reverse :
      (n : ℕ) (r : List A) → pop_count right n (reverse r) ≡ (take n r, reverse (drop n r))
  unfolding pop_count pop_end
  pop_count-reverse zero r = refl
  pop_count-reverse (suc n) [] = (rw (pop_count-reverse n [], pop_back) (nothing n))
    where
      nothing :
          (n : ℕ) → ◌≡◌ {A = List A × List A} (take n [], reverse (drop n [])) ([], reverse [])
      nothing zero = refl
      nothing (suc n) = refl
  pop_count-reverse (suc n) (x ∷ r) =
      rw (reverse-cons x r, pop_back-append (reverse r) x, pop_count-reverse n r) refl

  -- A pop of `n` from the tail takes the last `n` elements, the last one first.
  pub pop_count_right :
      (n : ℕ) (l : List A)
      → pop_count right n l ≡ (take n (reverse l), reverse (drop n (reverse l)))
  pop_count_right n l =
      ap (pop_count right n) (sym (reverse-reverse l)) ∙ pop_count-reverse n (reverse l)

  pub get_elem?-drop : (n i : ℕ) (l : List A) → get_elem? (drop n l) i ≡ get_elem? l (n + i)
  get_elem?-drop zero i l = ap (get_elem? l) (omega arith)
  get_elem?-drop (suc n) i [] = refl
  get_elem?-drop (suc n) i (x ∷ l) =
      get_elem?-drop n i l
      ∙ (let e : suc (n + i) ≡ suc n + i = omega arith in ap (get_elem? (x ∷ l)) e)

  pub get_elem?-take : (n i : ℕ) (l : List A) → i < n → get_elem? (take n l) i ≡ get_elem? l i
  get_elem?-take zero i l h = absurd (omega arith)
  get_elem?-take (suc n) i [] h = refl
  get_elem?-take (suc n) zero (x ∷ l) h = refl
  get_elem?-take (suc n) (suc i) (x ∷ l) h = get_elem?-take n i l (omega arith)
