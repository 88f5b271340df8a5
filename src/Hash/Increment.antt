-- ===== src/Hash/Increment.antt =====
-- HINCRBY: the integer that it stores, and what reads it back.
use burner_redis.Prelude.{
  ◌≡◌, refl, ap, sym, ◌∙◌, true, Option, none, some, arith, ite, if_pos, if◌then◌else◌,
}
use burner_redis.Prelude.Int.{ℤ, pos, in_i64, ◌+ℤ◌}
use burner_redis.Prelude.Key.{bytes_key, bytes_discrete}
use burner_redis.Map
use burner_redis.Map.Laws.{get-insert}
use burner_redis.Value.{Bytes, Instant, new_hash, Result, ok, err, syntax}
use burner_redis.Store.{Data}
use burner_redis.Store.View.{live, upsert_lem}
use burner_redis.Store.Effects.{upsert_seen}
use burner_redis.Decimal.{to_string, parse_i64-to_string}
use burner_redis.Hash.{
  FieldMap, on_hash_mut, hash_integer, checked_add, hincrby_value, hincrby_field, hincrby, hget,
}
use burner_redis.Hash.Commands.{hash_view, hget_lem}

checked_add_range : (n z : ℤ) (r : Result ℤ) → checked_add n r ≡ ok z → in_i64 z ≡ true
unfolding checked_add
checked_add_range n z (err e) h = ground arith
checked_add_range n z (ok c) h = ground arith

-- The text that HINCRBY stores counts as the integer that it stands for.
pub hash_integer-to_string : (z : ℤ) → in_i64 z ≡ true → hash_integer (some (to_string z)) ≡ ok z
unfolding hash_integer
hash_integer-to_string z h =
    rw (parse_i64-to_string z h, hash_integer)
      (if_pos (bytes_discrete (to_string z) (to_string z)) refl _ _)

hincrby_answer :
    (now : Instant) (key field : Bytes) (m : Data) (h : FieldMap)
    → hash_view (live now key m) ≡ some h
    → (n : ℤ) → (hincrby now key field n m).0 ≡ hincrby_value (Map.get field h) n
unfolding hincrby Map.get
hincrby_answer now key field m h view n = rw upsert_lem (ground arith)

hincrby_value_range : (o : Option Bytes) (n z : ℤ) → hincrby_value o n ≡ ok z → in_i64 z ≡ true
unfolding hincrby_value
hincrby_value_range o n z h = checked_add_range n z (hash_integer o) h

hincrby_value_again :
    (z b : ℤ)
    → in_i64 z ≡ true
    → hincrby_value (some (to_string z)) b ≡ (
        if in_i64 (z +ℤ b)
        then ok (z +ℤ b)
        else err (syntax "ERR increment or decrement would overflow"))
unfolding hincrby_value checked_add
hincrby_value_again z b h = rw (hash_integer-to_string z h) refl

module _ (now : Instant) (key field : Bytes) (m : Data) (h : FieldMap)
    (view : hash_view (live now key m) ≡ some h) where
  hincrby_seen :
      (n z : ℤ)
      → hincrby_value (Map.get field h) n ≡ ok z
      → hash_view (live now key (hincrby now key field n m).1)
        ≡ some (Map.insert field (to_string z) h)
  unfolding hincrby Map.get Map.insert
  hincrby_seen n z e =
      rw (upsert_seen now key new_hash (on_hash_mut (hincrby_field field n)) m refl) (ground arith)

  -- A field that is absent counts from zero.
  pub hincrby_absent :
      (n : ℤ) → Map.get field h ≡ none → in_i64 n ≡ true → (hincrby now key field n m).0 ≡ ok n
  unfolding hincrby_value hash_integer checked_add
  hincrby_absent n e r = hincrby_answer now key field m h view n ∙ (rw e (zero_add n r))
    where
      zero_add : (n : ℤ) → in_i64 n ≡ true → checked_add n (ok (pos 0)) ≡ ok n
      zero_add n r = ground arith

  -- HINCRBY on a hash or a missing key: after it has answered `z`, which is then an `i64`, HGET
  -- answers the text of `z` for the field and what was there for every other field, and a second
  -- HINCRBY counts from `z` or refuses to leave the range.
  pub hincrby_lem :
      (n z : ℤ)
      → (hincrby now key field n m).0 ≡ ok z
      → (in_i64 z ≡ true)
        × ((g : Bytes)
            → (hget now key g (hincrby now key field n m).1).0
              ≡ ok (ite (bytes_discrete field g) (some (to_string z)) (Map.get g h)))
        × ((b : ℤ)
            → (hincrby now key field b (hincrby now key field n m).1).0 ≡ (
                if in_i64 (z +ℤ b)
                then ok (z +ℤ b)
                else err (syntax "ERR increment or decrement would overflow")))
  hincrby_lem n z done =
      let value = sym (hincrby_answer now key field m h view n) ∙ done in
      let seen = hincrby_seen n z value in
      let range = hincrby_value_range (Map.get field h) n z value in
      let h' = Map.insert field (to_string z) h in
      let m' = (hincrby now key field n m).1 in
      let stored : Map.get field h' ≡ some (to_string z) =
        get-insert field field (to_string z) h ∙ if_pos (bytes_discrete field field) refl _ _ in
      (
        range,
        λ g.
            (hget_lem now now key key g m' h' seen (omega arith)).0
            ∙ ap ok (get-insert field g (to_string z) h),
        λ b.
            hincrby_answer now key field m' h' seen b ∙ (rw stored (hincrby_value_again z b range)),
      )
