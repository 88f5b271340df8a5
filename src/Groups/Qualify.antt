-- ===== src/Groups/Qualify.antt =====
-- What XAUTOCLAIM is to process is pending with the consumer that it names.
use burner_redis.Prelude.{
  ℕ, ◌≡◌, refl, ap, Bool, true, ◌&&◌, Option, none, some, List, [], ◌∷◌, arith, if_pos, if_neg,
  keep_if, leb, every, every_mono, every-append, every-take, every-keep_if, every-map,
}
use burner_redis.Prelude.Key.{bytes_key, stream_id_key, bytes_discrete}
use burner_redis.Map
use burner_redis.Map.Laws.{Distinct}
use burner_redis.Value.{Bytes, Instant, Duration, StreamId, Consumer}
use burner_redis.Streams.Id.{id_leb}
use burner_redis.Groups.Pending.{Pel, Consumers, sort_by_id, insert_by_id, idle_of}
use burner_redis.Groups.Claim.{Qualified, qualified_of, qualifying, to_process}
use burner_redis.Groups.Holders.{has, has-cons, has_absent}

-- Sorting keeps what holds of each element.
module _ {A : Type 0} (id_of : A → StreamId) (p : A → Bool) where
  every-insert_by_id :
      (x : A) (l : List A) → p x ≡ true → every p l ≡ true → every p (insert_by_id id_of x l) ≡ true
  every-insert_by_id x [] h k = ground arith
  every-insert_by_id x (y ∷ l) h k = ground (arith, every-insert_by_id x l)

  pub every-sort_by_id : (l : List A) → every p l ≡ true → every p (sort_by_id id_of l) ≡ true
  unfolding sort_by_id
  every-sort_by_id [] h = refl
  every-sort_by_id (x ∷ l) h =
      every-insert_by_id x (sort_by_id id_of l) (ground arith) (every-sort_by_id l (ground arith))

keys_contained : (pel : Pel) → every (λ e. Map.contains_key e.0 pel) pel ≡ true
unfolding Map.contains_key
keys_contained [] = refl
keys_contained ((i, pe) ∷ l) =
    let rest =
      every_mono (λ e. Map.contains_key e.0 l) (λ e. Map.contains_key e.0 ((i, pe) ∷ l)) l
        (λ x p. ground arith) (keys_contained l) in
    ground (arith, rest)

-- A consumer in front hides no other.
pub has_behind :
    (id : StreamId) (n name : Bytes) (c : Consumer) (l : Consumers)
    → Map.get name l ≡ none
    → has id n l ≡ true
    → has id n ((name, c) ∷ l) ≡ true
has_behind id n name c l absent h = rw (has-cons id n name c l) (elim (bytes_discrete name n) [
  | yes p ↦ absurd (ground (arith, has_absent id name l absent, ap (λ b. has id b l) p))
  | no p ↦ rw (if_neg _ p) h
])

-- The named consumer of each has it pending.
abbrev pub is_pending : Consumers → Qualified → Bool
is_pending l q = has q.0 q.2 l

qualifying_pending :
    (now : Instant) (min_idle : Duration) (start : StreamId) (l : Consumers)
    → Distinct l
    → every (is_pending l) (qualifying now min_idle start l) ≡ true
qualifying_pending now min_idle start [] d = refl
qualifying_pending now min_idle start ((name, c) ∷ l) d =
    every-append (is_pending ((name, c) ∷ l)) (qualified_of now min_idle start name c.pending)
      (qualifying now min_idle start l)
      (every-map (is_pending ((name, c) ∷ l)) (λ e. (e.0, e.1.delivery_count, name))
        (keep_if (λ e. id_leb start e.0 && leb min_idle (idle_of now e.1)) c.pending)
        (every-keep_if (λ e. has e.0 name ((name, c) ∷ l))
          (λ e. id_leb start e.0 && leb min_idle (idle_of now e.1)) c.pending
          (every_mono (λ e. Map.contains_key e.0 c.pending) (λ e. has e.0 name ((name, c) ∷ l))
            c.pending (λ e h. rw (has-cons e.0 name name c l, if_pos _ refl) h)
            (keys_contained c.pending))))
      (every_mono (is_pending l) (is_pending ((name, c) ∷ l)) (qualifying now min_idle start l)
        (λ q h. has_behind q.0 q.2 name c l d.0 h) (qualifying_pending now min_idle start l d.1))

every-to_process :
    (p : Qualified → Bool) (count : Option ℕ) (l : List Qualified)
    → every p l ≡ true
    → every p (to_process count l) ≡ true
every-to_process p none l h = h
every-to_process p (some n) l h = ground (arith, every-take p n l)

pub processed_pending :
    (now : Instant) (min_idle : Duration) (start : StreamId) (count : Option ℕ) (l : Consumers)
    → Distinct l
    → every
        (is_pending l)
        (to_process count (sort_by_id (λ q. q.0) (qualifying now min_idle start l)))
      ≡ true
processed_pending now min_idle start count l d =
    let found = qualifying now min_idle start l in
    every-to_process (is_pending l) count (sort_by_id (λ q. q.0) found)
      (every-sort_by_id (λ q. q.0) (is_pending l) found (qualifying_pending now min_idle start l d))
