-- ===== src/PubSub/Publish.antt =====
-- What PUBLISH counts and sends.
use burner_redis.Prelude.{
  ℕ, ◌+◌, ◌≡◌, refl, ap, ◌∙◌, subst, Bool, true, false, ◌&&◌, ◌==◌, none, some, List, [], ◌∷◌, ◌++◌,
  arith, ltb, keep_if, Option, if◌then◌else◌, is_empty,
}
use burner_redis.Prelude.Key.{bytes_key, nat_key, bytes_discrete, same}
use burner_redis.Map
use burner_redis.Map.{Map}
use burner_redis.Map.Laws.{is_some, Distinct}
use burner_redis.Value.{Bytes, HashSet}
use burner_redis.Glob.{glob_match}
use burner_redis.PubSub.{
  PubSubMessage, message, pmessage, PubSubRegistry, Pair, match_loop, publish, exact_message,
}
use burner_redis.PubSub.Index.{Full, set_len}
use burner_redis.PubSub.Pairs.{Sound}

-- The messages for the listeners of a pattern, or of the channel itself.
abbrev pub is_for : Option Bytes → Option Bytes → Bool
is_for none none = true
is_for (some p) (some q) = same p q
is_for _ _ = false

abbrev pub sent_for : Option Bytes → List PubSubMessage → List PubSubMessage
sent_for name = keep_if (λ x. is_for x.pattern name)

Full-tail :
    (k : Bytes) (s : HashSet ℕ) (rest : Map Bytes (HashSet ℕ)) → Full ((k, s) ∷ rest) → Full rest
unfolding Map.get
Full-tail k s rest full = (λ j r h. ground (arith, full.0 j r, full.1.0), full.1.1)

nonempty_len : (s : HashSet ℕ) → is_empty s ≡ false → (Map.len s == 0) ≡ false
nonempty_len [] h = ground arith
nonempty_len (x ∷ s) h = ground arith

module _ (channel payload : Bytes) where
  match_loop_silent :
      (subscribers : Map Bytes (HashSet ℕ))
      → Full subscribers
      → (match_loop channel payload subscribers).0 == 0
        ≡ is_empty (match_loop channel payload subscribers).1
  unfolding match_loop Map.get
  match_loop_silent [] full = refl
  match_loop_silent ((k, s) ∷ rest) full = ground (
    arith,
    match_loop_silent rest (Full-tail k s rest full),
    nonempty_len s (full.0 k s (ground arith)),
  )

  absent_pattern :
      (subscribers : Map Bytes (HashSet ℕ)) (q : Bytes)
      → Map.get q subscribers ≡ none
      → sent_for (some q) (match_loop channel payload subscribers).1 ≡ []
  unfolding match_loop Map.get
  absent_pattern [] q h = refl
  absent_pattern ((k, s) ∷ rest) q h = ground (arith, absent_pattern rest q)

  match_loop_patterns :
      (subscribers : Map Bytes (HashSet ℕ)) (q : Bytes)
      → Distinct subscribers
      → sent_for (some q) (match_loop channel payload subscribers).1 ≡ (
          if is_some (Map.get q subscribers) && glob_match q channel
          then record { kind = pmessage; pattern = some q; channel = channel; payload = payload }
            ∷ []
          else [])
  unfolding match_loop Map.get
  match_loop_patterns [] q d = refl
  match_loop_patterns ((k, s) ∷ rest) q d = elim (bytes_discrete k q) [
    | yes p ↦
        subst
          (λ (x : Bytes). sent_for (some x) (match_loop channel payload ((k, s) ∷ rest)).1 ≡ (
            if is_some (Map.get x ((k, s) ∷ rest)) && glob_match x channel
            then record { kind = pmessage; pattern = some x; channel = channel; payload = payload }
              ∷ []
            else []))
          p (ground (arith, absent_pattern rest k d.0))
    | no p ↦ ground (arith, match_loop_patterns rest q, d.1)
  ]

  match_loop_exact :
      (subscribers : Map Bytes (HashSet ℕ))
      → sent_for none (match_loop channel payload subscribers).1 ≡ []
  unfolding match_loop
  match_loop_exact [] = refl
  match_loop_exact ((k, s) ∷ rest) = ground (arith, match_loop_exact rest)

sent_for-append :
    (name : Option Bytes) (l r : List PubSubMessage)
    → sent_for name (l ++ r) ≡ sent_for name l ++ sent_for name r
sent_for-append name [] r = refl
sent_for-append name (x ∷ l) r = ground (arith, sent_for-append name l r)

-- How many subscribers the messages reach, those of the channel or of the pattern of each.
abbrev pub listeners_of : Pair → Pair → PubSubMessage → ℕ
listeners_of channels patterns x = elim x.pattern [
  | none ↦ set_len (Map.get x.channel channels.0)
  | some q ↦ set_len (Map.get q patterns.0)
]

abbrev pub reached : Pair → Pair → List PubSubMessage → ℕ
reached channels patterns [] = 0
reached channels patterns (x ∷ l) = listeners_of channels patterns x + reached channels patterns l

reached-append :
    (channels patterns : Pair) (l r : List PubSubMessage)
    → reached channels patterns (l ++ r) ≡ reached channels patterns l + reached channels patterns r
reached-append channels patterns [] r = omega arith
reached-append channels patterns (x ∷ l) r = omega (arith, reached-append channels patterns l r)

-- The count of the loop, over a part of the map of patterns.
reached-match_loop :
    (channel payload : Bytes) (channels patterns : Pair) (part : Map Bytes (HashSet ℕ))
    → ((q : Bytes) (s : HashSet ℕ) → Map.get q part ≡ some s → Map.get q patterns.0 ≡ some s)
    → Distinct part
    → reached channels patterns (match_loop channel payload part).1
      ≡ (match_loop channel payload part).0
unfolding match_loop Map.get
reached-match_loop channel payload channels patterns [] within d = refl
reached-match_loop channel payload channels patterns ((k, s) ∷ rest) within d =
    let here : Map.get k patterns.0 ≡ some s = within k s (ground arith) in
    let others =
      reached-match_loop channel payload channels patterns rest
        (λ q r h. within q r (ground (arith, h, d.0, ap (λ (j : Bytes). Map.get j rest)))) d.1 in
    ground (arith, here, others)

-- PUBLISH on a registry whose maps of patterns are inverse to each other: the answer is
-- the number of subscribers that its messages reach, and zero exactly if it sends none; for the listeners of the channel it sends exactly one message, with the channel
-- and the payload and without a pattern, if there is a listener, and else none; and for those of a
-- pattern exactly one, with the pattern, the channel and the payload, if the pattern has a listener and
-- matches the channel, and else none. Nothing else in the registry changes.
pub publish_lem :
    (channel payload q : Bytes) (r : PubSubRegistry)
    → Sound r.patterns
    → (messages : List PubSubMessage) × ((publish channel payload r).1
        ≡ record r { sent = r.sent ++ messages })
      × ((publish channel payload r).0 ≡ reached r.channels r.patterns messages)
      × (((publish channel payload r).0 == 0) ≡ is_empty messages)
      × (sent_for none messages ≡ (
          if ltb 0 (set_len (Map.get channel r.channels.0))
          then record { kind = message; pattern = none; channel = channel; payload = payload } ∷ []
          else []))
      × (sent_for (some q) messages ≡ (
          if is_some (Map.get q r.patterns.0) && glob_match q channel
          then record { kind = pmessage; pattern = some q; channel = channel; payload = payload }
            ∷ []
          else []))
unfolding publish
publish_lem channel payload q r sound =
    let matched = (match_loop channel payload r.patterns.0).1 in
    let n = set_len (Map.get channel r.channels.0) in
    let exact = exact_message channel payload n in
    (
      matched ++ exact,
      refl,
      omega (
        arith,
        reached-append r.channels r.patterns matched exact,
        reached-match_loop channel payload r.channels r.patterns r.patterns.0 (λ q s h. h)
            sound.1.1,
        exact_reached n refl,
      ),
      ground (
        arith,
        match_loop_silent channel payload r.patterns.0 sound.1,
        empty_append matched exact,
      ),
      sent_for-append none matched exact
          ∙ rw (match_loop_exact channel payload r.patterns.0) (exact_none n),
      sent_for-append (some q) matched exact
          ∙ rw (match_loop_patterns channel payload r.patterns.0 q sound.1.1) (exact_some n _),
    )
  where
    exact_reached :
        (n : ℕ)
        → set_len (Map.get channel r.channels.0) ≡ n
        → reached r.channels r.patterns (exact_message channel payload n) ≡ n
    exact_reached n h = ground arith

    exact_none :
        (n : ℕ)
        → sent_for none (exact_message channel payload n) ≡ (
            if ltb 0 n
            then record { kind = message; pattern = none; channel = channel; payload = payload }
              ∷ []
            else [])
    exact_none n = ground arith

    exact_some :
        (n : ℕ) (l : List PubSubMessage)
        → l ++ sent_for (some q) (exact_message channel payload n) ≡ l
    exact_some n [] = ground arith
    exact_some n (x ∷ l) = ap (λ (t : List PubSubMessage). x ∷ t) (exact_some n l)

    empty_append : (l e : List PubSubMessage) → is_empty (l ++ e) ≡ (is_empty l && is_empty e)
    empty_append [] e = refl
    empty_append (x ∷ l) e = refl
