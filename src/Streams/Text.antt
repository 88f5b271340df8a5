-- ===== src/Streams/Text.antt =====
-- The text of a stream identifier: `format_stream_id` and `parse_stream_id` of src/commands/streams.rs.
use burner_redis.Prelude.{
  ℕ, ◌+◌, ◌^◌, ◌≡◌, ◌<◌, refl, ap, ◌∙◌, Option, none, some, [], ◌∷◌, ◌++◌, ◌==◌, ltb, true, false,
  arith, if◌then◌else◌, every,
}
use burner_redis.Value.{Bytes, StreamId}
use burner_redis.Decimal.{print_nat, scan_digits, minus, plus, digit_zero, is_digit, print_nat_lem}

unfoldable pub format_stream_id : StreamId → Bytes
unfolding print_nat
format_stream_id (ms, seq) = print_nat ms ++ minus ∷ print_nat seq

abbrev pub in_u64 : Option ℕ → Option ℕ
in_u64 none = none
in_u64 (some n) = if ltb n (2 ^ 64) then some n else none

-- `parse::<u64>`: an optional plus and at least one digit, with a value in range.
unfoldable pub parse_u64 : Bytes → Option ℕ
unfolding scan_digits
parse_u64 [] = none
parse_u64 (c ∷ []) = in_u64 (scan_digits 0 (c ∷ []))
parse_u64 (c ∷ d ∷ s) =
    if c == plus then in_u64 (scan_digits 0 (d ∷ s)) else in_u64 (scan_digits 0 (c ∷ d ∷ s))

abbrev pub before_too : ℕ → Option (Bytes × Bytes) → Option (Bytes × Bytes)
before_too c none = none
before_too c (some (s, t)) = some (c ∷ s, t)

-- `splitn(2, '-')`: the parts around the first dash, where there is one.
unfoldable pub split_dash : Bytes → Option (Bytes × Bytes)
split_dash [] = none
split_dash (c ∷ s) =
    let rest = split_dash s in if c == minus then some ([], s) else before_too c rest

abbrev pub both : Option ℕ → Option ℕ → Option StreamId
both (some ms) (some seq) = some (ms, seq)
both _ _ = none

unfoldable pub parse_parts : Option (Bytes × Bytes) → Option StreamId
unfolding parse_u64
parse_parts none = none
parse_parts (some (s, t)) = both (parse_u64 s) (parse_u64 t)

unfoldable pub parse_stream_id : Bytes → Option StreamId
unfolding split_dash parse_parts
parse_stream_id s = parse_parts (split_dash s)

split_dash-digits :
    (s t : Bytes) → every is_digit s ≡ true → split_dash (s ++ minus ∷ t) ≡ some (s, t)
unfolding split_dash
split_dash-digits [] t h = refl
split_dash-digits (c ∷ s) t h = ground (arith, split_dash-digits s t)

parse_u64-digits :
    (n c : ℕ) (s : Bytes)
    → digit_zero < c + 1
    → scan_digits 0 (c ∷ s) ≡ some n
    → n < 2 ^ 64
    → parse_u64 (c ∷ s) ≡ some n
unfolding parse_u64
parse_u64-digits n c [] lo value small = ap in_u64 value ∙ ground arith
parse_u64-digits n c (d ∷ s) lo value small =
    let not_plus : (c == plus) ≡ false = ground arith in
    rw not_plus (ap in_u64 value ∙ ground arith)

parse_u64-print_nat : (n : ℕ) → n < 2 ^ 64 → parse_u64 (print_nat n) ≡ some n
parse_u64-print_nat n small =
    let (c, s, e, lo, _, value) = print_nat_lem n in
    let value' : scan_digits 0 (c ∷ s) ≡ some n = rw e at value in
    rw e (parse_u64-digits n c s lo value' small)

-- A stream identifier of 64-bit numbers is read back from its text.
pub parse_stream_id-format_stream_id :
    (id : StreamId)
    → id.0 < 2 ^ 64
    → id.1 < 2 ^ 64
    → parse_stream_id (format_stream_id id) ≡ some id
unfolding parse_stream_id format_stream_id parse_parts
parse_stream_id-format_stream_id (ms, seq) h k =
    let (_, _, _, _, digits, _) = print_nat_lem ms in
    ap parse_parts (split_dash-digits (print_nat ms) (print_nat seq) digits)
    ∙ rw (parse_u64-print_nat ms h, parse_u64-print_nat seq k) refl
