-- ===== src/Decimal.antt =====
-- The decimal text of an `i64`: `to_string` and `parse::<i64>` of the standard library, on bytes.
use burner_redis.Prelude.{
  ap, ◌∙◌, ℕ, zero, suc, ◌+◌, ◌-◌, ◌*◌, ◌/◌, ◌%◌, ◌≡◌, refl, ◌<◌, arith, true, false, ◌&&◌, Option,
  every, Bool, none, some, [], ◌∷◌, ◌==◌, leb, ltb, if◌then◌else◌, Bool-cases, inl, inr,
}
use burner_redis.Prelude.Int.{ℤ, pos, negsuc, in_i64}
use burner_redis.Value.{Bytes}

abbrev pub digit_zero : ℕ
digit_zero = b'0'

abbrev pub minus : ℕ
minus = b'-'

abbrev pub plus : ℕ
plus = b'+'

unfoldable digits : ℕ → ℕ → Bytes → Bytes
digits zero n out = out
digits (suc fuel) n out = elim (ltb n 10) [
  | true ↦ (digit_zero + n) ∷ out
  | false ↦ digits fuel (n / 10) ((digit_zero + n % 10) ∷ out)
]

unfoldable pub print_nat : ℕ → Bytes
unfolding digits
print_nat n = digits (suc n) n []

unfoldable pub to_string : ℤ → Bytes
unfolding print_nat
to_string (pos n) = print_nat n
to_string (negsuc n) = minus ∷ print_nat (suc n)

unfoldable pub scan_digits : ℕ → Bytes → Option ℕ
scan_digits n [] = some n
scan_digits n (c ∷ s) =
    let rest = scan_digits (n * 10 + (c - digit_zero)) s in
    if leb digit_zero c && leb c b'9' then rest else none

abbrev positive : Option ℕ → Option ℤ
positive none = none
positive (some n) = if in_i64 (pos n) then some (pos n) else none

abbrev negated : ℕ → ℤ
negated zero = pos 0
negated (suc n) = negsuc n

abbrev negative : Option ℕ → Option ℤ
negative none = none
negative (some n) = if in_i64 (negated n) then some (negated n) else none

-- An optional sign and at least one digit, with a value in range.
unfoldable pub parse_i64 : Bytes → Option ℤ
unfolding scan_digits
parse_i64 [] = none
parse_i64 (c ∷ []) = positive (scan_digits 0 (c ∷ []))
parse_i64 (c ∷ d ∷ s) =
    if c == minus
    then negative (scan_digits 0 (d ∷ s))
    else if c == plus
    then positive (scan_digits 0 (d ∷ s))
    else positive (scan_digits 0 (c ∷ d ∷ s))

scan_digits-digits :
    (fuel n : ℕ) (out : Bytes) → n < fuel → scan_digits 0 (digits fuel n out) ≡ scan_digits n out
unfolding scan_digits digits
scan_digits-digits zero n out h = absurd (omega arith)
scan_digits-digits (suc fuel) n out h = elim (Bool-cases (ltb n 10)) [
  | inl small ↦ ground arith
  | inr large ↦ ground (arith, scan_digits-digits fuel (n / 10) ((digit_zero + n % 10) ∷ out))
]

digits_shape :
    (fuel n : ℕ) (out : Bytes)
    → n < fuel
    → (c : ℕ) × (s : Bytes) × (digits fuel n out ≡ c ∷ s)
      × (digit_zero < c + 1)
      × (c < digit_zero + 10)
unfolding digits
digits_shape zero n out h = absurd (omega arith)
digits_shape (suc fuel) n out h = elim (Bool-cases (ltb n 10)) [
  | inl small ↦ (digit_zero + n, out, rw (small, digits) refl, omega arith, ground arith)
  | inr large ↦
      let (c, s, e, lo, hi) =
        digits_shape fuel (n / 10) ((digit_zero + n % 10) ∷ out) (ground arith) in
      (c, s, rw (large, digits) e, lo, hi)
]

parse_positive :
    (c : ℕ) (s : Bytes) → digit_zero < c + 1 → parse_i64 (c ∷ s) ≡ positive (scan_digits 0 (c ∷ s))
unfolding parse_i64
parse_positive c [] h = refl
parse_positive c (d ∷ s) h = ground arith

parse_of_shape :
    (n c : ℕ) (s out : Bytes)
    → out ≡ c ∷ s
    → digit_zero < c + 1
    → scan_digits 0 out ≡ some n
    → (parse_i64 out ≡ positive (some n)) × (parse_i64 (minus ∷ out) ≡ negative (some n))
unfolding parse_i64
parse_of_shape n c s out e lo value =
    let value' : scan_digits 0 (c ∷ s) ≡ some n = rw e at value in
    (rw e (parse_positive c s lo ∙ ap positive value'), rw e (ap negative value'))

parse-print_nat :
    (n : ℕ)
    → (parse_i64 (print_nat n) ≡ positive (some n))
      × (parse_i64 (minus ∷ print_nat n) ≡ negative (some n))
unfolding print_nat
parse-print_nat n =
    let (c, s, e, lo, hi) = digits_shape (suc n) n [] (omega arith) in
    parse_of_shape n c s (digits (suc n) n []) e lo
      (scan_digits-digits (suc n) n [] (omega arith) ∙ (unfold scan_digits in refl))

-- An integer in the range of an `i64` is read back from its text.
pub parse_i64-to_string : (z : ℤ) → in_i64 z ≡ true → parse_i64 (to_string z) ≡ some z
unfolding to_string
parse_i64-to_string (pos n) h = (parse-print_nat n).0 ∙ (rw h)
parse_i64-to_string (negsuc n) h = (parse-print_nat (suc n)).1 ∙ (rw h)

-- The text of a natural number: digits, of which there is one at least, with its value.
abbrev pub is_digit : ℕ → Bool
is_digit c = leb digit_zero c && ltb c (digit_zero + 10)

digits-is_digit :
    (fuel n : ℕ) (out : Bytes)
    → n < fuel
    → every is_digit out ≡ true
    → every is_digit (digits fuel n out) ≡ true
unfolding digits
digits-is_digit zero n out h rest = absurd (omega arith)
digits-is_digit (suc fuel) n out h rest = elim (Bool-cases (ltb n 10)) [
  | inl small ↦ ground arith
  | inr large ↦
      rw (large, digits)
        (digits-is_digit fuel (n / 10) ((digit_zero + n % 10) ∷ out) (ground arith) (ground arith))
]

pub print_nat_lem :
    (n : ℕ)
    → (c : ℕ) × (s : Bytes) × (print_nat n ≡ c ∷ s)
      × (digit_zero < c + 1)
      × (every is_digit (print_nat n) ≡ true)
      × (scan_digits 0 (print_nat n) ≡ some n)
unfolding print_nat
print_nat_lem n =
    let (c, s, e, lo, hi) = digits_shape (suc n) n [] (omega arith) in
    (
      c,
      s,
      e,
      lo,
      digits-is_digit (suc n) n [] (omega arith) refl,
      scan_digits-digits (suc n) n [] (omega arith) ∙ (unfold scan_digits in refl),
    )
