-- ===== src/Glob/Total.antt =====
-- The fuel of `glob_match` suffices: every round shrinks what the last star may still take, or the
-- string and the pattern that are left.
use burner_redis.Prelude.{
  ℕ, zero, suc, ◌+◌, ◌*◌, ◌≤◌, ◌<◌, ◌≡◌, refl, Bool, true, false, ◌||◌, Option, none, some, [], ◌∷◌,
  arith, length, is_empty, if◌then◌else◌, ◌==◌,
}
use burner_redis.Value.{Bytes}
use burner_redis.Glob.{
  Round, finish, continue, skip_stars, scan_class, class_verdict, match_class, match_escape,
  backtrack, advance, at_star, in_range, backslash, question, open_bracket, round, glob_loop,
  glob_fuel, glob_run, asterisk,
}

length-skip_stars : (p : Bytes) → length (skip_stars p) ≤ length p
unfolding skip_stars
length-skip_stars [] = omega arith
length-skip_stars (c ∷ p) = ground (arith, length-skip_stars p)

scan_class-le :
    (ch : ℕ) (p : Bytes) (found : Bool) (p' : Bytes)
    → (scan_class ch p found).1 ≡ some p'
    → length p' ≤ length p
unfolding scan_class
scan_class-le ch [] found p' h = cc
scan_class-le ch (c ∷ []) found p' h = ground arith
scan_class-le ch (c ∷ d ∷ []) found p' h =
    ground (arith, scan_class-le ch (d ∷ []) (found || ch == c) p')
scan_class-le ch (c ∷ d ∷ e ∷ p) found p' h = ground (
  arith,
  scan_class-le ch (d ∷ e ∷ p) (found || ch == c) p',
  scan_class-le ch p (found || in_range ch c e) p',
)

class_verdict-le :
    (negated : Bool) (r : Bool × Option Bytes) (p' : Bytes)
    → class_verdict negated r ≡ some p'
    → r.1 ≡ some p'
unfolding class_verdict
class_verdict-le negated (found, none) p' h = cc
class_verdict-le negated (found, some p) p' h = ground arith

match_class-le : (ch : ℕ) (p p' : Bytes) → match_class ch p ≡ some p' → length p' ≤ length p
unfolding match_class
match_class-le ch [] p' h =
    scan_class-le ch [] false p' (class_verdict-le false (scan_class ch [] false) p' h)
match_class-le ch (c ∷ p) p' h = ground (
  arith,
  class_verdict-le true (scan_class ch p false) p',
  class_verdict-le false (scan_class ch (c ∷ p) false) p',
  scan_class-le ch p false p',
  scan_class-le ch (c ∷ p) false p',
)

match_escape-le : (ch : ℕ) (p p' : Bytes) → match_escape ch p ≡ some p' → length p' ≤ length p
unfolding match_escape
match_escape-le ch [] p' h = cc
match_escape-le ch (c ∷ p) p' h = ground arith

abbrev Star : Type 0
Star = Option (Bytes × Bytes)

-- The part of the string that the last star may take, and the pattern behind it.
abbrev credit : ℕ → Star → ℕ
credit n none = n
credit n (some (p, s)) = length s

abbrev behind : Star → ℕ
behind none = 0
behind (some (p, s)) = length p

record IsWithin (n m : ℕ) (p s : Bytes) (star : Star) : Type 0 where
  pattern_le : length p ≤ m
  string_le : length s ≤ credit n star
  credit_le : credit n star ≤ n
  behind_le : behind star ≤ m

abbrev measure : ℕ → ℕ → Bytes → Bytes → Star → ℕ
measure n m p s star = credit n star * (n + m + 2) + length s + length p

-- A round that goes on stays within the bounds and makes the measure smaller.
abbrev Descends : ℕ → ℕ → ℕ → Round → Type 0
Descends n m k (finish r) = Unit
Descends n m k (continue p s star) = IsWithin n m p s star × (measure n m p s star < k)

mul_mono : (a b k : ℕ) → a ≤ b → a * k ≤ b * k
mul_mono a b k h = grind arith

backtrack-Descends :
    (n m k : ℕ) (star : Star)
    → 0 < credit n star
    → credit n star ≤ n
    → behind star ≤ m
    → credit n star * (n + m + 2) ≤ k
    → Descends n m k (backtrack star)
unfolding backtrack
backtrack-Descends n m k none a b c d = tt
backtrack-Descends n m k (some (p, [])) a b c d = absurd (omega arith)
backtrack-Descends n m k (some (p, x ∷ s)) a b c d = (
  record { pattern_le = c; string_le = omega arith; credit_le = omega arith; behind_le = c },
  omega arith,
)

Descends-if :
    (n m k : ℕ) (b : Bool) (r r' : Round)
    → Descends n m k r
    → Descends n m k r'
    → Descends n m k (if b then r else r')
Descends-if n m k true r r' d d' = d
Descends-if n m k false r r' d d' = d'

module _ (n m ch : ℕ) (s : Bytes) (star : Star) where
  advance-Descends :
      (k c : ℕ) (p : Bytes) (o : Option Bytes)
      → IsWithin n m (c ∷ p) (ch ∷ s) star
      → measure n m p (ch ∷ s) star ≤ k
      → ((p' : Bytes) → o ≡ some p' → length p' ≤ length p)
      → Descends n m k (advance s star o)
  advance-Descends k c p none w le h =
      backtrack-Descends n m k star (omega arith) w.credit_le w.behind_le (omega arith)
  advance-Descends k c p (some p') w le h = (
    record {
      pattern_le = omega (arith, h p' refl);
      string_le = omega arith;
      credit_le = w.credit_le;
      behind_le = w.behind_le;
    },
    omega (arith, h p' refl),
  )

  at_star-Descends :
      (k c : ℕ) (p q : Bytes)
      → IsWithin n m (c ∷ p) (ch ∷ s) star
      → measure n m p (ch ∷ s) star < k
      → length q ≤ length p
      → Descends n m k (at_star q (ch ∷ s))
  at_star-Descends k c p [] w lt le = tt
  at_star-Descends k c p (d ∷ q) w lt le = (
    record {
      pattern_le = omega arith;
      string_le = omega arith;
      credit_le = omega arith;
      behind_le = omega arith;
    },
    omega (arith, mul_mono (suc (length s)) (credit n star) (n + m + 2) w.string_le),
  )

  round-Descends :
      (p : Bytes)
      → IsWithin n m p (ch ∷ s) star
      → Descends n m (measure n m p (ch ∷ s) star) (round p ch s star)
  unfolding round
  round-Descends [] w =
      backtrack-Descends n m (measure n m [] (ch ∷ s) star) star (omega arith) w.credit_le
        w.behind_le (omega arith)
  round-Descends (c ∷ p) w =
      Descends-if n m k (c == backslash) (advance s star (match_escape ch p)) _
        (advance-Descends k c p (match_escape ch p) w (omega arith) (match_escape-le ch p))
        (Descends-if n m k (c == asterisk) (at_star (skip_stars p) (ch ∷ s)) _
          (at_star-Descends k c p (skip_stars p) w (omega arith) (length-skip_stars p))
          (Descends-if n m k (c == question) (continue p s star) _ one (
            Descends-if n m k (c == open_bracket) (advance s star (match_class ch p)) _
              (advance-Descends k c p (match_class ch p) w (omega arith) (match_class-le ch p))
              (Descends-if n m k (c == ch) (continue p s star) (backtrack star) one (
                backtrack-Descends n m k star (omega arith) w.credit_le w.behind_le
                  (omega arith))))))
    where
      k : ℕ
      k = measure n m (c ∷ p) (ch ∷ s) star

      one : Descends n m k (continue p s star)
      one = (
        record {
          pattern_le = omega arith;
          string_le = omega arith;
          credit_le = w.credit_le;
          behind_le = w.behind_le;
        },
        omega arith,
      )

-- With fuel above the measure the loop returns.
glob_loop_total :
    (n m fuel : ℕ) (p s : Bytes) (star : Star)
    → IsWithin n m p s star
    → measure n m p s star < fuel
    → (r : Bool) × (glob_loop fuel p s star ≡ some r)
unfolding glob_loop
glob_loop_total n m zero p s star w lt = absurd (omega arith)
glob_loop_total n m (suc fuel) p [] star w lt = (is_empty (skip_stars p), refl)
glob_loop_total n m (suc fuel) p (ch ∷ s) star w lt =
    next (glob_loop_total n m fuel) (round p ch s star) refl (round-Descends n m ch s star p w)
  where
    next :
        ((p' s' : Bytes) (star' : Star)
          → IsWithin n m p' s' star'
          → measure n m p' s' star' < fuel
          → (b : Bool) × (glob_loop fuel p' s' star' ≡ some b))
        → (r : Round) → round p ch s star ≡ r
        → Descends n m (measure n m p (ch ∷ s) star) r
        → (b : Bool) × (glob_loop (suc fuel) p (ch ∷ s) star ≡ some b)
    next ih (finish r) e d = (r, ground arith)
    next ih (continue p' s' star') e d =
        let (b, returned) = ih p' s' star' d.0 (omega arith) in (b, ground arith)

-- `glob_match` returns on every pattern and string.
pub glob_run_total : (pattern string : Bytes) → (r : Bool) × (glob_run pattern string ≡ some r)
unfolding glob_run glob_fuel
glob_run_total pattern string =
    glob_loop_total (length string) (length pattern) (glob_fuel (length string) (length pattern))
      pattern string none
      (record {
        pattern_le = omega arith;
        string_le = omega arith;
        credit_le = omega arith;
        behind_le = omega arith;
      })
      (omega arith)
