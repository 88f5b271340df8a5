-- ===== src/Glob.antt =====
-- `glob_match` of src/commands/pubsub.rs. A position in the pattern or in the string is the part of
-- it from there on, so `pi < pattern.len() && pattern[pi] == c` is a match on that part.
pub mod Total
use burner_redis.Prelude.{
  ℕ, zero, suc, ◌+◌, ◌*◌, Bool, true, false, ◌&&◌, ◌||◌, not, Option, none, some, List, [], ◌∷◌,
  ◌==◌, leb, length, is_empty, if◌then◌else◌,
}
use burner_redis.Value.{Bytes}

abbrev pub backslash : ℕ
backslash = 0x5c

abbrev pub asterisk : ℕ
asterisk = b'*'

abbrev pub question : ℕ
question = b'?'

abbrev pub open_bracket : ℕ
open_bracket = b'['

abbrev pub close_bracket : ℕ
close_bracket = b']'

abbrev pub hyphen : ℕ
hyphen = b'-'

-- `while pi < pattern.len() && pattern[pi] == b'*'`
unfoldable pub skip_stars : Bytes → Bytes
skip_stars [] = []
skip_stars (c ∷ p) = let rest = skip_stars p in if c == asterisk then rest else c ∷ p

-- Is this `c-e` a range, and does the byte lie in it?
abbrev pub in_range : ℕ → ℕ → ℕ → Bool
in_range ch c e = leb c e && leb c ch && leb ch e

-- The loop over a character class: whether a member was found, and the pattern behind the `]`, if
-- the class has one.
unfoldable pub scan_class : ℕ → Bytes → Bool → Bool × Option Bytes
scan_class ch [] found = (found, none)
scan_class ch (c ∷ []) found =
    if c == close_bracket then (found, some []) else (found || ch == c, none)
scan_class ch (c ∷ d ∷ []) found =
    let rest = scan_class ch (d ∷ []) (found || ch == c) in
    if c == close_bracket then (found, some (d ∷ [])) else rest
scan_class ch (c ∷ d ∷ e ∷ p) found =
    let rest = scan_class ch (d ∷ e ∷ p) (found || ch == c) in
    let behind = scan_class ch p (found || in_range ch c e) in
    if c == close_bracket
    then (found, some (d ∷ e ∷ p))
    else if d == hyphen && not (e == close_bracket)
    then behind
    else rest

-- `pattern[pi] == b'^' || pattern[pi] == b'!'`
unfoldable pub skip_negation : Bytes → Bool × Bytes
skip_negation [] = (false, [])
skip_negation (c ∷ p) = if c == b'^' || c == b'!' then (true, p) else (false, c ∷ p)

-- One round of the loop: it returns, or it goes on at a new position with a new place to come back
-- to, the pattern behind the last star and the string where that star began.
pub data Round : Type 0 where
  finish : Bool → Round
  continue : Bytes → Bytes → Option (Bytes × Bytes) → Round

-- "No match at current position": go back to the last star and let it take one byte more.
unfoldable pub backtrack : Option (Bytes × Bytes) → Round
backtrack none = finish false
backtrack (some (p, [])) = continue p [] (some (p, []))
backtrack (some (p, _ ∷ s)) = continue p s (some (p, s))

-- The verdict on a class: the pattern behind it where the byte is accepted.
unfoldable pub class_verdict : Bool → Bool × Option Bytes → Option Bytes
class_verdict negated (found, none) = none
class_verdict negated (found, some p) =
    if (found && not negated) || (not found && negated) then some p else none

unfoldable pub match_class : ℕ → Bytes → Option Bytes
unfolding scan_class skip_negation class_verdict
match_class ch p =
    let (negated, p') = skip_negation p in class_verdict negated (scan_class ch p' false)

-- The branch of an escape: the byte behind the backslash has to be the byte of the string.
unfoldable pub match_escape : ℕ → Bytes → Option Bytes
match_escape ch [] = none
match_escape ch (c ∷ p) = if ch == c then some p else none

abbrev pub advance : Bytes → Option (Bytes × Bytes) → Option Bytes → Round
advance s star none = backtrack star
advance s star (some p) = continue p s star

abbrev pub at_star : Bytes → Bytes → Round
at_star [] s = finish true
at_star (c ∷ p) s = continue (c ∷ p) s (some (c ∷ p, s))

-- The body of `while si < string.len()`, at the byte `ch` with the string `s` behind it.
unfoldable pub round : Bytes → ℕ → Bytes → Option (Bytes × Bytes) → Round
unfolding backtrack match_class match_escape skip_stars
round [] ch s star = backtrack star
round (c ∷ p) ch s star =
    if c == backslash
    then advance s star (match_escape ch p)
    else if c == asterisk
    then at_star (skip_stars p) (ch ∷ s)
    else if c == question
    then continue p s star
    else if c == open_bracket
    then advance s star (match_class ch p)
    else if c == ch
    then continue p s star
    else backtrack star

-- The loop, on fuel, and the test behind it.
unfoldable pub glob_loop : ℕ → Bytes → Bytes → Option (Bytes × Bytes) → Option Bool
unfolding round
glob_loop zero p s star = none
glob_loop (suc fuel) p [] star = some (is_empty (skip_stars p))
glob_loop (suc fuel) p (ch ∷ s) star = elim (round p ch s star) [
  | finish r ↦ some r
  | continue p' s' star' ↦ glob_loop fuel p' s' star'
]

-- The rounds that a string of `n` bytes and a pattern of `m` bytes can take.
unfoldable pub glob_fuel : ℕ → ℕ → ℕ
glob_fuel n m = suc (n * (n + m + 2) + n + m + 2)

unfoldable pub glob_run : Bytes → Bytes → Option Bool
unfolding glob_loop glob_fuel
glob_run pattern string = glob_loop (glob_fuel (length string) (length pattern)) pattern string none

-- The last case stands for want of fuel.
unfoldable pub glob_match : Bytes → Bytes → Bool
unfolding glob_run
glob_match pattern string = elim (glob_run pattern string) [ some r ↦ r | none ↦ false ]
