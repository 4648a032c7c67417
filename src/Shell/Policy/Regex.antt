-- ===== src/Shell/Policy/Regex.antt =====
-- The regular expressions of src/shell/policy.ts as data, and `test` on them. A match is a place to
-- which an expression can lead from a place; which of several matches JavaScript takes is of no
-- concern to `test`.
use pve_agent.Base.{
  ltb, ◌==◌, in_range, length, keep, Text, codes, is_space, is_alnum, ℕ, zero, suc, String, Bool,
  true, false, not, ◌||◌, Option, none, some, List, [], ◌∷◌, ◌++◌,
}
use mathlib.Core.List.{flat_map}

pub data Regex : Type 0 where
  nothing : Regex
  chars : (ℕ → Bool) → Regex
  sequence : Regex → Regex → Regex
  either : Regex → Regex → Regex
  star : Regex → Regex
  at_start word_boundary before_space_or_end : Regex

-- A place in a text: the character before it, if any, and the text behind it.
abbrev pub Place : Type 0
Place = Option ℕ × Text

-- `\w`.
unfoldable pub is_word_char : ℕ → Bool
unfolding is_alnum
is_word_char c = is_alnum c || c == b'_'

abbrev word_before : Option ℕ → Bool
word_before none = false
word_before (some c) = is_word_char c

abbrev word_behind : Text → Bool
word_behind [] = false
word_behind (c ∷ s) = is_word_char c

abbrev only_if : Bool → Place → List Place
only_if true p = p ∷ []
only_if false p = []

abbrev same : Bool → Bool → Bool
same true b = b
same false b = not b

one_char : (ℕ → Bool) → Place → List Place
one_char p (before, []) = []
one_char p (before, c ∷ s) = only_if (p c) (some c, s)

space_or_end : Text → Bool
space_or_end [] = true
space_or_end (c ∷ s) = is_space c

-- The rounds of a star that move forward; there are at most as many as characters are left.
star_places : ℕ → (Place → List Place) → Place → List Place
star_places zero step place = place ∷ []
star_places (suc rounds) step place =
    place
    ∷ flat_map (star_places rounds step)
        (keep (λ p. ltb (length p.1) (length place.1)) (step place))

unfoldable pub places : Regex → Place → List Place
unfolding one_char space_or_end star_places is_word_char is_space flat_map
places nothing place = place ∷ []
places (chars p) place = one_char p place
places (sequence r q) place = flat_map (places q) (places r place)
places (either r q) place = places r place ++ places q place
places (star r) place = star_places (length place.1) (places r) place
places at_start (before, s) = only_if (not (word_or_any before)) (before, s)
  where
    word_or_any : Option ℕ → Bool
    word_or_any none = false
    word_or_any (some c) = true
places word_boundary (before, s) =
    only_if (not (same (word_before before) (word_behind s))) (before, s)
places before_space_or_end (before, s) = only_if (space_or_end s) (before, s)

abbrev pub is_cons {ℓ} : {A : Type ℓ} → List A → Bool
is_cons [] = false
is_cons (x ∷ xs) = true

test_from : Regex → Option ℕ → Text → Bool
test_from r before [] = is_cons (places r (before, []))
test_from r before (c ∷ s) = is_cons (places r (before, c ∷ s)) || test_from r (some c) s

-- `r.test(s)`.
unfoldable pub regex_test : Regex → Text → Bool
unfolding test_from places
regex_test r s = test_from r none s

-- Notation for the patterns.
infixr 60 ◌&◌
abbrev pub ◌&◌ : Regex → Regex → Regex
r & q = sequence r q

infixr 55 ◌or◌
abbrev pub ◌or◌ : Regex → Regex → Regex
r or q = either r q

abbrev pub text : Text → Regex
text [] = nothing
text (c ∷ []) = chars (λ d. d == c)
text (c ∷ d ∷ s) = chars (λ e. e == c) & text (d ∷ s)

abbrev pub lit : String → Regex
lit s = text (codes s)

abbrev pub one_of : List String → Regex
one_of [] = nothing
one_of (s ∷ []) = lit s
one_of (s ∷ t ∷ more) = lit s or one_of (t ∷ more)

abbrev pub word : String → Regex
word s = word_boundary & (lit s & word_boundary)

-- `.`: all but the four line terminators.
abbrev pub any_char : Regex
any_char = chars (λ c. not (c == 10 || (c == 13 || in_range 0x2028 0x2029 c)))

abbrev pub anything : Regex
anything = star any_char

abbrev pub space : Regex
space = chars is_space

abbrev pub spaces : Regex
spaces = space & star space

abbrev pub optional : Regex → Regex
optional r = either r nothing
