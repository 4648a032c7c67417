-- ===== src/Base/Strings.antt =====
-- JavaScript strings as lists of UTF-16 code units, with the string methods that the source calls.
use Prim.Native.Nat.{ℕ, suc, ◌+◌}
use Prim.Native.Char.{code}
use Prim.Native.String.{String}
use mathlib.Core.Path.{◌≡◌, refl}
use mathlib.Core.Logic.{◌↔◌}
use mathlib.Core.Bool.{Bool, true, false, ◌&&◌, ◌||◌}
use mathlib.Core.List.{List, [], ◌∷◌, ◌++◌, reverse}
use mathlib.Core.Option
use mathlib.Core.Option.{Option, none, some}
use native.Mathlib.Omega.{arith}
use pve_agent.Base.Tests.{◌==◌, if◌then◌else◌, in_range}
use pve_agent.Base.Lists.{any}

abbrev pub Text : Type 0
Text = List ℕ

-- The code units of an ASCII literal.
abbrev pub codes : String → Text
codes String.[] = []
codes (String.◌∷◌ c s) = code c ∷ codes s

-- `s === t`.
unfoldable pub text_eq : Text → Text → Bool
text_eq [] [] = true
text_eq (a ∷ s) (b ∷ t) = a == b && text_eq s t
text_eq _ _ = false

pub text_eq_iff : (s t : Text) → (text_eq s t ≡ true) ↔ (s ≡ t)
unfolding text_eq
text_eq_iff [] [] = ground arith
text_eq_iff [] (b ∷ t) = ground arith
text_eq_iff (a ∷ s) [] = ground arith
text_eq_iff (a ∷ s) (b ∷ t) = ground (arith, text_eq_iff s t)

pub text_eq_refl : (s : Text) → text_eq s s ≡ true
text_eq_refl s = (text_eq_iff s s).1 refl

-- `xs.includes(s)` on an array of strings.
abbrev pub includes_text : List Text → Text → Bool
includes_text xs s = any (λ x. text_eq x s) xs

-- `s.includes(c)` for one character.
abbrev pub has_char : ℕ → Text → Bool
has_char c s = any (λ d. d == c) s

-- `s.indexOf(c)` for one character; `none` is -1.
unfoldable pub index_of : ℕ → Text → Option ℕ
index_of c [] = none
index_of c (d ∷ s) = if d == c then some 0 else Option.map suc (index_of c s)

-- `s.startsWith(p)`.
unfoldable pub starts_with : Text → Text → Bool
starts_with s [] = true
starts_with [] (b ∷ p) = false
starts_with (a ∷ s) (b ∷ p) = a == b && starts_with s p

-- `s.indexOf(p)` for a string; `none` is -1.
unfoldable pub find_text : Text → Text → Option ℕ
unfolding starts_with
find_text p [] = if starts_with [] p then some 0 else none
find_text p (c ∷ s) = if starts_with (c ∷ s) p then some 0 else Option.map suc (find_text p s)

abbrev pub cons_head : ℕ → List Text → List Text
cons_head c [] = (c ∷ []) ∷ []
cons_head c (p ∷ ps) = (c ∷ p) ∷ ps

-- `s.split(sep)` for one character.
unfoldable pub split : ℕ → Text → List Text
split sep [] = [] ∷ []
split sep (c ∷ s) = let rest = split sep s in if c == sep then [] ∷ rest else cons_head c rest

-- `ps.join(sep)`.
unfoldable pub join : Text → List Text → Text
join sep [] = []
join sep (p ∷ []) = p
join sep (p ∷ q ∷ ps) = p ++ (sep ++ join sep (q ∷ ps))

-- The characters that `\s` matches, which are those that `trim` removes.
unfoldable pub is_space : ℕ → Bool
is_space c =
    in_range 9 13 c
    || (c == 32
        || (c == 0xa0
            || (c == 0x1680
                || (in_range 0x2000 0x200a c
                    || (in_range 0x2028 0x2029 c
                        || (c == 0x202f || (c == 0x205f || (c == 0x3000 || c == 0xfeff))))))))

unfoldable pub trim_start : Text → Text
trim_start [] = []
trim_start (c ∷ s) = let rest = trim_start s in if is_space c then rest else c ∷ s

unfoldable pub trim : Text → Text
unfolding trim_start is_space
trim s = reverse (trim_start (reverse (trim_start s)))

-- Character classes of the source's regular expressions.
unfoldable pub is_digit : ℕ → Bool
is_digit c = in_range b'0' b'9' c

unfoldable pub is_alpha : ℕ → Bool
is_alpha c = in_range b'a' b'z' c || in_range b'A' b'Z' c

unfoldable pub is_alnum : ℕ → Bool
unfolding is_alpha is_digit
is_alnum c = is_alpha c || is_digit c

-- ASCII case folding, which a pattern over ASCII letters with the `i` flag amounts to.
unfoldable pub lower : ℕ → ℕ
lower c = if in_range b'A' b'Z' c then c + 32 else c
