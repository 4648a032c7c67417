-- ===== src/Base/Joining.antt =====
-- Splitting what was joined, and the digits that a number is printed with.
use Prim.Native.Nat.{ℕ, zero, suc, ◌+◌, ◌/◌, ◌%◌, ◌<◌}
use mathlib.Core.Path.{◌≡◌, refl, ap, ◌∙◌}
use mathlib.Core.Bool.{Bool, true, false, ◌&&◌}
use mathlib.Core.List.{List, [], ◌∷◌, ◌++◌}
use native.Mathlib.Omega.{arith}
use pve_agent.Base.Lists.{all, All, length, length-append}
use pve_agent.Base.Strings.{Text, has_char, split, join, is_digit}
use pve_agent.Base.Decimal.{print_digits, print_nat}

abbrev pub Lacks : ℕ → Text → Type 0
Lacks c s = has_char c s ≡ false

-- Up to the first separator.
pub split-append : (c : ℕ) (p rest : Text) → Lacks c p → split c (p ++ c ∷ rest) ≡ p ∷ split c rest
unfolding split
split-append c [] rest h = ground arith
split-append c (d ∷ p) rest h = ground (arith, split-append c p rest)

pub split_lacking : (c : ℕ) (p : Text) → Lacks c p → split c p ≡ p ∷ []
unfolding split
split_lacking c [] h = refl
split_lacking c (d ∷ p) h = ground (arith, split_lacking c p)

-- Splitting a join gives the parts back, if there is a part and none holds the separator.
pub split-join :
    (c : ℕ) (p : Text) (ps : List Text)
    → All (Lacks c) (p ∷ ps)
    → split c (join (c ∷ []) (p ∷ ps)) ≡ p ∷ ps
unfolding join
split-join c p [] (h, _) = split_lacking c p h
split-join c p (q ∷ ps) (h, hs) =
    split-append c p (join (c ∷ []) (q ∷ ps)) h ∙ ap (λ l. p ∷ l) (split-join c q ps hs)

pub all-append : (p : ℕ → Bool) (s t : Text) → all p (s ++ t) ≡ (all p s && all p t)
all-append p [] t = refl
all-append p (c ∷ s) t = ground (arith, all-append p s t)

print_digits-all : (fuel n : ℕ) → all is_digit (print_digits fuel n) ≡ true
unfolding print_digits is_digit
print_digits-all zero n = refl
print_digits-all (suc fuel) n = ground (
  arith,
  print_digits-all fuel (n / 10),
  all-append is_digit (print_digits fuel (n / 10)) ((b'0' + n % 10) ∷ []),
)

-- A printed number is digits, at least one.
pub print_nat-all : (n : ℕ) → all is_digit (print_nat n) ≡ true
unfolding print_nat
print_nat-all n = print_digits-all (suc n) n

pub length-print_nat : (n : ℕ) → 0 < length (print_nat n)
unfolding print_nat print_digits
length-print_nat n = ground (arith, length-append (print_digits n (n / 10)) ((b'0' + n % 10) ∷ []))
