-- ===== src/Shell/Termproxy/Search.antt =====
-- src/shell/termproxy.ts, parse: where a mark and a number are found in a text.
use pve_agent.Base.{
  ◌==◌, length, take, drop, all, take-length_append, drop-length_append, Text, starts_with,
  find_text, is_space, trim_start, is_digit, digits_value, print_nat, digits_value-print_nat, Lacks,
  print_nat-all, length-print_nat, ℕ, zero, suc, ◌+◌, ◌-◌, ◌<◌, ◌≡◌, refl, sym, ap, ◌∙◌, Bool, true,
  false, some, [], ◌∷◌, ◌++◌, append_assoc, arith,
}
use mathlib.Core.Option
use pve_agent.Shell.Termproxy.Output.{
  stop, code_of, parse_int, take_class, signed_from, find_from, slice,
}

pub drop_nil : (n : ℕ) → drop {A = ℕ} n [] ≡ []
drop_nil zero = refl
drop_nil (suc n) = refl

pub drop-drop : (a b : ℕ) (s : Text) → drop (a + b) s ≡ drop b (drop a s)
drop-drop zero b s = ap (λ n. drop n s) (omega arith)
drop-drop (suc a) b [] = drop_nil (suc a + b) ∙ sym (drop_nil b)
drop-drop (suc a) b (c ∷ s) =
    let e : suc a + b ≡ suc (a + b) = omega arith in ap (λ n. drop n (c ∷ s)) e ∙ drop-drop a b s

pub drop-past : (n : ℕ) (s a t : Text) → drop n s ≡ a ++ t → drop (n + length a) s ≡ t
drop-past n s a t e = drop-drop n (length a) s ∙ ap (drop (length a)) e ∙ drop-length_append a t

pub starts_with-here : (p s : Text) → starts_with (p ++ s) p ≡ true
unfolding starts_with
starts_with-here [] [] = refl
starts_with-here [] (c ∷ s) = refl
starts_with-here (c ∷ p) s = ground (arith, starts_with-here p s)

pub find_text-here : (c : ℕ) (p s : Text) → find_text (c ∷ p) ((c ∷ p) ++ s) ≡ some 0
unfolding find_text
find_text-here c p s = rw (starts_with-here (c ∷ p) s, find_text) refl

-- The search passes what lacks the first character.
pub find_text-past :
    (c : ℕ) (p a s : Text) (n : ℕ)
    → Lacks c a
    → find_text (c ∷ p) s ≡ some n
    → find_text (c ∷ p) (a ++ s) ≡ some (length a + n)
unfolding find_text starts_with
find_text-past c p [] s n h e = rw e (ap some (omega arith))
find_text-past c p (d ∷ a) s n h e =
    let other : (d == c) ≡ false = ground (arith, h) in
    let rest = find_text-past c p a s n (ground (arith, h)) e in
    rw (other, rest) (ap some (omega arith))

pub starts_with-common : (m a b : Text) → starts_with (m ++ a) (m ++ b) ≡ starts_with a b
unfolding starts_with
starts_with-common [] a b = refl
starts_with-common (c ∷ m) a b = ground (arith, starts_with-common m a b)

-- The search passes another mark.
pub find_text-other :
    (c : ℕ) (m a b s : Text) (n : ℕ)
    → Lacks c (m ++ a)
    → starts_with (a ++ s) b ≡ false
    → find_text (c ∷ (m ++ b)) s ≡ some n
    → find_text (c ∷ (m ++ b)) ((c ∷ (m ++ a)) ++ s) ≡ some (length (c ∷ (m ++ a)) + n)
unfolding find_text starts_with
find_text-other c m a b s n lacks other e =
    let not_here : starts_with ((m ++ a) ++ s) (m ++ b) ≡ false =
      ap (λ t. starts_with t (m ++ b)) (append_assoc m a s)
      ∙ starts_with-common m (a ++ s) b
      ∙ other in
    let rest = find_text-past c (m ++ b) (m ++ a) s n lacks e in rw (not_here, rest) (ground arith)

pub find_from-at :
    (p s t : Text) (n k r : ℕ)
    → drop n s ≡ t
    → find_text p t ≡ some k
    → n + k ≡ r
    → find_from p n s ≡ some r
unfolding find_from
find_from-at p s t n k r d e sum =
    ap (λ u. Option.map (λ i. n + i) (find_text p u)) d
    ∙ ap (Option.map (λ i. n + i)) e
    ∙ ap some sum

pub slice-at : (s a t : Text) (i j : ℕ) → drop i s ≡ a ++ t → j ≡ i + length a → slice i j s ≡ a
slice-at s a t i j d e =
    let size : j - i ≡ length a = omega (arith, e) in
    ap (λ n. take n (drop i s)) size ∙ ap (take (length a)) d ∙ take-length_append a t

pub take_class-all : (p : ℕ → Bool) (s : Text) → all p s ≡ true → take_class p s ≡ s
take_class-all p [] h = refl
take_class-all p (c ∷ s) h = ground (arith, take_class-all p s)

pub digit_facts :
    (c : ℕ)
    → is_digit c ≡ true
    → (is_space c ≡ false) × ((c == b'-') ≡ false) × ((c == b'+') ≡ false)
unfolding is_digit is_space
digit_facts c h = (ground arith, ground arith, ground arith)

pub parse_digits :
    (s : Text)
    → all is_digit s ≡ true
    → 0 < length s
    → parse_int s ≡ some (code_of (digits_value 0 s))
unfolding parse_int trim_start
parse_digits [] h k = absurd (omega arith)
parse_digits (c ∷ s) h k =
    let (no_space, no_minus, no_plus) = digit_facts c (ground (arith, h)) in
    let same : trim_start (c ∷ s) ≡ c ∷ s = simp no_space in
    ap signed_from same ∙ simp (no_minus, no_plus, take_class-all is_digit (c ∷ s) h)

pub parse_int-print_nat : (n : ℕ) → parse_int (print_nat n) ≡ some (code_of n)
parse_int-print_nat n =
    parse_digits (print_nat n) (print_nat-all n) (length-print_nat n)
    ∙ ap (λ k. some (code_of k)) (digits_value-print_nat n)

pub Lacks-append : (c : ℕ) (a b : Text) → Lacks c a → Lacks c b → Lacks c (a ++ b)
Lacks-append c [] b h k = k
Lacks-append c (d ∷ a) b h k = ground (arith, h, Lacks-append c a b (ground (arith, h)) k)

pub Lacks-digits : (s : Text) → all is_digit s ≡ true → Lacks stop s
unfolding is_digit
Lacks-digits [] h = refl
Lacks-digits (c ∷ s) h = ground (arith, h, Lacks-digits s (ground (arith, h)))
