-- ===== src/Core/Props/Laws.antt =====
-- src/core/props.ts, formatSize and parseSize: sizes and their spelling.
use pve_agent.Base.{
  ◌==◌, Bool-cases, length, all, Text, is_digit, digits_value, print_nat, digits_value-print_nat,
  print_nat-all, length-print_nat, ℕ, ◌+◌, ◌*◌, ◌/◌, ◌%◌, ◌^◌, ◌<◌, ◌≡◌, refl, sym, ap, ◌∙◌, inl,
  inr, true, false, not, ◌||◌, some, [], ◌∷◌, ◌++◌, append-nil, arith,
}
use native.Mathlib.Nat.{mul_assoc, pow-succ'}
use native.Mathlib.Numerals.{add-one}
use pve_agent.Core.Props.Names.{
  size_from, format_size, unit_exponent, take_digits, drop_digits, scaled, after_whole, parse_size,
}

-- The text ends, or goes on with a character that is no digit.
abbrev StopsDigits : Text → Type 0
StopsDigits [] = Unit
StopsDigits (c ∷ s) = is_digit c ≡ false

take_digits-append : (s t : Text) → all is_digit s ≡ true → StopsDigits t → take_digits (s ++ t) ≡ s
unfolding take_digits
take_digits-append [] [] h k = refl
take_digits-append [] (c ∷ t) h k = rw k refl
take_digits-append (c ∷ s) t h k = ground (arith, take_digits-append s t)

drop_digits-append : (s t : Text) → all is_digit s ≡ true → StopsDigits t → drop_digits (s ++ t) ≡ t
unfolding drop_digits
drop_digits-append [] [] h k = refl
drop_digits-append [] (c ∷ t) h k = rw k refl
drop_digits-append (c ∷ s) t h k = ground (arith, drop_digits-append s t)

scaled_digits :
    (s : Text) (e : ℕ) → 0 < length s → scaled s [] (some e) ≡ some (digits_value 0 s * 1024 ^ e)
unfolding scaled
scaled_digits [] e h = absurd (omega arith)
scaled_digits (d ∷ ds) e h = rw append-nil (ap some (omega arith))

after_whole-unit :
    (whole unit : Text)
    → all (λ c. not (c == b'.')) unit ≡ true
    → after_whole whole unit ≡ scaled whole [] (unit_exponent unit)
unfolding after_whole unit_exponent
after_whole-unit whole [] h = refl
after_whole-unit whole (c ∷ s) h = ground arith

-- A number in front of a unit is that many units.
parse_size-print_nat :
    (n e : ℕ) (unit : Text)
    → unit_exponent unit ≡ some e
    → StopsDigits unit
    → all (λ c. not (c == b'.')) unit ≡ true
    → parse_size (print_nat n ++ unit) ≡ some (n * 1024 ^ e)
unfolding parse_size
parse_size-print_nat n e unit spelled stops no_dot =
    rw
      (
        take_digits-append (print_nat n) unit (print_nat-all n) stops,
        drop_digits-append (print_nat n) unit (print_nat-all n) stops,
        after_whole-unit (print_nat n) unit no_dot,
        spelled,
        scaled_digits (print_nat n) e (length-print_nat n),
        digits_value-print_nat n,
      )
      refl

-- The units of a list stand for the exponents from `e + 1` on.
abbrev Ladder : ℕ → Text → Type 0
Ladder e [] = Unit
Ladder e (c ∷ units) =
    (unit_exponent (c ∷ []) ≡ some (e + 1))
    × (is_digit c ≡ false)
    × (not (c == b'.') ≡ true)
    × Ladder (e + 1) units

pow_next : (e : ℕ) → 1024 ^ (e + 1) ≡ 1024 * 1024 ^ e
pow_next e = ap (λ k. 1024 ^ k) (add-one e) ∙ pow-succ' 1024 e

whole_units : (s p : ℕ) → s % 1024 ≡ 0 → s / 1024 * (1024 * p) ≡ s * p
whole_units s p h = rw (sym (mul_assoc (s / 1024) 1024 p)) (ap (λ k. k * p) (omega arith))

parse_size-size_from :
    (units : Text) (size e : ℕ) (unit : Text)
    → Ladder e units
    → unit_exponent unit ≡ some e
    → StopsDigits unit
    → all (λ c. not (c == b'.')) unit ≡ true
    → parse_size (size_from size unit units) ≡ some (size * 1024 ^ e)
unfolding size_from
parse_size-size_from [] size e unit ladder spelled stops no_dot =
    parse_size-print_nat size e unit spelled stops no_dot
parse_size-size_from (c ∷ units) size e unit (exponent, digit, dot, rest) spelled stops no_dot =
    elim (Bool-cases (size == 0 || not (size % 1024 == 0))) [
      | inl here ↦ rw here (parse_size-print_nat size e unit spelled stops no_dot)
      | inr further ↦ rw further (
          parse_size-size_from units (size / 1024) (e + 1) (c ∷ []) rest exponent digit
            (rw dot refl)
          ∙ ap some (
              ap (λ p. size / 1024 * p) (pow_next e)
              ∙ (whole_units size (1024 ^ e) (ground arith))))
    ]

units_Ladder : Ladder 0 (b'K' ∷ b'M' ∷ b'G' ∷ b'T' ∷ [])
unfolding unit_exponent is_digit
units_Ladder = ((refl, refl, refl, (refl, refl, refl, (refl, refl, refl, (refl, refl, refl, tt)))))

-- Reading back the text that a number of bytes is written as gives that number.
pub parse_size-format_size : (bytes : ℕ) → parse_size (format_size bytes) ≡ some bytes
unfolding format_size unit_exponent
parse_size-format_size bytes =
    parse_size-size_from (b'K' ∷ b'M' ∷ b'G' ∷ b'T' ∷ []) bytes 0 [] units_Ladder refl tt refl
    ∙ ap some (omega arith)
