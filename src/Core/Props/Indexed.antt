-- ===== src/Core/Props/Indexed.antt =====
-- src/core/props.ts, expandIndexedKey and splitIndexedKey: the names of an indexed family.
use pve_agent.Base.{
  if◌then◌else◌, Bool-cases, length, all, Text, is_digit, digits_value, print_nat,
  digits_value-print_nat, ok, print_nat-all, length-print_nat, ℕ, ◌<◌, ◌≡◌, refl, ap, ◌∙◌, inl, inr,
  Bool, true, false, ◌&&◌, Option, none, some, [], ◌∷◌, ◌++◌, append-nil, append_assoc, arith,
}
use pve_agent.Core.Props.Names.{
  is_key_name, split_at, split_indexed_key, expand_indexed_key, indexed_key_base, if_key_name,
  before_index,
}

-- The last character, if there is one, is no digit.
abbrev pub EndsPlain : Text → Type 0
EndsPlain [] = Unit
EndsPlain (c ∷ []) = is_digit c ≡ false
EndsPlain (c ∷ d ∷ s) = EndsPlain (d ∷ s)

plain_end-some_other :
    (c : ℕ) (s digits : Text) → EndsPlain (c ∷ s) → all is_digit ((c ∷ s) ++ digits) ≡ false
plain_end-some_other c [] digits h = rw h refl
plain_end-some_other c (d ∷ s) digits h = ground (arith, plain_end-some_other d s digits h)

unless : {A : Type 0} (a b : Bool) (x y : A) → b ≡ false → (if a && b then x else y) ≡ y
unless true b x y h = rw h refl
unless false b x y h = refl

EndsPlain-tail : (c : ℕ) (s : Text) → EndsPlain (c ∷ s) → EndsPlain s
EndsPlain-tail c [] h = tt
EndsPlain-tail c (d ∷ s) h = h

pub split_at-base :
    (before base digits : Text)
    → EndsPlain base
    → split_at before (base ++ digits) ≡ split_at (before ++ base) digits
unfolding split_at
split_at-base before [] digits h = rw append-nil refl
split_at-base before (c ∷ base) digits h =
    unless (is_key_name before) (all is_digit ((c ∷ base) ++ digits)) _ _
      (plain_end-some_other c base digits h)
    ∙ split_at-base (before ++ c ∷ []) base digits (EndsPlain-tail c base h)
    ∙ ap (λ p. split_at p digits) (append_assoc before (c ∷ []) base)

pub split_at-digits :
    (base digits : Text)
    → is_key_name base ≡ true
    → all is_digit digits ≡ true
    → 0 < length digits
    → split_at base digits ≡ some (base, digits_value 0 digits)
unfolding split_at
split_at-digits base [] name h l = absurd (omega arith)
split_at-digits base (c ∷ s) name h l = rw (name, h) refl

if_key_name-is_key_name :
    (found : Option Text) (base : Text) → if_key_name found ≡ some base → is_key_name base ≡ true
if_key_name-is_key_name none base h = cc
if_key_name-is_key_name (some key) base h = elim (Bool-cases (is_key_name key)) [
  | inl name ↦ ground (arith, name, h)
  | inr other ↦ ground (arith, other, h)
]

-- For a family whose base does not end in a digit, the name of its `n`-th member is the base and the
-- number, and splitting that name gives the base and `n` back.
pub split_indexed_key-expand_indexed_key :
    (schema_key base : Text) (n : ℕ)
    → indexed_key_base schema_key ≡ some base
    → EndsPlain base
    → (expand_indexed_key schema_key n ≡ ok (base ++ print_nat n))
      × (split_indexed_key (base ++ print_nat n) ≡ some (base, n))
unfolding expand_indexed_key split_indexed_key indexed_key_base
split_indexed_key-expand_indexed_key schema_key base n found plain = (
  rw (found, expand_indexed_key) refl,
  split_at-base [] base (print_nat n) plain
      ∙ split_at-digits base (print_nat n)
          (if_key_name-is_key_name (before_index schema_key) base found) (print_nat-all n)
          (length-print_nat n)
      ∙ ap (λ k. some (base, k)) (digits_value-print_nat n),
)
