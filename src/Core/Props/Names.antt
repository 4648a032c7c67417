-- ===== src/Core/Props/Names.antt =====
-- src/core/props.ts: names of indexed families, and sizes with a unit.
use pve_agent.Base.{
  ◌==◌, if◌then◌else◌, length, all, Text, codes, text_eq, includes_text, is_digit, is_alpha,
  is_alnum, digits_value, print_nat, Outcome, ok, throw, ℕ, ◌*◌, ◌/◌, ◌%◌, ◌^◌, ◌≡◌, refl, Bool,
  true, false, not, ◌&&◌, ◌||◌, Option, none, some, List, [], ◌∷◌, ◌++◌,
}
use pve_agent.Core.Props.{PropertyError, not_indexed}
use mathlib.Core.Option

-- `[A-Za-z0-9_-]`.
unfoldable pub is_key_char : ℕ → Bool
unfolding is_alnum
is_key_char c = is_alnum c || (c == b'_' || c == b'-')

-- `^[A-Za-z][A-Za-z0-9_-]*$`, the base of a family.
unfoldable pub is_key_name : Text → Bool
unfolding is_alpha is_key_char
is_key_name [] = false
is_key_name (c ∷ s) = is_alpha c && all is_key_char s

-- What stands before a final `[n]`; the base itself holds no bracket.
unfoldable pub before_index : Text → Option Text
before_index [] = none
before_index (c ∷ s) =
    let rest = before_index s in
    if text_eq (c ∷ s) (codes "[n]") then some [] else Option.map (λ base. c ∷ base) rest

abbrev pub if_key_name : Option Text → Option Text
if_key_name none = none
if_key_name (some base) = if is_key_name base then some base else none

unfoldable pub indexed_key_base : Text → Option Text
unfolding before_index is_key_name text_eq
indexed_key_base schema_key = if_key_name (before_index schema_key)

abbrev is_defined : Option Text → Bool
is_defined none = false
is_defined (some a) = true

unfoldable pub is_indexed_key : Text → Bool
unfolding indexed_key_base
is_indexed_key schema_key = is_defined (indexed_key_base schema_key)

-- `index` is a natural number here; the source refuses all others.
unfoldable pub expand_indexed_key : Text → ℕ → Outcome PropertyError Text
unfolding indexed_key_base
expand_indexed_key schema_key index = elim (indexed_key_base schema_key) [
  | none ↦ throw (not_indexed schema_key)
  | some base ↦ ok (base ++ print_nat index)
]

-- `^([A-Za-z][A-Za-z0-9_-]*?)(\d+)$`: the base is as short as it can be, so the digits are the
-- longest run of digits at the end that leaves a name before it.
unfoldable pub split_at : Text → Text → Option (Text × ℕ)
split_at base [] = none
split_at base (c ∷ s) =
    let later = split_at (base ++ c ∷ []) s in
    if is_key_name base && all is_digit (c ∷ s) then some (base, digits_value 0 (c ∷ s)) else later

unfoldable pub split_indexed_key : Text → Option (Text × ℕ)
unfolding split_at is_key_name is_digit digits_value
split_indexed_key config_key = split_at [] config_key

unfoldable pub collapse_indexed_key : Text → List Text → Option Text
unfolding split_indexed_key text_eq
collapse_indexed_key config_key known = elim (split_indexed_key config_key) [
  | none ↦ none
  | some found ↦
      let candidate = found.0 ++ codes "[n]" in
      if includes_text known candidate then some candidate else none
]

-- The rounds of formatSize over the units that are left.
unfoldable pub size_from : ℕ → Text → List ℕ → Text
size_from size unit [] = print_nat size ++ unit
size_from size unit (next ∷ units) =
    if size == 0 || not (size % 1024 == 0)
    then print_nat size ++ unit
    else size_from (size / 1024) (next ∷ []) units

-- The argument is a number of bytes that is not negative, after `Math.trunc`.
unfoldable pub format_size : ℕ → Text
unfolding size_from
format_size bytes = size_from bytes [] (b'K' ∷ b'M' ∷ b'G' ∷ b'T' ∷ [])

-- `(?:([KMGT])(?:iB)?)?$` with the exponent of its unit.
unfoldable pub unit_exponent : Text → Option ℕ
unit_exponent [] = some 0
unit_exponent (c ∷ s) =
    if not (length s == 0 || text_eq s (codes "iB"))
    then none
    else if c == b'K'
    then some 1
    else if c == b'M'
    then some 2
    else if c == b'G'
    then some 3
    else if c == b'T'
    then some 4
    else none

unfoldable pub drop_digits : Text → Text
unfolding is_digit
drop_digits [] = []
drop_digits (c ∷ s) = let rest = drop_digits s in if is_digit c then rest else c ∷ s

unfoldable pub take_digits : Text → Text
unfolding is_digit
take_digits [] = []
take_digits (c ∷ s) = let rest = take_digits s in if is_digit c then c ∷ rest else []

-- `Math.trunc(Number(whole.fraction) * 1024 ** exponent)`, exactly.
unfoldable pub scaled : Text → Text → Option ℕ → Option ℕ
scaled [] fraction exponent = none
scaled (d ∷ ds) fraction none = none
scaled (d ∷ ds) fraction (some exponent) =
    some (digits_value 0 ((d ∷ ds) ++ fraction) * 1024 ^ exponent / 10 ^ length fraction)

unfoldable pub after_whole : Text → Text → Option ℕ
after_whole whole [] = scaled whole [] (some 0)
after_whole whole (c ∷ s) =
    if c == b'.'
    then (if length (take_digits s) == 0
        then none
        else scaled whole (take_digits s) (unit_exponent (drop_digits s)))
    else scaled whole [] (unit_exponent (c ∷ s))

unfoldable pub parse_size : Text → Option ℕ
unfolding after_whole scaled unit_exponent take_digits drop_digits text_eq digits_value
parse_size value = after_whole (take_digits value) (drop_digits value)

name_tests :
    (expand_indexed_key (codes "net[n]") 0 ≡ ok (codes "net0"))
    × (split_indexed_key (codes "a1b20") ≡ some (codes "a1b", 20))
    × (collapse_indexed_key (codes "mp12") (codes "net[n]" ∷ codes "mp[n]" ∷ [])
        ≡ some (codes "mp[n]"))
    × (format_size 34359738368 ≡ codes "32G")
    × (parse_size (codes "1.5G") ≡ some 1610612736)
unfolding expand_indexed_key split_indexed_key collapse_indexed_key format_size parse_size print_nat
name_tests = (refl, refl, refl, refl, refl)
