-- ===== src/Core/Props/Parts.antt =====
-- src/core/props.ts: reading a whole property string, with the checks of `validate`.
use pve_agent.Base.{
  ◌==◌, if◌then◌else◌, length, take, drop, replicate, Text, includes_text, has_char, index_of,
  split, trim, print_nat, ◌>>=◌, ◌>>◌, Outcome, ok, throw, ℕ, zero, suc, ◌-◌, ◌/◌, ◌%◌, ◌^◌, Bool,
  true, false, not, ◌&&◌, ◌||◌, Option, none, some, List, [], ◌∷◌, ◌++◌,
}
use pve_agent.Core.Values.{Decimal, is_integer, print_integer}
use pve_agent.Core.Props.{
  PropertyScalar, text, number, boolean, PropertyFormatEntry, PropertyFormat, PropertyBag,
  PropertyError, comma_in_value, not_in_enum, missing_key, lookup, is_set, is_defined,
  default_key_in, parse_parts,
}
use pve_agent.Core.Props.Names.{format_size}

pub record PropertyParts : Type 0 where
  pub bare : List Text
  pub entries : List (Text × Text)

add_part : Text → Option ℕ → PropertyParts → PropertyParts
add_part part none parts = record parts { bare = part ∷ parts.bare }
add_part part (some zero) parts = record parts { bare = part ∷ parts.bare }
add_part part (some (suc n)) parts = record parts {
  entries = (take (suc n) part, drop (suc (suc n)) part) ∷ parts.entries;
}

split_parts : List Text → PropertyParts
split_parts [] = record { bare = []; entries = [] }
split_parts (part ∷ rest) =
    let parts = split_parts rest in
    if length (trim part) == 0 then parts else add_part part (index_of b'=' part) parts

unfoldable pub split_property_parts : Text → PropertyParts
unfolding split_parts add_part trim index_of split
split_property_parts input = split_parts (split b',' input)

-- `String(n)`: a number that is no integer is printed with its fraction, whose zeros at the end
-- are dropped; below 10 ^ 21 and with an exponent of at most -6 there is no other spelling.
drop_zeros : Text → Text
drop_zeros [] = []
drop_zeros (c ∷ s) = cons_zero c (drop_zeros s)
  where
    cons_zero : ℕ → Text → Text
    cons_zero d [] = if d == b'0' then [] else d ∷ []
    cons_zero d (e ∷ t) = d ∷ e ∷ t

abbrev pad_left : ℕ → Text → Text
pad_left n s = replicate (n - length s) b'0' ++ s

unfoldable pub print_number : Decimal → Text
unfolding drop_zeros print_integer is_integer
print_number d =
    if is_integer d
    then print_integer d
    else let fraction = drop_zeros (pad_left d.scale (print_nat (d.digits % 10 ^ d.scale))) in
      let digits = print_nat (d.digits / 10 ^ d.scale) ++ (b'.' ∷ fraction) in
      if d.is_negative then b'-' ∷ digits else digits

-- A size is `Math.trunc(bytes)`; a negative one is spelled like its absolute value.
abbrev size_text : Decimal → Text
size_text d =
    let bytes = d.digits / 10 ^ d.scale in
    if d.is_negative && not (bytes == 0) then b'-' ∷ format_size bytes else format_size bytes

abbrev is_size_entry : Option PropertyFormatEntry → Bool
is_size_entry none = false
is_size_entry (some entry) = entry.is_size

unfoldable pub wire_text : PropertyScalar → Option PropertyFormatEntry → Text
unfolding print_number format_size
wire_text (boolean b) entry = if b then b'1' ∷ [] else b'0' ∷ []
wire_text (number d) entry = if is_size_entry entry then size_text d else print_number d
wire_text (text s) entry = s

unfoldable pub stringify :
    Text → PropertyScalar → Option PropertyFormatEntry → Outcome PropertyError Text
unfolding wire_text
stringify key value entry =
    let printed = wire_text value entry in
    if has_char b',' printed then throw (comma_in_value key printed) else ok printed

abbrev allowed_of : Option PropertyFormatEntry → Option (List Text)
allowed_of none = none
allowed_of (some entry) = entry.allowed_values

check_value :
    Option PropertyFormatEntry
    → Text
    → PropertyScalar
    → Option (List Text)
    → Outcome PropertyError (Unit {0})
check_value entry key value none = ok tt
check_value entry key value (some allowed) =
    if includes_text allowed (wire_text value entry)
    then ok tt
    else throw (not_in_enum key (wire_text value entry))

check_values : PropertyFormat → PropertyBag → Outcome PropertyError (Unit {0})
check_values format [] = ok tt
check_values format ((key, value) ∷ bag) = do
  check_value (lookup key format) key value (allowed_of (lookup key format))
  check_values format bag

check_required : PropertyBag → PropertyFormat → Outcome PropertyError (Unit {0})
check_required bag [] = ok tt
check_required bag ((key, entry) ∷ format) =
    if is_defined entry.alias || (entry.optional || is_set key bag)
    then check_required bag format
    else throw (missing_key key)

unfoldable pub validate_bag : PropertyFormat → PropertyBag → Outcome PropertyError (Unit {0})
unfolding check_values check_value check_required
validate_bag format bag = do check_values format bag; check_required bag format

abbrev pub validate_if :
    Option PropertyFormat → Bool → PropertyBag → Outcome PropertyError (Unit {0})
validate_if none validate bag = ok tt
validate_if (some format) true bag = validate_bag format bag
validate_if (some format) false bag = ok tt

unfoldable pub parse_property_string :
    Text → Option PropertyFormat → (strict_keys validate : Bool) → Outcome PropertyError PropertyBag
unfolding split
parse_property_string input format strict_keys validate = do
  default_key ← default_key_in format
  bag ← parse_parts input format strict_keys default_key [] (split b',' input)
  validate_if format validate bag
  ok bag
