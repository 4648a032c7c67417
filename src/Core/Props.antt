-- ===== src/Core/Props.antt =====
-- src/core/props.ts: property strings, `key=value,key=value`. The state is a bag of sub-keys in the
-- order of insertion; a child has the writer and the spelling of sizes and indexed names.
pub mod Names
pub mod Writer
pub mod Parts
pub mod Indexed
pub mod Laws
use pve_agent.Base.{
  ◌==◌, if◌then◌else◌, length, take, drop, Text, codes, text_eq, includes_text, index_of, trim,
  ◌>>=◌, ◌>>◌, Outcome, ok, throw, ℕ, ◌+◌, Bool, true, false, not, ◌&&◌, ◌||◌, Option, none, some,
  List, [], ◌∷◌, ◌++◌, map,
}
use pve_agent.Core.Values.{Decimal, string, parse_boolean, to_optional_integer, to_optional_number}

pub data PropertyScalar : Type 0 where
  text : Text → PropertyScalar
  number : Decimal → PropertyScalar
  boolean : Bool → PropertyScalar

pub data EntryType : Type 0 where
  boolean_type integer_type number_type string_type : EntryType

pub record PropertyFormatEntry : Type 0 where
  pub type : EntryType
  -- The entry's format is `disk-size`.
  pub is_size : Bool
  pub allowed_values : Option (List Text)
  pub default_key : Bool
  pub alias : Option Text
  pub key_alias : Option Text
  pub optional : Bool

abbrev pub PropertyFormat : Type 0
PropertyFormat = List (Text × PropertyFormatEntry)

abbrev pub PropertyBag : Type 0
PropertyBag = List (Text × PropertyScalar)

pub data PropertyError : Type 0 where
  two_default_keys : Text → Text → PropertyError
  value_without_key duplicate_default malformed_part : Text → PropertyError
  duplicate_key unknown_key key_alias_set already_set_by_alias : Text → PropertyError
  comma_in_value : Text → Text → PropertyError
  not_in_enum : Text → Text → PropertyError
  missing_key : Text → PropertyError
  not_indexed : Text → PropertyError

pub lookup {ℓ} : {V : Type ℓ} → Text → List (Text × V) → Option V
lookup key [] = none
lookup key ((k, v) ∷ rows) = if text_eq k key then some v else lookup key rows

-- The names that a plain object inherits, which read as set on every bag.
abbrev inherited_names : List Text
inherited_names = map codes (
    "constructor" ∷ "hasOwnProperty" ∷ "isPrototypeOf" ∷ "propertyIsEnumerable" ∷ "toLocaleString"
    ∷ "toString" ∷ "valueOf" ∷ "__proto__" ∷ "__defineGetter__" ∷ "__defineSetter__"
    ∷ "__lookupGetter__" ∷ "__lookupSetter__" ∷ [])

abbrev pub is_defined {ℓ} : {A : Type ℓ} → Option A → Bool
is_defined none = false
is_defined (some a) = true

-- `bag[key] !== undefined`.
unfoldable pub is_set : Text → PropertyBag → Bool
unfolding lookup text_eq
is_set key bag = includes_text inherited_names key || is_defined (lookup key bag)

-- `bag[key] = value` on a key that is not set.
abbrev pub put : Text → PropertyScalar → PropertyBag → PropertyBag
put key value bag = bag ++ (key, value) ∷ []

default_key_from : Option Text → PropertyFormat → Outcome PropertyError (Option Text)
default_key_from found [] = ok found
default_key_from none ((key, entry) ∷ rest) =
    default_key_from (if entry.default_key then some key else none) rest
default_key_from (some found) ((key, entry) ∷ rest) =
    if entry.default_key
    then throw (two_default_keys found key)
    else default_key_from (some found) rest

unfoldable pub default_key_of : PropertyFormat → Outcome PropertyError (Option Text)
unfolding default_key_from
default_key_of format = default_key_from none format

abbrev number_or : Text → Option Decimal → PropertyScalar
number_or raw none = text raw
number_or raw (some d) = number d

abbrev boolean_or : Text → Option Bool → PropertyScalar
boolean_or raw none = text raw
boolean_or raw (some b) = boolean b

coerce_to : Text → EntryType → PropertyScalar
coerce_to raw boolean_type = boolean_or raw (parse_boolean raw)
coerce_to raw integer_type = number_or raw (to_optional_integer (string raw))
coerce_to raw number_type = number_or raw (to_optional_number (string raw))
coerce_to raw string_type = text raw

unfoldable pub coerce : Text → Option PropertyFormatEntry → PropertyScalar
unfolding coerce_to
coerce raw none = text raw
coerce raw (some entry) = coerce_to raw entry.type

-- A part without `=`: the value of the default key.
bare_part :
    Text
    → Text
    → Option PropertyFormat
    → Option Text
    → PropertyBag
    → Outcome PropertyError PropertyBag
bare_part input part format none bag = throw (value_without_key input)
bare_part input part none (some key) bag = throw (value_without_key input)
bare_part input part (some format) (some key) bag =
    if is_set key bag
    then throw (duplicate_default key)
    else ok (put key (coerce part (lookup key format)) bag)

-- The last steps of a part, with its resolved key and entry.
store :
    Option PropertyFormat
    → Bool
    → Text
    → Text
    → Option PropertyFormatEntry
    → PropertyBag
    → Outcome PropertyError PropertyBag
store format strict_keys key raw entry bag =
    if is_defined format && (not (is_defined entry) && strict_keys)
    then throw (unknown_key key)
    else ok (put key (coerce raw entry) bag)

-- `if (entry.keyAlias)`: the sub-key's name becomes a value.
store_key_alias : Option Text → Text → PropertyBag → Outcome PropertyError PropertyBag
store_key_alias none key bag = ok bag
store_key_alias (some name) key bag =
    if is_set name bag then throw (key_alias_set name) else ok (put name (text key) bag)

store_alias :
    PropertyFormat
    → Bool
    → (key raw target : Text) → PropertyFormatEntry
    → PropertyBag
    → Outcome PropertyError PropertyBag
store_alias format strict_keys key raw target entry bag = do
  aliased ← store_key_alias entry.key_alias key bag
  if is_set target aliased
      then throw (already_set_by_alias target)
      else store (some format) strict_keys target raw (lookup target format) aliased

resolve :
    Option PropertyFormat
    → Bool
    → (key raw : Text) → Option PropertyFormatEntry
    → PropertyBag
    → Outcome PropertyError PropertyBag
resolve none strict_keys key raw entry bag = store none strict_keys key raw none bag
resolve (some format) strict_keys key raw none bag =
    store (some format) strict_keys key raw none bag
resolve (some format) strict_keys key raw (some entry) bag = with_alias entry.alias
  where
    with_alias : Option Text → Outcome PropertyError PropertyBag
    with_alias none = store (some format) strict_keys key raw (some entry) bag
    with_alias (some target) = store_alias format strict_keys key raw target entry bag

abbrev pub entry_of : Option PropertyFormat → Text → Option PropertyFormatEntry
entry_of none key = none
entry_of (some format) key = lookup key format

-- A part with `=` at `eq`.
keyed_part :
    Option PropertyFormat → Bool → Text → ℕ → PropertyBag → Outcome PropertyError PropertyBag
keyed_part format strict_keys part eq bag =
    let key = take eq part in
    let raw = drop (eq + 1) part in
    if eq == 0 || eq + 1 == length part
    then throw (malformed_part part)
    else if is_set key bag
    then throw (duplicate_key key)
    else resolve format strict_keys key raw (entry_of format key) bag

-- One round of the loop over the parts.
unfoldable pub parse_part :
    Text
    → Option PropertyFormat
    → Bool
    → Option Text
    → PropertyBag
    → Text
    → Outcome PropertyError PropertyBag
unfolding bare_part keyed_part resolve store store_alias store_key_alias is_set coerce trim index_of
parse_part input format strict_keys default_key bag part =
    if length (trim part) == 0 then ok bag else elim (index_of b'=' part) [
      | none ↦ bare_part input part format default_key bag
      | some eq ↦ keyed_part format strict_keys part eq bag
    ]

unfoldable pub parse_parts :
    Text
    → Option PropertyFormat
    → Bool
    → Option Text
    → PropertyBag
    → List Text
    → Outcome PropertyError PropertyBag
unfolding parse_part
parse_parts input format strict_keys default_key bag [] = ok bag
parse_parts input format strict_keys default_key bag (part ∷ parts) = do
  next ← parse_part input format strict_keys default_key bag part
  parse_parts input format strict_keys default_key next parts

abbrev pub default_key_in : Option PropertyFormat → Outcome PropertyError (Option Text)
default_key_in none = ok none
default_key_in (some format) = default_key_of format
