-- ===== src/Core/Values.antt =====
-- src/core/values.ts: reading the values of a JSON answer. A finite number is an exact decimal,
-- `digits / 10 ^ scale` with a sign, where JavaScript rounds to a double.
use pve_agent.Base.{
  ◌==◌, if◌then◌else◌, length, keep, Text, codes, text_eq, includes_text, is_space, is_digit, lower,
  digits_value, print_nat, ℕ, ◌/◌, ◌%◌, ◌^◌, String, ◌≡◌, refl, Bool, true, false, not, ◌&&◌, ◌||◌,
  Option, none, some, List, [], ◌∷◌, ◌++◌, map,
}

pub record Decimal : Type 0 where
  pub is_negative : Bool
  pub digits : ℕ
  pub scale : ℕ

pub data JsNumber : Type 0 where
  finite : Decimal → JsNumber
  not_finite : JsNumber

mutual
  pub data JsValue : Type 0 where
    undefined null_value : JsValue
    boolean : Bool → JsValue
    number : JsNumber → JsValue
    string : Text → JsValue
    array : Items → JsValue
    object : Entries → JsValue

  pub data Items : Type 0 where
    no_items : Items
    item : JsValue → Items → Items

  -- The entries of an object, in the order of `Object.entries`.
  pub data Entries : Type 0 where
    no_entries : Entries
    entry : Text → JsValue → Entries → Entries

-- `/^(w1|w2|…)$/i.test(value)`.
abbrev one_of_words : List String → Text → Bool
one_of_words words value = includes_text (map codes words) (map lower value)

unfoldable pub parse_boolean : Text → Option Bool
unfolding text_eq lower
parse_boolean value =
    if one_of_words ("1" ∷ "on" ∷ "yes" ∷ "true" ∷ []) value
    then some true
    else if one_of_words ("0" ∷ "off" ∷ "no" ∷ "false" ∷ []) value
    then some false
    else none

unfoldable pub to_optional_boolean : JsValue → Option Bool
to_optional_boolean (boolean b) = some b
to_optional_boolean (number (finite d)) = some (not (d.digits == 0))
to_optional_boolean (number not_finite) = none
to_optional_boolean (string s) = parse_boolean s
to_optional_boolean _ = none

abbrev or_false : Option Bool → Bool
or_false none = false
or_false (some b) = b

unfoldable pub to_boolean : JsValue → Bool
unfolding to_optional_boolean
to_boolean value = or_false (to_optional_boolean value)

-- One or more digits, of a text that is read from the front: the digits and the rest.
unfoldable pub span_digits : Text → Text × Text
unfolding is_digit
span_digits [] = ([], [])
span_digits (c ∷ s) =
    let (ds, rest) = span_digits s in if is_digit c then (c ∷ ds, rest) else ([], c ∷ s)

abbrev make_decimal : Bool → Text → Text → Option Decimal
make_decimal is_negative [] fraction = none
make_decimal is_negative (d ∷ ds) fraction = some (record {
  is_negative = is_negative;
  digits = digits_value 0 ((d ∷ ds) ++ fraction);
  scale = length fraction;
})

-- `(?:\.\d+)?$` behind the whole part.
decimal_tail : Bool → Text × Text → Option Decimal
decimal_tail is_negative (whole, []) = make_decimal is_negative whole []
decimal_tail is_negative (whole, c ∷ s) = if c == b'.' then fraction (span_digits s) else none
  where
    fraction : Text × Text → Option Decimal
    fraction ([], rest) = none
    fraction (d ∷ ds, []) = make_decimal is_negative whole (d ∷ ds)
    fraction (d ∷ ds, e ∷ rest) = none

-- A match of DECIMAL, with the number that it spells.
unfoldable pub parse_decimal : Text → Option Decimal
unfolding decimal_tail span_digits digits_value
parse_decimal [] = none
parse_decimal (c ∷ s) =
    if c == b'-'
    then decimal_tail true (span_digits s)
    else decimal_tail false (span_digits (c ∷ s))

unfoldable pub to_optional_number : JsValue → Option Decimal
unfolding parse_decimal
to_optional_number (number (finite d)) = some d
to_optional_number (string s) = parse_decimal s
to_optional_number _ = none

unfoldable pub is_integer : Decimal → Bool
is_integer d = d.digits % 10 ^ d.scale == 0

abbrev keep_integer : Option Decimal → Option Decimal
keep_integer none = none
keep_integer (some d) = if is_integer d then some d else none

unfoldable pub to_optional_integer : JsValue → Option Decimal
unfolding to_optional_number is_integer
to_optional_integer value = keep_integer (to_optional_number value)

-- `String(n)` of an integer, printed without an exponent as below 10 ^ 21.
unfoldable pub print_integer : Decimal → Text
print_integer d =
    let n = d.digits / 10 ^ d.scale in
    if d.is_negative && not (n == 0) then b'-' ∷ print_nat n else print_nat n

-- A number that is no integer is printed by `print_fraction`.
unfoldable pub to_optional_string : (JsNumber → Text) → JsValue → Option Text
to_optional_string print_number (string []) = none
to_optional_string print_number (string (c ∷ s)) = some (c ∷ s)
to_optional_string print_number (number n) = some (print_number n)
to_optional_string print_number _ = none

unfoldable pub is_record : JsValue → Bool
is_record (object fields) = true
is_record _ = false

-- `value.split(/[;,]\s*/)`; `skipping` stands behind a separator, where white space is its own.
tag_pieces : Bool → Text → Text → List Text
tag_pieces skipping piece [] = piece ∷ []
tag_pieces skipping piece (c ∷ s) = elim (c == b';' || c == b',') [
  | true ↦ piece ∷ tag_pieces true [] s
  | false ↦ elim (skipping && is_space c) [
    | true ↦ tag_pieces true piece s
    | false ↦ tag_pieces false (piece ++ c ∷ []) s
  ]
]

abbrev not_empty : Text → Bool
not_empty [] = false
not_empty (c ∷ s) = true

unfoldable pub parse_tag_list : JsValue → List Text
unfolding tag_pieces is_space
parse_tag_list (string s) = keep not_empty (tag_pieces false [] s)
parse_tag_list _ = []

abbrev strings_of : Items → List Text
strings_of no_items = []
strings_of (item (string s) rest) = s ∷ strings_of rest
strings_of (item _ rest) = strings_of rest

unfoldable pub string_list : JsValue → List Text
unfolding parse_tag_list
string_list (array items) = strings_of items
string_list value = parse_tag_list value

value_tests :
    (parse_boolean (codes "Yes") ≡ some true)
    × (to_optional_integer (string (codes "-12.00"))
        ≡ some (record { is_negative = true; digits = 1200; scale = 2 }))
    × (to_optional_number (string (codes "1.")) ≡ none)
    × (parse_tag_list (string (codes "a; b,,c d;")) ≡ codes "a" ∷ codes "b" ∷ codes "c d" ∷ [])
unfolding parse_boolean to_optional_integer parse_tag_list
value_tests = (refl, refl, refl, refl)
