-- ===== src/Console/Rfb/Keys.antt =====
-- src/console/rfb.ts: keysyms by key name, and the combinations that `press` takes.
use pve_agent.Base.{
  ltb, ◌==◌, if◌then◌else◌, in_range, length, Text, codes, text_eq, is_space, trim_start, trim,
  traverse, Outcome, ok, throw, ℕ, zero, suc, ◌+◌, ◌≡◌, refl, ◌||◌, Option, none, some, List, [],
  ◌∷◌, ◌++◌, map,
}

-- What `SPECIAL_KEYS[name]` is when it is not undefined: a keysym, or one of the two properties
-- with a name in lower case that every object inherits, `constructor` and `__proto__`.
pub data KeyValue : Type 0 where
  keysym : ℕ → KeyValue
  inherited : Text → KeyValue

abbrev pub special_keys : List (Text × KeyValue)
special_keys =
    (codes "return", keysym 0xff0d)
    ∷ (codes "enter", keysym 0xff0d)
    ∷ (codes "escape", keysym 0xff1b)
    ∷ (codes "esc", keysym 0xff1b)
    ∷ (codes "backspace", keysym 0xff08)
    ∷ (codes "tab", keysym 0xff09)
    ∷ (codes "space", keysym 0x0020)
    ∷ (codes "delete", keysym 0xffff)
    ∷ (codes "insert", keysym 0xff63)
    ∷ (codes "home", keysym 0xff50)
    ∷ (codes "end", keysym 0xff57)
    ∷ (codes "pageup", keysym 0xff55)
    ∷ (codes "pagedown", keysym 0xff56)
    ∷ (codes "left", keysym 0xff51)
    ∷ (codes "up", keysym 0xff52)
    ∷ (codes "right", keysym 0xff53)
    ∷ (codes "down", keysym 0xff54)
    ∷ (codes "f1", keysym 0xffbe)
    ∷ (codes "f2", keysym 0xffbf)
    ∷ (codes "f3", keysym 0xffc0)
    ∷ (codes "f4", keysym 0xffc1)
    ∷ (codes "f5", keysym 0xffc2)
    ∷ (codes "f6", keysym 0xffc3)
    ∷ (codes "f7", keysym 0xffc4)
    ∷ (codes "f8", keysym 0xffc5)
    ∷ (codes "f9", keysym 0xffc6)
    ∷ (codes "f10", keysym 0xffc7)
    ∷ (codes "f11", keysym 0xffc8)
    ∷ (codes "f12", keysym 0xffc9)
    ∷ (codes "shift", keysym 0xffe1)
    ∷ (codes "shift_l", keysym 0xffe1)
    ∷ (codes "shift_r", keysym 0xffe2)
    ∷ (codes "ctrl", keysym 0xffe3)
    ∷ (codes "control", keysym 0xffe3)
    ∷ (codes "control_l", keysym 0xffe3)
    ∷ (codes "control_r", keysym 0xffe4)
    ∷ (codes "alt", keysym 0xffe9)
    ∷ (codes "alt_l", keysym 0xffe9)
    ∷ (codes "alt_r", keysym 0xffea)
    ∷ (codes "altgr", keysym 0xfe03)
    ∷ (codes "super", keysym 0xffeb)
    ∷ (codes "super_l", keysym 0xffeb)
    ∷ (codes "super_r", keysym 0xffec)
    ∷ (codes "meta", keysym 0xffeb)
    ∷ (codes "meta_l", keysym 0xffeb)
    ∷ (codes "meta_r", keysym 0xffec)
    ∷ (codes "capslock", keysym 0xffe5)
    ∷ (codes "numlock", keysym 0xff7f)
    ∷ (codes "scrolllock", keysym 0xff14)
    ∷ (codes "printscreen", keysym 0xff61)
    ∷ (codes "pause", keysym 0xff13)
    ∷ (codes "menu", keysym 0xff67)
    ∷ []

abbrev object_properties : List (Text × KeyValue)
object_properties =
    (codes "constructor", inherited (codes "constructor"))
    ∷ (codes "__proto__", inherited (codes "__proto__"))
    ∷ []

lookup_name : Text → List (Text × KeyValue) → Option KeyValue
lookup_name name [] = none
lookup_name name ((key, value) ∷ rows) =
    if text_eq key name then some value else lookup_name name rows

-- `toLowerCase` as far as the result can be an ASCII letter: A to Z, and the Kelvin sign.
unfoldable pub lower_case : ℕ → ℕ
lower_case c = if in_range b'A' b'Z' c then c + 32 else if c == 0x212a then b'k' else c

unfoldable pub named_key : Text → Option KeyValue
unfolding lookup_name text_eq lower_case
named_key key = lookup_name (map lower_case key) (special_keys ++ object_properties)

-- An error is the key that nothing names.
unfoldable pub char_keysym : Text → Outcome Text KeyValue
char_keysym (code ∷ []) =
    if in_range 0x20 0x7e code || in_range 0xa0 0xff code
    then ok (keysym code)
    else if ltb 0xff code
    then ok (keysym (0x1000000 + code))
    else throw (code ∷ [])
char_keysym key = throw key

unfoldable pub char_to_keysym : Text → Outcome Text KeyValue
unfolding named_key char_keysym
char_to_keysym key = elim (named_key key) [ some value ↦ ok value | none ↦ char_keysym key ]

abbrev some_if_any : Text → Option Text
some_if_any [] = none
some_if_any (c ∷ s) = some (c ∷ s)

abbrev sign_rest : Text → Option Text
sign_rest [] = none
sign_rest (c ∷ s) = if c == b'+' || c == b'-' then some_if_any (trim_start s) else none

-- A match of the separator `\\s*[+-]\\s*(?=\\S)` at the start of the text gives the text behind it.
-- No other way of matching exists: white space and the two signs are different characters.
unfoldable pub separator_rest : Text → Option Text
unfolding trim_start is_space
separator_rest s = sign_rest (trim_start s)

-- `split` by the separator, one character or one separator a round.
split_combo : ℕ → Text → Text → List Text
split_combo zero piece s = (piece ++ s) ∷ []
split_combo (suc fuel) piece [] = piece ∷ []
split_combo (suc fuel) piece (c ∷ s) = elim (separator_rest (c ∷ s)) [
  | some rest ↦ piece ∷ split_combo fuel [] rest
  | none ↦ split_combo fuel (piece ++ c ∷ []) s
]

unfoldable pub combo_keys : Text → List Text
unfolding split_combo separator_rest trim
combo_keys combo = split_combo (suc (length (trim combo))) [] (trim combo)

unfoldable pub parse_key_combo : Text → Outcome Text (List KeyValue)
unfolding char_to_keysym combo_keys
parse_key_combo combo = traverse char_to_keysym (combo_keys combo)

combo_tests :
    (parse_key_combo (codes "ctrl-alt-delete")
      ≡ ok (keysym 0xffe3 ∷ keysym 0xffe9 ∷ keysym 0xffff ∷ []))
    × (parse_key_combo (codes "Ctrl + c") ≡ ok (keysym 0xffe3 ∷ keysym b'c' ∷ []))
    × (parse_key_combo (codes "ctrl--") ≡ ok (keysym 0xffe3 ∷ keysym b'-' ∷ []))
    × (parse_key_combo (codes "constructor") ≡ ok (inherited (codes "constructor") ∷ []))
    × (parse_key_combo (codes "nokey") ≡ throw (codes "nokey"))
unfolding parse_key_combo
combo_tests = (refl, refl, refl, refl, refl)
