-- ===== src/Core/Props/Writer.antt =====
-- src/core/props.ts: serialising a bag in the order that PVE writes it.
use pve_agent.Base.{
  ltb, ◌==◌, if◌then◌else◌, keep, Text, text_eq, includes_text, join, ◌>>=◌, ◌>>◌, map_ok, traverse,
  Outcome, ok, throw, Bool, true, false, not, ◌&&◌, ◌||◌, Option, none, some, List, [], ◌∷◌, ◌++◌,
  map,
}
use pve_agent.Core.Props.{
  PropertyScalar, PropertyFormatEntry, PropertyFormat, PropertyBag, PropertyError, unknown_key,
  lookup, is_defined, default_key_of,
}
use pve_agent.Core.Props.Parts.{stringify, validate_if}

-- `key=value` of every entry, where there is no format.
write_plain : Text × PropertyScalar → Outcome PropertyError Text
write_plain (key, value) = map_ok (λ s. key ++ (b'=' ∷ s)) (stringify key value none)

-- The map `keyAliases`; of two entries with one keyAlias the later counts, so it stands first.
key_aliases_from : PropertyFormat → List (Text × Text) → List (Text × Text)
key_aliases_from [] found = found
key_aliases_from ((key, entry) ∷ rest) found =
    key_aliases_from rest (add entry.key_alias entry.alias)
  where
    add : Option Text → Option Text → List (Text × Text)
    add (some name) (some partner) = (name, partner) ∷ found
    add _ _ = found

-- The parts written so far and the sub-keys that are done.
pub record Written : Type 0 where
  pub parts : List Text
  pub done : List Text

abbrev add_done : Text → Written → Written
add_done key w = record w { done = w.done ++ key ∷ [] }

abbrev add_part : Text → Written → Written
add_part part w = record w { parts = w.parts ++ part ∷ [] }

module _ (bag : PropertyBag) (format : PropertyFormat) (strict_keys : Bool)
    (default_key : Option Text) where
  write_pair :
      (key partner : Text)
      → (value partner_value : PropertyScalar) → Written
      → Outcome PropertyError Written
  write_pair key partner value partner_value w = do
    left ← stringify key value (lookup key format)
    right ← stringify partner partner_value (lookup partner format)
    ok (add_done partner (add_part (left ++ (b'=' ∷ right)) w))

  -- The entry that counts: that of the alias, where there is one.
  aliased : Option PropertyFormatEntry → Option PropertyFormatEntry
  aliased none = none
  aliased (some entry) = target entry.alias
    where
      target : Option Text → Option PropertyFormatEntry
      target none = some entry
      target (some name) = lookup name format

  is_default : Text → Option Text → Bool
  is_default key none = false
  is_default key (some name) = text_eq key name

  write_single : Text → PropertyScalar → Written → Outcome PropertyError Written
  write_single key value w =
      let entry = aliased (lookup key format) in
      if not (is_defined entry) && strict_keys
      then throw (unknown_key key)
      else map_ok
          (λ printed.
            add_part (if is_default key default_key then printed else key ++ (b'=' ∷ printed)) w)
          (stringify key value entry)

  -- The partner of a keyAlias sub-key, with its value if that is in the bag.
  write_value : Text → PropertyScalar → Option Text → Written → Outcome PropertyError Written
  write_value key value none w = write_single key value w
  write_value key value (some partner) w = with_partner (lookup partner bag)
    where
      with_partner : Option PropertyScalar → Outcome PropertyError Written
      with_partner none = write_single key value w
      with_partner (some partner_value) = write_pair key partner value partner_value w

  add_key : Text → Written → Outcome PropertyError Written
  add_key key w = if includes_text w.done key then ok w else write (lookup key bag)
    where
      write : Option PropertyScalar → Outcome PropertyError Written
      write none = ok (add_done key w)
      write (some value) =
          write_value key value (lookup key (key_aliases_from format [])) (add_done key w)

  add_keys : List Text → Written → Outcome PropertyError Written
  add_keys [] w = ok w
  add_keys (key ∷ keys) w = do next ← add_key key w; add_keys keys next

  is_required : Text → Bool
  is_required key = required (lookup key format)
    where
      required : Option PropertyFormatEntry → Bool
      required none = false
      required (some entry) = not entry.optional

  add_default : Written → Outcome PropertyError Written
  add_default w = elim default_key [ none ↦ ok w | some key ↦ add_key key w ]

-- `Object.keys(bag).sort()`, by code units.
unfoldable pub text_le : Text → Text → Bool
text_le [] t = true
text_le (a ∷ s) [] = false
text_le (a ∷ s) (b ∷ t) = ltb a b || (a == b && text_le s t)

insert_key : Text → List Text → List Text
insert_key key [] = key ∷ []
insert_key key (k ∷ ks) = if text_le key k then key ∷ k ∷ ks else k ∷ insert_key key ks

unfoldable pub sort_keys : List Text → List Text
unfolding insert_key text_le
sort_keys [] = []
sort_keys (k ∷ ks) = insert_key k (sort_keys ks)

abbrev nothing_written : Written
nothing_written = record { parts = []; done = [] }

abbrev keys_of : PropertyBag → List Text
keys_of bag = sort_keys (map (λ e. e.0) bag)

write_formatted : PropertyBag → PropertyFormat → Bool → Outcome PropertyError Text
write_formatted bag format strict_keys = do
  default_key ← default_key_of format
  first ← add_default bag format strict_keys default_key nothing_written
  second ←
      add_keys bag format strict_keys default_key
        (keep (is_required bag format strict_keys default_key) (keys_of bag)) first
  third ← add_keys bag format strict_keys default_key (keys_of bag) second
  ok (join (b',' ∷ []) third.parts)

-- The bag's own keys are no names that an object inherits, and none reads as an array index.
unfoldable pub format_property_string :
    PropertyBag → Option PropertyFormat → (strict_keys validate : Bool) → Outcome PropertyError Text
unfolding write_formatted write_plain add_default add_keys add_key write_value write_single
    write_pair aliased is_default is_required key_aliases_from sort_keys join lookup text_eq
format_property_string bag none strict_keys validate =
    map_ok (join (b',' ∷ [])) (traverse write_plain bag)
format_property_string bag (some format) strict_keys validate = do
  validate_if (some format) validate bag
  write_formatted bag format strict_keys
