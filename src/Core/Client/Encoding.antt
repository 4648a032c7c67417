-- ===== src/Core/Client/Encoding.antt =====
-- src/core/client.ts, encodeParams: the form fields of a call's parameters.
use pve_agent.Base.{
  Text, codes, ◌>>=◌, map_ok, Outcome, ok, throw, true, false, List, [], ◌∷◌, ◌++◌,
}
use pve_agent.Core.Values.{
  JsValue, undefined, null_value, boolean, number, string, array, finite, Items, no_items, item,
}
use pve_agent.Core.Errors.{PveError, config_error}

-- The entries of the parameter object.
abbrev pub Params : Type 0
Params = List (Text × JsValue)

module _ (print_value : JsValue → Text) where
  unfoldable pub encode_scalar : Text → JsValue → Outcome PveError Text
  encode_scalar key (boolean true) = ok (codes "1")
  encode_scalar key (boolean false) = ok (codes "0")
  encode_scalar key (string s) = ok s
  encode_scalar key (number (finite d)) = ok (print_value (number (finite d)))
  encode_scalar key _ = throw (config_error key)

  unfoldable pub encode_items : Text → Items → Outcome PveError (List (Text × Text))
  unfolding encode_scalar
  encode_items key no_items = ok []
  encode_items key (item value rest) = do
    text ← encode_scalar key value
    fields ← encode_items key rest
    ok ((key, text) ∷ fields)

  unfoldable pub encode_value : Text → JsValue → Outcome PveError (List (Text × Text))
  unfolding encode_scalar encode_items
  encode_value key undefined = ok []
  encode_value key null_value = ok []
  encode_value key (array items) = encode_items key items
  encode_value key value = map_ok (λ text. (key, text) ∷ []) (encode_scalar key value)

  unfoldable pub encode_params : Params → Outcome PveError (List (Text × Text))
  unfolding encode_value
  encode_params [] = ok []
  encode_params ((key, value) ∷ params) = do
    fields ← encode_value key value
    rest ← encode_params params
    ok (fields ++ rest)
