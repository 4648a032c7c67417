-- ===== src/Core/Client/Envelope.antt =====
-- src/core/client.ts, settleResponse: the value or the error that an answer comes to.
use pve_agent.Base.{
  ltb, ◌==◌, if◌then◌else◌, length, take, any, Text, codes, text_eq, find_text, trim, lower,
  Outcome, ok, throw, ℕ, Bool, true, false, not, ◌&&◌, ◌||◌, Option, none, some, List, [], ◌∷◌,
  ◌++◌, map,
}
use pve_agent.Core.Values.{JsValue, undefined, object, Entries, no_entries, entry}
use pve_agent.Core.Errors.{
  AuthTier, PveError, auth_error, permission_error, not_found_error, api_error,
}
use pve_agent.Core.Auth.{field, string_of, is_ok_status}

pub record EnvelopeResult : Type 0 where
  pub value : JsValue
  pub attribs : List (Text × JsValue)

-- The entries beside `data`.
unfoldable pub siblings : Entries → List (Text × JsValue)
unfolding text_eq
siblings no_entries = []
siblings (entry name value rest) =
    let others = siblings rest in
    if text_eq name (codes "data") then others else (name, value) ∷ others

abbrev pub is_envelope : Option JsValue → Bool
is_envelope (some (object fields)) = true
is_envelope _ = false

unfoldable pub read_result : Option JsValue → EnvelopeResult
unfolding field siblings
read_result (some (object fields)) = record {
  value = field (codes "data") fields;
  attribs = siblings fields;
}
read_result _ = record { value = undefined; attribs = [] }

abbrev trimmed : Option Text → Text
trimmed none = []
trimmed (some s) = trim s

abbrev envelope_text : Option JsValue → Text
envelope_text (some (object fields)) = trimmed (string_of (field (codes "message") fields))
envelope_text _ = []

-- `a || b`.
abbrev or_text : Text → Text → Text
or_text [] b = b
or_text (c ∷ s) b = c ∷ s

unfoldable pub detail_of : Option JsValue → Text → Text
unfolding field trim
detail_of envelope body =
    or_text (envelope_text envelope) (or_text (take 500 (trim body)) (codes "no response body"))

abbrev pub is_found : Option ℕ → Bool
is_found none = false
is_found (some n) = true

-- MISSING_OBJECT.
unfoldable pub names_missing_object : Text → Bool
unfolding find_text lower
names_missing_object detail =
    any (λ phrase. is_found (find_text (codes phrase) (map lower detail)))
      ("does not exist" ∷ "no such" ∷ "not found" ∷ "unable to find" ∷ [])

unfoldable pub error_of : (method path : Text) → AuthTier → ℕ → Text → PveError
unfolding names_missing_object
error_of method path tier status detail =
    if status == 401
    then auth_error tier detail
    else if status == 403
    then permission_error method path tier detail
    else if status == 404 || (status == 501 || (status == 500 && names_missing_object detail))
    then not_found_error method path detail
    else api_error status method path detail

module _ (parse_json : Text → Option JsValue) where
  unfoldable pub settle_response :
      (method path : Text) → AuthTier → ℕ × Text → Outcome PveError EnvelopeResult
  unfolding read_result detail_of error_of trim
  settle_response method path tier (status, body) =
      let envelope = parse_json body in
      if is_ok_status status
      then (if not (is_envelope envelope) && ltb 0 (length (trim body))
          then throw (
              api_error status method path
                (codes "the response is not JSON: " ++ take 300 (trim body)))
          else ok (read_result envelope))
      else throw (error_of method path tier status (detail_of envelope body))
