-- ===== src/Core/Client.antt =====
-- src/core/client.ts: which credential a call goes out with, what is sent, and what the answer comes
-- to. The parameters of a call are its entries in the order of `Object.entries`; the trace callback and
-- the abort signal are left out, and a body is a text.
pub mod Envelope
pub mod Encoding
pub mod Headers
pub mod Tiers
pub mod Tickets
pub mod Count
pub mod Settled
mod Tests
pub mod RootOnly
use pve_agent.Base.{
  ◌==◌, if◌then◌else◌, Text, codes, text_eq, map_ok, Outcome, ok, throw, ℕ, Bool, true, false, not,
  ◌&&◌, Option, none, some, List, [], ◌∷◌, ◌++◌,
}
use pve_agent.Base.Exec.{◌>>=◌, ◌>>◌, give, lift}
use pve_agent.Core.Values.{JsValue}
use pve_agent.Core.Errors.{
  AuthTier, token_tier, ticket_tier, tier_eq, PveError, config_error, tier_error,
}
use pve_agent.Core.Registry.{EndpointInfo, resolve_endpoint}
use pve_agent.Core.Privileges.{RootOnlyParamHit, root_only_params}
use pve_agent.Core.Auth.{
  PveTicket, ApiCall, Message, api_call, Reply, Task, Credentials, has, has_root_ticket,
  token_header, post, get_ticket, force_refresh,
}
use Envelope.{EnvelopeResult, settle_response}
use Encoding.{Params, encode_params}
use Headers.{set_header, assign_headers, append_query, is_get, in_query, accept_header, form_type}

pub data TierReason : Type 0 where
  root_only_endpoint token_not_allowed token_reaches no_token_configured caller_asked : TierReason
  root_only_parameter : RootOnlyParamHit → TierReason

pub record TierDecision : Type 0 where
  pub tier : AuthTier
  pub reason : TierReason
  pub requires_root_pam : Bool
  pub endpoint : Option EndpointInfo
  pub hits : List RootOnlyParamHit

pub record RequestOptions : Type 0 where
  pub tier : Option AuthTier
  pub headers : List (Text × Text)
  pub allow_unknown_endpoint : Bool
  pub body : Option Text

abbrev pub decide :
    Option EndpointInfo → List RootOnlyParamHit → AuthTier → TierReason → Bool → TierDecision
decide endpoint hits tier reason requires_root_pam = record {
  tier = tier;
  reason = reason;
  requires_root_pam = requires_root_pam;
  endpoint = endpoint;
  hits = hits;
}

abbrev pub is_root_only : Option EndpointInfo → Bool
is_root_only none = false
is_root_only (some info) = info.root_only

abbrev pub forbids_token : Option EndpointInfo → Bool
forbids_token none = false
forbids_token (some info) = not info.allow_token

-- The tests of requiredTier behind the first one.
abbrev pub decide_hits : Credentials → Option EndpointInfo → List RootOnlyParamHit → TierDecision
decide_hits held endpoint (hit ∷ hits) =
    decide endpoint (hit ∷ hits) ticket_tier (root_only_parameter hit) true
decide_hits held endpoint [] =
    if forbids_token endpoint
    then decide endpoint [] ticket_tier token_not_allowed false
    else if has held token_tier
    then decide endpoint [] token_tier token_reaches false
    else decide endpoint [] ticket_tier no_token_configured false

unfoldable pub decide_tier :
    Credentials → Option EndpointInfo → List RootOnlyParamHit → TierDecision
unfolding has
decide_tier held endpoint hits =
    if is_root_only endpoint
    then decide endpoint hits ticket_tier root_only_endpoint true
    else decide_hits held endpoint hits

abbrev pub is_known : Option EndpointInfo → Bool
is_known none = false
is_known (some info) = true

-- `options.tier !== undefined && options.tier !== decision.tier`.
abbrev pub is_forced : Option AuthTier → AuthTier → Bool
is_forced none tier = false
is_forced (some asked) tier = not (tier_eq asked tier)

abbrev pub force_tier : Option AuthTier → TierDecision → TierDecision
force_tier none decision = decision
force_tier (some asked) decision =
    if tier_eq asked decision.tier
    then decision
    else record decision { tier = asked; reason = caller_asked }

unfoldable pub check_decision :
    Credentials → RequestOptions → TierDecision → Outcome PveError TierDecision
unfolding has has_root_ticket
check_decision held options decision =
    let effective = force_tier options.tier decision in
    if not (is_known decision.endpoint) && not options.allow_unknown_endpoint
    then throw (config_error (codes "not in the generated endpoint registry"))
    else if not (has held effective.tier)
    then throw (tier_error effective.tier)
    else if effective.requires_root_pam
        && (not (is_forced options.tier decision.tier) && not (has_root_ticket held))
    then throw (tier_error ticket_tier)
    else ok effective

-- What the program runs in: the generated tables, the encodings of the platform, the credentials and
-- the address.
pub record Setting : Type 0 where
  pub registry : List EndpointInfo
  pub documented : Text → Text → List Text
  pub print_value : JsValue → Text
  pub form : List (Text × Text) → Text
  pub encode_component : Text → Text
  pub parse_json : Text → Option JsValue
  pub base_url : Text
  pub held : Credentials

module _ (setting : Setting) where
  open setting use {held, base_url}

  abbrev documented_for : Text → EndpointInfo → List Text
  documented_for method info = setting.documented method info.path

  abbrev pub hits_for : Text → Option EndpointInfo → Params → List RootOnlyParamHit
  hits_for method none params = []
  hits_for method (some info) params =
      root_only_params setting.print_value (documented_for method info) info.path params

  unfoldable pub required_tier : Text → Text → Params → TierDecision
  unfolding resolve_endpoint decide_tier root_only_params
  required_tier method path params =
      let endpoint = resolve_endpoint setting.registry method path in
      decide_tier held endpoint (hits_for method endpoint params)

  unfoldable pub resolve_decision :
      Text → Text → Params → RequestOptions → Outcome PveError TierDecision
  unfolding required_tier check_decision
  resolve_decision method path params options =
      check_decision held options (required_tier method path params)

  unfoldable pub ticket_headers : Text → PveTicket → List (Text × Text)
  unfolding set_header text_eq
  ticket_headers method ticket =
      let cookie = codes "PVEAuthCookie=" ++ setting.encode_component ticket.ticket in
      let headers = set_header (codes "Cookie") cookie accept_header in
      if is_get method
      then headers
      else set_header (codes "CSRFPreventionToken") ticket.csrf_token headers

  abbrev pub api_url : Text → Text → Text
  api_url path query = base_url ++ (codes "/api2/json" ++ append_query path query)

  module _ (answer : ℕ → Message → Reply) (now : ℕ → ℕ) where
    unfoldable pub auth_headers : Text → AuthTier → Task (List (Text × Text))
    unfolding token_header set_header
    auth_headers method token_tier = do
      header ← lift (token_header held)
      give (set_header (codes "Authorization") header accept_header)
    auth_headers method ticket_tier = do
      ticket ← get_ticket setting.parse_json answer now held.ticket
      give (ticket_headers method ticket)

    -- The call is put together: the parameters stand in the query, or in the body.
    abbrev pub body_of : Option Text → List (Text × Text) → Outcome PveError (Option Text × Bool)
    body_of body [] = ok (body, false)
    body_of none fields = ok (some (setting.form fields), true)
    body_of (some body) fields = throw (config_error (codes "both a body and parameters"))

    -- The call, from the headers so far and the encoded parameters.
    unfoldable pub build_call :
        Text
        → Text
        → Option Text
        → List (Text × Text)
        → List (Text × Text)
        → Outcome PveError ApiCall
    unfolding append_query set_header text_eq
    build_call method path given headers fields =
        if in_query method
        then ok (record {
          method = method;
          url = api_url path (setting.form fields);
          headers = headers;
          body = given;
        })
        else map_ok
            (λ b. record {
              method = method;
              url = api_url path [];
              headers = if b.1 then set_header form_type.0 form_type.1 headers else headers;
              body = b.0;
            })
            (body_of given fields)

    unfoldable pub attempt : Text → Text → Params → RequestOptions → TierDecision → Task (ℕ × Text)
    unfolding auth_headers encode_params assign_headers build_call post
    attempt method path params options decision = do
      headers ← auth_headers method decision.tier
      fields ← lift (encode_params setting.print_value params)
      call ←
          lift (build_call method path options.body (assign_headers headers options.headers) fields)
      post setting.parse_json answer now (api_call call)

    abbrev pub refused_ticket : TierDecision → ℕ → Bool
    refused_ticket decision status = status == 401 && tier_eq decision.tier ticket_tier

    -- The second attempt, after one fresh login.
    abbrev pub retry :
        Text → Text → Params → RequestOptions → TierDecision → ℕ × Text → Task (ℕ × Text)
    retry method path params options decision response =
        if refused_ticket decision response.0
        then (do
          ticket ← force_refresh setting.parse_json answer now held.ticket
          attempt method path params options decision)
        else give response

    unfoldable pub request : Text → Text → Params → RequestOptions → Task EnvelopeResult
    unfolding resolve_decision attempt force_refresh settle_response
    request method path params options = do
      decision ← lift (resolve_decision method path params options)
      first ← attempt method path params options decision
      response ← retry method path params options decision first
      lift (settle_response setting.parse_json method path decision.tier response)

    -- What `request` would send, without sending it.
    unfoldable pub sign_request :
        Text → Text → Params → RequestOptions → Task (Text × List (Text × Text))
    unfolding resolve_decision auth_headers encode_params assign_headers append_query
    sign_request method path params options = do
      decision ← lift (resolve_decision method path params options)
      headers ← auth_headers method decision.tier
      fields ← lift (encode_params setting.print_value params)
      give (api_url path (setting.form fields), assign_headers headers options.headers)
