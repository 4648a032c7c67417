-- ===== src/Core/Client/Tickets.antt =====
-- src/core/client.ts: where the API token goes.
use pve_agent.Base.{
  if◌then◌else◌, Bool-cases, any, lower, map, All, Text, codes, text_eq, map_ok, Outcome, ok, throw,
  ℕ, ◌≡◌, refl, subst, ◌≢◌, inl, inr, Bool, true, false, Option, some, List, [], ◌∷◌, arith,
}
use pve_agent.Base.Exec.{
  Preserves, bind-Preserves, give-bind-Preserves, lift-bind-Preserves, if-Preserves, give-Preserves,
  lift-Preserves,
}
use pve_agent.Core.Errors.{token_tier, ticket_tier, PveError}
use pve_agent.Core.Auth.{PveTicket, ApiCall, Message, login_post, api_call, Reply, Wire, get_ticket}
use pve_agent.Core.Auth.Sending.{
  AllSent, post-Preserves, get_ticket-Preserves, force_refresh-Preserves,
}
use pve_agent.Core.Registry.{resolve_endpoint}
use pve_agent.Core.Client.Tiers.{
  OnTicket, needs_ticket, decide_tier-ticket, check_decision-OnTicket,
}
use pve_agent.Core.Client.Encoding.{Params, encode_params}
use pve_agent.Core.Client.{
  RequestOptions, TierDecision, Setting, ticket_headers, hits_for, api_url, body_of, build_call,
  attempt, retry, refused_ticket, request, required_tier, resolve_decision,
}
use pve_agent.Core.Client.Headers.{set_header, assign_headers, form_type, in_query, is_get}

-- The header that carries the API token; a server reads its name in any case.
unfoldable pub is_authorization : Text → Bool
unfolding lower text_eq
is_authorization name = text_eq (map lower name) (codes "authorization")

abbrev pub authorizes : List (Text × Text) → Bool
authorizes headers = any (λ header. is_authorization header.0) headers

-- A call of the API without a header that can carry the token. A login has none of these headers: its
-- user name and its password are all that the client puts into it.
abbrev pub IsTokenless : Message → Type 0
IsTokenless (login_post username password) = Unit
IsTokenless (api_call call) = authorizes call.headers ≡ false

set_header-names :
    (name value : Text) (headers : List (Text × Text))
    → is_authorization name ≡ false
    → authorizes headers ≡ false
    → authorizes (set_header name value headers) ≡ false
unfolding set_header
set_header-names name value [] other h = ground (arith, other)
set_header-names name value ((key, old) ∷ headers) other h =
    elim (Bool-cases (is_authorization key)) [
      | inl same ↦ absurd (ground (arith, same, h))
      | inr differs ↦ elim (Bool-cases (text_eq key name)) [
        | inl found ↦ ground (arith, found, differs, h)
        | inr next ↦
            let rest = set_header-names name value headers other (ground (arith, differs, h)) in
            ground (arith, next, differs, rest)
      ]
    ]

assign_headers-names :
    (headers given : List (Text × Text))
    → authorizes given ≡ false
    → authorizes headers ≡ false
    → authorizes (assign_headers headers given) ≡ false
unfolding assign_headers
assign_headers-names headers [] none_given h = h
assign_headers-names headers ((name, value) ∷ given) none_given h =
    elim (Bool-cases (is_authorization name)) [
      | inl same ↦ absurd (ground (arith, same, none_given))
      | inr differs ↦
          assign_headers-names (set_header name value headers) given
            (ground (arith, differs, none_given)) (set_header-names name value headers differs h)
    ]

module _ (setting : Setting) where
  ticket_headers-names :
      (method : Text) (ticket : PveTicket)
      → authorizes (ticket_headers setting method ticket) ≡ false
  unfolding ticket_headers set_header text_eq is_authorization lower
  ticket_headers-names method ticket = elim (Bool-cases (is_get method)) [
    | inl get ↦ ground (arith, get)
    | inr other ↦ ground (arith, other)
  ]

  module _ (answer : ℕ → Message → Reply) (now : ℕ → ℕ) where
    abbrev Tokenless : Outcome PveError ApiCall → Type 0
    Tokenless (ok call) = authorizes call.headers ≡ false
    Tokenless (throw e) = Unit

    typed_body-Tokenless :
        (method path : Text) (headers : List (Text × Text))
        (body : Outcome PveError (Option Text × Bool))
        → authorizes headers ≡ false
        → Tokenless (
            map_ok
              (λ b. record {
                method = method;
                url = api_url setting path [];
                headers = if b.1 then set_header form_type.0 form_type.1 headers else headers;
                body = b.0;
              })
              body)
    unfolding is_authorization lower text_eq
    typed_body-Tokenless method path headers (ok (body, true)) h =
        set_header-names form_type.0 form_type.1 headers refl h
    typed_body-Tokenless method path headers (ok (body, false)) h = h
    typed_body-Tokenless method path headers (throw e) h = tt

    -- The headers of a call that was put together are those given, with at most the type of the form.
    build_call-Tokenless :
        (method path : Text) (given : Option Text) (headers fields : List (Text × Text))
        → authorizes headers ≡ false
        → Tokenless (build_call setting answer now method path given headers fields)
    unfolding build_call
    build_call-Tokenless method path given headers fields h = elim (Bool-cases (in_query method)) [
      | inl query ↦ rw query h
      | inr other ↦
          rw other
            (typed_body-Tokenless method path headers (body_of setting answer now given fields) h)
    ]

    attempt-Preserves :
        (method path : Text) (params : Params) (options : RequestOptions) (decision : TierDecision)
        → authorizes options.headers ≡ false
        → decision.tier ≡ ticket_tier
        → Preserves
            (AllSent IsTokenless)
            (attempt setting answer now method path params options decision)
    unfolding attempt
    attempt-Preserves method path params options decision none_given e = rw e (
        give-bind-Preserves (AllSent IsTokenless)
          (get_ticket setting.parse_json answer now setting.held.ticket)
          (ticket_headers setting method) _
          (get_ticket-Preserves IsTokenless setting.parse_json answer now (λ u p. tt)
            setting.held.ticket)
          (λ ticket.
            lift-bind-Preserves (AllSent IsTokenless) (encode_params setting.print_value params) _
              (λ fields _. lift-bind-Preserves (AllSent IsTokenless) _ _ (λ call built.
                post-Preserves IsTokenless setting.parse_json answer now (api_call call) (
                  subst Tokenless built (
                    build_call-Tokenless method path options.body _ fields (
                      assign_headers-names _ options.headers none_given
                        (ticket_headers-names method ticket))))))))

    retry-Preserves :
        (method path : Text) (params : Params) (options : RequestOptions) (decision : TierDecision)
        (response : ℕ × Text)
        → authorizes options.headers ≡ false
        → decision.tier ≡ ticket_tier
        → Preserves
            (AllSent IsTokenless)
            (retry setting answer now method path params options decision response)
    retry-Preserves method path params options decision response none_given e =
        if-Preserves (AllSent IsTokenless) (refused_ticket setting answer now decision response.0) _
          _
          (bind-Preserves (AllSent IsTokenless) _ _
            (force_refresh-Preserves IsTokenless setting.parse_json answer now (λ u p. tt)
              setting.held.ticket)
            (λ ticket. attempt-Preserves method path params options decision none_given e))
          (give-Preserves (AllSent IsTokenless) response)

  module _ (answer : ℕ → Message → Reply) (now : ℕ → ℕ) where
    -- When the endpoint is for root@pam or not reachable with a token, or a parameter is for root@pam,
    -- no call of the API that a request sends has an Authorization header, in any case of its letters,
    -- unless the caller asks for the token's tier or gives such a header.
    pub request-IsTokenless :
        (method path : Text) (params : Params) (options : RequestOptions) (wire : Wire)
        → needs_ticket
            (resolve_endpoint setting.registry method path)
            (hits_for setting method (resolve_endpoint setting.registry method path) params)
          ≡ true
        → options.tier ≢ some token_tier
        → authorizes options.headers ≡ false
        → All IsTokenless wire.sent
        → All IsTokenless ((request setting answer now method path params options wire).1.sent)
    unfolding request resolve_decision required_tier
    request-IsTokenless method path params options wire needs other none_given =
        let endpoint = resolve_endpoint setting.registry method path in
        let required =
          decide_tier-ticket setting.held endpoint (hits_for setting method endpoint params)
            needs in
        let keeps : Preserves (AllSent IsTokenless)
            (request setting answer now method path params options) =
          lift-bind-Preserves (AllSent IsTokenless)
            (resolve_decision setting method path params options) _
            (λ decision resolved.
              let e : decision.tier ≡ ticket_tier =
                subst OnTicket resolved
                  (check_decision-OnTicket setting.held options _ other required) in
              bind-Preserves (AllSent IsTokenless) _ _
                (attempt-Preserves answer now method path params options decision none_given e)
                (λ first.
                  bind-Preserves (AllSent IsTokenless) _ _
                    (retry-Preserves answer now method path params options decision first none_given
                      e)
                    (λ response. lift-Preserves (AllSent IsTokenless) _))) in
        keeps.run wire
