-- ===== src/Core/Client/Count.antt =====
-- src/core/client.ts: how many messages one request comes to.
use pve_agent.Base.{Text, ℕ, ◌+◌, ◌≤◌, refl, arith}
use pve_agent.Base.Exec.{give, lift}
use pve_agent.Core.Errors.{AuthTier, token_tier, ticket_tier}
use pve_agent.Core.Auth.{Message, Reply, Wire, token_header}
use pve_agent.Core.Auth.Counted.{
  calls, logins, Sends, bind-Sends, still-Sends, if-Sends, call-Sends, get_ticket-Sends,
  force_refresh-Sends,
}
use pve_agent.Core.Client.Encoding.{Params, encode_params}
use pve_agent.Core.Client.{
  RequestOptions, TierDecision, Setting, auth_headers, attempt, retry, refused_ticket, request,
  sign_request, resolve_decision,
}

module _ (setting : Setting) (answer : ℕ → Message → Reply) (now : ℕ → ℕ) where
  auth_headers-Sends :
      (method : Text) (tier : AuthTier) → Sends 0 2 (auth_headers setting answer now method tier)
  unfolding auth_headers
  auth_headers-Sends method token_tier =
      bind-Sends 0 0 0 2 (lift (token_header setting.held)) _ (still-Sends 0 0 _ (λ wire. refl))
        (λ header. still-Sends 0 2 (give _) (λ wire. refl))
  auth_headers-Sends method ticket_tier =
      bind-Sends 0 2 0 0 _ _ (get_ticket-Sends setting.parse_json answer now setting.held.ticket)
        (λ ticket. still-Sends 0 0 (give _) (λ wire. refl))

  attempt-Sends :
      (method path : Text) (params : Params) (options : RequestOptions) (decision : TierDecision)
      → Sends 1 2 (attempt setting answer now method path params options decision)
  unfolding attempt
  attempt-Sends method path params options decision =
      bind-Sends 0 2 1 0 _ _ (auth_headers-Sends method decision.tier) (λ headers.
        bind-Sends 0 0 1 0 (lift (encode_params setting.print_value params)) _
          (still-Sends 0 0 _ (λ wire. refl))
          (λ fields.
            bind-Sends 0 0 1 0 (lift _) _ (still-Sends 0 0 _ (λ wire. refl))
              (λ call. call-Sends setting.parse_json answer now call)))

  retry-Sends :
      (method path : Text) (params : Params) (options : RequestOptions) (decision : TierDecision)
      (response : ℕ × Text)
      → Sends 1 3 (retry setting answer now method path params options decision response)
  retry-Sends method path params options decision response =
      if-Sends 1 3 (refused_ticket setting answer now decision response.0) _ (give response)
        (bind-Sends 0 1 1 2 _ _
          (force_refresh-Sends setting.parse_json answer now setting.held.ticket)
          (λ ticket. attempt-Sends method path params options decision))
        (still-Sends 1 3 (give response) (λ wire. refl))

  request-Sends :
      (method path : Text) (params : Params) (options : RequestOptions)
      → Sends 2 5 (request setting answer now method path params options)
  unfolding request
  request-Sends method path params options =
      bind-Sends 0 0 2 5 (lift (resolve_decision setting method path params options)) _
        (still-Sends 0 0 _ (λ wire. refl))
        (λ decision.
          bind-Sends 1 2 1 3 _ _ (attempt-Sends method path params options decision) (λ first.
            bind-Sends 1 3 0 0 _ _ (retry-Sends method path params options decision first)
              (λ response. still-Sends 0 0 (lift _) (λ wire. refl))))

  -- Whatever the server answers, one request makes at most two calls of the API and at most five
  -- posts of credentials.
  pub request-bounded :
      (method path : Text) (params : Params) (options : RequestOptions) (wire : Wire)
      → (calls ((request setting answer now method path params options wire).1.sent)
          ≤ calls wire.sent + 2)
        × (logins ((request setting answer now method path params options wire).1.sent)
            ≤ logins wire.sent + 5)
  request-bounded method path params options wire =
      (request-Sends method path params options).run wire

  sign_request-Sends :
      (method path : Text) (params : Params) (options : RequestOptions)
      → Sends 0 2 (sign_request setting answer now method path params options)
  unfolding sign_request
  sign_request-Sends method path params options =
      bind-Sends 0 0 0 2 (lift (resolve_decision setting method path params options)) _
        (still-Sends 0 0 _ (λ wire. refl))
        (λ decision. bind-Sends 0 2 0 0 _ _ (auth_headers-Sends method decision.tier) (λ headers.
          bind-Sends 0 0 0 0 (lift (encode_params setting.print_value params)) _
            (still-Sends 0 0 _ (λ wire. refl)) (λ fields. still-Sends 0 0 (give _) (λ wire. refl))))

  -- Signing a call makes no call of the API, and at most two posts of credentials.
  pub sign_request-bounded :
      (method path : Text) (params : Params) (options : RequestOptions) (wire : Wire)
      → (calls ((sign_request setting answer now method path params options wire).1.sent)
          ≤ calls wire.sent)
        × (logins ((sign_request setting answer now method path params options wire).1.sent)
            ≤ logins wire.sent + 2)
  sign_request-bounded method path params options wire =
      let (h, k) = (sign_request-Sends method path params options).run wire in (omega arith, k)
