-- ===== src/Core/Client/RootOnly.antt =====
-- src/core/client.ts: a call that only root@pam may make.
use pve_agent.Base.{
  Bool-cases, Text, throw, ℕ, ◌≡◌, refl, ap, ◌∙◌, ◌≢◌, inl, inr, Bool, true, false, Option, none,
  some, List, [], ◌∷◌, arith,
}
use pve_agent.Core.Errors.{AuthTier, token_tier, ticket_tier, tier_eq, tier_error}
use pve_agent.Core.Registry.{EndpointInfo, resolve_endpoint}
use pve_agent.Core.Privileges.{RootOnlyParamHit}
use pve_agent.Core.Auth.{Message, Reply, Wire, Credentials, has, has_root_ticket}
use pve_agent.Core.Client.Encoding.{Params}
use pve_agent.Core.Client.{
  RequestOptions, TierDecision, Setting, is_root_only, decide_tier, is_known, is_forced,
  check_decision, force_tier, hits_for, request, required_tier, resolve_decision,
}

-- What makes a call one for root@pam.
abbrev pub needs_root : Option EndpointInfo → List RootOnlyParamHit → Bool
needs_root endpoint [] = is_root_only endpoint
needs_root endpoint (hit ∷ hits) = true

decide_tier-root :
    (held : Credentials) (endpoint : Option EndpointInfo) (hits : List RootOnlyParamHit)
    → needs_root endpoint hits ≡ true
    → (((decide_tier held endpoint hits).tier ≡ ticket_tier)
        × ((decide_tier held endpoint hits).requires_root_pam ≡ true))
      × ((decide_tier held endpoint hits).endpoint ≡ endpoint)
unfolding decide_tier
decide_tier-root held endpoint [] h = rw h ((refl, refl), refl)
decide_tier-root held endpoint (hit ∷ hits) h = elim (Bool-cases (is_root_only endpoint)) [
  | inl root ↦ rw root ((refl, refl), refl)
  | inr other ↦ rw other ((refl, refl), refl)
]

force_tier-same :
    (asked : Option AuthTier) (decision : TierDecision)
    → asked ≢ some token_tier
    → decision.tier ≡ ticket_tier
    → (force_tier asked decision ≡ decision) × (is_forced asked ticket_tier ≡ false)
force_tier-same none decision other e = (refl, refl)
force_tier-same (some token_tier) decision other e = absurd (other refl)
force_tier-same (some ticket_tier) decision other e =
    let same : tier_eq ticket_tier decision.tier ≡ true = ap (tier_eq ticket_tier) e in
    (simp same, refl)

check_decision-root :
    (held : Credentials) (options : RequestOptions) (decision : TierDecision)
    → options.tier ≢ some token_tier
    → decision.tier ≡ ticket_tier
    → decision.requires_root_pam ≡ true
    → is_known decision.endpoint ≡ true
    → has_root_ticket held ≡ false
    → check_decision held options decision ≡ throw (tier_error ticket_tier)
unfolding check_decision
check_decision-root held options decision other e root known no_root =
    let (same, unforced) = force_tier-same options.tier decision other e in
    elim (Bool-cases (has held ticket_tier)) [
      | inl held_one ↦ simp (known, same, e, held_one, root, unforced, no_root)
      | inr none_held ↦ simp (known, same, e, none_held)
    ]

needs_root-known :
    (setting : Setting) (method path : Text) (params : Params)
    → (endpoint : Option EndpointInfo)
    → needs_root endpoint (hits_for setting method endpoint params) ≡ true
    → is_known endpoint ≡ true
needs_root-known setting method path params none h = absurd (ground (arith, h))
needs_root-known setting method path params (some info) h = refl

module _ (setting : Setting) (answer : ℕ → Message → Reply) (now : ℕ → ℕ) where
  -- Without credentials of root@pam, a call of an endpoint for root@pam, or one with a parameter for
  -- root@pam, is refused with the tier it needs, unless the caller asks for the token's tier; to ask for
  -- the ticket's tier changes nothing. Nothing is sent, the clock is not read, and the ticket that was
  -- kept stays.
  pub request-root_only :
      (method path : Text) (params : Params) (options : RequestOptions) (wire : Wire)
      → needs_root
          (resolve_endpoint setting.registry method path)
          (hits_for setting method (resolve_endpoint setting.registry method path) params)
        ≡ true
      → options.tier ≢ some token_tier
      → has_root_ticket setting.held ≡ false
      → request setting answer now method path params options wire
        ≡ (throw (tier_error ticket_tier), wire)
  unfolding request resolve_decision required_tier
  request-root_only method path params options wire root other no_root =
      let endpoint = resolve_endpoint setting.registry method path in
      let ((on_ticket, for_root), of_endpoint) =
        decide_tier-root setting.held endpoint (hits_for setting method endpoint params) root in
      let known = needs_root-known setting method path params endpoint root in
      let refused : resolve_decision setting method path params options
          ≡ throw (tier_error ticket_tier) =
        check_decision-root setting.held options (required_tier setting method path params) other
          on_ticket for_root (ap is_known of_endpoint ∙ known) no_root in
      rw refused refl
