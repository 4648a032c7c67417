-- ===== src/Core/Client/Tiers.antt =====
-- src/core/client.ts, requiredTier and resolveDecision: when the ticket's tier is chosen.
use pve_agent.Base.{
  Bool-cases, Outcome, ok, throw, ◌≡◌, refl, ◌≢◌, inl, inr, Bool, true, false, ◌||◌, Option, none,
  some, List, [], ◌∷◌, arith,
}
use pve_agent.Core.Errors.{AuthTier, token_tier, ticket_tier, tier_eq, PveError}
use pve_agent.Core.Registry.{EndpointInfo}
use pve_agent.Core.Privileges.{RootOnlyParamHit}
use pve_agent.Core.Auth.{Credentials}
use pve_agent.Core.Client.{
  RequestOptions, TierDecision, is_root_only, forbids_token, decide_hits, decide_tier,
  check_decision, force_tier,
}

abbrev pub OnTicket : Outcome PveError TierDecision → Type 0
OnTicket (ok decision) = decision.tier ≡ ticket_tier
OnTicket (throw e) = Unit

-- The reasons for which a call needs a ticket, whatever credentials there are.
abbrev pub needs_ticket : Option EndpointInfo → List RootOnlyParamHit → Bool
needs_ticket endpoint [] = is_root_only endpoint || forbids_token endpoint
needs_ticket endpoint (hit ∷ hits) = true

decide_hits-ticket :
    (held : Credentials) (endpoint : Option EndpointInfo) (hits : List RootOnlyParamHit)
    → is_root_only endpoint ≡ false
    → needs_ticket endpoint hits ≡ true
    → (decide_hits held endpoint hits).tier ≡ ticket_tier
decide_hits-ticket held endpoint [] other h =
    let forbidden : forbids_token endpoint ≡ true = ground (arith, other, h) in rw forbidden refl
decide_hits-ticket held endpoint (hit ∷ hits) other h = refl

pub decide_tier-ticket :
    (held : Credentials) (endpoint : Option EndpointInfo) (hits : List RootOnlyParamHit)
    → needs_ticket endpoint hits ≡ true
    → (decide_tier held endpoint hits).tier ≡ ticket_tier
unfolding decide_tier
decide_tier-ticket held endpoint hits h = elim (Bool-cases (is_root_only endpoint)) [
  | inl root ↦ rw root refl
  | inr other ↦ rw other (decide_hits-ticket held endpoint hits other h)
]

force_tier-ticket :
    (asked : Option AuthTier) (decision : TierDecision)
    → asked ≢ some token_tier
    → decision.tier ≡ ticket_tier
    → (force_tier asked decision).tier ≡ ticket_tier
force_tier-ticket none decision other e = e
force_tier-ticket (some token_tier) decision other e = absurd (other refl)
force_tier-ticket (some ticket_tier) decision other e =
    elim (Bool-cases (tier_eq ticket_tier decision.tier)) [
      | inl same ↦ rw same e
      | inr differs ↦ rw differs refl
    ]

pub check_decision-OnTicket :
    (held : Credentials) (options : RequestOptions) (decision : TierDecision)
    → options.tier ≢ some token_tier
    → decision.tier ≡ ticket_tier
    → OnTicket (check_decision held options decision)
unfolding check_decision
check_decision-OnTicket held options decision other e =
    let tier = force_tier-ticket options.tier decision other e in ground (arith, tier)
