-- ===== src/Core/Auth/Kept.antt =====
-- src/core/auth.ts: the ticket that is kept.
use pve_agent.Base.{
  Bool-cases, Text, Outcome, ok, throw, ℕ, ◌+◌, ◌≡◌, refl, subst, inl, inr, true, Option, none,
  some,
}
use pve_agent.Base.Exec.{resume}
use pve_agent.Core.Values.{JsValue}
use pve_agent.Core.Errors.{PveError}
use pve_agent.Core.Credentials.{TicketCredential}
use pve_agent.Core.Auth.{
  PveTicket, Message, Reply, Wire, Task, TicketPayload, LoginResult, accepted, rejected, still_good,
  read_clock, cache, after_fresh, login_fresh, after_renewal, login_with, login, use_cached,
  get_ticket,
}

-- What a computation answers is what it leaves to be kept.
abbrev Kept : Outcome PveError PveTicket × Wire → Type 0
Kept (ok ticket, wire) = wire.ticket ≡ some ticket
Kept (throw e, wire) = Unit

resume-Kept :
    {A : Type 0} (next : A → Task PveTicket) (r : Outcome PveError A × Wire)
    → ((a : A) (wire : Wire) → Kept (next a wire))
    → Kept (resume next r)
resume-Kept next (ok a, wire) k = k a wire
resume-Kept next (throw e, wire) k = tt

module _ (parse_json : Text → Option JsValue) (answer : ℕ → Message → Reply) (now : ℕ → ℕ) where
  cache-Kept :
      (payload : TicketPayload) (fallback : Text) (wire : Wire)
      → Kept (cache parse_json answer now payload fallback wire)
  unfolding cache read_clock
  cache-Kept payload fallback wire = refl

  after_fresh-Kept :
      (credential : TicketCredential) (result : LoginResult) (wire : Wire)
      → Kept (after_fresh parse_json answer now credential result wire)
  after_fresh-Kept credential (accepted payload) wire = cache-Kept payload credential.username wire
  after_fresh-Kept credential (rejected detail) wire = tt

  login_fresh-Kept :
      (credential : TicketCredential) (wire : Wire)
      → Kept (login_fresh parse_json answer now credential wire)
  unfolding login_fresh
  login_fresh-Kept credential wire =
      resume-Kept (after_fresh parse_json answer now credential) _ (after_fresh-Kept credential)

  after_renewal-Kept :
      (credential : TicketCredential) (result : LoginResult) (wire : Wire)
      → Kept (after_renewal parse_json answer now credential result wire)
  after_renewal-Kept credential (accepted payload) wire =
      cache-Kept payload credential.username wire
  after_renewal-Kept credential (rejected detail) wire = login_fresh-Kept credential _

  login_with-Kept :
      (credential : TicketCredential) (cached : Option PveTicket) (wire : Wire)
      → Kept (login_with parse_json answer now credential cached wire)
  login_with-Kept credential none wire = login_fresh-Kept credential wire
  login_with-Kept credential (some cached) wire =
      resume-Kept (after_renewal parse_json answer now credential) _ (after_renewal-Kept credential)

  login-Kept :
      (credential : Option TicketCredential) (wire : Wire)
      → Kept (login parse_json answer now credential wire)
  unfolding login
  login-Kept none wire = tt
  login-Kept (some credential) wire = login_with-Kept credential wire.ticket wire

  use_cached-Kept :
      (credential : Option TicketCredential) (cached : Option PveTicket) (wire : Wire)
      → wire.ticket ≡ cached
      → Kept (use_cached parse_json answer now credential cached wire)
  unfolding read_clock
  use_cached-Kept credential none wire e = login-Kept credential wire
  use_cached-Kept credential (some cached) wire e =
      elim (Bool-cases (still_good (now wire.readings) cached)) [
        | inl good ↦ rw good e
        | inr old ↦ rw old (login-Kept credential _)
      ]

  -- A ticket that was answered is the one that is kept: while it is not about to expire, the next call
  -- answers it too, sends nothing, and reads the clock once.
  pub get_ticket-again :
      (credential : Option TicketCredential) (wire after : Wire) (ticket : PveTicket)
      → get_ticket parse_json answer now credential wire ≡ (ok ticket, after)
      → still_good (now after.readings) ticket ≡ true
      → get_ticket parse_json answer now credential after
        ≡ (ok ticket, record after { readings = after.readings + 1 })
  unfolding get_ticket read_clock
  get_ticket-again credential wire after ticket e good =
      let kept : after.ticket ≡ some ticket =
        subst Kept e (use_cached-Kept credential wire.ticket wire refl) in
      simp (kept, good)
