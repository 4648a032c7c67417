-- ===== src/Core/Auth/Sending.antt =====
-- src/core/auth.ts: what goes out while a ticket is fetched.
use pve_agent.Base.{length, All, All-append, Text, ℕ, Option, none, some, [], ◌∷◌}
use pve_agent.Base.Exec.{Preserves, bind-Preserves, change-Preserves, preserving}
use pve_agent.Core.Values.{JsValue}
use pve_agent.Core.Credentials.{TicketCredential}
use pve_agent.Core.Auth.{
  PveTicket, Message, login_post, Reply, broken, response, Wire, TicketPayload, LoginResult,
  accepted, rejected, read_ticket_payload, accepted_payload, accepted_json, arrive, post,
  read_clock, settle_login, post_ticket, cache, after_fresh, login_fresh, after_renewal, login_with,
  login, use_cached, get_ticket, force_refresh,
}

module _ (Q : Message → Type 0) where
  -- Every message that was sent is one of those that `Q` allows.
  abbrev pub AllSent : Wire → Type 0
  AllSent wire = All Q wire.sent

  module _ (parse_json : Text → Option JsValue) (answer : ℕ → Message → Reply) (now : ℕ → ℕ) where
    arrive-AllSent :
        (reply : Reply) (wire : Wire)
        → AllSent wire
        → AllSent ((arrive parse_json answer now reply wire).1)
    arrive-AllSent (broken url) wire h = h
    arrive-AllSent (response status body) wire h = h

    pub post-Preserves :
        (message : Message) → Q message → Preserves AllSent (post parse_json answer now message)
    unfolding post
    post-Preserves message q = record {
      run = λ wire h.
          arrive-AllSent (answer (length wire.sent) message) _
            (All-append Q wire.sent (message ∷ []) h (q, tt));
    }

    read_clock-Preserves : Preserves AllSent (read_clock parse_json answer now)
    unfolding read_clock
    read_clock-Preserves = record { run = λ wire h. h }

    module _ (logins : (username password : Text) → Q (login_post username password)) where
      accepted_payload-Preserves :
          (payload : Option TicketPayload) → Preserves AllSent (accepted_payload parse_json payload)
      accepted_payload-Preserves none = search preserving
      accepted_payload-Preserves (some payload) = search preserving

      accepted_json-Preserves :
          (value : Option JsValue) → Preserves AllSent (accepted_json parse_json value)
      accepted_json-Preserves none = search preserving
      accepted_json-Preserves (some value) = accepted_payload-Preserves (read_ticket_payload value)

      settle_login-Preserves :
          (reply : ℕ × Text) → Preserves AllSent (settle_login parse_json answer now reply)
      settle_login-Preserves (status, body) = search (preserving, accepted_json-Preserves)

      post_ticket-Preserves :
          (username password : Text)
          → Preserves AllSent (post_ticket parse_json answer now username password)
      unfolding post_ticket
      post_ticket-Preserves username password =
          search (preserving, post-Preserves, logins, settle_login-Preserves)

      cache-Preserves :
          (payload : TicketPayload) (fallback : Text)
          → Preserves AllSent (cache parse_json answer now payload fallback)
      unfolding cache read_clock
      cache-Preserves payload fallback = record { run = λ wire h. h }

      after_fresh-Preserves :
          (credential : TicketCredential) (result : LoginResult)
          → Preserves AllSent (after_fresh parse_json answer now credential result)
      after_fresh-Preserves credential (accepted payload) =
          cache-Preserves payload credential.username
      after_fresh-Preserves credential (rejected detail) = search preserving

      login_fresh-Preserves :
          (credential : TicketCredential)
          → Preserves AllSent (login_fresh parse_json answer now credential)
      unfolding login_fresh
      login_fresh-Preserves credential =
          search (preserving, post_ticket-Preserves, after_fresh-Preserves)

      after_renewal-Preserves :
          (credential : TicketCredential) (result : LoginResult)
          → Preserves AllSent (after_renewal parse_json answer now credential result)
      after_renewal-Preserves credential (accepted payload) =
          cache-Preserves payload credential.username
      after_renewal-Preserves credential (rejected detail) =
          bind-Preserves AllSent _ _ (change-Preserves AllSent _ (λ wire h. h))
            (λ _. login_fresh-Preserves credential)

      login_with-Preserves :
          (credential : TicketCredential) (cached : Option PveTicket)
          → Preserves AllSent (login_with parse_json answer now credential cached)
      login_with-Preserves credential none = login_fresh-Preserves credential
      login_with-Preserves credential (some cached) =
          search (preserving, post_ticket-Preserves, after_renewal-Preserves)

      login-Preserves :
          (credential : Option TicketCredential)
          → Preserves AllSent (login parse_json answer now credential)
      unfolding login
      login-Preserves none = search preserving
      login-Preserves (some credential) = search (preserving, login_with-Preserves)

      use_cached-Preserves :
          (credential : Option TicketCredential) (cached : Option PveTicket)
          → Preserves AllSent (use_cached parse_json answer now credential cached)
      use_cached-Preserves credential none = login-Preserves credential
      use_cached-Preserves credential (some cached) =
          search (preserving, read_clock-Preserves, login-Preserves)

      pub get_ticket-Preserves :
          (credential : Option TicketCredential)
          → Preserves AllSent (get_ticket parse_json answer now credential)
      unfolding get_ticket
      get_ticket-Preserves credential = search (preserving, use_cached-Preserves)

      pub force_refresh-Preserves :
          (credential : Option TicketCredential)
          → Preserves AllSent (force_refresh parse_json answer now credential)
      unfolding force_refresh
      force_refresh-Preserves credential =
          bind-Preserves AllSent _ _ (change-Preserves AllSent _ (λ wire h. h))
            (λ _. login-Preserves credential)
