-- ===== src/Core/Auth/Counted.antt =====
-- src/core/auth.ts: how many messages fetching a ticket comes to.
use pve_agent.Base.{
  if◌then◌else◌, Bool-cases, length, Text, Outcome, ok, throw, ℕ, suc, ◌+◌, ◌≤◌, ◌≡◌, refl, sym,
  subst, inl, inr, Bool, true, false, Option, none, some, List, [], ◌∷◌, ◌++◌, arith,
}
use pve_agent.Base.Exec.{resume, give}
use pve_agent.Core.Values.{JsValue}
use pve_agent.Core.Errors.{PveError}
use pve_agent.Core.Credentials.{TicketCredential}
use pve_agent.Core.Auth.{
  PveTicket, ApiCall, Message, login_post, api_call, Reply, broken, response, Wire, Task,
  TicketPayload, LoginResult, accepted, rejected, read_ticket_payload, accepted_payload,
  accepted_json, arrive, post, read_clock, settle_login, post_ticket, cache, after_fresh,
  login_fresh, after_renewal, login_with, login, use_cached, get_ticket, force_refresh, still_good,
  is_ok_status,
}

-- The calls of the API among messages, and the logins.
abbrev pub calls : List Message → ℕ
calls [] = 0
calls (login_post username password ∷ sent) = calls sent
calls (api_call call ∷ sent) = suc (calls sent)

abbrev pub logins : List Message → ℕ
logins [] = 0
logins (login_post username password ∷ sent) = suc (logins sent)
logins (api_call call ∷ sent) = logins sent

abbrev Within : ℕ → ℕ → Wire → Wire → Type 0
Within a b before after =
    (calls after.sent ≤ calls before.sent + a) × (logins after.sent ≤ logins before.sent + b)

-- A computation that sends at most `a` calls and `b` logins.
pub record Sends {A : Type 0} (a b : ℕ) (m : Task A) : Type 0 where
  pub run : (wire : Wire) → Within a b wire ((m wire).1)

resume-Within :
    {A B : Type 0} (a b c d : ℕ) (next : A → Task B) (before : Wire) (r : Outcome PveError A × Wire)
    → Within a b before r.1
    → ((x : A) → Sends c d (next x))
    → Within (a + c) (b + d) before ((resume next r).1)
resume-Within a b c d next before (ok x, wire) (h, k) rest =
    let (h', k') = (rest x).run wire in (omega arith, omega arith)
resume-Within a b c d next before (throw e, wire) (h, k) rest = (omega arith, omega arith)

pub bind-Sends :
    {A B : Type 0} (a b c d : ℕ) (m : Task A) (next : A → Task B)
    → Sends a b m
    → ((x : A) → Sends c d (next x))
    → Sends (a + c) (b + d) (λ wire. resume next (m wire))
bind-Sends a b c d m next h k = record {
  run = λ wire. resume-Within a b c d next wire (m wire) (h.run wire) k;
}

pub more-Sends : {A : Type 0} (a b c d : ℕ) (m : Task A) → a ≤ c → b ≤ d → Sends a b m → Sends c d m
more-Sends a b c d m h k s = record {
  run = λ wire. let (x, y) = s.run wire in (omega arith, omega arith);
}

pub still-Sends :
    {A : Type 0} (a b : ℕ) (m : Task A)
    → ((wire : Wire) → (m wire).1.sent ≡ wire.sent)
    → Sends a b m
still-Sends a b m same = record {
  run = λ wire. (
    subst (λ sent. calls sent ≤ calls wire.sent + a) (sym (same wire)) (omega arith),
    subst (λ sent. logins sent ≤ logins wire.sent + b) (sym (same wire)) (omega arith),
  );
}

pub if-Sends :
    {A : Type 0} (a b : ℕ) (t : Bool) (m n : Task A)
    → Sends a b m
    → Sends a b n
    → Sends a b (if t then m else n)
if-Sends a b true m n h k = h
if-Sends a b false m n h k = k

calls-append : (xs ys : List Message) → calls (xs ++ ys) ≡ calls xs + calls ys
calls-append [] ys = omega arith
calls-append (login_post u p ∷ xs) ys = calls-append xs ys
calls-append (api_call call ∷ xs) ys = omega (arith, calls-append xs ys)

logins-append : (xs ys : List Message) → logins (xs ++ ys) ≡ logins xs + logins ys
logins-append [] ys = omega arith
logins-append (login_post u p ∷ xs) ys = omega (arith, logins-append xs ys)
logins-append (api_call call ∷ xs) ys = logins-append xs ys

module _ (parse_json : Text → Option JsValue) (answer : ℕ → Message → Reply) (now : ℕ → ℕ) where
  arrive-sent :
      (reply : Reply) (wire : Wire) → (arrive parse_json answer now reply wire).1.sent ≡ wire.sent
  arrive-sent (broken url) wire = refl
  arrive-sent (response status body) wire = refl

  post-sent :
      (message : Message) (wire : Wire)
      → (post parse_json answer now message wire).1.sent ≡ wire.sent ++ message ∷ []
  unfolding post
  post-sent message wire = arrive-sent (answer (length wire.sent) message) _

  pub call-Sends : (call : ApiCall) → Sends 1 0 (post parse_json answer now (api_call call))
  call-Sends call = record {
    run = λ wire. simp (post-sent (api_call call) wire) (
      omega (arith, calls-append wire.sent (api_call call ∷ [])),
      omega (arith, logins-append wire.sent (api_call call ∷ [])),
    );
  }

  login-Sends : (u p : Text) → Sends 0 1 (post parse_json answer now (login_post u p))
  login-Sends u p = record {
    run = λ wire. simp (post-sent (login_post u p) wire) (
      omega (arith, calls-append wire.sent (login_post u p ∷ [])),
      omega (arith, logins-append wire.sent (login_post u p ∷ [])),
    );
  }

  payload-sent :
      (payload : Option TicketPayload) (wire : Wire)
      → (accepted_payload parse_json payload wire).1.sent ≡ wire.sent
  payload-sent none wire = refl
  payload-sent (some payload) wire = refl

  json-sent :
      (value : Option JsValue) (wire : Wire)
      → (accepted_json parse_json value wire).1.sent ≡ wire.sent
  json-sent none wire = refl
  json-sent (some value) wire = payload-sent (read_ticket_payload value) wire

  settle_login-sent :
      (reply : ℕ × Text) (wire : Wire)
      → (settle_login parse_json answer now reply wire).1.sent ≡ wire.sent
  settle_login-sent (status, body) wire = elim (Bool-cases (is_ok_status status)) [
    | inl good ↦ rw good (json-sent (parse_json body) wire)
    | inr refused ↦ rw refused refl
  ]

  post_ticket-Sends : (u p : Text) → Sends 0 1 (post_ticket parse_json answer now u p)
  unfolding post_ticket
  post_ticket-Sends u p =
      bind-Sends 0 1 0 0 _ _ (login-Sends u p)
        (λ reply. still-Sends 0 0 _ (settle_login-sent reply))

  cache-Sends :
      (b : ℕ) (payload : TicketPayload) (fallback : Text)
      → Sends 0 b (cache parse_json answer now payload fallback)
  unfolding cache read_clock
  cache-Sends b payload fallback = still-Sends 0 b _ (λ wire. refl)

  after_fresh-Sends :
      (credential : TicketCredential) (result : LoginResult)
      → Sends 0 0 (after_fresh parse_json answer now credential result)
  after_fresh-Sends credential (accepted payload) = cache-Sends 0 payload credential.username
  after_fresh-Sends credential (rejected detail) = still-Sends 0 0 _ (λ wire. refl)

  login_fresh-Sends :
      (credential : TicketCredential) → Sends 0 1 (login_fresh parse_json answer now credential)
  unfolding login_fresh
  login_fresh-Sends credential =
      bind-Sends 0 1 0 0 _ _ (post_ticket-Sends credential.username credential.password)
        (after_fresh-Sends credential)

  after_renewal-Sends :
      (credential : TicketCredential) (result : LoginResult)
      → Sends 0 1 (after_renewal parse_json answer now credential result)
  after_renewal-Sends credential (accepted payload) = cache-Sends 1 payload credential.username
  after_renewal-Sends credential (rejected detail) = record {
    run = λ wire. (login_fresh-Sends credential).run (record wire { ticket = none });
  }

  login_with-Sends :
      (credential : TicketCredential) (cached : Option PveTicket)
      → Sends 0 2 (login_with parse_json answer now credential cached)
  login_with-Sends credential none =
      more-Sends 0 1 0 2 _ (omega arith) (omega arith) (login_fresh-Sends credential)
  login_with-Sends credential (some cached) =
      bind-Sends 0 1 0 1 _ _ (post_ticket-Sends credential.username cached.ticket)
        (after_renewal-Sends credential)

  login-Sends_two :
      (credential : Option TicketCredential) → Sends 0 2 (login parse_json answer now credential)
  unfolding login
  login-Sends_two none = still-Sends 0 2 _ (λ wire. refl)
  login-Sends_two (some credential) = record {
    run = λ wire. (login_with-Sends credential wire.ticket).run wire;
  }

  use_cached-Sends :
      (credential : Option TicketCredential) (cached : Option PveTicket)
      → Sends 0 2 (use_cached parse_json answer now credential cached)
  unfolding read_clock
  use_cached-Sends credential none = login-Sends_two credential
  use_cached-Sends credential (some cached) =
      bind-Sends 0 0 0 2 (read_clock parse_json answer now) _ (still-Sends 0 0 _ (λ wire. refl))
        (λ time.
          if-Sends 0 2 (still_good time cached) (give cached) _
            (still-Sends 0 2 (give cached) (λ wire. refl)) (login-Sends_two credential))

  -- Fetching a ticket takes at most a renewal and a fresh login.
  pub get_ticket-Sends :
      (credential : Option TicketCredential)
      → Sends 0 2 (get_ticket parse_json answer now credential)
  unfolding get_ticket
  get_ticket-Sends credential = record {
    run = λ wire. (use_cached-Sends credential wire.ticket).run wire;
  }

  -- The kept ticket is dropped first, so only a fresh login is left.
  pub force_refresh-Sends :
      (credential : Option TicketCredential)
      → Sends 0 1 (force_refresh parse_json answer now credential)
  unfolding force_refresh login
  force_refresh-Sends none = still-Sends 0 1 _ (λ wire. refl)
  force_refresh-Sends (some credential) = record {
    run = λ wire. (login_fresh-Sends credential).run (record wire { ticket = none });
  }
