-- ===== src/Core/Auth.antt =====
-- src/core/auth.ts, class PveAuth: the two credentials, and the ticket that is bought with a password,
-- kept and renewed. One caller runs at a time, so no request is in flight when another starts (the field
-- `pending` is always undefined). The server, the clock and `JSON.parse` are parameters: the server
-- answers a message by what was sent before it, and the clock goes by the number of its readings.
pub mod Sending
pub mod Kept
pub mod Counted
use pve_agent.Base.{
  ltb, if◌then◌else◌, in_range, length, take, Text, codes, text_eq, trim, print_nat, Outcome, ok,
  throw, ℕ, ◌+◌, ◌*◌, Bool, true, false, not, Option, none, some, List, [], ◌∷◌, ◌++◌,
}
use pve_agent.Base.Exec.{Exec, ◌>>=◌, ◌>>◌, give, fail_with, ask, change}
use pve_agent.Core.Values.{JsValue, string, object, undefined, Entries, no_entries, entry}
use pve_agent.Core.Errors.{
  AuthTier, token_tier, ticket_tier, PveError, config_error, connection_error, auth_error,
}
use pve_agent.Core.Credentials.{TokenCredential, TicketCredential}

pub record PveTicket : Type 0 where
  pub ticket : Text
  pub csrf_token : Text
  pub username : Text
  pub expires_at : ℕ

abbrev pub ticket_lifetime_ms : ℕ
ticket_lifetime_ms = 2 * 60 * 60 * 1000

abbrev pub ticket_renew_margin_ms : ℕ
ticket_renew_margin_ms = 15 * 60 * 1000

pub record ApiCall : Type 0 where
  pub method : Text
  pub url : Text
  pub headers : List (Text × Text)
  pub body : Option Text

-- What goes out: a login or a renewal, or a call of the API.
pub data Message : Type 0 where
  login_post : (username password : Text) → Message
  api_call : ApiCall → Message

pub data Reply : Type 0 where
  broken : Text → Reply
  response : (status : ℕ) → (body : Text) → Reply

-- What changes: the ticket that is kept, the readings of the clock, and what was sent.
pub record Wire : Type 0 where
  pub ticket : Option PveTicket
  pub readings : ℕ
  pub sent : List Message

abbrev pub Task : Type 0 → Type 0
Task = Exec PveError Wire

pub record TicketPayload : Type 0 where
  pub ticket : Text
  pub csrf_token : Text
  pub username : Option Text

pub data LoginResult : Type 0 where
  accepted : TicketPayload → LoginResult
  rejected : Text → LoginResult

-- `'key' in data ? data.key : undefined`.
unfoldable pub field : Text → Entries → JsValue
unfolding text_eq
field key no_entries = undefined
field key (entry name value rest) =
    let other = field key rest in if text_eq name key then value else other

abbrev pub string_of : JsValue → Option Text
string_of (string s) = some s
string_of _ = none

abbrev payload_from : Option Text → Option Text → Option Text → Option TicketPayload
payload_from (some ticket) (some csrf_token) username =
    some (record { ticket = ticket; csrf_token = csrf_token; username = username })
payload_from _ _ username = none

abbrev data_payload : JsValue → Option TicketPayload
data_payload (object fields) =
    payload_from (string_of (field (codes "ticket") fields))
      (string_of (field (codes "CSRFPreventionToken") fields))
      (string_of (field (codes "username") fields))
data_payload _ = none

unfoldable pub read_ticket_payload : JsValue → Option TicketPayload
unfolding field
read_ticket_payload (object fields) = data_payload (field (codes "data") fields)
read_ticket_payload _ = none

abbrev message_text : Option Text → Text
message_text none = []
message_text (some message) = take 200 (trim message)

abbrev object_message : Option JsValue → Text
object_message (some (object fields)) = message_text (string_of (field (codes "message") fields))
object_message _ = []

abbrev pub is_ok_status : ℕ → Bool
is_ok_status status = in_range 200 299 status

-- `HTTP ${status}${message ? ` ${message}` : ''}`.
abbrev status_detail : ℕ → Text → Text
status_detail status [] = codes "HTTP " ++ print_nat status
status_detail status (c ∷ s) = codes "HTTP " ++ (print_nat status ++ b' ' ∷ c ∷ s)

abbrev or_user : Option Text → Text → Text
or_user none fallback = fallback
or_user (some username) fallback = username

-- `cached && now < cached.expiresAt - margin`; a lifetime is longer than the margin.
abbrev pub still_good : ℕ → PveTicket → Bool
still_good time ticket = ltb (time + ticket_renew_margin_ms) ticket.expires_at

module _ (parse_json : Text → Option JsValue) where
  unfoldable pub envelope_message : Text → Text
  unfolding field trim
  envelope_message body = object_message (parse_json body)

  abbrev pub accepted_payload : Option TicketPayload → Task LoginResult
  accepted_payload none =
      fail_with (auth_error ticket_tier (codes "the response carried no ticket"))
  accepted_payload (some payload) = give (accepted payload)

  abbrev pub accepted_json : Option JsValue → Task LoginResult
  accepted_json none = fail_with (auth_error ticket_tier (codes "the response is not JSON"))
  accepted_json (some value) = accepted_payload (read_ticket_payload value)

  module _ (answer : ℕ → Message → Reply) (now : ℕ → ℕ) where
    abbrev pub arrive : Reply → Task (ℕ × Text)
    arrive (broken url) = fail_with (connection_error url)
    arrive (response status body) = give (status, body)

    -- HttpClient.request: the message is out before the answer, or its failure, is known.
    unfoldable pub post : Message → Task (ℕ × Text)
    post message wire =
        arrive (answer (length wire.sent) message)
          (record wire { sent = wire.sent ++ message ∷ [] })

    unfoldable pub read_clock : Task ℕ
    read_clock wire = (ok (now wire.readings), record wire { readings = wire.readings + 1 })

    abbrev pub settle_login : ℕ × Text → Task LoginResult
    settle_login (status, body) =
        if is_ok_status status
        then accepted_json (parse_json body)
        else give (rejected (status_detail status (envelope_message body)))

    unfoldable pub post_ticket : Text → Text → Task LoginResult
    unfolding post envelope_message read_ticket_payload
    post_ticket username password = do
      reply ← post (login_post username password)
      settle_login reply

    unfoldable pub cache : TicketPayload → Text → Task PveTicket
    unfolding read_clock
    cache payload fallback = do
      time ← read_clock
      let kept : PveTicket = record {
        ticket = payload.ticket;
        csrf_token = payload.csrf_token;
        username = or_user payload.username fallback;
        expires_at = time + ticket_lifetime_ms;
      }
      change λ wire. record wire { ticket = some kept }
      give kept

    abbrev pub drop_ticket : Wire → Wire
    drop_ticket wire = record wire { ticket = none }

    abbrev pub after_fresh : TicketCredential → LoginResult → Task PveTicket
    after_fresh credential (accepted payload) = cache payload credential.username
    after_fresh credential (rejected detail) = fail_with (auth_error ticket_tier detail)

    unfoldable pub login_fresh : TicketCredential → Task PveTicket
    unfolding post_ticket cache
    login_fresh credential = do
      result ← post_ticket credential.username credential.password
      after_fresh credential result

    abbrev pub after_renewal : TicketCredential → LoginResult → Task PveTicket
    after_renewal credential (accepted payload) = cache payload credential.username
    after_renewal credential (rejected detail) = do change drop_ticket; login_fresh credential

    abbrev pub login_with : TicketCredential → Option PveTicket → Task PveTicket
    login_with credential none = login_fresh credential
    login_with credential (some cached) = do
      result ← post_ticket credential.username cached.ticket
      after_renewal credential result

    abbrev no_ticket_error : PveError
    no_ticket_error = config_error (codes "No ticket credentials.")

    -- The method `login`, which `authenticate` runs.
    unfoldable pub login : Option TicketCredential → Task PveTicket
    unfolding post_ticket cache login_fresh
    login none = fail_with no_ticket_error
    login (some credential) = do cached ← ask (λ wire. wire.ticket); login_with credential cached

    abbrev pub use_cached : Option TicketCredential → Option PveTicket → Task PveTicket
    use_cached credential none = login credential
    use_cached credential (some cached) = do
      time ← read_clock
      if still_good time cached then give cached else login credential

    unfoldable pub get_ticket : Option TicketCredential → Task PveTicket
    unfolding login read_clock
    get_ticket credential = do cached ← ask (λ wire. wire.ticket); use_cached credential cached

    unfoldable pub force_refresh : Option TicketCredential → Task PveTicket
    unfolding login
    force_refresh credential = do change drop_ticket; login credential

-- PveAuth.has, hasRootTicket and tokenHeader, by the credentials.
pub record Credentials : Type 0 where
  pub token : Option TokenCredential
  pub ticket : Option TicketCredential

abbrev is_present {ℓ} : {A : Type ℓ} → Option A → Bool
is_present none = false
is_present (some a) = true

unfoldable pub has : Credentials → AuthTier → Bool
has held token_tier = is_present held.token
has held ticket_tier = is_present held.ticket

abbrev is_root : Option TicketCredential → Bool
is_root none = false
is_root (some credential) = text_eq credential.username (codes "root@pam")

unfoldable pub has_root_ticket : Credentials → Bool
unfolding text_eq
has_root_ticket held = is_root held.ticket

abbrev header_of : Option TokenCredential → Outcome PveError Text
header_of none = throw (config_error (codes "No API token."))
header_of (some token) = ok (codes "PVEAPIToken=" ++ (token.id ++ b'=' ∷ token.secret))

unfoldable pub token_header : Credentials → Outcome PveError Text
token_header held = header_of held.token
