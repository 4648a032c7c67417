-- ===== src/Core/Client/Tests.antt =====
-- The theorems on the API client at concrete inputs.
use pve_agent.Base.{
  Bool, map, All, Text, codes, ok, throw, ℕ, ◌+◌, ◌≤◌, ◌≡◌, refl, ◌↔◌, true, false, Option, none,
  some, [], ◌∷◌, arith,
}
use mathlib.Core.List.{Memᴰ}
use pve_agent.Core.Values.{JsValue, string, object, no_entries, entry}
use pve_agent.Core.Errors.{ticket_tier, token_tier, tier_error, kind_of, PveError}
use pve_agent.Core.Registry.{EndpointInfo, resolve_endpoint, path_segments}
use pve_agent.Core.Registry.Best.{fits, resolve_endpoint-best}
use pve_agent.Core.Privileges.{root_only_params}
use pve_agent.Shell.Escape.{sh_quote}
use pve_agent.Core.Credentials.Quoted.{unquote-sh_quote}
use pve_agent.Core.Credentials.{unquote, TicketCredential}
use pve_agent.Core.Auth.{
  PveTicket, Message, login_post, Reply, response, Wire, get_ticket, has_root_ticket,
}
use pve_agent.Core.Auth.Kept.{get_ticket-again}
use pve_agent.Core.Auth.Counted.{calls, logins}
use pve_agent.Core.Client.{Setting, RequestOptions, request, sign_request}
use pve_agent.Core.Client.Envelope.{settle_response, detail_of, EnvelopeResult}
use pve_agent.Core.Client.Tickets.{IsTokenless, request-IsTokenless}
use pve_agent.Core.Client.RootOnly.{request-root_only}
use pve_agent.Core.Client.Count.{request-bounded, sign_request-bounded}
use pve_agent.Core.Client.Settled.{
  IsValue, KindTable, settle_response-IsValue, settle_response-kind,
}

abbrev shell_path : Text
shell_path = codes "/nodes/pve1/termproxy"

abbrev root_endpoint : EndpointInfo
root_endpoint = record {
  method = codes "POST";
  path = codes "/nodes/{node}/termproxy";
  allow_token = true;
  root_only = true;
}

abbrev password_path : Text
password_path = codes "/access/password"

abbrev password_endpoint : EndpointInfo
password_endpoint = record {
  method = codes "PUT";
  path = codes "/access/password";
  allow_token = false;
  root_only = false;
}

abbrev ticket_user : TicketCredential
ticket_user = record { username = codes "ci@pve"; password = codes "pw" }

-- The body `t` is an answer with a ticket; every other text is an empty object.
abbrev read_json : Text → Option JsValue
read_json (c ∷ _) = some (
    object (
      entry (codes "data")
        (object (
          entry (codes "ticket") (string (codes "T"))
            (entry (codes "CSRFPreventionToken") (string (codes "C")) no_entries)))
        no_entries))
read_json [] = some (object no_entries)

abbrev setting : Setting
setting = record {
  registry = root_endpoint ∷ password_endpoint ∷ [];
  documented = λ method path. [];
  print_value = λ value. [];
  form = λ fields. [];
  encode_component = λ s. s;
  parse_json = read_json;
  base_url = codes "https://pve1:8006";
  held = record {
    token = some (record { id = codes "ci@pve!t"; secret = codes "s" });
    ticket = some ticket_user;
  };
}

abbrev plain_options : RequestOptions
plain_options = record { tier = none; headers = []; allow_unknown_endpoint = false; body = none }

abbrev answer_ticket : ℕ → Message → Reply
answer_ticket n message = response 200 (codes "t")

abbrev is_login : Message → Bool
is_login (login_post username password) = true
is_login _ = false

abbrev fresh_wire : Wire
fresh_wire = record { ticket = none; readings = 0; sent = [] }

-- A login, and then the call with the ticket.
two_messages :
    map
      (λ message. is_login message)
      ((request setting answer_ticket
        (λ n. n)
        (codes "PUT")
        password_path
        []
        plain_options
        fresh_wire).1.sent)
    ≡ true ∷ false ∷ []
unfolding request resolve_endpoint root_only_params get_ticket
two_messages = refl

request-IsTokenless_example : All IsTokenless (
    (request setting answer_ticket
      (λ n. n)
      (codes "PUT")
      password_path
      []
      plain_options
      fresh_wire).1.sent)
unfolding resolve_endpoint root_only_params
request-IsTokenless_example =
    request-IsTokenless setting answer_ticket (λ n. n) (codes "PUT") password_path [] plain_options
      fresh_wire refl (λ e. absurd (ground (arith, e))) refl tt

-- The caller asks for the tier that the call needs anyway.
abbrev ticket_options : RequestOptions
ticket_options = record plain_options { tier = some ticket_tier }

request-root_only_example :
    request setting answer_ticket (λ n. n) (codes "POST") shell_path [] ticket_options fresh_wire
    ≡ (throw (tier_error ticket_tier), fresh_wire)
unfolding resolve_endpoint has_root_ticket root_only_params
request-root_only_example =
    request-root_only setting answer_ticket (λ n. n) (codes "POST") shell_path [] ticket_options
      fresh_wire refl (λ e. absurd (ground (arith, e))) refl

request-bounded_example :
    (calls (
        (request setting answer_ticket
          (λ n. n)
          (codes "PUT")
          password_path
          []
          plain_options
          fresh_wire).1.sent)
      ≤ calls fresh_wire.sent + 2)
    × (logins (
          (request setting answer_ticket
            (λ n. n)
            (codes "PUT")
            password_path
            []
            plain_options
            fresh_wire).1.sent)
        ≤ logins fresh_wire.sent + 5)
request-bounded_example =
    request-bounded setting answer_ticket (λ n. n) (codes "PUT") password_path [] plain_options
      fresh_wire

sign_request-bounded_example :
    (calls (
        (sign_request setting answer_ticket
          (λ n. n)
          (codes "PUT")
          password_path
          []
          plain_options
          fresh_wire).1.sent)
      ≤ calls fresh_wire.sent)
    × (logins (
          (sign_request setting answer_ticket
            (λ n. n)
            (codes "PUT")
            password_path
            []
            plain_options
            fresh_wire).1.sent)
        ≤ logins fresh_wire.sent + 2)
sign_request-bounded_example =
    sign_request-bounded setting answer_ticket (λ n. n) (codes "PUT") password_path [] plain_options
      fresh_wire

abbrev bought : PveTicket
bought = record {
  ticket = codes "T";
  csrf_token = codes "C";
  username = codes "ci@pve";
  expires_at = 7200000;
}

abbrev after_login : Wire
after_login = record {
  ticket = some bought;
  readings = 1;
  sent = login_post (codes "ci@pve") (codes "pw") ∷ [];
}

get_ticket-again_example :
    get_ticket read_json answer_ticket (λ n. n) (some ticket_user) after_login
    ≡ (ok bought, record after_login { readings = 2 })
unfolding get_ticket
get_ticket-again_example =
    get_ticket-again read_json answer_ticket (λ n. n) (some ticket_user) fresh_wire after_login
      bought refl refl

settle_response-IsValue_example :
    ((result : EnvelopeResult) × (settle_response read_json
          (codes "GET")
          (codes "/version")
          token_tier
          (200, codes "t")
        ≡ ok result))
    ↔ IsValue read_json 200 (codes "t")
settle_response-IsValue_example =
    settle_response-IsValue read_json (codes "GET") (codes "/version") token_tier 200 (codes "t")

settle_response-kind_example :
    (error : PveError) × (settle_response read_json
        (codes "GET")
        (codes "/version")
        token_tier
        (401, [])
      ≡ throw error)
    × KindTable (kind_of error) 401 (detail_of (read_json []) [])
settle_response-kind_example =
    settle_response-kind read_json (codes "GET") (codes "/version") token_tier 401 [] refl

resolve_endpoint-best_example :
    (info : EndpointInfo) × (n : ℕ) × (resolve_endpoint
        (root_endpoint ∷ [])
        (codes "POST")
        shell_path
      ≡ some info)
    × Memᴰ info (root_endpoint ∷ [])
    × (fits (codes "POST") (path_segments shell_path) info ≡ some n)
    × (3 ≤ n)
unfolding resolve_endpoint
resolve_endpoint-best_example =
    resolve_endpoint-best (root_endpoint ∷ []) (codes "POST") shell_path root_endpoint 3
      (Memᴰ.head refl) refl

unquote-sh_quote_example :
    (q : Text) × (sh_quote (codes "it's") ≡ ok q) × (unquote q ≡ codes "it's")
unquote-sh_quote_example = unquote-sh_quote (codes "it's") refl
