-- ===== src/Core/Credentials.antt =====
-- src/core/auth.ts, loadCredentials: credentials from explicit values, the environment and an env file.
-- The environment is a function and the file, if there is one, its text: parameters.
pub mod Quoted
use pve_agent.Base.{
  ltb, ◌==◌, if◌then◌else◌, in_range, length, get_or, take, drop, any, Text, codes, text_eq,
  has_char, starts_with, split, is_space, trim_start, trim, is_digit, is_alnum, ◌>>=◌, ◌>>◌, map_ok,
  Outcome, ok, throw, ℕ, zero, suc, ◌-◌, String, ◌≡◌, refl, Bool, true, false, not, ◌&&◌, ◌||◌,
  Option, none, some, List, [], ◌∷◌, ◌++◌, map,
}
use pve_agent.Core.Values.{parse_boolean}

pub record TokenCredential : Type 0 where
  pub id : Text
  pub secret : Text

pub record TicketCredential : Type 0 where
  pub username : Text
  pub password : Text

pub record PveConnection : Type 0 where
  pub host : Text
  pub port : ℕ
  pub verify_ssl : Bool
  pub node : Option Text

pub record PveCredentials : Type 0 where
  pub connection : PveConnection
  pub token : Option TokenCredential
  pub ticket : Option TicketCredential

pub record CredentialInput : Type 0 where
  pub host : Option Text
  pub port : Option ℕ
  pub verify_ssl : Option Bool
  pub node : Option Text
  pub username : Option Text
  pub password : Option Text
  pub token_id : Option Text
  pub token_secret : Option Text

pub data ConfigError : Type 0 where
  no_host : ConfigError
  bad_port bad_verify_ssl no_user_part : Text → ConfigError

-- An empty string counts as missing, as `||` and `if (s)` have it.
abbrev pub non_empty : Option Text → Option Text
non_empty (some (c ∷ s)) = some (c ∷ s)
non_empty _ = none

-- `a ?? b`.
abbrev pub or_else {ℓ} : {A : Type ℓ} → Option A → Option A → Option A
or_else none b = b
or_else (some a) b = some a

-- `[A-Za-z_][A-Za-z0-9_]*` from the front, with the rest.
unfoldable pub span_name : Text → Text × Text
unfolding is_alnum
span_name [] = ([], [])
span_name (c ∷ s) =
    let (name, rest) = span_name s in
    if is_alnum c || c == b'_' then (c ∷ name, rest) else ([], c ∷ s)

-- The value of a `.` stops at a line terminator, which leaves `$` unmatched.
unfoldable pub is_terminator : ℕ → Bool
is_terminator c = c == 10 || (c == 13 || (c == 0x2028 || c == 0x2029))

unfoldable pub assignment_of : Text × Text → Option (Text × Text)
unfolding is_terminator is_digit
assignment_of (c ∷ name, d ∷ value) =
    if d == b'=' && (not (is_digit c) && not (any is_terminator value))
    then some (c ∷ name, value)
    else none
assignment_of _ = none

-- `(?:export\s+)?` is taken if it can be; a name is never followed by white space.
unfoldable pub drop_export : Text → Text
unfolding starts_with trim_start is_space
drop_export line =
    if starts_with line (codes "export")
      && not (length (trim_start (drop 6 line)) == length (drop 6 line))
    then trim_start (drop 6 line)
    else line

-- ENV_LINE on a line.
unfoldable pub env_line : Text → Option (Text × Text)
unfolding span_name assignment_of drop_export
env_line line = assignment_of (span_name (drop_export line))

-- `slice(1, -1)`.
abbrev pub inner : Text → Text
inner s = take (length s - 2) (drop 1 s)

abbrev pub last_is : ℕ → Text → Bool
last_is c s = get_or s (length s - 1) 0 == c

-- `replace(/'\\''/g, "'")`; of a match the first character stays, and `skip` more are to pass.
unfoldable pub unescape_single : ℕ → Text → Text
unfolding starts_with
unescape_single skip [] = []
unescape_single (suc skip) (c ∷ s) = unescape_single skip s
unescape_single zero (c ∷ s) =
    c
    ∷ unescape_single (if starts_with (c ∷ s) (b'\'' ∷ b'\\' ∷ b'\'' ∷ b'\'' ∷ []) then 3 else 0) s

abbrev is_escapable : ℕ → Bool
is_escapable c = c == b'"' || (c == b'\\' || (c == b'$' || c == b'`'))

-- `replace(/\\(["\\$`])/g, '$1')`; `escaped` stands behind a backslash of a match.
unfoldable pub unescape_double : Bool → Text → Text
unescape_double escaped [] = []
unescape_double true (c ∷ s) = c ∷ unescape_double false s
unescape_double false (c ∷ s) =
    if c == b'\\' && is_escapable (get_or s 0 0)
    then unescape_double true s
    else c ∷ unescape_double false s

unfoldable pub unquote : Text → Text
unfolding unescape_single unescape_double
unquote value =
    if ltb 1 (length value) && (get_or value 0 0 == b'\'' && last_is b'\'' value)
    then unescape_single 0 (inner value)
    else if ltb 1 (length value) && (get_or value 0 0 == b'"' && last_is b'"' value)
    then unescape_double false (inner value)
    else value

-- `split(/\r?\n/)` and `trim`: the carriage return is white space at the end of the line.
abbrev pub lines_of : Text → List Text
lines_of text = map trim (split 10 text)

abbrev pub skips : Text → Bool
skips [] = true
skips (c ∷ s) = c == b'#'

abbrev add_pair : Option (Text × Text) → List (Text × Text) → List (Text × Text)
add_pair none pairs = pairs
add_pair (some (key, value)) pairs = (key, unquote (trim value)) ∷ pairs

-- The assignments of a file in their order; a later one replaces an earlier one of the same name.
unfoldable pub read_env_lines : List Text → List (Text × Text)
unfolding env_line unquote trim
read_env_lines [] = []
read_env_lines (line ∷ lines) =
    let rest = read_env_lines lines in if skips line then rest else add_pair (env_line line) rest

unfoldable pub last_value : Text → List (Text × Text) → Option Text
unfolding text_eq
last_value key [] = none
last_value key ((name, value) ∷ pairs) =
    let later = last_value key pairs in
    or_else later (if text_eq name key then some value else none)

unfoldable pub read_env_file : Option Text → List (Text × Text)
unfolding read_env_lines split trim
read_env_file none = []
read_env_file (some text) = read_env_lines (lines_of text)

abbrev with_user : Option Text → Text → Outcome ConfigError Text
with_user (some username) token_id = ok (username ++ b'!' ∷ token_id)
with_user none token_id = throw (no_user_part token_id)

unfoldable pub qualify_token_id : Text → Option Text → Outcome ConfigError Text
qualify_token_id token_id username =
    if has_char b'!' token_id then ok token_id else with_user (non_empty username) token_id

-- `if (username && password)`.
abbrev pub ticket_of : Option Text → Option Text → Option TicketCredential
ticket_of (some username) (some password) =
    some (record { username = username; password = password })
ticket_of _ _ = none

abbrev pub token_of :
    Option Text → Option Text → Option Text → Outcome ConfigError (Option TokenCredential)
token_of (some token_id) (some secret) username =
    map_ok (λ id. some (record { id = id; secret = secret })) (qualify_token_id token_id username)
token_of _ _ username = ok none

unfoldable pub parse_verify_ssl : Option Text → Outcome ConfigError Bool
unfolding parse_boolean trim
parse_verify_ssl none = ok true
parse_verify_ssl (some value) = elim (parse_boolean (trim value)) [
  | none ↦ throw (bad_verify_ssl value)
  | some verify ↦ ok verify
]

-- A numeral, by what `Number(value)` is: a natural number, or none when it is no such number.
module _ (number_of : Text → Option ℕ) (env : Text → Option Text) (env_file : Option Text) where
  unfoldable pub parse_port : Option Text → Outcome ConfigError ℕ
  parse_port none = ok 8006
  parse_port (some value) = elim (number_of value) [
    | none ↦ throw (bad_port value)
    | some port ↦ if in_range 1 65535 port then ok port else throw (bad_port value)
  ]

  -- `process.env[key] || file[key] || undefined`.
  unfoldable pub pick : String → Option Text
  unfolding read_env_file last_value
  pick key =
      or_else (non_empty (env (codes key)))
        (non_empty (last_value (codes key) (read_env_file env_file)))

  -- `given ?? parse(…)`.
  abbrev given_or : {A : Type 0} → Option A → Outcome ConfigError A → Outcome ConfigError A
  given_or none parsed = parsed
  given_or (some a) parsed = ok a

  abbrev host_of : Option Text → Outcome ConfigError Text
  host_of none = throw no_host
  host_of (some host) = ok host

  unfoldable pub load_credentials : CredentialInput → Outcome ConfigError PveCredentials
  unfolding pick parse_port parse_verify_ssl
  load_credentials input = do
    host ← host_of (non_empty (or_else input.host (pick "PVE_HOST")))
    port ← given_or input.port (parse_port (pick "PVE_PORT"))
    verify_ssl ← given_or input.verify_ssl (parse_verify_ssl (pick "PVE_VERIFY_SSL"))
    let node = non_empty (or_else input.node (pick "PVE_NODE"))
    let username = or_else input.username (pick "PVE_USER")
    let password = or_else input.password (pick "PVE_PASSWORD")
    let token_id = or_else input.token_id (pick "PVE_TOKEN_ID")
    let token_secret = or_else input.token_secret (pick "PVE_TOKEN_SECRET")
    token ← token_of (non_empty token_id) (non_empty token_secret) username
    ok (record {
      connection = record { host = host; port = port; verify_ssl = verify_ssl; node = node };
      token = token;
      ticket = ticket_of (non_empty username) (non_empty password);
    })

credential_tests :
    (read_env_file (some (codes "export PVE_USER='a b'\n# x\nPVE_NODE=n1"))
      ≡ (codes "PVE_USER", codes "a b") ∷ (codes "PVE_NODE", codes "n1") ∷ [])
    × (qualify_token_id (codes "ci") (some (codes "root@pam")) ≡ ok (codes "root@pam!ci"))
unfolding read_env_file qualify_token_id
credential_tests = (refl, refl)
