-- ===== src/Shell/Termproxy.antt =====
-- src/shell/termproxy.ts, class TermproxyTransport: one session on a terminal websocket. What arrives
-- and what is asked is a step on the fields of the session; what a waiting caller is told is appended to
-- the log `settled`, what goes out to `sent`. Calls run one after another, as `serialize` has it, so
-- nobody waits when a call begins. `utf8` and `base64` encode, `base64` a string or the input.
pub mod Output
pub mod Search
pub mod Marked
pub mod Stable
pub mod Chunks
pub mod Bounded
pub mod Failure
mod Tests
use pve_agent.Base.{
  ltb, ◌==◌, if◌then◌else◌, length, Text, codes, text_eq, starts_with, find_text, is_space,
  trim_start, lower, ◌>>=◌, ◌>>◌, refuse_if, Outcome, ok, throw, ℕ, Bool, true, false, not, ◌&&◌,
  ◌||◌, Option, none, some, List, [], ◌∷◌, ◌++◌, map,
}
use mathlib.Core.List.{reverse}
use pve_agent.Console.Pty.{Frame, text_frame, send_input, resize_frame, login_frame}
use pve_agent.Shell.Escape.{Refusal, ShellContext, sh_quote, sh_wrap}
use Output.{CommandResult, ExitCode, code_of, minus, parse, clean_output}

pub data ShellError : Type 0 where
  credential_error : ShellError
  transport_error : Text → ShellError
  line_too_long : ℕ → ShellError
  timeout_error : (partial_output : Text) → ShellError
  command_error : CommandResult → ShellError
  policy_error : Refusal → ShellError

-- What a caller waits for.
pub data Waiter : Type 0 where
  no_waiter login_waiter result_waiter : Waiter

pub data Settled : Type 0 where
  logged_in : Settled
  answered : CommandResult → Settled
  failed : ShellError → Settled

pub record Session : Type 0 where
  -- The socket, if there is one, by its `open` flag.
  pub socket : Option Bool
  pub buffer : Text
  pub ready : Bool
  pub failure : Option ShellError
  pub waiter : Waiter
  pub keepalive : Bool
  pub settled : List Settled
  pub sent : List Frame

pub record RunOptions : Type 0 where
  pub input : Option Text
  pub check : Bool
  pub context : ShellContext

abbrev interrupt : Text
interrupt = 3 ∷ []

abbrev trim_end : Text → Text
trim_end s = reverse (trim_start (reverse s))

-- `LOGIN_PROMPT.test(s)`: the text ends in a prompt and white space.
unfoldable pub is_login_prompt : Text → Bool
unfolding starts_with lower trim_start is_space
is_login_prompt s =
    let last = reverse (map lower (trim_end s)) in
    starts_with last (reverse (codes "login:")) || starts_with last (reverse (codes "password:"))

abbrev is_found : Option ℕ → Bool
is_found none = false
is_found (some n) = true

abbrev pub settle : Settled → Session → Session
settle what s = record s { waiter = no_waiter; settled = s.settled ++ what ∷ [] }

-- The waiting caller is rejected.
abbrev pub reject : Waiter → ShellError → Session → Session
reject no_waiter error s = s
reject _ error s = settle (failed error) s

abbrev pub first_error : Option ShellError → ShellError → ShellError
first_error none error = error
first_error (some old) error = old

unfoldable pub fail_with : ShellError → Session → Session
fail_with error s =
    let first = first_error s.failure error in
    reject s.waiter first (record s { failure = some first })

unfoldable pub fail : Text → Session → Session
unfolding fail_with
fail reason = fail_with (transport_error reason)

unfoldable pub close : Session → Session
close s = record s { keepalive = false; socket = none }

abbrev pub settle_parsed : Option (CommandResult × Text) → Session → Session
settle_parsed none s = s
settle_parsed (some (result, rest)) s = settle (answered result) (record s { buffer = rest })

abbrev is_open : Option Bool → Bool
is_open (some true) = true
is_open _ = false

abbrev pub closed_error : Option ShellError → ShellError
closed_error failure = first_error failure (transport_error [])

abbrev pub require_of : Option Bool → Option ShellError → Outcome ShellError (Unit {0})
require_of none failure = throw (closed_error failure)
require_of (some open_flag) none = ok tt
require_of (some open_flag) (some error) = throw error

unfoldable pub require_socket : Session → Outcome ShellError (Unit {0})
require_socket s = require_of s.socket s.failure

module _ (marker : Text) (max_output_bytes : ℕ) where
  -- The waiting caller looks at the buffer.
  abbrev pub check_for : Waiter → Session → Session
  check_for no_waiter s = s
  check_for login_waiter s =
      if is_found (find_text (codes "OK") s.buffer) then settle logged_in s else s
  check_for result_waiter s = settle_parsed (parse marker s.buffer) s

  unfoldable pub check : Session → Session
  unfolding find_text parse
  check s = check_for s.waiter s

  unfoldable pub append : Text → Session → Session
  unfolding fail close fail_with is_login_prompt check
  append text s =
      let held = record s { buffer = s.buffer ++ text } in
      if ltb max_output_bytes (length held.buffer)
      then close (fail (codes "the output passed the byte limit") (record held { buffer = [] }))
      else if not held.ready && is_login_prompt held.buffer
      then fail_with credential_error held
      else check held

  abbrev wait_unless : Option ShellError → Waiter → Session → Session
  wait_unless (some error) wanted s = settle (failed error) s
  wait_unless none wanted s = check (record s { waiter = wanted })

  unfoldable pub wait_for : Waiter → Session → Session
  unfolding check
  wait_for wanted s = wait_unless s.failure wanted s

  -- The deadline of a wait.
  unfoldable pub expire : Session → Session
  unfolding clean_output
  expire s = reject s.waiter (timeout_error (clean_output s.buffer)) s

  module _ (utf8 base64 : Text → Text) (max_command_bytes : ℕ) where
    unfoldable pub send_line : Text → Session → Outcome ShellError Session
    unfolding require_socket send_input
    send_line line s = do
      require_socket s
      ok (record s { sent = send_input utf8 (line ++ 10 ∷ []) s.sent })

    -- The parts of `connect` on the open socket: the login, what is sent behind its answer, and the probe.
    unfoldable pub start_login : Text → Text → Session → Session
    unfolding wait_for login_frame
    start_login user ticket s =
        wait_for login_waiter
          (record s { sent = s.sent ++ text_frame (login_frame user ticket) ∷ [] })

    abbrev setup_line : Text
    setup_line =
        codes "stty -echo 2>/dev/null; PS1=; PS2=; unset PROMPT_COMMAND; "
        ++ (codes "export LC_ALL=C TERM=dumb NO_COLOR=1 SYSTEMD_COLORS=0 CLICOLOR=0; "
            ++ (codes "__A="
                ++ (marker
                    ++ (codes "; __B=BEGIN; __S=ERR; __E=END; "
                        ++ codes "__T=$(mktemp); trap 'rm -f -- \"$__T\"' EXIT HUP"))))

    unfoldable pub prepare : Session → Outcome ShellError Session
    unfolding send_line resize_frame
    prepare s = send_line setup_line (record s {
      buffer = [];
      keepalive = true;
      sent = s.sent ++ text_frame (resize_frame 200 50) ∷ [];
    })

    abbrev is_zero : ExitCode → Bool
    is_zero (code_of n) = n == 0
    is_zero (minus n) = n == 0

    abbrev pub is_ready : CommandResult → Bool
    is_ready probe = is_zero probe.exit_code && text_eq probe.stdout (codes "ready")

    unfoldable pub check_probe : CommandResult → Session → Outcome ShellError (Unit {0}) × Session
    unfolding close text_eq
    check_probe probe s =
        if is_ready probe
        then (ok tt, record s { ready = true })
        else (throw (transport_error s.buffer), close s)

    abbrev quoted_base64 : Text → Outcome Refusal Text
    quoted_base64 s = sh_quote (base64 s)

    abbrev body_of : Text → Option Text → Outcome Refusal Text
    body_of decode none = ok (codes "( eval " ++ (decode ++ codes " )"))
    body_of decode (some input) = do
      quoted ← quoted_base64 input
      ok (
          codes "( printf %s "
          ++ (quoted ++ (codes " | base64 -d | eval " ++ (decode ++ codes " )"))))

    -- The line that runs a command between its marks.
    unfoldable pub wrapped_line : Text → RunOptions → Outcome Refusal Text
    unfolding sh_quote sh_wrap
    wrapped_line command options = do
      wrapped ← sh_wrap command options.context
      quoted ← quoted_base64 wrapped
      let decode = codes "\"$(printf %s " ++ (quoted ++ codes " | base64 -d)\"")
      body ← body_of decode options.input
      ok (
          codes "printf '\\001%s\\002' \"$__A$__B\"; "
          ++ (body
              ++ (codes " 2>\"$__T\"; __rc=$?; "
                  ++ (codes "printf '\\001%s\\002' \"$__A$__S\"; cat -- \"$__T\"; "
                      ++ codes "printf '\\001%s:%d\\002\\n' \"$__A$__E\" \"$__rc\""))))

    abbrev pub line_or_refusal : Outcome Refusal Text → Outcome ShellError Text
    line_or_refusal (ok line) = ok line
    line_or_refusal (throw refusal) = throw (policy_error refusal)

    -- The method `runNow`, up to where it waits.
    unfoldable pub start_run : Text → RunOptions → Session → Outcome ShellError Session
    unfolding require_socket wrapped_line send_line wait_for
    start_run command options s = do
      require_socket s
      line ← line_or_refusal (wrapped_line command options)
      refuse_if (ltb max_command_bytes (length (utf8 line))) (line_too_long (length (utf8 line)))
      sent ← send_line line (record s { buffer = [] })
      ok (wait_for result_waiter sent)

    -- The rest of `runNow`, by what the wait settled with: a failure interrupts the command.
    unfoldable pub finish_run :
        Bool
        → Outcome ShellError CommandResult
        → Session
        → Outcome ShellError CommandResult × Session
    unfolding send_input
    finish_run check_exit (ok result) s = (
      if check_exit && not (is_zero result.exit_code)
          then throw (command_error result)
          else ok result,
      s,
    )
    finish_run check_exit (throw error) s = (
      throw error,
      if is_open s.socket then record s { sent = send_input utf8 interrupt s.sent } else s,
    )
