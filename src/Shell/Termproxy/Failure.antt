-- ===== src/Shell/Termproxy/Failure.antt =====
-- src/shell/termproxy.ts, failWith: the failure that is recorded.
use pve_agent.Base.{
  ltb, if◌then◌else◌, Bool-cases, length, Text, ◌>>=◌, Outcome, ok, ℕ, ◌≡◌, ap, inl, inr, Bool,
  true, false, not, ◌&&◌, Option, none, some, [], ◌++◌, arith,
}
use pve_agent.Shell.Termproxy.{
  Session, Waiter, no_waiter, login_waiter, result_waiter, ShellError, settle, reject, first_error,
  fail_with, fail, close, settle_parsed, check_for, check, append, wait_unless, wait_for, expire,
  start_login, is_ready, check_probe, is_login_prompt, require_socket, require_of, send_line,
  prepare, start_run, logged_in,
}
use pve_agent.Shell.Termproxy.Output.{CommandResult, parse}
use pve_agent.Shell.Termproxy.Bounded.{
  Step, arrives, breaks, expires, closes, logs_in, prepares, probes, runs, Steps, here, step,
}

module _ (error : ShellError) where
  abbrev HasFailed : Session → Type 0
  HasFailed s = s.failure ≡ some error

  reject-HasFailed :
      (wanted : Waiter) (e : ShellError) (s : Session) → HasFailed s → HasFailed (reject wanted e s)
  reject-HasFailed no_waiter e s h = h
  reject-HasFailed login_waiter e s h = h
  reject-HasFailed result_waiter e s h = h

  fail_with-HasFailed : (e : ShellError) (s : Session) → HasFailed s → HasFailed (fail_with e s)
  unfolding fail_with
  fail_with-HasFailed e s h =
      reject-HasFailed s.waiter (first_error s.failure e) _ (ap (λ f. some (first_error f e)) h)

  settle_parsed-HasFailed :
      (o : Option (CommandResult × Text)) (s : Session)
      → HasFailed s
      → HasFailed (settle_parsed o s)
  settle_parsed-HasFailed none s h = h
  settle_parsed-HasFailed (some (result, rest)) s h = h

  if-HasFailed :
      (b : Bool) (s t : Session) → HasFailed s → HasFailed t → HasFailed (if b then s else t)
  if-HasFailed true s t h k = h
  if-HasFailed false s t h k = k

  no_run :
      {A : Type 0} (socket : Option Bool) (failure : Option ShellError)
      (next : Unit {0} → Outcome ShellError A) (a : A)
      → failure ≡ some error
      → (require_of socket failure >>= next) ≡ ok a
      → ⊥
  no_run none failure next a h e = ground (arith, e)
  no_run (some flag) none next a h e = ground (arith, h)
  no_run (some flag) (some f) next a h e = ground (arith, e)

  module _ (marker : Text) (max_output_bytes : ℕ) where
    check_for-HasFailed :
        (wanted : Waiter) (s : Session)
        → HasFailed s
        → HasFailed (check_for marker max_output_bytes wanted s)
    check_for-HasFailed no_waiter s h = h
    check_for-HasFailed login_waiter s h = if-HasFailed _ (settle logged_in s) s h h
    check_for-HasFailed result_waiter s h = settle_parsed-HasFailed (parse marker s.buffer) s h

    append-HasFailed :
        (text : Text) (s : Session)
        → HasFailed s
        → HasFailed (append marker max_output_bytes text s)
    unfolding append fail close check
    append-HasFailed text s h =
        let held : Session = record s { buffer = s.buffer ++ text } in
        elim (Bool-cases (ltb max_output_bytes (length (s.buffer ++ text)))) [
          | inl over ↦ rw over (fail_with-HasFailed _ (record s { buffer = [] }) h)
          | inr within ↦ rw within (
              if-HasFailed (not s.ready && is_login_prompt (s.buffer ++ text)) _ _
                (fail_with-HasFailed _ held h) (check_for-HasFailed held.waiter held h))
        ]

    wait_unless-HasFailed :
        (failure : Option ShellError) (wanted : Waiter) (s : Session)
        → HasFailed s
        → HasFailed (wait_unless marker max_output_bytes failure wanted s)
    unfolding check
    wait_unless-HasFailed (some e) wanted s h = h
    wait_unless-HasFailed none wanted s h = check_for-HasFailed wanted _ h

    module _ (utf8 base64 : Text → Text) (max_command_bytes : ℕ) where
      Step-HasFailed :
          (s t : Session)
          → Step marker max_output_bytes utf8 base64 max_command_bytes s t
          → HasFailed s
          → HasFailed t
      unfolding fail expire close start_login wait_for check_probe prepare send_line start_run
          require_socket
      Step-HasFailed _ _ (arrives text s) h = append-HasFailed text s h
      Step-HasFailed _ _ (breaks reason s) h = fail_with-HasFailed _ s h
      Step-HasFailed _ _ (expires s) h = reject-HasFailed s.waiter _ s h
      Step-HasFailed _ _ (closes s) h = h
      Step-HasFailed _ _ (logs_in user ticket s) h =
          wait_unless-HasFailed s.failure login_waiter _ h
      Step-HasFailed _ _ (prepares s t e) h = absurd (no_run s.socket s.failure _ t h e)
      Step-HasFailed _ _ (probes probe s) h =
          elim (Bool-cases (is_ready marker max_output_bytes utf8 base64 max_command_bytes probe)) [
            | inl good ↦ rw good h
            | inr bad ↦ rw bad h
          ]
      Step-HasFailed _ _ (runs command options s t e) h = absurd (no_run s.socket s.failure _ t h e)

      -- The first failure that is recorded stays the one that explains the session, whatever happens next.
      pub steps-HasFailed :
          (s t : Session)
          → Steps marker max_output_bytes utf8 base64 max_command_bytes s t
          → s.failure ≡ some error
          → t.failure ≡ some error
      steps-HasFailed _ _ (here s) h = h
      steps-HasFailed _ _ (step s m t first rest) h =
          steps-HasFailed m t rest (Step-HasFailed s m first h)
