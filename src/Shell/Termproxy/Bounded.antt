-- ===== src/Shell/Termproxy/Bounded.antt =====
-- src/shell/termproxy.ts: the steps of a session, and what holds after any of them.
use pve_agent.Base.{
  ◌>>=◌, ltb, if◌then◌else◌, Bool-cases, length, Text, ◌>>=◌, refuse_if, Outcome, ok, throw, ℕ, ◌≤◌,
  ◌≡◌, refl, subst, ◌⊎◌, inl, inr, Bool, true, false, not, ◌&&◌, Option, none, some, [], ◌∷◌, ◌++◌,
  arith,
}
use pve_agent.Shell.Termproxy.{
  Session, Waiter, no_waiter, login_waiter, result_waiter, logged_in, ShellError, RunOptions,
  settle, reject, first_error, fail_with, fail, close, settle_parsed, check_for, check, append,
  wait_unless, wait_for, expire, send_line, start_login, prepare, check_probe, start_run,
  is_login_prompt, require_socket, require_of, is_ready, line_or_refusal, wrapped_line,
  line_too_long,
}
use pve_agent.Console.Pty.{send_input}
use pve_agent.Shell.Termproxy.Output.{CommandResult, parse}
use pve_agent.Shell.Termproxy.Stable.{rest-shorter}

module _ (marker : Text) (max_output_bytes : ℕ) where
  -- The output held is within the limit, and nobody waits on a session that has failed.
  abbrev pub IsSound : Session → Type 0
  IsSound s = (length s.buffer ≤ max_output_bytes) × ((s.waiter ≡ no_waiter) ⊎ (s.failure ≡ none))

  reject-IsSound :
      (wanted : Waiter) (error : ShellError) (s : Session)
      → s.waiter ≡ wanted
      → length s.buffer ≤ max_output_bytes
      → IsSound (reject wanted error s)
  reject-IsSound no_waiter error s e small = (small, inl e)
  reject-IsSound login_waiter error s e small = (small, inl refl)
  reject-IsSound result_waiter error s e small = (small, inl refl)

  fail_with-IsSound :
      (error : ShellError) (s : Session)
      → length s.buffer ≤ max_output_bytes
      → IsSound (fail_with error s)
  unfolding fail_with
  fail_with-IsSound error s small =
      reject-IsSound s.waiter (first_error s.failure error) _ refl small

  settle_parsed-IsSound :
      (s : Session) (o : Option (CommandResult × Text))
      → parse marker s.buffer ≡ o
      → IsSound s
      → IsSound (settle_parsed o s)
  settle_parsed-IsSound s none e h = h
  settle_parsed-IsSound s (some (result, rest)) e (small, h) =
      (omega (arith, rest-shorter marker s.buffer rest result e), inl refl)

  if-IsSound : (b : Bool) (s t : Session) → IsSound s → IsSound t → IsSound (if b then s else t)
  if-IsSound true s t h k = h
  if-IsSound false s t h k = k

  check_for-IsSound :
      (wanted : Waiter) (s : Session)
      → IsSound s
      → IsSound (check_for marker max_output_bytes wanted s)
  check_for-IsSound no_waiter s h = h
  check_for-IsSound login_waiter s (small, h) =
      if-IsSound _ (settle logged_in s) s (small, inl refl) (small, h)
  check_for-IsSound result_waiter s h = settle_parsed-IsSound s (parse marker s.buffer) refl h

  append-IsSound :
      (text : Text) (s : Session) → IsSound s → IsSound (append marker max_output_bytes text s)
  unfolding append fail close check
  append-IsSound text s (small, h) =
      elim (Bool-cases (ltb max_output_bytes (length (s.buffer ++ text)))) [
        | inl over ↦ rw over (fail_with-IsSound _ (record s { buffer = [] }) (omega arith))
        | inr within ↦
            let fits : length (s.buffer ++ text) ≤ max_output_bytes = ground (arith, within) in
            let held : Session = record s { buffer = s.buffer ++ text } in
            rw within (
              if-IsSound (not s.ready && is_login_prompt (s.buffer ++ text)) _ _
                (fail_with-IsSound _ held fits) (check_for-IsSound held.waiter held (fits, h)))
      ]

  wait_unless-IsSound :
      (failure : Option ShellError) (wanted : Waiter) (s : Session)
      → s.failure ≡ failure
      → length s.buffer ≤ max_output_bytes
      → IsSound (wait_unless marker max_output_bytes failure wanted s)
  unfolding check
  wait_unless-IsSound (some error) wanted s e small = (small, inl refl)
  wait_unless-IsSound none wanted s e small = check_for-IsSound wanted _ (small, inr e)

  wait_for-IsSound :
      (wanted : Waiter) (s : Session)
      → length s.buffer ≤ max_output_bytes
      → IsSound (wait_for marker max_output_bytes wanted s)
  unfolding wait_for
  wait_for-IsSound wanted s small = wait_unless-IsSound s.failure wanted s refl small

  module _ (utf8 base64 : Text → Text) (max_command_bytes : ℕ) where
    -- One thing that happens to a session.
    pub data Step : Session → Session → Type 0 where
      arrives : (text : Text) (s : Session) → Step s (append marker max_output_bytes text s)
      breaks : (reason : Text) (s : Session) → Step s (fail reason s)
      expires : (s : Session) → Step s (expire marker max_output_bytes s)
      closes : (s : Session) → Step s (close s)
      logs_in :
          (user ticket : Text) (s : Session)
          → Step s (start_login marker max_output_bytes utf8 base64 max_command_bytes user ticket s)
      prepares :
          (s t : Session)
          → prepare marker max_output_bytes utf8 base64 max_command_bytes s ≡ ok t
          → Step s t
      probes :
          (probe : CommandResult) (s : Session)
          → Step s ((check_probe marker max_output_bytes utf8 base64 max_command_bytes probe s).1)
      runs :
          (command : Text) (options : RunOptions) (s t : Session)
          → start_run marker max_output_bytes utf8 base64 max_command_bytes command options s ≡ ok t
          → Step s t

    pub data Steps : Session → Session → Type 0 where
      here : (s : Session) → Steps s s
      step : (s t u : Session) → Step s t → Steps t u → Steps s u

    abbrev Sound : Outcome ShellError Session → Type 0
    Sound (ok t) = IsSound t
    Sound (throw e) = Unit

    bind-Sound :
        {A : Type 0} (r : Outcome ShellError A) (next : A → Outcome ShellError Session)
        → ((a : A) → r ≡ ok a → Sound (next a))
        → Sound (r >>= next)
    bind-Sound (ok a) next h = h a refl
    bind-Sound (throw e) next h = tt

    require_of-none :
        (socket : Option Bool) (failure : Option ShellError) (u : Unit {0})
        → require_of socket failure ≡ ok u
        → failure ≡ none
    require_of-none none failure u h = absurd (ground (arith, h))
    require_of-none (some open_flag) none u h = refl
    require_of-none (some open_flag) (some error) u h = absurd (ground (arith, h))

    prepare-Sound :
        (s : Session) → Sound (prepare marker max_output_bytes utf8 base64 max_command_bytes s)
    unfolding prepare send_line require_socket
    prepare-Sound s =
        bind-Sound (require_of s.socket s.failure) _
          (λ u e. (omega arith, inr (require_of-none s.socket s.failure u e)))

    waiting-Sound :
        (r : Outcome ShellError (Unit {0})) (t : Session)
        → length t.buffer ≤ max_output_bytes
        → Sound
            ((r >>= λ _. ok t) >>= λ sent. ok (wait_for marker max_output_bytes result_waiter sent))
    waiting-Sound (ok u) t small = wait_for-IsSound result_waiter t small
    waiting-Sound (throw e) t small = tt

    start_run-Sound :
        (command : Text) (options : RunOptions) (s : Session)
        → Sound (start_run marker max_output_bytes utf8 base64 max_command_bytes command options s)
    unfolding start_run send_line
    start_run-Sound command options s = bind-Sound (require_socket s) _ (λ _ _.
        bind-Sound
          (line_or_refusal marker max_output_bytes utf8 base64 max_command_bytes
            (wrapped_line marker max_output_bytes utf8 base64 max_command_bytes command options))
          _
          (λ line _.
            bind-Sound
              (refuse_if (ltb max_command_bytes (length (utf8 line)))
                (line_too_long (length (utf8 line))))
              _
              (λ _ _.
                waiting-Sound (require_socket (record s { buffer = [] }))
                  (record s { buffer = []; sent = send_input utf8 (line ++ 10 ∷ []) s.sent })
                  (omega arith))))

    Step-IsSound : (s t : Session) → Step s t → IsSound s → IsSound t
    unfolding fail expire close start_login check_probe
    Step-IsSound _ _ (arrives text s) h = append-IsSound text s h
    Step-IsSound _ _ (breaks reason s) (small, h) = fail_with-IsSound _ s small
    Step-IsSound _ _ (expires s) (small, h) = reject-IsSound s.waiter _ s refl small
    Step-IsSound _ _ (closes s) h = h
    Step-IsSound _ _ (logs_in user ticket s) (small, h) = wait_for-IsSound login_waiter _ small
    Step-IsSound _ _ (prepares s t e) h = subst Sound e (prepare-Sound s)
    Step-IsSound _ _ (probes probe s) h =
        elim (Bool-cases (is_ready marker max_output_bytes utf8 base64 max_command_bytes probe)) [
          | inl good ↦ rw good h
          | inr bad ↦ rw bad h
        ]
    Step-IsSound _ _ (runs command options s t e) h =
        subst Sound e (start_run-Sound command options s)

    -- From a session on which nobody waits on a failure and whose output is within the limit, every
    -- session that is reached is such a one too.
    pub steps-IsSound : (s t : Session) → Steps s t → IsSound s → IsSound t
    steps-IsSound _ _ (here s) h = h
    steps-IsSound _ _ (step s m t first rest) h = steps-IsSound m t rest (Step-IsSound s m first h)
