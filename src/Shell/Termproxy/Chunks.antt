-- ===== src/Shell/Termproxy/Chunks.antt =====
-- src/shell/termproxy.ts, append: output that arrives in pieces while a command's result is awaited.
use pve_agent.Base.{
  ltb, Option-cases, length, length-append, Text, starts_with, find_text, Lacks, ℕ, ◌≤◌, ◌≡◌, refl,
  sym, ap, ◌∙◌, subst, inl, inr, true, false, none, some, List, [], ◌∷◌, ◌++◌, append-nil,
  append_assoc, arith,
}
use mathlib.Core.List.{flatten}
use pve_agent.Shell.Termproxy.{
  Session, Waiter, no_waiter, result_waiter, answered, settle_parsed, append,
}
use pve_agent.Shell.Termproxy.Output.{start, CommandResult, code_of, clean_output, parse}
use pve_agent.Shell.Termproxy.Marked.{marked, parse-marked}
use pve_agent.Shell.Termproxy.Stable.{parse-longer, rest-shorter, some-get}

module _ (marker : Text) (max_output_bytes : ℕ) where
  -- What arrives, piece by piece.
  abbrev pub deliver : List Text → Session → Session
  deliver [] s = s
  deliver (chunk ∷ chunks) s = deliver chunks (append marker max_output_bytes chunk s)

  -- A session that is ready: the command that follows its login was answered.
  abbrev pub awaiting : Session → Text → Waiter → Session
  awaiting s buffer waiting = record s { ready = true; buffer = buffer; waiter = waiting }

  -- The session once the result is there.
  abbrev pub answered_with : Session → CommandResult → Text → Session
  answered_with s result buffer = record s {
    ready = true;
    buffer = buffer;
    waiter = no_waiter;
    settled = s.settled ++ answered result ∷ [];
  }

  append-idle :
      (s : Session) (result : CommandResult) (p c : Text)
      → length (p ++ c) ≤ max_output_bytes
      → append marker max_output_bytes c (answered_with s result p)
        ≡ answered_with s result (p ++ c)
  unfolding append
  append-idle s result p c small =
      let fits : ltb max_output_bytes (length (p ++ c)) ≡ false = ground (arith, small) in
      rw fits refl

  append-waiting :
      (s : Session) (p c : Text)
      → length (p ++ c) ≤ max_output_bytes
      → append marker max_output_bytes c (awaiting s p result_waiter)
        ≡ settle_parsed (parse marker (p ++ c)) (awaiting s (p ++ c) result_waiter)
  unfolding append
  append-waiting s p c small =
      let fits : ltb max_output_bytes (length (p ++ c)) ≡ false = ground (arith, small) in
      rw fits refl

  deliver-idle :
      (chunks : List Text) (s : Session) (result : CommandResult) (p : Text)
      → length (p ++ flatten chunks) ≤ max_output_bytes
      → deliver chunks (answered_with s result p) ≡ answered_with s result (p ++ flatten chunks)
  unfolding flatten
  deliver-idle [] s result p small = ap (answered_with s result) (sym (append-nil p))
  deliver-idle (c ∷ chunks) s result p small =
      let e = append_assoc p c (flatten chunks) in
      let whole : length ((p ++ c) ++ flatten chunks) ≤ max_output_bytes =
        subst (λ t. length t ≤ max_output_bytes) (sym e) small in
      let part : length (p ++ c) ≤ max_output_bytes =
        omega (arith, whole, length-append (p ++ c) (flatten chunks)) in
      ap (deliver chunks) (append-idle s result p c part)
      ∙ deliver-idle chunks s result (p ++ c) whole
      ∙ ap (answered_with s result) e

  deliver-waiting :
      (chunks : List Text) (s : Session) (p whole more : Text) (result : CommandResult)
      → parse marker p ≡ none
      → p ++ flatten chunks ≡ whole
      → length whole ≤ max_output_bytes
      → parse marker whole ≡ some (result, more)
      → deliver chunks (awaiting s p result_waiter) ≡ answered_with s result more
  unfolding flatten
  deliver-waiting [] s p whole more result nothing e small found =
      let clash : none ≡ some (result, more) =
        sym nothing ∙ ap (parse marker) (sym (append-nil p) ∙ e) ∙ found in
      absurd (ground (arith, clash))
  deliver-waiting (c ∷ chunks) s p whole more result nothing e small found =
      let joined : (p ++ c) ++ flatten chunks ≡ whole = append_assoc p c (flatten chunks) ∙ e in
      let total : length ((p ++ c) ++ flatten chunks) ≤ max_output_bytes =
        subst (λ t. length t ≤ max_output_bytes) (sym joined) small in
      let part : length (p ++ c) ≤ max_output_bytes =
        omega (arith, total, length-append (p ++ c) (flatten chunks)) in
      ap (deliver chunks) (append-waiting s p c part)
      ∙ elim (Option-cases (parse marker (p ++ c))) [
        | inl not_yet ↦
            ap (λ o. deliver chunks (settle_parsed o (awaiting s (p ++ c) result_waiter))) not_yet
            ∙ deliver-waiting chunks s (p ++ c) whole more result not_yet joined small found
        | inr ((early, rest), here) ↦
            let same : (early, rest ++ flatten chunks) ≡ (result, more) = some-get _ _ (
              sym (parse-longer marker (p ++ c) (flatten chunks) early rest here)
              ∙ ap (parse marker) joined
              ∙ found) in
            let left : rest ++ flatten chunks ≡ more = ap (λ x. x.1) same in
            let fits : length (rest ++ flatten chunks) ≤ max_output_bytes =
              subst (λ t. length t ≤ max_output_bytes) (sym left)
                (omega (arith, small, rest-shorter marker whole more result found)) in
            ap (λ o. deliver chunks (settle_parsed o (awaiting s (p ++ c) result_waiter))) here
            ∙ deliver-idle chunks s early rest fits
            ∙ ap (λ x. answered_with s x.0 x.1) same
      ]

  parse_nothing : parse marker [] ≡ none
  unfolding parse find_text starts_with
  parse_nothing = refl

  -- While a session that is ready awaits the result of a command, and its buffer is empty, the output of
  -- the command may arrive in any pieces: the caller is told the result once, when it is complete, and what follows it stays in the
  -- buffer. The marker, what is printed before, the output and the errors hold no start character, and
  -- all of it is within the limit.
  pub deliver-answered :
      (s : Session) (chunks : List Text) (noise out err : Text) (code : ℕ) (more : Text)
      → Lacks start marker
      → Lacks start noise
      → Lacks start out
      → Lacks start err
      → flatten chunks ≡ marked marker noise out err code more
      → length (flatten chunks) ≤ max_output_bytes
      → deliver chunks (awaiting s [] result_waiter)
        ≡ answered_with s
            (record {
              stdout = clean_output out;
              stderr = clean_output err;
              exit_code = code_of code;
            })
            more
  deliver-answered s chunks noise out err code more in_marker in_noise in_out in_err e small =
      deliver-waiting chunks s [] (marked marker noise out err code more) more _ parse_nothing e
        (subst (λ t. length t ≤ max_output_bytes) e small)
        (parse-marked marker noise out err code more in_marker in_noise in_out in_err)
