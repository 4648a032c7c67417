-- ===== src/Shell/Termproxy/Marked.antt =====
-- src/shell/termproxy.ts, parse: the output of a command as the wrapped line prints it.
use pve_agent.Base.{
  length, drop, drop-length_append, Text, codes, starts_with, print_nat, Lacks, print_nat-all, ℕ,
  ◌+◌, ◌≡◌, refl, ap, ◌∙◌, some, [], ◌∷◌, ◌++◌, arith,
}
use mathlib.Core.Option
use pve_agent.Shell.Termproxy.Search.{
  drop-past, find_text-here, find_text-past, find_text-other, find_from-at, slice-at,
  parse_int-print_nat, Lacks-append, Lacks-digits,
}
use pve_agent.Shell.Termproxy.Output.{
  start, stop, clean_output, code_of, parse_int, or_minus_one, find_from, slice, CommandResult,
  begin_mark, err_mark, end_mark, result_at, after_end, after_err, after_begin, parse,
}

-- What stands behind the exit code in the text that a command leaves.
abbrev pub marked_end : Text → ℕ → Text → Text
marked_end marker code more = end_mark marker ++ (print_nat code ++ stop ∷ more)

-- The text that the wrapped line leaves on the terminal: what was there, the output, the errors and the
-- exit code behind their marks, and what comes next.
abbrev pub marked : Text → Text → Text → Text → ℕ → Text → Text
marked marker noise out err code more =
    noise
    ++ (begin_mark marker ++ (out ++ (err_mark marker ++ (err ++ marked_end marker code more))))

pub parse-found :
    (marker buffer : Text) (b e n k : ℕ)
    → find_from (begin_mark marker) 0 buffer ≡ some b
    → find_from (err_mark marker) b buffer ≡ some e
    → find_from (end_mark marker) e buffer ≡ some n
    → find_from (stop ∷ []) (n + length (end_mark marker)) buffer ≡ some k
    → parse marker buffer ≡ some (result_at marker buffer b e n k)
unfolding parse
parse-found marker buffer b e n k at_begin at_err at_end at_stop =
    ap (after_begin marker buffer) at_begin
    ∙ ap (after_err marker buffer b) at_err
    ∙ ap (after_end marker buffer b e) at_end
    ∙ ap (Option.map (result_at marker buffer b e n)) at_stop

-- The answer of the four parts of the text.
abbrev answer : Text → Text → Text → Text → CommandResult × Text
answer out err number rest = (
  record {
    stdout = clean_output out;
    stderr = clean_output err;
    exit_code = or_minus_one (parse_int number);
  },
  rest,
)

module _ (marker noise out err : Text) (code : ℕ) (more : Text) where
  abbrev digits : Text
  digits = print_nat code

  abbrev behind_err : Text
  behind_err = err ++ marked_end marker code more

  abbrev behind_begin : Text
  behind_begin = out ++ (err_mark marker ++ behind_err)

  abbrev whole : Text
  whole = marked marker noise out err code more

  abbrev begin_at : ℕ
  begin_at = length noise

  abbrev err_at : ℕ
  err_at = begin_at + length (begin_mark marker) + length out

  abbrev end_at : ℕ
  end_at = err_at + length (err_mark marker) + length err

  abbrev stop_at : ℕ
  stop_at = end_at + length (end_mark marker) + length digits

  drop-begin : drop begin_at whole ≡ begin_mark marker ++ behind_begin
  drop-begin = drop-length_append noise (begin_mark marker ++ behind_begin)

  drop-err : drop err_at whole ≡ err_mark marker ++ behind_err
  drop-err =
      drop-past (begin_at + length (begin_mark marker)) whole out (err_mark marker ++ behind_err)
        (drop-past begin_at whole (begin_mark marker) behind_begin drop-begin)

  drop-end : drop end_at whole ≡ marked_end marker code more
  drop-end =
      drop-past (err_at + length (err_mark marker)) whole err (marked_end marker code more)
        (drop-past err_at whole (err_mark marker) behind_err drop-err)

  drop-digits : drop (end_at + length (end_mark marker)) whole ≡ digits ++ stop ∷ more
  drop-digits = drop-past end_at whole (end_mark marker) (digits ++ stop ∷ more) drop-end

  module _ (in_marker : Lacks start marker) (in_noise : Lacks start noise)
      (in_out : Lacks start out) (in_err : Lacks start err) where
    begin_found : find_from (begin_mark marker) 0 whole ≡ some begin_at
    begin_found =
        find_from-at (begin_mark marker) whole whole 0 (begin_at + 0) begin_at refl
          (find_text-past start _ noise _ 0 in_noise (find_text-here start _ behind_begin))
          (omega arith)

    err_found : find_from (err_mark marker) begin_at whole ≡ some err_at
    err_found =
        find_from-at (err_mark marker) whole _ begin_at _ err_at drop-begin
          (find_text-other start marker (codes "BEGIN" ++ stop ∷ []) (codes "ERR" ++ stop ∷ [])
            behind_begin (length out + 0) (Lacks-append start marker _ in_marker refl)
            (unfold starts_with in refl)
            (find_text-past start _ out _ 0 in_out (find_text-here start _ behind_err)))
          (omega arith)

    end_found : find_from (end_mark marker) err_at whole ≡ some end_at
    end_found =
        find_from-at (end_mark marker) whole _ err_at _ end_at drop-err
          (find_text-other start marker (codes "ERR" ++ stop ∷ []) (codes "END:") behind_err
            (length err + 0) (Lacks-append start marker _ in_marker refl)
            (unfold starts_with in refl)
            (find_text-past start _ err _ 0 in_err
              (find_text-here start _ (digits ++ stop ∷ more))))
          (omega arith)

    stop_found : find_from (stop ∷ []) (end_at + length (end_mark marker)) whole ≡ some stop_at
    stop_found =
        find_from-at (stop ∷ []) whole _ (end_at + length (end_mark marker)) _ stop_at drop-digits
          (find_text-past stop [] digits (stop ∷ more) 0 (Lacks-digits digits (print_nat-all code))
            (find_text-here stop [] more))
          (omega arith)

    -- What a command left between its marks is read back: its output and its errors as they are cleaned,
    -- its exit code, and what follows stays in the buffer.
    pub parse-marked :
        parse marker whole
        ≡ some (
          record { stdout = clean_output out; stderr = clean_output err; exit_code = code_of code },
          more,
        )
    parse-marked =
        let errors = slice (err_at + length (err_mark marker)) end_at whole in
        let number = slice (end_at + length (end_mark marker)) stop_at whole in
        let left = drop (stop_at + 1) whole in
        let out_there : slice (begin_at + length (begin_mark marker)) err_at whole ≡ out =
          slice-at whole out (err_mark marker ++ behind_err) _ err_at
            (drop-past begin_at whole (begin_mark marker) behind_begin drop-begin) refl in
        let err_there : slice (err_at + length (err_mark marker)) end_at whole ≡ err =
          slice-at whole err (marked_end marker code more) _ end_at
            (drop-past err_at whole (err_mark marker) behind_err drop-err) refl in
        let digits_there : slice (end_at + length (end_mark marker)) stop_at whole ≡ digits =
          slice-at whole digits (stop ∷ more) _ stop_at drop-digits refl in
        let more_there : drop (stop_at + 1) whole ≡ more =
          drop-past stop_at whole (stop ∷ []) more (
            drop-past (end_at + length (end_mark marker)) whole digits (stop ∷ more) drop-digits) in
        parse-found marker whole begin_at err_at end_at stop_at begin_found err_found end_found
          stop_found
        ∙ ap (λ o. some (answer o errors number left)) out_there
        ∙ ap (λ e. some (answer out e number left)) err_there
        ∙ ap (λ d. some (answer out err d left)) digits_there
        ∙ ap (λ m. some (answer out err digits m)) more_there
        ∙ ap
            (λ c. some (
              record {
                stdout = clean_output out;
                stderr = clean_output err;
                exit_code = or_minus_one c;
              },
              more,
            ))
            (parse_int-print_nat code)
