-- ===== src/Shell/Termproxy/Output.antt =====
-- src/shell/termproxy.ts: the output of a wrapped command, between its markers.
use pve_agent.Base.{
  ◌==◌, if◌then◌else◌, in_range, length, take, drop, Text, codes, find_text, trim_start, is_digit,
  digits_value, ℕ, zero, suc, ◌+◌, ◌-◌, Bool, not, ◌&&◌, ◌||◌, Option, none, some, [], ◌∷◌, ◌++◌,
}
use mathlib.Core.Option

abbrev pub start : ℕ
start = 1

abbrev pub stop : ℕ
stop = 2

abbrev escape : ℕ
escape = 27

abbrev skip_class : (ℕ → Bool) → Text → Text
skip_class p [] = []
skip_class p (c ∷ s) = if p c then skip_class p s else c ∷ s

abbrev final_rest : Text → Option Text
final_rest [] = none
final_rest (c ∷ s) = if in_range 0x40 0x7e c then some s else none

abbrev osc_rest : Text → Option Text
osc_rest (c ∷ d ∷ s) =
    if c == 7 then some (d ∷ s) else if c == escape && d == b'\\' then some s else none
osc_rest (c ∷ []) = if c == 7 then some [] else none
osc_rest [] = none

abbrev charset_rest : Text → Option Text
charset_rest [] = none
charset_rest (c ∷ s) = if is_digit c || in_range b'A' b'Z' c then some s else none

-- What stands behind a match of ANSI at the front. The character behind the escape tells the
-- alternatives apart, and no class shares a character with what must follow it.
unfoldable pub ansi_rest : Text → Option Text
unfolding is_digit
ansi_rest (c ∷ d ∷ s) =
    if not (c == escape)
    then none
    else if d == b'['
    then final_rest (
        skip_class (in_range 0x20 0x2f)
          (skip_class (λ x. is_digit x || (x == b';' || x == b'?')) s))
    else if d == b']'
    then osc_rest (skip_class (λ x. not (x == 7 || x == escape)) s)
    else if d == b'(' || d == b')'
    then charset_rest s
    else if d == b'=' || (d == b'>' || (d == b'7' || d == b'8'))
    then some s
    else none
ansi_rest _ = none

-- `text.replace(ANSI, '')`; of a match `skip` more characters are to pass.
unfoldable pub strip_ansi : ℕ → Text → Text
unfolding ansi_rest
strip_ansi skip [] = []
strip_ansi (suc skip) (c ∷ s) = strip_ansi skip s
strip_ansi zero (c ∷ s) = elim (ansi_rest (c ∷ s)) [
  | none ↦ c ∷ strip_ansi 0 s
  | some rest ↦ strip_ansi (length s - length rest) s
]

-- `replace(/\r\n/g, '\n')`.
unfoldable pub unix_lines : Text → Text
unix_lines [] = []
unix_lines (c ∷ []) = c ∷ []
unix_lines (c ∷ d ∷ s) =
    let rest = unix_lines (d ∷ s) in if c == 13 && d == 10 then rest else c ∷ rest

unfoldable pub clean_output : Text → Text
unfolding strip_ansi unix_lines
clean_output text = unix_lines (strip_ansi 0 text)

-- A number that parseInt reads; -0 is told from 0.
pub data ExitCode : Type 0 where
  code_of minus : ℕ → ExitCode

abbrev pub take_class : (ℕ → Bool) → Text → Text
take_class p [] = []
take_class p (c ∷ s) = if p c then c ∷ take_class p s else []

abbrev pub number_from : (ℕ → ExitCode) → Text → Option ExitCode
number_from sign [] = none
number_from sign (c ∷ s) = some (sign (digits_value 0 (c ∷ s)))

abbrev pub signed_from : Text → Option ExitCode
signed_from [] = none
signed_from (c ∷ s) =
    if c == b'-'
    then number_from minus (take_class is_digit s)
    else if c == b'+'
    then number_from code_of (take_class is_digit s)
    else number_from code_of (take_class is_digit (c ∷ s))

-- `Number.parseInt(s, 10)`.
unfoldable pub parse_int : Text → Option ExitCode
unfolding is_digit digits_value trim_start
parse_int s = signed_from (trim_start s)

abbrev pub or_minus_one : Option ExitCode → ExitCode
or_minus_one none = minus 1
or_minus_one (some e) = e

-- `s.indexOf(p, from)`, with `from` within the string.
unfoldable pub find_from : Text → ℕ → Text → Option ℕ
unfolding find_text
find_from p from s = Option.map (λ n. from + n) (find_text p (drop from s))

abbrev pub slice : ℕ → ℕ → Text → Text
slice i j s = take (j - i) (drop i s)

pub record CommandResult : Type 0 where
  pub stdout : Text
  pub stderr : Text
  pub exit_code : ExitCode

abbrev pub begin_mark : Text → Text
begin_mark marker = start ∷ (marker ++ (codes "BEGIN" ++ stop ∷ []))

abbrev pub err_mark : Text → Text
err_mark marker = start ∷ (marker ++ (codes "ERR" ++ stop ∷ []))

abbrev pub end_mark : Text → Text
end_mark marker = start ∷ (marker ++ codes "END:")

module _ (marker buffer : Text) where
  -- What parse answers, with what it leaves in the buffer, from the places of the marks.
  abbrev pub result_at : ℕ → ℕ → ℕ → ℕ → CommandResult × Text
  result_at begin err end_at stop_at = (
    record {
      stdout = clean_output (slice (begin + length (begin_mark marker)) err buffer);
      stderr = clean_output (slice (err + length (err_mark marker)) end_at buffer);
      exit_code =
          or_minus_one (parse_int (slice (end_at + length (end_mark marker)) stop_at buffer));
    },
    drop (stop_at + 1) buffer,
  )

  abbrev pub after_end : ℕ → ℕ → Option ℕ → Option (CommandResult × Text)
  after_end begin err none = none
  after_end begin err (some end_at) =
      Option.map (result_at begin err end_at)
        (find_from (stop ∷ []) (end_at + length (end_mark marker)) buffer)

  abbrev pub after_err : ℕ → Option ℕ → Option (CommandResult × Text)
  after_err begin none = none
  after_err begin (some err) = after_end begin err (find_from (end_mark marker) err buffer)

  abbrev pub after_begin : Option ℕ → Option (CommandResult × Text)
  after_begin none = none
  after_begin (some begin) = after_err begin (find_from (err_mark marker) begin buffer)

  -- The method `parse`: the next complete result, and the buffer behind it.
  unfoldable pub parse : Option (CommandResult × Text)
  unfolding find_from clean_output parse_int
  parse = after_begin (find_from (begin_mark marker) 0 buffer)
