-- ===== src/Shell/Escape.antt =====
-- src/shell/escape.ts: quoting, and the checks of values that go into a command line. The tests of
-- `typeof` at run time have no counterpart: an argument of the model has its type.
pub mod Heredoc
use pve_agent.Base.{
  leb, ◌==◌, if◌then◌else◌, length, any, all, Text, codes, text_eq, includes_text, has_char,
  starts_with, split, join, is_alpha, is_alnum, print_nat, ◌>>=◌, ◌>>◌, traverse, Outcome, ok,
  throw, ℕ, zero, suc, ◌+◌, ◌-◌, ◌^◌, ◌≡◌, refl, Bool, true, false, ◌&&◌, ◌||◌, Option, none, some,
  List, [], ◌∷◌, ◌++◌,
}

-- Why a PveShellPolicyError is thrown, with the refused value.
pub data Refusal : Type 0 where
  nul_byte : Text → Refusal
  not_a_variable : Text → Refusal
  not_an_integer : Refusal
  not_a_segment : Text → Refusal

abbrev pub quote : ℕ
quote = b'\''

-- `/[A-Za-z0-9_@%+=:,./-]/`.
unfoldable pub is_plain : ℕ → Bool
unfolding is_alnum
is_plain c = is_alnum c || any (λ d. d == c) (codes "_@%+=:,./-")

-- `value.replace(/'/g, "'\\''")`.
unfoldable pub escape_quotes : Text → Text
escape_quotes [] = []
escape_quotes (c ∷ s) =
    let rest = escape_quotes s in
    if c == quote then quote ∷ b'\\' ∷ quote ∷ quote ∷ rest else c ∷ rest

unfoldable pub sh_quote : Text → Outcome Refusal Text
unfolding escape_quotes is_plain
sh_quote value =
    if has_char 0 value
    then throw (nul_byte value)
    else if length value == 0
    then ok (quote ∷ quote ∷ [])
    else if all is_plain value
    then ok value
    else ok (quote ∷ (escape_quotes value ++ quote ∷ []))

unfoldable pub sh_join : List Text → Outcome Refusal Text
unfolding sh_quote
sh_join argv = do words ← traverse sh_quote argv; ok (join (32 ∷ []) words)

abbrev numbered : Text → ℕ → Text
numbered terminator n = terminator ++ (b'_' ∷ print_nat n)

-- The loop that picks a word which is no line of the content. Each word that fails is one of the
-- lines, so their number bounds the rounds.
pick_word : ℕ → Text → List Text → ℕ → Text → Text
pick_word zero terminator lines n word = word
pick_word (suc fuel) terminator lines n word = elim (includes_text lines word) [
  | true ↦ pick_word fuel terminator lines (n + 1) (numbered terminator n)
  | false ↦ word
]

unfoldable pub heredoc_word : Text → Text → Text
unfolding pick_word
heredoc_word content terminator =
    let lines = split 10 content in pick_word (suc (length lines)) terminator lines 1 terminator

abbrev ends_with : ℕ → Text → Bool
ends_with c [] = false
ends_with c (d ∷ []) = d == c
ends_with c (d ∷ e ∷ s) = ends_with c (e ∷ s)

unfoldable pub sh_heredoc : Text → Text → Outcome Refusal Text
unfolding heredoc_word
sh_heredoc content terminator =
    if has_char 0 content
    then throw (nul_byte content)
    else let word = heredoc_word content terminator in
      let body =
        if ends_with 10 content || length content == 0 then content else content ++ 10 ∷ [] in
      ok (codes "<<'" ++ (word ++ (quote ∷ 10 ∷ (body ++ word))))

pub record ShellContext : Type 0 where
  pub cwd : Option Text
  pub env : List (Text × Text)

-- `/^[A-Za-z_][A-Za-z0-9_]*$/`.
unfoldable pub is_variable_name : Text → Bool
unfolding is_alpha is_alnum
is_variable_name [] = false
is_variable_name (c ∷ s) = (is_alpha c || c == b'_') && all (λ d. is_alnum d || d == b'_') s

export_line : Text × Text → Outcome Refusal Text
export_line (name, value) =
    if is_variable_name name
    then (do quoted ← sh_quote value; ok (codes "export " ++ (name ++ (b'=' ∷ quoted))))
    else throw (not_a_variable name)

cd_lines : Option Text → Outcome Refusal (List Text)
cd_lines none = ok []
cd_lines (some cwd) = do
  quoted ← sh_quote cwd
  ok ((codes "cd -- " ++ (quoted ++ codes " || exit $?")) ∷ [])

abbrev with_prelude : List Text → Text → Text
with_prelude [] command = command
with_prelude (line ∷ lines) command = join (codes "; ") (line ∷ lines) ++ (10 ∷ command)

unfoldable pub sh_wrap : Text → ShellContext → Outcome Refusal Text
unfolding export_line cd_lines
sh_wrap command context = do
  cd ← cd_lines context.cwd
  exports ← traverse export_line context.env
  ok (with_prelude (cd ++ exports) command)

-- A JavaScript number here is an integer of either sign, or not a number that is safe to print.
pub data JsNumber : Type 0 where
  nonnegative negative : ℕ → JsNumber
  other_number : JsNumber

abbrev max_safe_integer : ℕ
max_safe_integer = 2 ^ 53 - 1

unfoldable pub is_safe_integer : JsNumber → Bool
is_safe_integer (nonnegative n) = leb n max_safe_integer
is_safe_integer (negative n) = leb n max_safe_integer
is_safe_integer other_number = false

unfoldable pub assert_safe_integer : JsNumber → Outcome Refusal JsNumber
unfolding is_safe_integer
assert_safe_integer value = if is_safe_integer value then ok value else throw not_an_integer

-- `value.includes('..')`.
abbrev pub has_dot_dot : Text → Bool
has_dot_dot [] = false
has_dot_dot (c ∷ s) = starts_with (c ∷ s) (codes "..") || has_dot_dot s

unfoldable pub assert_path_segment : Text → Outcome Refusal Text
unfolding starts_with text_eq
assert_path_segment value =
    if length value == 0
      || (text_eq value (codes ".")
          || (has_dot_dot value || (has_char b'/' value || has_char 0 value)))
    then throw (not_a_segment value)
    else ok value

escape_tests :
    (sh_quote (codes "it's") ≡ ok (codes "'it'\\''s'"))
    × (sh_join (codes "rm" ∷ codes "-f" ∷ codes "a b" ∷ [] ∷ []) ≡ ok (codes "rm -f 'a b' ''"))
    × (sh_wrap
          (codes "ls")
          (record { cwd = some (codes "/tmp"); env = (codes "A", codes "1") ∷ [] })
        ≡ ok (codes "cd -- /tmp || exit $?; export A=1" ++ (10 ∷ codes "ls")))
    × (heredoc_word (codes "PVE_EOF") (codes "PVE_EOF") ≡ codes "PVE_EOF_1")
unfolding sh_join sh_wrap heredoc_word join split text_eq print_nat is_variable_name
escape_tests = (refl, refl, refl, refl)
