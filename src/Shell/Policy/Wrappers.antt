-- ===== src/Shell/Policy/Wrappers.antt =====
-- src/shell/policy.ts, WRAPPERS: the programs that run the command behind their own arguments.
use pve_agent.Base.{
  ◌==◌, if◌then◌else◌, length, take, drop, any, keep, Text, codes, text_eq, includes_text,
  starts_with, is_digit, ◌>>=◌, map_ok, Outcome, ok, throw, ℕ, zero, suc, Bool, true, false, ◌&&◌,
  Option, none, some, List, [], ◌∷◌, ◌++◌, map,
}
use pve_agent.Shell.Policy.Regex.{is_cons}
use pve_agent.Shell.Policy.Segments.{is_assignment, base_name, head_or_empty, drop_while}

-- What `WRAPPERS[program]` is when it is not undefined: the test for options with a value, or a
-- property that every object inherits, which has no `test` to call.
pub data Wrapper : Type 0 where
  options : (Text → Bool) → Wrapper
  inherited : Wrapper

abbrev dash_letter : Text → Text → Bool
dash_letter letters (a ∷ b ∷ []) = a == b'-' && any (λ d. d == b) letters
dash_letter letters _ = false

abbrev no_option : Text → Bool
no_option word = text_eq word []

abbrev wrapper_table : List (Text × Wrapper)
wrapper_table =
    (codes "sudo", options (dash_letter (codes "CDghprtTuU")))
    ∷ (codes "doas", options (dash_letter (codes "Cu")))
    ∷ (
      codes "env",
      options (
          includes_text
            (map codes ("-u" ∷ "--unset" ∷ "-C" ∷ "--chdir" ∷ "-S" ∷ "--split-string" ∷ []))),
    )
    ∷ (codes "exec", options (dash_letter (codes "a")))
    ∷ (codes "command", options no_option)
    ∷ (codes "nohup", options no_option)
    ∷ (codes "nice", options (includes_text (map codes ("-n" ∷ "--adjustment" ∷ []))))
    ∷ (codes "ionice", options (dash_letter (codes "cnp")))
    ∷ (
      codes "timeout",
      options (includes_text (map codes ("-s" ∷ "-k" ∷ "--signal" ∷ "--kill-after" ∷ []))),
    )
    ∷ (codes "busybox", options no_option)
    ∷ (codes "xargs", options (dash_letter (codes "nIdaELPs")))
    ∷ map (λ name. (codes name, inherited))
        ("constructor" ∷ "hasOwnProperty" ∷ "isPrototypeOf" ∷ "propertyIsEnumerable"
          ∷ "toLocaleString" ∷ "toString" ∷ "valueOf" ∷ "__proto__" ∷ "__defineGetter__"
          ∷ "__defineSetter__" ∷ "__lookupGetter__" ∷ "__lookupSetter__" ∷ [])

unfoldable pub find_wrapper : Text → List (Text × Wrapper) → Option Wrapper
find_wrapper program [] = none
find_wrapper program ((name, w) ∷ rest) =
    if text_eq name program then some w else find_wrapper program rest

unfoldable pub wrapper_of : Text → Option Wrapper
unfolding find_wrapper text_eq
wrapper_of program = find_wrapper program wrapper_table

-- The digits at the front, and then what the rest of `/^\d+(\.\d+)?[smhd]?$/` wants.
suffix_ok : Text → Bool
suffix_ok [] = true
suffix_ok (c ∷ []) = any (λ d. d == c) (codes "smhd")
suffix_ok (c ∷ d ∷ s) = false

fraction_ok : Text → Bool
fraction_ok s = is_cons (keep is_digit (take 1 s)) && suffix_ok (drop_while is_digit s)

after_digits : Text → Bool
after_digits [] = true
after_digits (c ∷ s) = if c == b'.' then fraction_ok s else suffix_ok (c ∷ s)

unfoldable pub is_duration : Text → Bool
unfolding fraction_ok after_digits suffix_ok drop_while is_digit
is_duration s = is_cons (keep is_digit (take 1 s)) && after_digits (drop_while is_digit s)

-- The loop of skipWrapperArguments; an error is the TypeError of a `test` that is no function.
-- The flag says that the word is the value of the option before it.
unfoldable pub skip_options : Wrapper → Bool → List Text → Outcome (Unit {0}) (List Text × Bool)
skip_options wrapper takes_value [] = ok ([], false)
skip_options wrapper true (w ∷ ws) = skip_options wrapper false ws
skip_options wrapper false (w ∷ ws) = elim (text_eq w (codes "--")) [
  | true ↦ ok (ws, true)
  | false ↦ elim (starts_with w (codes "-")) [
    | true ↦ option_value wrapper w >>= λ value. skip_options wrapper value ws
    | false ↦ elim (is_assignment w) [
      | true ↦ skip_options wrapper false ws
      | false ↦ ok (w ∷ ws, false)
    ]
  ]
]
  where
    option_value : Wrapper → Text → Outcome (Unit {0}) Bool
    option_value (options test) w = ok (test w)
    option_value inherited w = throw tt

-- After `--` the rest is returned as it stands; else a duration of timeout is dropped too.
unfoldable pub drop_duration : Text → List Text × Bool → List Text
drop_duration program (ws, true) = ws
drop_duration program ([], false) = []
drop_duration program (w ∷ ws, false) =
    if text_eq program (codes "timeout") && is_duration w then ws else w ∷ ws

unfoldable pub skip_wrapper_arguments : Text → Wrapper → List Text → Outcome (Unit {0}) (List Text)
unfolding skip_options drop_duration text_eq starts_with is_assignment is_duration
skip_wrapper_arguments program wrapper args =
    map_ok (drop_duration program) (skip_options wrapper false args)

unfoldable pub drop_assignments : List Text → List Text
drop_assignments [] = []
drop_assignments (w ∷ ws) =
    let rest = drop_assignments ws in if is_assignment w then rest else w ∷ ws

-- The rounds that strip one wrapper each; the result is the wrappers and what is left.
unfoldable pub strip_wrappers :
    ℕ → List Text → List Text → Outcome (Unit {0}) (List Text × List Text)
strip_wrappers zero wrappers rest = ok (wrappers, rest)
strip_wrappers (suc rounds) wrappers rest =
    round (strip_wrappers rounds) (drop_assignments rest)
      (wrapper_of (base_name (head_or_empty (drop_assignments rest))))
  where
    round :
        (List Text → List Text → Outcome (Unit {0}) (List Text × List Text))
        → List Text
        → Option Wrapper
        → Outcome (Unit {0}) (List Text × List Text)
    round again words none = ok (wrappers, words)
    round again words (some w) =
        if length words == 1
        then ok (wrappers, words)
        else skip_wrapper_arguments (base_name (head_or_empty words)) w (drop 1 words) >>= λ rest'.
            again (wrappers ++ base_name (head_or_empty words) ∷ []) rest'
