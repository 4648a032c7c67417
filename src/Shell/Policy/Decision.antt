-- ===== src/Shell/Policy/Decision.antt =====
-- src/shell/policy.ts, class CommandPolicy: the decision on a command line.
use pve_agent.Base.{
  if◌then◌else◌, any, find, Text, codes, includes_text, starts_with, join, map_ok, Outcome, ok,
  throw, ◌≡◌, refl, Bool, true, false, ◌||◌, Option, none, some, List, [], ◌∷◌, map,
}
use pve_agent.Shell.Policy.Patterns.{DestructivePattern, destructive_hit}
use pve_agent.Shell.Policy.Commands.{ParsedCommand, parse_commands, programs_of}

-- A program's name, or a regular expression given by its test.
pub data ShellPattern : Type 0 where
  named : Text → ShellPattern
  regex : (Text → Bool) → ShellPattern

-- `allow` empty stands for no allow list, `destructive` for the setting 'refuse'.
pub record CommandPolicy : Type 0 where
  pub allow : List ShellPattern
  pub deny : List ShellPattern
  pub refuse_destructive : Bool

-- The rule that decided.
pub data Reason : Type 0 where
  denied : ShellPattern → Reason
  destroys : DestructivePattern → Reason
  opaque_expansion no_allow_match : Reason
  allowed_by : ShellPattern → Reason
  no_rule : Reason

pub record PolicyDecision : Type 0 where
  pub allowed : Bool
  pub reason : Reason

abbrev yes_by : Reason → PolicyDecision
yes_by reason = record { allowed = true; reason = reason }

abbrev no_by : Reason → PolicyDecision
no_by reason = record { allowed = false; reason = reason }

unfoldable pub matches : ShellPattern → Text → List Text → Bool
matches (named name) command programs = includes_text programs name
matches (regex test) command programs = test command

-- `/\$\(|`|<\(|>\(/`, tested at each place.
unfoldable pub has_opaque_expansion : Text → Bool
unfolding starts_with
has_opaque_expansion [] = false
has_opaque_expansion (c ∷ s) =
    any (λ p. starts_with (c ∷ s) p) (codes "$(" ∷ codes "`" ∷ codes "<(" ∷ codes ">(" ∷ [])
    || has_opaque_expansion s

abbrev pub line_of : ParsedCommand → Text
line_of entry = join (32 ∷ []) entry.words

abbrev pub allowed_if : Option ShellPattern → PolicyDecision
allowed_if none = no_by no_allow_match
allowed_if (some q) = yes_by (allowed_by q)

-- The part of `explain` that the allow list decides.
unfoldable pub decide_allow : List ShellPattern → Text → List Text → PolicyDecision
decide_allow [] command programs = yes_by no_rule
decide_allow (p ∷ allow) command programs =
    if has_opaque_expansion command
    then no_by opaque_expansion
    else allowed_if (find (λ q. matches q command programs) (p ∷ allow))

-- `if (denied !== undefined) return …`, and the same for a destructive command.
abbrev pub unless_denied : Option ShellPattern → PolicyDecision → PolicyDecision
unless_denied (some q) rest = no_by (denied q)
unless_denied none rest = rest

abbrev pub unless_destructive : Option DestructivePattern → PolicyDecision → PolicyDecision
unless_destructive (some hit) rest = no_by (destroys hit)
unless_destructive none rest = rest

-- The destructive pattern that counts, under the policy's setting.
abbrev pub counted_hit : Bool → List ParsedCommand → Option DestructivePattern
counted_hit true commands = destructive_hit (map line_of commands)
counted_hit false commands = none

-- `explain` on the commands that were parsed.
unfoldable pub decide_policy : CommandPolicy → Text → List ParsedCommand → PolicyDecision
unfolding decide_allow matches
decide_policy policy command commands =
    unless_denied (find (λ q. matches q command (programs_of commands)) policy.deny) (
      unless_destructive (counted_hit policy.refuse_destructive commands)
        (decide_allow policy.allow command (programs_of commands)))

-- An error is the TypeError that parsing a line can end in.
unfoldable pub explain : CommandPolicy → Text → Outcome (Unit {0}) PolicyDecision
unfolding decide_policy
explain policy command = map_ok (decide_policy policy command) (parse_commands command)

-- Why `check` throws: the policy refuses the command, or the line could not be parsed.
pub data CheckError : Type 0 where
  refused : Text → Reason → CheckError
  type_error : CheckError

check_decision : Text → Outcome (Unit {0}) PolicyDecision → Outcome CheckError (Unit {0})
check_decision command (throw _) = throw type_error
check_decision command (ok decision) =
    if decision.allowed then ok tt else throw (refused command decision.reason)

unfoldable pub check : CommandPolicy → Text → Outcome CheckError (Unit {0})
unfolding check_decision
check policy command = check_decision command (explain policy command)

abbrev pub default_policy : CommandPolicy
default_policy = record { allow = []; deny = []; refuse_destructive = true }

policy_tests :
    (check default_policy (codes "cd /tmp && ls -l") ≡ ok tt)
    × (map_ok (λ d. d.allowed) (explain default_policy (codes "sudo rm -rf /")) ≡ ok false)
unfolding check explain parse_commands programs_of destructive_hit join
policy_tests = (refl, refl)
