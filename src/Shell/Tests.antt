-- ===== src/Shell/Tests.antt =====
-- The theorems on src/shell at concrete inputs.
use pve_agent.Base.{
  Text, codes, includes_text, split, ok, ◌≡◌, refl, true, false, List, [], ◌∷◌, ◌++◌,
}
use pve_agent.Shell.Escape.{sh_join, heredoc_word}
use pve_agent.Shell.Escape.Heredoc.{heredoc_word-fresh}
use pve_agent.Shell.Policy.Words.{split_words}
use pve_agent.Shell.Policy.Quoting.{split_words-sh_join}
use pve_agent.Shell.Policy.Commands.{ParsedCommand}
use pve_agent.Shell.Policy.Decision.{CommandPolicy, named, decide_policy}
use pve_agent.Shell.Policy.Decides.{lets_pass, decide_policy-lets_pass}

abbrev copy_argv : List Text
copy_argv = codes "cp" ∷ codes "it's here" ∷ codes "$HOME" ∷ []

split_words-sh_join_example :
    (line : Text) × (sh_join copy_argv ≡ ok line) × (split_words line ≡ copy_argv)
split_words-sh_join_example = split_words-sh_join copy_argv (refl, (refl, (refl, tt)))

abbrev only_ls : CommandPolicy
only_ls = record { allow = named (codes "ls") ∷ []; deny = []; refuse_destructive = true }

abbrev ls_line : List ParsedCommand
ls_line = record { program = codes "ls"; wrappers = []; words = codes "ls" ∷ codes "-l" ∷ [] } ∷ []

decide_policy-lets_pass_example :
    (decide_policy only_ls (codes "ls -l") ls_line).allowed
    ≡ lets_pass only_ls (codes "ls -l") ls_line
decide_policy-lets_pass_example = decide_policy-lets_pass only_ls (codes "ls -l") ls_line

abbrev script : Text
script = codes "EOF" ++ 10 ∷ codes "EOF_1"

heredoc_word-fresh_example :
    includes_text (split 10 script) (heredoc_word script (codes "EOF")) ≡ false
heredoc_word-fresh_example = heredoc_word-fresh script (codes "EOF")
