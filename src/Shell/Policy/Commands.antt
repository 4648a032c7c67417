-- ===== src/Shell/Policy/Commands.antt =====
-- src/shell/policy.ts, parseCommands: the commands of a line, with the programs that run them.
use pve_agent.Base.{
  if◌then◌else◌, get_elem?, Text, codes, text_eq, includes_text, ◌>>=◌, map_ok, traverse, Outcome,
  ok, throw, ℕ, zero, suc, ◌≡◌, refl, Bool, Option, none, some, List, [], ◌∷◌, ◌++◌, map,
}
use mathlib.Core.List.{flat_map}
use pve_agent.Shell.Policy.Segments.{is_assignment, base_name, command_words, segments}
use pve_agent.Shell.Policy.Wrappers.{
  drop_assignments, strip_wrappers, wrapper_of, skip_wrapper_arguments,
}

pub record ParsedCommand : Type 0 where
  pub program : Text
  pub wrappers : List Text
  pub words : List Text

abbrev is_shell : Text → Bool
is_shell program = includes_text (map codes ("sh" ∷ "bash" ∷ "dash" ∷ "zsh" ∷ "ksh" ∷ [])) program

-- The word behind the first `-c`, if that is not the first word.
script_of : List Text → Option Text
script_of [] = none
script_of (w ∷ ws) = behind ws
  where
    behind : List Text → Option Text
    behind [] = none
    behind (v ∷ vs) = if text_eq v (codes "-c") then get_elem? vs 0 else behind vs

-- A shell's script, read by `nested`, which is missing at the greatest depth. A first word `-c`
-- would be found by `indexOf` at 0, but such a word is no shell.
scripts :
    Option (Text → Outcome (Unit {0}) (List ParsedCommand))
    → Text
    → List Text
    → Outcome (Unit {0}) (List ParsedCommand)
scripts none program rest = ok []
scripts (some nested) program rest = if is_shell program then run (script_of rest) else ok []
  where
    run : Option Text → Outcome (Unit {0}) (List ParsedCommand)
    run none = ok []
    run (some body) = nested body

-- One segment, after its words are found.
commands_of :
    Option (Text → Outcome (Unit {0}) (List ParsedCommand))
    → List Text
    → Outcome (Unit {0}) (List ParsedCommand)
commands_of nested [] = ok []
commands_of nested (w ∷ ws) = strip_wrappers 8 [] (w ∷ ws) >>= build
  where
    build : List Text × List Text → Outcome (Unit {0}) (List ParsedCommand)
    build (wrappers, []) = ok []
    build (wrappers, first ∷ rest) =
        let program = base_name first in
        let command : ParsedCommand = record {
          program = program;
          wrappers = wrappers;
          words = program ∷ rest;
        } in
        map_ok (λ inner. command ∷ inner) (scripts nested program (first ∷ rest))

abbrev append_all :
    Outcome (Unit {0}) (List (List ParsedCommand)) → Outcome (Unit {0}) (List ParsedCommand)
append_all commands = map_ok (λ lists. flat_map (λ l. l) lists) commands

-- `depth` counts down from 4 where the source counts up to it.
parse_at : ℕ → Text → Outcome (Unit {0}) (List ParsedCommand)
parse_at zero command =
    append_all (traverse (λ s. commands_of none (command_words s)) (segments command))
parse_at (suc depth) command =
    append_all
      (traverse (λ s. commands_of (some (parse_at depth)) (command_words s)) (segments command))

unfoldable pub parse_commands : Text → Outcome (Unit {0}) (List ParsedCommand)
unfolding parse_at commands_of scripts script_of strip_wrappers drop_assignments segments
    command_words is_assignment base_name wrapper_of skip_wrapper_arguments text_eq flat_map
parse_commands command = parse_at 4 command

unfoldable pub programs_of : List ParsedCommand → List Text
unfolding flat_map
programs_of commands = flat_map (λ entry. entry.wrappers ++ entry.program ∷ []) commands

unfoldable pub command_programs : Text → Outcome (Unit {0}) (List Text)
unfolding parse_commands programs_of
command_programs command = map_ok programs_of (parse_commands command)

program_tests :
    (command_programs
        (codes "cd /x && sudo -u root env A=1 /bin/rm -rf y; bash -c 'ls | (wc -l)' 2>&1")
      ≡ ok (map codes ("cd" ∷ "sudo" ∷ "env" ∷ "rm" ∷ "bash" ∷ "ls" ∷ "wc" ∷ [])))
    × (command_programs (codes "timeout -k 5 10s nice -n 3 dd if=a & x=1 nohup cat")
        ≡ ok (map codes ("timeout" ∷ "nice" ∷ "dd" ∷ "nohup" ∷ "cat" ∷ [])))
    × (command_programs (codes "bash -c \"sh -c 'rm x'\"")
        ≡ ok (map codes ("bash" ∷ "sh" ∷ "rm" ∷ [])))
    × (command_programs (codes "valueOf -x") ≡ throw tt)
unfolding command_programs
program_tests = (refl, refl, refl, refl)
