-- ===== src/Shell/Policy/Segments.antt =====
-- src/shell/policy.ts: the segments of a line, their words, and the names of programs.
use pve_agent.Base.{
  ◌==◌, if◌then◌else◌, any, all, Text, codes, has_char, starts_with, is_digit, is_alpha, is_alnum,
  ℕ, zero, suc, Bool, false, not, ◌&&◌, ◌||◌, Option, none, some, List, [], ◌∷◌, ◌++◌,
}
use mathlib.Core.List.{reverse}
use pve_agent.Shell.Policy.Words.{split_words}

-- The length of a match of SEGMENT_SEPARATOR at the start of the text, and 0 where there is none.
-- The character before it matters to a lone `&`.
unfoldable pub separator_length : Option ℕ → Text → ℕ
unfolding starts_with
separator_length before [] = 0
separator_length before (c ∷ s) =
    if starts_with (c ∷ s) (codes "||") || starts_with (c ∷ s) (codes "&&")
    then 2
    else if any (λ d. d == c) (b';' ∷ b'|' ∷ 10 ∷ b'`' ∷ [])
    then 1
    else if any (λ p. starts_with (c ∷ s) p) (codes "$(" ∷ codes "<(" ∷ codes ">(" ∷ [])
    then 2
    else if c == b'&' && (not (follows_redirect before) && not (leads_redirect s))
    then 1
    else 0
  where
    follows_redirect : Option ℕ → Bool
    follows_redirect none = false
    follows_redirect (some d) = any (λ e. e == d) (codes "<>&")

    leads_redirect : Text → Bool
    leads_redirect [] = false
    leads_redirect (d ∷ t) = any (λ e. e == d) (codes ">&")

-- `command.split(SEGMENT_SEPARATOR)`; `skip` characters of a separator are still to pass.
unfoldable pub segments_from : Option ℕ → ℕ → Text → Text → List Text
segments_from before skip piece [] = piece ∷ []
segments_from before (suc skip) piece (c ∷ s) = segments_from (some c) skip piece s
segments_from before zero piece (c ∷ s) = elim (separator_length before (c ∷ s)) [
  | zero ↦ segments_from (some c) zero (piece ++ c ∷ []) s
  | suc n ↦ piece ∷ segments_from (some c) n [] s
]

unfoldable pub segments : Text → List Text
unfolding segments_from separator_length
segments command = segments_from none 0 [] command

abbrev is_opener : ℕ → Bool
is_opener c = any (λ d. d == c) (codes "({!")

abbrev is_closer : ℕ → Bool
is_closer c = any (λ d. d == c) (codes ")}")

unfoldable pub drop_while : (ℕ → Bool) → Text → Text
drop_while p [] = []
drop_while p (c ∷ s) = let rest = drop_while p s in if p c then rest else c ∷ s

-- The last word loses its closing brackets.
unfoldable pub trim_last : List Text → List Text
trim_last [] = []
trim_last (w ∷ []) = reverse (drop_while is_closer (reverse w)) ∷ []
trim_last (w ∷ v ∷ ws) = w ∷ trim_last (v ∷ ws)

-- The first word loses its opening brackets.
unfoldable pub trim_first : List Text → List Text
trim_first [] = []
trim_first (w ∷ ws) = drop_while is_opener w ∷ ws

-- Words that are empty or brackets alone are dropped from the front.
unfoldable pub drop_openers : List Text → List Text
drop_openers [] = []
drop_openers (w ∷ ws) = let rest = drop_openers ws in if all is_opener w then rest else w ∷ ws

unfoldable pub command_words : Text → List Text
unfolding split_words trim_last trim_first drop_openers drop_while
command_words segment = drop_openers (trim_first (trim_last (split_words segment)))

-- `/^[A-Za-z_][A-Za-z0-9_]*=/`.
name_then_equals : Text → Bool
name_then_equals [] = false
name_then_equals (c ∷ s) = c == b'=' || ((is_alnum c || c == b'_') && name_then_equals s)

unfoldable pub is_assignment : Text → Bool
unfolding name_then_equals is_alnum is_alpha is_digit
is_assignment [] = false
is_assignment (c ∷ s) = (is_alpha c || c == b'_') && name_then_equals s

-- What stands behind the last slash.
unfoldable pub base_name : Text → Text
base_name [] = []
base_name (c ∷ s) = if has_char b'/' (c ∷ s) then base_name s else c ∷ s

abbrev pub head_or_empty : List Text → Text
head_or_empty [] = []
head_or_empty (w ∷ ws) = w
