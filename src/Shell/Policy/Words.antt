-- ===== src/Shell/Policy/Words.antt =====
-- src/shell/policy.ts, splitWords: a segment's words as the shell hands them to the program.
use pve_agent.Base.{◌==◌, Text, codes, is_space, ◌≡◌, refl, Bool, true, false, List, [], ◌∷◌, ◌++◌}

-- The variable `quote`, and whether a backslash waits for the character that it keeps. The source
-- looks ahead instead: a backslash at the end of the segment stands for itself.
pub data Mode : Type 0 where
  bare single double bare_escape double_escape : Mode

abbrev pub flush : Bool → Text → List Text → List Text
flush true word words = word ∷ words
flush false word words = words

unfoldable pub words_from : Mode → Text → Bool → Text → List Text
unfolding is_space
words_from bare word started [] = flush started word []
words_from single word started [] = flush started word []
words_from double word started [] = flush started word []
words_from bare_escape word started [] = (word ++ b'\\' ∷ []) ∷ []
words_from double_escape word started [] = flush started (word ++ b'\\' ∷ []) []
words_from single word started (c ∷ s) = elim (c == b'\'') [
  | true ↦ words_from bare word started s
  | false ↦ words_from single (word ++ c ∷ []) started s
]
words_from double word started (c ∷ s) = elim (c == b'"') [
  | true ↦ words_from bare word started s
  | false ↦ elim (c == b'\\') [
    | true ↦ words_from double_escape word started s
    | false ↦ words_from double (word ++ c ∷ []) started s
  ]
]
words_from double_escape word started (c ∷ s) = words_from double (word ++ c ∷ []) started s
words_from bare_escape word started (c ∷ s) = words_from bare (word ++ c ∷ []) true s
words_from bare word started (c ∷ s) = elim (c == b'\'') [
  | true ↦ words_from single word true s
  | false ↦ elim (c == b'"') [
    | true ↦ words_from double word true s
    | false ↦ elim (c == b'\\') [
      | true ↦ words_from bare_escape word started s
      | false ↦ elim (is_space c) [
        | true ↦ flush started word (words_from bare [] false s)
        | false ↦ words_from bare (word ++ c ∷ []) true s
      ]
    ]
  ]
]

unfoldable pub split_words : Text → List Text
unfolding words_from
split_words segment = words_from bare [] false segment

words_test :
    split_words (codes "a 'b c'\"d\\\"e\" f\\ g '' \\")
    ≡ codes "a" ∷ codes "b cd\"e" ∷ codes "f g" ∷ [] ∷ codes "\\" ∷ []
unfolding split_words
words_test = refl
