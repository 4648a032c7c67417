-- ===== src/Shell/Policy/Quoting.antt =====
-- src/shell/escape.ts, shJoin, and src/shell/policy.ts, splitWords.
use pve_agent.Base.{
  ◌==◌, ==_iff, Bool-cases, all, All, Text, has_char, join, is_space, is_digit, is_alpha, is_alnum,
  traverse, ok, all_below, all_below_sound, ℕ, ◌<◌, ◌≡◌, refl, sym, ap, ◌∙◌, inl, inr, Bool, true,
  false, not, ◌||◌, List, [], ◌∷◌, ◌++◌, append-nil, append_assoc, arith,
}
use pve_agent.Shell.Escape.{quote, is_plain, escape_quotes, sh_quote, sh_join}
use pve_agent.Shell.Policy.Words.{bare, single, words_from, split_words}

words_from-escape_quotes :
    (v word rest : Text)
    → words_from single word true (escape_quotes v ++ quote ∷ rest)
      ≡ words_from bare (word ++ v) true rest
unfolding words_from escape_quotes
words_from-escape_quotes [] word rest = rw append-nil refl
words_from-escape_quotes (c ∷ v) word rest = elim (Bool-cases (c == quote)) [
  | inl same ↦
      let e : c ≡ quote = (==_iff c quote).0 same in
      rw (e, words_from-escape_quotes v (word ++ quote ∷ []) rest, append_assoc) refl
  | inr other ↦
      ground (arith, words_from-escape_quotes v (word ++ c ∷ []) rest, append_assoc word (c ∷ []) v)
]

abbrev pub ends_no_word : ℕ → Bool
ends_no_word c = not (c == b'\'' || (c == b'"' || (c == b'\\' || is_space c)))

plain_table : all_below 123 (λ c. not (is_plain c) || ends_no_word c) ≡ true
unfolding all_below is_plain is_space
plain_table = refl

is_plain-lt : (c : ℕ) → is_plain c ≡ true → c < 123
unfolding is_plain is_alnum is_alpha is_digit
is_plain-lt c h = ground arith

pub is_plain-ends_no_word : (c : ℕ) → is_plain c ≡ true → ends_no_word c ≡ true
is_plain-ends_no_word c h =
    let row =
      all_below_sound 123 (λ c. not (is_plain c) || ends_no_word c) c plain_table
        (is_plain-lt c h) in
    rw h at row

words_from_plain :
    (c : ℕ) (s word : Text) (started : Bool)
    → is_plain c ≡ true
    → words_from bare word started (c ∷ s) ≡ words_from bare (word ++ c ∷ []) true s
unfolding words_from
words_from_plain c s word started h = ground (arith, is_plain-ends_no_word c h)

words_from-plain_text :
    (v word rest : Text)
    → all is_plain v ≡ true
    → words_from bare word true (v ++ rest) ≡ words_from bare (word ++ v) true rest
words_from-plain_text [] word rest h = rw append-nil refl
words_from-plain_text (c ∷ v) word rest h =
    words_from_plain c (v ++ rest) word true (ground arith)
    ∙ words_from-plain_text v (word ++ c ∷ []) rest (ground arith)
    ∙ ap (λ w. words_from bare w true rest) (append_assoc word (c ∷ []) v)

abbrev Reads : Text → Text → Type 0
Reads q v = (rest : Text) → words_from bare [] false (q ++ rest) ≡ words_from bare v true rest

quoted-Reads : (v : Text) → Reads (quote ∷ (escape_quotes v ++ quote ∷ [])) v
unfolding words_from
quoted-Reads v rest =
    ap (words_from single [] true) (append_assoc (escape_quotes v) (quote ∷ []) rest)
    ∙ words_from-escape_quotes v [] rest

plain-Reads : (c : ℕ) (v : Text) → all is_plain (c ∷ v) ≡ true → Reads (c ∷ v) (c ∷ v)
plain-Reads c v h rest =
    words_from_plain c (v ++ rest) [] false (ground arith)
    ∙ words_from-plain_text v (c ∷ []) rest (ground arith)

-- A quoted value is read back as the whole of one word.
sh_quote-Reads : (v : Text) → has_char 0 v ≡ false → (q : Text) × (sh_quote v ≡ ok q) × Reads q v
unfolding sh_quote
sh_quote-Reads [] h = (quote ∷ quote ∷ [], refl, quoted-Reads [])
sh_quote-Reads (c ∷ v) h = elim (Bool-cases (all is_plain (c ∷ v))) [
  | inl plain ↦ (c ∷ v, ground arith, plain-Reads c v plain)
  | inr special ↦
      (quote ∷ (escape_quotes (c ∷ v) ++ quote ∷ []), ground arith, quoted-Reads (c ∷ v))
]

words_from_space :
    (v rest : Text) → words_from bare v true (32 ∷ rest) ≡ v ∷ words_from bare [] false rest
unfolding words_from is_space
words_from_space v rest = refl

-- A command line that joins quoted values, before the words are looked at.
Joined : List Text → List Text → Type 0
Joined [] [] = Unit
Joined (v ∷ vs) (q ∷ qs) = Reads q v × Joined vs qs
Joined _ _ = ⊥

split_words-join :
    (vs qs : List Text) → Joined vs qs → words_from bare [] false (join (32 ∷ []) qs) ≡ vs
unfolding Joined join
split_words-join [] [] h = unfold words_from in refl
split_words-join [] (q ∷ qs) h = absurd h
split_words-join (v ∷ vs) [] h = absurd h
split_words-join (v ∷ []) (q ∷ []) (reads, h) =
    ap (words_from bare [] false) (sym (append-nil q)) ∙ reads [] ∙ unfold words_from in refl
split_words-join (v ∷ []) (q ∷ r ∷ qs) (reads, h) = absurd h
split_words-join (v ∷ w ∷ vs) (q ∷ []) (reads, h) = absurd h
split_words-join (v ∷ w ∷ vs) (q ∷ r ∷ qs) (reads, h) =
    reads (32 ∷ join (32 ∷ []) (r ∷ qs))
    ∙ words_from_space v (join (32 ∷ []) (r ∷ qs))
    ∙ ap (λ l. v ∷ l) (split_words-join (w ∷ vs) (r ∷ qs) h)

traverse-sh_quote :
    (argv : List Text)
    → All (λ v. has_char 0 v ≡ false) argv
    → (qs : List Text) × (traverse sh_quote argv ≡ ok qs) × Joined argv qs
unfolding Joined
traverse-sh_quote [] h = ([], refl, tt)
traverse-sh_quote (v ∷ argv) (good, h) =
    let (q, quoted, reads) = sh_quote-Reads v good in
    let (qs, rest, joined) = traverse-sh_quote argv h in
    (q ∷ qs, rw (quoted, rest) refl, (reads, joined))

-- An argument vector without NUL bytes is joined to a line, and the words that splitWords reads in
-- that line are the arguments: none is split, merged, changed or lost.
pub split_words-sh_join :
    (argv : List Text)
    → All (λ v. has_char 0 v ≡ false) argv
    → (line : Text) × (sh_join argv ≡ ok line) × (split_words line ≡ argv)
unfolding sh_join split_words
split_words-sh_join argv h =
    let (qs, quoted, joined) = traverse-sh_quote argv h in
    (join (32 ∷ []) qs, rw quoted refl, split_words-join argv qs joined)
