-- ===== src/Core/Credentials/Quoted.antt =====
-- src/core/auth.ts, unquote, and src/shell/escape.ts, shQuote: a value of the env file as a shell wrote it.
use pve_agent.Base.{
  ltb, ◌==◌, ==_iff, Bool-cases, length, get_or, take, all, length-append, get_or-append_right,
  take-length_append, Text, has_char, starts_with, ok, suc, ◌+◌, ◌-◌, ◌≡◌, refl, ap, ◌∙◌, inl, inr,
  true, false, [], ◌∷◌, ◌++◌, arith,
}
use pve_agent.Shell.Escape.{quote, is_plain, escape_quotes, sh_quote}
use pve_agent.Shell.Policy.Quoting.{ends_no_word, is_plain-ends_no_word}
use pve_agent.Core.Credentials.{inner, last_is, unescape_single, unquote}

unescape_single-escape_quotes : (v : Text) → unescape_single 0 (escape_quotes v) ≡ v
unfolding unescape_single escape_quotes starts_with
unescape_single-escape_quotes [] = refl
unescape_single-escape_quotes (c ∷ v) = elim (Bool-cases (c == quote)) [
  | inl same ↦
      let e : c ≡ quote = (==_iff c quote).0 same in
      rw e (ap (λ s. quote ∷ s) (unescape_single-escape_quotes v))
  | inr other ↦ rw (other, other) (ap (λ s. c ∷ s) (unescape_single-escape_quotes v))
]

inner_quoted : (s : Text) → inner (quote ∷ (s ++ quote ∷ [])) ≡ s
inner_quoted s =
    let e : length (quote ∷ (s ++ quote ∷ [])) - 2 ≡ length s =
      omega (arith, length-append s (quote ∷ [])) in
    ap (λ n. take n (s ++ quote ∷ [])) e ∙ take-length_append s (quote ∷ [])

last_quoted : (s : Text) → last_is quote (quote ∷ (s ++ quote ∷ [])) ≡ true
last_quoted s =
    let e : length (quote ∷ (s ++ quote ∷ [])) - 1 ≡ suc (length s + 0) =
      omega (arith, length-append s (quote ∷ [])) in
    ap (λ n. get_or (quote ∷ (s ++ quote ∷ [])) n 0 == quote) e
    ∙ ap (λ d. d == quote) (get_or-append_right s (quote ∷ []) 0 0)

unquote_quoted : (s : Text) → unquote (quote ∷ (s ++ quote ∷ [])) ≡ unescape_single 0 s
unfolding unquote
unquote_quoted s =
    let long : ltb 1 (length (quote ∷ (s ++ quote ∷ []))) ≡ true =
      ground (arith, length-append s (quote ∷ [])) in
    simp (long, last_quoted s, inner_quoted s)

unquote_plain : (v : Text) → all is_plain v ≡ true → unquote v ≡ v
unfolding unquote
unquote_plain [] h = refl
unquote_plain (c ∷ v) h =
    let first : ends_no_word c ≡ true = is_plain-ends_no_word c (ground arith) in
    ground (arith, first)

-- What shQuote makes of a value without a NUL byte, unquote turns back into the value.
pub unquote-sh_quote :
    (v : Text) → has_char 0 v ≡ false → (q : Text) × (sh_quote v ≡ ok q) × (unquote q ≡ v)
unfolding sh_quote unescape_single
unquote-sh_quote [] h = (quote ∷ quote ∷ [], refl, unquote_quoted [])
unquote-sh_quote (c ∷ v) h = elim (Bool-cases (all is_plain (c ∷ v))) [
  | inl plain ↦ (c ∷ v, ground arith, unquote_plain (c ∷ v) plain)
  | inr special ↦ (
    quote ∷ (escape_quotes (c ∷ v) ++ quote ∷ []),
    ground arith,
    unquote_quoted (escape_quotes (c ∷ v)) ∙ unescape_single-escape_quotes (c ∷ v),
  )
]
