-- ===== src/Shell/Escape/Heredoc.antt =====
-- src/shell/escape.ts, shHeredoc: the choice of the word that ends a here-document.
use pve_agent.Base.{
  if◌then◌else◌, Bool-cases, length, length-append, Text, text_eq, text_eq_iff, includes_text,
  split, digits_value, print_nat, digits_value-print_nat, ℕ, zero, suc, ◌+◌, ◌≤◌, ◌<◌, ◌≡◌, sym, ap,
  ◌∙◌, ◌≢◌, inl, inr, true, false, List, [], ◌∷◌, ◌++◌, arith,
}
use pve_agent.Shell.Escape.{numbered, pick_word, heredoc_word}

append_cancel : (t a b : Text) → t ++ a ≡ t ++ b → a ≡ b
append_cancel [] a b e = e
append_cancel (c ∷ t) a b e = append_cancel t a b (ground arith)

print_nat-injective : (m n : ℕ) → print_nat m ≡ print_nat n → m ≡ n
print_nat-injective m n e =
    sym (digits_value-print_nat m) ∙ ap (digits_value 0) e ∙ digits_value-print_nat n

numbered-injective : (t : Text) (m n : ℕ) → numbered t m ≡ numbered t n → m ≡ n
numbered-injective t m n e =
    let tails = append_cancel t (b'_' ∷ print_nat m) (b'_' ∷ print_nat n) e in
    print_nat-injective m n (ground arith)

numbered-ne : (t : Text) (m : ℕ) → numbered t m ≢ t
numbered-ne t m e = absurd (omega (arith, ap length e, length-append t (b'_' ∷ print_nat m)))

remove : Text → List Text → List Text
remove w [] = []
remove w (x ∷ xs) = let rest = remove w xs in if text_eq x w then xs else x ∷ rest

length-remove :
    (w : Text) (xs : List Text) → includes_text xs w ≡ true → length xs ≡ suc (length (remove w xs))
unfolding remove
length-remove w [] h = cc
length-remove w (x ∷ xs) h = ground (arith, length-remove w xs)

includes_text-remove :
    (w v : Text) (xs : List Text)
    → v ≢ w
    → includes_text xs v ≡ true
    → includes_text (remove w xs) v ≡ true
unfolding remove
includes_text-remove w v [] ne h = h
includes_text-remove w v (x ∷ xs) ne h =
    ground (arith, includes_text-remove w v xs ne, text_eq_iff x w, text_eq_iff x v)

-- The lines that can still refuse a word are all in the pool.
record Covers (t : Text) (lines pool : List Text) (n : ℕ) (word : Text) : Type 0 where
  now : includes_text lines word ≡ true → includes_text pool word ≡ true
  later :
      (m : ℕ)
      → n ≤ m
      → includes_text lines (numbered t m) ≡ true
      → includes_text pool (numbered t m) ≡ true
  fresh : (m : ℕ) → n ≤ m → numbered t m ≢ word

Covers-next :
    (t : Text) (lines pool : List Text) (n : ℕ) (word : Text)
    → Covers t lines pool n word
    → Covers t lines (remove word pool) (n + 1) (numbered t n)
Covers-next t lines pool n word c = record {
  now = λ h.
      includes_text-remove word (numbered t n) pool (c.fresh n (omega arith))
        (c.later n (omega arith) h);
  later = λ m le h.
      includes_text-remove word (numbered t m) pool (c.fresh m (omega arith))
        (c.later m (omega arith) h);
  fresh = λ m le e. absurd (omega (arith, numbered-injective t m n e));
}

pick_word-fresh :
    (fuel : ℕ) (t : Text) (lines pool : List Text) (n : ℕ) (word : Text)
    → length pool < fuel
    → Covers t lines pool n word
    → includes_text lines (pick_word fuel t lines n word) ≡ false
unfolding pick_word
pick_word-fresh zero t lines pool n word h c = absurd (omega arith)
pick_word-fresh (suc fuel) t lines pool n word h c = elim (Bool-cases (includes_text lines word)) [
  | inl taken ↦
      rw (taken, pick_word)
        (pick_word-fresh fuel t lines (remove word pool) (n + 1) (numbered t n)
          (omega (arith, length-remove word pool (c.now taken)))
          (Covers-next t lines pool n word c))
  | inr free ↦ rw (free, pick_word) free
]

-- Whatever the content and the terminator, the chosen word is no line of the content.
pub heredoc_word-fresh :
    (content terminator : Text)
    → includes_text (split 10 content) (heredoc_word content terminator) ≡ false
unfolding heredoc_word
heredoc_word-fresh content terminator =
    pick_word-fresh (suc (length (split 10 content))) terminator (split 10 content)
      (split 10 content) 1 terminator (omega arith)
      (record { now = λ h. h; later = λ m le h. h; fresh = λ m le. numbered-ne terminator m })
