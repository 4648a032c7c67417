-- ===== src/Shell/Termproxy/Stable.antt =====
-- src/shell/termproxy.ts, parse: the same result is read when more output has arrived.
use pve_agent.Base.{
  leb, leb→le, Bool-cases, length, take, drop, length-drop, take-append, drop-append, Text,
  starts_with, find_text, ℕ, zero, suc, ◌+◌, ◌-◌, ◌≤◌, ◌<◌, ◌≡◌, refl, sym, ap, ◌∙◌, subst, inl,
  inr, true, false, Option, none, some, [], ◌∷◌, ◌++◌, arith,
}
use mathlib.Core.Option
use pve_agent.Shell.Termproxy.Output.{
  start, stop, find_from, slice, CommandResult, begin_mark, err_mark, end_mark, result_at,
  after_end, after_err, after_begin, parse,
}
use pve_agent.Shell.Termproxy.Marked.{parse-found}

starts_with-longer : (s t p : Text) → length p ≤ length s → starts_with (s ++ t) p ≡ starts_with s p
unfolding starts_with
starts_with-longer [] [] p h = refl
starts_with-longer [] (d ∷ t) [] h = refl
starts_with-longer [] (d ∷ t) (b ∷ p) h = absurd (omega arith)
starts_with-longer (a ∷ s) t [] h = refl
starts_with-longer (a ∷ s) t (b ∷ p) h = ground (arith, starts_with-longer s t p (omega arith))

starts_with-fits : (s p : Text) → starts_with s p ≡ true → length p ≤ length s
unfolding starts_with
starts_with-fits s [] h = omega arith
starts_with-fits [] (b ∷ p) h = absurd (ground (arith, h))
starts_with-fits (a ∷ s) (b ∷ p) h =
    let shorter = starts_with-fits s p (ground (arith, h)) in omega arith

pub some-get : {A : Type 0} (a b : A) → some a ≡ some b → a ≡ b
some-get {A} a b e = ap get e
  where
    get : Option A → A
    get none = a
    get (some x) = x

map-places :
    {A B : Type 0} (f : A → B) (o : Option A) (x : B)
    → Option.map f o ≡ some x
    → (a : A) × (o ≡ some a) × (f a ≡ x)
map-places f none x h = absurd (ground (arith, h))
map-places f (some a) x h = (a, refl, some-get (f a) x h)

-- Where a mark was found in the text, it is found in a longer one.
find_text-longer :
    (c : ℕ) (p s t : Text) (n : ℕ)
    → find_text (c ∷ p) s ≡ some n
    → (find_text (c ∷ p) (s ++ t) ≡ some n) × (n + length (c ∷ p) ≤ length s)
unfolding find_text
find_text-longer c p [] t n h = absurd (unfold starts_with in ground (arith, h))
find_text-longer c p (a ∷ s) t n h = elim (Bool-cases (starts_with (a ∷ s) (c ∷ p))) [
  | inl here ↦
      let fits = starts_with-fits (a ∷ s) (c ∷ p) here in
      let still = starts_with-longer (a ∷ s) t (c ∷ p) fits ∙ here in
      let zero_place : 0 ≡ n = some-get 0 n (rw (here, find_text) at h) in
      (rw (still, find_text) (ap some zero_place), omega arith)
  | inr later ↦
      let (m, found, e) = map-places suc (find_text (c ∷ p) s) n (rw (later, find_text) at h) in
      let (rest, fits) = find_text-longer c p s t m found in
      let still : starts_with (a ∷ (s ++ t)) (c ∷ p) ≡ false =
        starts_with-longer (a ∷ s) t (c ∷ p) (omega arith) ∙ later in
      (rw (still, rest, find_text) (ap some e), omega (arith, e))
]

drop_past_end : (n : ℕ) (s : Text) → length s < n → drop n s ≡ []
drop_past_end zero s h = absurd (omega arith)
drop_past_end (suc n) [] h = refl
drop_past_end (suc n) (c ∷ s) h = drop_past_end n s (omega arith)

find_from-within : (c : ℕ) (p s : Text) (n k : ℕ) → find_from (c ∷ p) n s ≡ some k → n ≤ length s
unfolding find_from find_text starts_with
find_from-within c p s n k h = elim (Bool-cases (leb n (length s))) [
  | inl within ↦ leb→le n (length s) within
  | inr beyond ↦
      let gone : drop n s ≡ [] = drop_past_end n s (ground (arith, beyond)) in
      let nothing : none ≡ some k =
        ap (λ u. Option.map (λ i. n + i) (find_text (c ∷ p) u)) (sym gone) ∙ h in
      absurd (ground (arith, nothing))
]

find_from-longer :
    (c : ℕ) (p s t : Text) (n k : ℕ)
    → find_from (c ∷ p) n s ≡ some k
    → (find_from (c ∷ p) n (s ++ t) ≡ some k) × (k + length (c ∷ p) ≤ length s)
unfolding find_from
find_from-longer c p s t n k h =
    let within = find_from-within c p s n k h in
    let (m, found, e) = map-places (λ i. n + i) (find_text (c ∷ p) (drop n s)) k h in
    let (still, fits) = find_text-longer c p (drop n s) t m found in
    (
      ap (λ u. Option.map (λ i. n + i) (find_text (c ∷ p) u)) (drop-append n s t within)
          ∙ ap (Option.map (λ i. n + i)) still
          ∙ ap some e,
      omega (arith, e, fits, length-drop n s),
    )

slice-longer :
    (i j : ℕ) (s t : Text) → i ≤ length s → j ≤ length s → slice i j (s ++ t) ≡ slice i j s
slice-longer i j s t h k =
    ap (take (j - i)) (drop-append i s t h)
    ∙ take-append (j - i) (drop i s) t (omega (arith, length-drop i s))

-- The places of the four marks of a result.
pub parse-places :
    (marker buffer : Text) (x : CommandResult × Text)
    → parse marker buffer ≡ some x
    → (b e n k : ℕ) × (find_from (begin_mark marker) 0 buffer ≡ some b)
      × (find_from (err_mark marker) b buffer ≡ some e)
      × (find_from (end_mark marker) e buffer ≡ some n)
      × (find_from (stop ∷ []) (n + length (end_mark marker)) buffer ≡ some k)
      × (result_at marker buffer b e n k ≡ x)
unfolding parse
parse-places marker buffer x h = from_begin (find_from (begin_mark marker) 0 buffer) refl h
  where
    Places : Type 0
    Places =
        (b e n k : ℕ) × (find_from (begin_mark marker) 0 buffer ≡ some b)
        × (find_from (err_mark marker) b buffer ≡ some e)
        × (find_from (end_mark marker) e buffer ≡ some n)
        × (find_from (stop ∷ []) (n + length (end_mark marker)) buffer ≡ some k)
        × (result_at marker buffer b e n k ≡ x)

    from_end :
        (b e : ℕ) (o : Option ℕ)
        → find_from (begin_mark marker) 0 buffer ≡ some b
        → find_from (err_mark marker) b buffer ≡ some e
        → find_from (end_mark marker) e buffer ≡ o
        → after_end marker buffer b e o ≡ some x
        → Places
    from_end b e none h1 h2 h3 h = absurd (ground (arith, h))
    from_end b e (some n) h1 h2 h3 h =
        let (k, found, r) = map-places (result_at marker buffer b e n) _ x h in
        (b, e, n, k, h1, h2, h3, found, r)

    from_err :
        (b : ℕ) (o : Option ℕ)
        → find_from (begin_mark marker) 0 buffer ≡ some b
        → find_from (err_mark marker) b buffer ≡ o
        → after_err marker buffer b o ≡ some x
        → Places
    from_err b none h1 h2 h = absurd (ground (arith, h))
    from_err b (some e) h1 h2 h = from_end b e (find_from (end_mark marker) e buffer) h1 h2 refl h

    from_begin :
        (o : Option ℕ)
        → find_from (begin_mark marker) 0 buffer ≡ o
        → after_begin marker buffer o ≡ some x
        → Places
    from_begin none h1 h = absurd (ground (arith, h))
    from_begin (some b) h1 h = from_err b (find_from (err_mark marker) b buffer) h1 refl h

abbrev put_rest : Text → CommandResult × Text → CommandResult × Text
put_rest t (result, rest) = (result, rest ++ t)

result_at-longer :
    (marker s t : Text) (b e n k : ℕ)
    → b + length (begin_mark marker) ≤ length s
    → e + length (err_mark marker) ≤ length s
    → n + length (end_mark marker) ≤ length s
    → k + 1 ≤ length s
    → result_at marker (s ++ t) b e n k ≡ put_rest t (result_at marker s b e n k)
result_at-longer marker s t b e n k h1 h2 h3 h4 =
    let out : slice (b + length (begin_mark marker)) e (s ++ t)
        ≡ slice (b + length (begin_mark marker)) e s =
      slice-longer (b + length (begin_mark marker)) e s t h1 (omega arith) in
    let err : slice (e + length (err_mark marker)) n (s ++ t)
        ≡ slice (e + length (err_mark marker)) n s =
      slice-longer (e + length (err_mark marker)) n s t h2 (omega arith) in
    let number : slice (n + length (end_mark marker)) k (s ++ t)
        ≡ slice (n + length (end_mark marker)) k s =
      slice-longer (n + length (end_mark marker)) k s t h3 (omega arith) in
    simp (out, err, number, drop-append (k + 1) s t h4)

-- A result that was read is read alike when more output follows it, and the rest grows by that.
pub parse-longer :
    (marker s t : Text) (result : CommandResult) (rest : Text)
    → parse marker s ≡ some (result, rest)
    → parse marker (s ++ t) ≡ some (result, rest ++ t)
parse-longer marker s t result rest h =
    let (b, e, n, k, h1, h2, h3, h4, r) = parse-places marker s (result, rest) h in
    let (g1, f1) = find_from-longer start _ s t 0 b h1 in
    let (g2, f2) = find_from-longer start _ s t b e h2 in
    let (g3, f3) = find_from-longer start _ s t e n h3 in
    let (g4, f4) = find_from-longer stop [] s t (n + length (end_mark marker)) k h4 in
    parse-found marker (s ++ t) b e n k g1 g2 g3 g4
    ∙ ap some (result_at-longer marker s t b e n k f1 f2 f3 f4)
    ∙ ap (λ x. some (put_rest t x)) r

-- What stands behind a result is no longer than the text.
pub rest-shorter :
    (marker s rest : Text) (result : CommandResult)
    → parse marker s ≡ some (result, rest)
    → length rest ≤ length s
rest-shorter marker s rest result h =
    let (b, e, n, k, h1, h2, h3, h4, r) = parse-places marker s (result, rest) h in
    let left : drop (k + 1) s ≡ rest = ap (λ x. x.1) r in
    subst (λ t. length t ≤ length s) left (omega (arith, length-drop (k + 1) s))
