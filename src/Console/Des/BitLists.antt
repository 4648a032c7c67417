-- ===== src/Console/Des/BitLists.antt =====
-- src/console/des.ts, permute and xor: lists of bits.
use pve_agent.Base.{
  length, get_or, length-append, length-map, get_or-append_right, All, ℕ, zero, suc, ◌+◌, ◌-◌, ◌<◌,
  bit_xor, ◌≡◌, refl, ap, ap₂, ◌∙◌, Bool, true, ◌&&◌, List, [], ◌∷◌, ◌++◌, append_assoc, arith,
}
use pve_agent.Console.Des.{Bits, permute, xor}

abbrev pub IsBit : ℕ → Type 0
IsBit b = b < 2

-- A property of all lists of n bits is checked at every one of them.
unfoldable pub all_bits : ℕ → (Bits → Bool) → Bool
all_bits zero p = p []
all_bits (suc n) p = all_bits n (λ l. p (0 ∷ l)) && all_bits n (λ l. p (1 ∷ l))

pub all_bits_sound :
    (bits : Bits) (p : Bits → Bool)
    → All IsBit bits
    → all_bits (length bits) p ≡ true
    → p bits ≡ true
unfolding all_bits
all_bits_sound [] p h e = e
all_bits_sound (zero ∷ bits) p (b, h) e = all_bits_sound bits (λ l. p (0 ∷ l)) h (ground arith)
all_bits_sound (suc zero ∷ bits) p (b, h) e = all_bits_sound bits (λ l. p (1 ∷ l)) h (ground arith)
all_bits_sound (suc (suc b) ∷ bits) p (small, h) e = absurd (omega arith)

get_or-IsBit : (bits : Bits) (i : ℕ) → All IsBit bits → IsBit (get_or bits i 0)
get_or-IsBit [] i h = omega arith
get_or-IsBit (b ∷ bits) zero (p, h) = p
get_or-IsBit (b ∷ bits) (suc i) (p, h) = get_or-IsBit bits i h

pub permute-IsBit : (bits : Bits) (table : List ℕ) → All IsBit bits → All IsBit (permute bits table)
unfolding permute
permute-IsBit bits [] h = tt
permute-IsBit bits (k ∷ table) h = (get_or-IsBit bits (k - 1) h, permute-IsBit bits table h)

pub length-permute : (bits : Bits) (table : List ℕ) → length (permute bits table) ≡ length table
unfolding permute
length-permute bits table = length-map table (λ k. get_or bits (k - 1) 0)

get_or-permute :
    (bits : Bits) (table : List ℕ) (i : ℕ)
    → i < length table
    → get_or (permute bits table) i 0 ≡ get_or bits (get_or table i 0 - 1) 0
unfolding permute
get_or-permute bits [] i h = absurd (omega arith)
get_or-permute bits (k ∷ table) zero h = refl
get_or-permute bits (k ∷ table) (suc i) h = get_or-permute bits table i (omega arith)

-- Two permutations are one, by the table that `second` selects from `first`.
permute-permute :
    (bits : Bits) (first second : List ℕ)
    → All (λ k. k - 1 < length first) second
    → permute (permute bits first) second ≡ permute bits (permute first second)
unfolding permute
permute-permute bits first [] h = refl
permute-permute bits first (k ∷ second) (p, h) =
    ap₂ ◌∷◌ (get_or-permute bits first (k - 1) p) (permute-permute bits first second h)

abbrev pub count_up : ℕ → ℕ → List ℕ
count_up zero k = []
count_up (suc n) k = k ∷ count_up n (k + 1)

permute-count_up :
    (before bits : Bits)
    → permute (before ++ bits) (count_up (length bits) (length before + 1)) ≡ bits
unfolding permute
permute-count_up before [] = refl
permute-count_up before (b ∷ bits) =
    let here : get_or (before ++ b ∷ bits) (length before + 1 - 1) 0 ≡ b =
      ap (λ k. get_or (before ++ b ∷ bits) k 0) (omega arith)
      ∙ get_or-append_right before (b ∷ bits) 0 0 in
    let next : length (before ++ b ∷ []) + 1 ≡ length before + 1 + 1 =
      omega (arith, length-append before (b ∷ [])) in
    let later = permute-count_up (before ++ b ∷ []) bits in
    ap₂ ◌∷◌ here (rw (next, append_assoc) at later)

-- A table that undoes another gives the bits back.
pub permute_inverse :
    (bits : Bits) (first second : List ℕ)
    → All (λ k. k - 1 < length first) second
    → permute first second ≡ count_up (length bits) 1
    → permute (permute bits first) second ≡ bits
permute_inverse bits first second h e =
    permute-permute bits first second h ∙ ap (permute bits) e ∙ permute-count_up [] bits

bit_xor_twice : (a b : ℕ) → a < 2 → b < 2 → bit_xor (bit_xor a b) b ≡ a
bit_xor_twice zero zero h k = refl
bit_xor_twice zero (suc zero) h k = refl
bit_xor_twice (suc zero) zero h k = refl
bit_xor_twice (suc zero) (suc zero) h k = refl
bit_xor_twice (suc (suc a)) b h k = absurd (omega arith)
bit_xor_twice a (suc (suc b)) h k = absurd (omega arith)

bit_xor-IsBit : (a b : ℕ) → a < 2 → b < 2 → IsBit (bit_xor a b)
bit_xor-IsBit zero zero h k = omega arith
bit_xor-IsBit zero (suc zero) h k = omega arith
bit_xor-IsBit (suc zero) zero h k = omega arith
bit_xor-IsBit (suc zero) (suc zero) h k = omega arith
bit_xor-IsBit (suc (suc a)) b h k = absurd (omega arith)
bit_xor-IsBit a (suc (suc b)) h k = absurd (omega arith)

pub xor_twice : (a b : Bits) → All IsBit a → All IsBit b → xor (xor a b) b ≡ a
unfolding xor
xor_twice [] b h k = refl
xor_twice (x ∷ a) [] (p, h) k = ap₂ ◌∷◌ (bit_xor_twice x 0 p (omega arith)) (xor_twice a [] h tt)
xor_twice (x ∷ a) (y ∷ b) (p, h) (q, k) = ap₂ ◌∷◌ (bit_xor_twice x y p q) (xor_twice a b h k)

pub xor-IsBit : (a b : Bits) → All IsBit a → All IsBit b → All IsBit (xor a b)
unfolding xor
xor-IsBit [] b h k = tt
xor-IsBit (x ∷ a) [] (p, h) k = (bit_xor-IsBit x 0 p (omega arith), xor-IsBit a [] h tt)
xor-IsBit (x ∷ a) (y ∷ b) (p, h) (q, k) = (bit_xor-IsBit x y p q, xor-IsBit a b h k)

pub length-xor : (a b : Bits) → length (xor a b) ≡ length a
unfolding xor
length-xor [] b = refl
length-xor (x ∷ a) [] = ap suc (length-xor a [])
length-xor (x ∷ a) (y ∷ b) = ap suc (length-xor a b)
