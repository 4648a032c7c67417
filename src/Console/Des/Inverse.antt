-- ===== src/Console/Des/Inverse.antt =====
-- src/console/des.ts: desEncryptBlock against the same network with the subkeys in reverse order.
use pve_agent.Base.{
  length, take, drop, length-append, take-append-drop, length-take, length-drop, take-length_append,
  drop-length_append, All, All-append, All-take, All-drop, Buffer, IsByte, ℕ, zero, suc, ◌+◌, ◌*◌,
  ◌≡◌, refl, ap, ◌∙◌, subst, List, [], ◌∷◌, ◌++◌, arith,
}
use mathlib.Core.List.{reverse, reverse-cons}
use pve_agent.Console.Des.Tables.{ip, fp, expansion, p_box}
use pve_agent.Console.Des.{
  Bits, permute, to_bits, from_bits, xor, substitute, substitute_all, feistel, rounds, crypt,
  subkeys, des_encrypt_block,
}
use pve_agent.Console.Des.BitLists.{
  IsBit, permute-IsBit, length-permute, permute_inverse, xor_twice, xor-IsBit, length-xor,
}
use pve_agent.Console.Des.ByteBits.{
  to_bits-from_bits, to_bits-IsBit, length-to_bits, from_bits-to_bits,
}

substitute-IsBit : (box : ℕ) (six : Bits) → All IsBit (substitute box six)
unfolding substitute
substitute-IsBit box six = (omega arith, (omega arith, (omega arith, (omega arith, tt))))

substitute_all-IsBit :
    (boxes box : ℕ) (expanded : Bits) → All IsBit (substitute_all boxes box expanded)
unfolding substitute_all
substitute_all-IsBit zero box expanded = tt
substitute_all-IsBit (suc boxes) box expanded =
    All-append IsBit (substitute box (take 6 (drop (box * 6) expanded))) _ (substitute-IsBit box _)
      (substitute_all-IsBit boxes (box + 1) expanded)

feistel-IsBit : (right subkey : Bits) → All IsBit (feistel right subkey)
unfolding feistel
feistel-IsBit right subkey =
    permute-IsBit (substitute_all 8 0 (xor (permute right expansion) subkey)) p_box
      (substitute_all-IsBit 8 0 (xor (permute right expansion) subkey))

abbrev swap : Bits × Bits → Bits × Bits
swap (left, right) = (right, left)

rounds-append :
    (keys more : List Bits) (s : Bits × Bits)
    → rounds (keys ++ more) s ≡ rounds more (rounds keys s)
unfolding rounds
rounds-append [] more s = refl
rounds-append (k ∷ keys) more (left, right) =
    rounds-append keys more (right, xor left (feistel right k))

-- Running the rounds backwards on the exchanged halves gives the exchanged input.
rounds-reverse :
    (keys : List Bits) (left right : Bits)
    → All IsBit left
    → All IsBit right
    → rounds (reverse keys) (swap (rounds keys (left, right))) ≡ (right, left)
unfolding rounds
rounds-reverse [] left right h k = refl
rounds-reverse (key ∷ keys) left right h k =
    let f = feistel right key in
    let mixed = xor-IsBit left f h (feistel-IsBit right key) in
    let inner = rounds-reverse keys right (xor left f) k mixed in
    rw (reverse-cons, rounds-append)
      (ap (rounds (key ∷ [])) inner
        ∙ ap {B = Bits × Bits} (λ l. (right, l)) (xor_twice left f h (feistel-IsBit right key)))

rounds-Halves :
    (keys : List Bits) (left right : Bits)
    → All IsBit left × All IsBit right × (length left ≡ 32) × (length right ≡ 32)
    → All IsBit (rounds keys (left, right)).0
      × All IsBit (rounds keys (left, right)).1
      × (length (rounds keys (left, right)).0 ≡ 32)
      × (length (rounds keys (left, right)).1 ≡ 32)
unfolding rounds
rounds-Halves [] left right h = h
rounds-Halves (key ∷ keys) left right (hl, hr, el, er) =
    rounds-Halves keys right (xor left (feistel right key))
      (hr, xor-IsBit left _ hl (feistel-IsBit right key), er, length-xor left _ ∙ el)

abbrev halves : Bits → Bits × Bits
halves bits = (take 32 bits, drop 32 bits)

halves-append : (a b : Bits) → length a ≡ 32 → halves (a ++ b) ≡ (a, b)
halves-append a b e =
    subst (λ n. ◌≡◌ {A = Bits × Bits} (take n (a ++ b), drop n (a ++ b)) (a, b)) e
      (λ i. (take-length_append a b i, drop-length_append a b i))

abbrev finish : Bits × Bits → Buffer
finish (left, right) = from_bits (permute (right ++ left) fp)

abbrev start : Buffer → Bits × Bits
start block = halves (permute (to_bits block) ip)

crypt-finish :
    (keys : List Bits) (block : Buffer) → crypt keys block ≡ finish (rounds keys (start block))
unfolding crypt
crypt-finish keys block = refl

start-Halves :
    (block : Buffer)
    → All IsByte block
    → length block ≡ 8
    → All IsBit (start block).0
      × All IsBit (start block).1
      × (length (start block).0 ≡ 32)
      × (length (start block).1 ≡ 32)
start-Halves block h e =
    let bits = permute (to_bits block) ip in
    let good = permute-IsBit (to_bits block) ip (to_bits-IsBit block h) in
    let len = length-permute (to_bits block) ip in
    (
      All-take IsBit 32 bits good,
      All-drop IsBit 32 bits good,
      omega (arith, length-take 32 bits, len),
      omega (arith, length-drop 32 bits, len),
    )

-- Whatever two halves are put out, reading them in again gives them exchanged.
start-finish :
    (left right : Bits)
    → All IsBit left
    → All IsBit right
    → length left ≡ 32
    → length right ≡ 32
    → start (finish (left, right)) ≡ (right, left)
unfolding permute
start-finish left right hl hr el er =
    let joined = right ++ left in
    let len : length joined ≡ 64 = omega (arith, length-append right left) in
    let good = All-append IsBit right left hr hl in
    ap (λ b. halves (permute b ip))
      (to_bits-from_bits 8 (permute joined fp) (length-permute joined fp)
        (permute-IsBit joined fp good))
    ∙ ap halves (permute_inverse joined fp ip (omega arith) (rw len refl))
    ∙ halves-append right left er

finish-start :
    (block : Buffer) → All IsByte block → length block ≡ 8 → finish (swap (start block)) ≡ block
unfolding permute
finish-start block h e =
    let bits = to_bits block in
    let len : length bits ≡ 64 = omega (arith, length-to_bits block) in
    ap (λ b. from_bits (permute b fp)) (take-append-drop 32 (permute bits ip))
    ∙ ap from_bits (permute_inverse bits ip fp (omega arith) (rw len refl))
    ∙ from_bits-to_bits block h

-- Decryption as the standard describes it: the same network, with the subkeys in reverse order.
abbrev pub des_decrypt_block : Buffer → Buffer → Buffer
des_decrypt_block key block = crypt (reverse (subkeys key)) block

-- Under any key, decrypting the encryption of an 8-byte block gives the block back.
pub des_decrypt_block-des_encrypt_block :
    (key block : Buffer)
    → All IsByte block
    → length block ≡ 8
    → des_decrypt_block key (des_encrypt_block key block) ≡ block
unfolding des_encrypt_block
des_decrypt_block-des_encrypt_block key block h e =
    let keys = subkeys key in
    let s = start block in
    let before = start-Halves block h e in
    let after = rounds-Halves keys s.0 s.1 before in
    ap (crypt (reverse keys)) (crypt-finish keys block)
    ∙ crypt-finish (reverse keys) (finish (rounds keys s))
    ∙ ap (λ t. finish (rounds (reverse keys) t))
        (start-finish (rounds keys s).0 (rounds keys s).1 after.0 after.1 after.2 after.3)
    ∙ ap finish (rounds-reverse keys s.0 s.1 before.0 before.1)
    ∙ finish-start block h e
