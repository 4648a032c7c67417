-- ===== src/Console/Des/SevenBits.antt =====
-- src/console/des.ts, vncDesEncrypt: the bits of a password that the key schedule reads.
use pve_agent.Base.{
  get_or, take, drop, Text, text_eq, text_eq_iff, Buffer, all_below, all_below_sound, ℕ, zero, suc,
  ◌%◌, ◌<◌, ◌≡◌, refl, sym, ap, ap₂, ◌∙◌, true, List, [], ◌∷◌, ◌++◌, map, arith,
}
use pve_agent.Console.Des.Tables.{pc1, shifts}
use pve_agent.Console.Des.{
  Bits, permute, byte_bits, to_bits, key_schedule, subkeys, crypt, des_encrypt_block, reverse_bits,
  vnc_key, vnc_des_encrypt,
}

-- The bits of a key with the last bit of each byte cleared.
seven_bits : Buffer → Bits
seven_bits [] = []
seven_bits (byte ∷ bytes) = take 7 (byte_bits byte) ++ 0 ∷ seven_bits bytes

-- PC1 selects no last bit of a byte.
permute-seven_bits :
    (a b c d e f g h : ℕ)
    → permute (to_bits (a ∷ b ∷ c ∷ d ∷ e ∷ f ∷ g ∷ h ∷ [])) pc1
      ≡ permute (seven_bits (a ∷ b ∷ c ∷ d ∷ e ∷ f ∷ g ∷ h ∷ [])) pc1
unfolding permute to_bits seven_bits
permute-seven_bits a b c d e f g h = refl

abbrev key_byte : ℕ → ℕ
key_byte c = reverse_bits c % 256

key_byte_table :
    all_below 256
      (λ c. text_eq (take 7 (byte_bits (key_byte c))) (take 7 (byte_bits (key_byte (c % 128)))))
    ≡ true
unfolding all_below text_eq byte_bits reverse_bits
key_byte_table = refl

take-key_byte :
    (c : ℕ) → c < 256 → take 7 (byte_bits (key_byte c)) ≡ take 7 (byte_bits (key_byte (c % 128)))
take-key_byte c h = (text_eq_iff _ _).0 (
    all_below_sound 256
      (λ c. text_eq (take 7 (byte_bits (key_byte c))) (take 7 (byte_bits (key_byte (c % 128))))) c
      key_byte_table h)

-- The ASCII byte of the password at `i`, and of the password without its eighth bits.
ascii_byte :
    (password : Text) (i : ℕ)
    → (get_or (map (λ c. c % 256) password) i 0 < 256)
      × (get_or (map (λ c. c % 256) (map (λ c. c % 128) password)) i 0
          ≡ get_or (map (λ c. c % 256) password) i 0 % 128)
ascii_byte [] i = (omega arith, refl)
ascii_byte (c ∷ password) zero = (omega arith, omega arith)
ascii_byte (c ∷ password) (suc i) = ascii_byte password i

seven_bits-map :
    (f g : ℕ → ℕ) (indices : List ℕ)
    → ((i : ℕ) → take 7 (byte_bits (f i)) ≡ take 7 (byte_bits (g i)))
    → seven_bits (map f indices) ≡ seven_bits (map g indices)
unfolding seven_bits
seven_bits-map f g [] h = refl
seven_bits-map f g (i ∷ indices) h = ap₂ (λ a b. a ++ 0 ∷ b) (h i) (seven_bits-map f g indices h)

abbrev places : List ℕ
places = 0 ∷ 1 ∷ 2 ∷ 3 ∷ 4 ∷ 5 ∷ 6 ∷ 7 ∷ []

abbrev password_byte : Text → ℕ → ℕ
password_byte password i = get_or (map (λ c. c % 256) password) i 0

abbrev schedule : Bits → List Bits
schedule permuted = key_schedule (take 28 permuted) (drop 28 permuted) shifts

subkeys-seven_bits :
    (f : ℕ → ℕ) → subkeys (map f places) ≡ schedule (permute (seven_bits (map f places)) pc1)
unfolding subkeys
subkeys-seven_bits f =
    ap schedule (permute-seven_bits (f 0) (f 1) (f 2) (f 3) (f 4) (f 5) (f 6) (f 7))

vnc_key-map :
    (password : Text) → vnc_key password ≡ map (λ i. key_byte (password_byte password i)) places
unfolding vnc_key
vnc_key-map password = refl

password_byte-take :
    (password : Text) (i : ℕ)
    → take 7 (byte_bits (key_byte (password_byte password i)))
      ≡ take 7 (byte_bits (key_byte (password_byte (map (λ c. c % 128) password) i)))
password_byte-take password i =
    let (small, same) = ascii_byte password i in
    take-key_byte (password_byte password i) small
    ∙ ap (λ c. take 7 (byte_bits (key_byte c))) (sym same)

subkeys-vnc_key :
    (password : Text) → subkeys (vnc_key password) ≡ subkeys (vnc_key (map (λ c. c % 128) password))
subkeys-vnc_key password =
    let f = λ (i : ℕ). key_byte (password_byte password i) in
    let g = λ (i : ℕ). key_byte (password_byte (map (λ c. c % 128) password) i) in
    ap subkeys (vnc_key-map password)
    ∙ subkeys-seven_bits f
    ∙ ap (λ b. schedule (permute b pc1)) (seven_bits-map f g places (password_byte-take password))
    ∙ sym (subkeys-seven_bits g)
    ∙ ap subkeys (sym (vnc_key-map (map (λ c. c % 128) password)))

-- Whatever the eighth bits of the password's characters, the answer to the challenge is the same.
pub vnc_des_encrypt-seven_bits :
    (password : Text) (challenge : Buffer)
    → vnc_des_encrypt password challenge ≡ vnc_des_encrypt (map (λ c. c % 128) password) challenge
unfolding vnc_des_encrypt des_encrypt_block
vnc_des_encrypt-seven_bits password challenge =
    ap (λ k. crypt k (take 8 challenge) ++ crypt k (take 8 (drop 8 challenge)))
      (subkeys-vnc_key password)
