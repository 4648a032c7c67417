-- ===== src/Console/Des.antt =====
-- src/console/des.ts: DES in ECB mode, for the answer to an RFB security type 2 challenge.
-- `x & 1` is `x % 2`. A bit is 0 or 1, a Bits array is a list; `bits[i] ?? 0` is a read with default 0.
pub mod Tables
pub mod BitLists
pub mod ByteBits
pub mod Inverse
pub mod SevenBits
use pve_agent.Base.{
  length, get_or, take, drop, Text, Buffer, ℕ, zero, suc, ◌+◌, ◌-◌, ◌*◌, ◌/◌, ◌%◌, ◌^◌, bit_or,
  bit_xor, ◌≡◌, refl, List, [], ◌∷◌, ◌++◌, map,
}
use mathlib.Core.List.{foldl}
use Tables.{ip, fp, expansion, p_box, pc1, pc2, shifts, s_box}

abbrev pub Bits : Type 0
Bits = List ℕ

unfoldable pub permute : Bits → List ℕ → Bits
permute bits table = map (λ position. get_or bits (position - 1) 0) table

-- The bits of one byte, from 7 down to 0.
unfoldable pub byte_bits : ℕ → Bits
byte_bits byte = map (λ i. byte / 2 ^ i % 2) (7 ∷ 6 ∷ 5 ∷ 4 ∷ 3 ∷ 2 ∷ 1 ∷ 0 ∷ [])

unfoldable pub to_bits : Buffer → Bits
unfolding byte_bits
to_bits [] = []
to_bits (byte ∷ bytes) = byte_bits byte ++ to_bits bytes

-- `bits.reduce((byte, bit) => (byte << 1) | bit, 0)`.
unfoldable pub pack_bits : Bits → ℕ
pack_bits bits = foldl (λ byte bit. bit_or (byte * 2) bit) 0 bits

-- The loop runs while bits are left, so once for each eight and once for a shorter rest.
pack_groups : ℕ → Bits → Buffer
pack_groups zero bits = []
pack_groups (suc rounds) [] = []
pack_groups (suc rounds) (bit ∷ bits) =
    pack_bits (take 8 (bit ∷ bits)) % 256 ∷ pack_groups rounds (drop 7 bits)

unfoldable pub from_bits : Bits → Buffer
unfolding pack_groups pack_bits
from_bits bits = pack_groups (length bits) bits

unfoldable pub xor : Bits → Bits → Bits
xor [] b = []
xor (bit ∷ a) [] = bit_xor bit 0 ∷ xor a []
xor (bit ∷ a) (other ∷ b) = bit_xor bit other ∷ xor a b

unfoldable pub rotate_left : Bits → ℕ → Bits
rotate_left half count = drop count half ++ take count half

-- `SHIFTS.map` carries the two halves from one round to the next.
key_schedule : Bits → Bits → List ℕ → List Bits
key_schedule c d [] = []
key_schedule c d (shift ∷ rest) =
    let c' = rotate_left c shift in
    let d' = rotate_left d shift in permute (c' ++ d') pc2 ∷ key_schedule c' d' rest

unfoldable pub subkeys : Buffer → List Bits
unfolding permute to_bits key_schedule rotate_left
subkeys key =
    let permuted = permute (to_bits key) pc1 in
    key_schedule (take 28 permuted) (drop 28 permuted) shifts

-- One substitution: six bits in, four bits out.
unfoldable pub substitute : ℕ → Bits → Bits
substitute box six =
    let row = bit_or (get_or six 0 0 * 2) (get_or six 5 0) in
    let column =
      bit_or (bit_or (bit_or (get_or six 1 0 * 8) (get_or six 2 0 * 4)) (get_or six 3 0 * 2))
        (get_or six 4 0) in
    let value = get_or (get_or s_box box []) (row * 16 + column) 0 in
    map (λ i. value / 2 ^ i % 2) (3 ∷ 2 ∷ 1 ∷ 0 ∷ [])

-- The loop `for (box = 0; box < 8; box++)`, over the boxes that are left.
substitute_all : ℕ → ℕ → Bits → Bits
substitute_all zero box expanded = []
substitute_all (suc boxes) box expanded =
    substitute box (take 6 (drop (box * 6) expanded)) ++ substitute_all boxes (box + 1) expanded

unfoldable pub feistel : Bits → Bits → Bits
unfolding permute xor substitute substitute_all
feistel right subkey = permute (substitute_all 8 0 (xor (permute right expansion) subkey)) p_box

-- The loop `for (const subkey of keys)`.
unfoldable pub rounds : List Bits → Bits × Bits → Bits × Bits
rounds [] (left, right) = (left, right)
rounds (subkey ∷ keys) (left, right) = rounds keys (right, xor left (feistel right subkey))

-- The body of desEncryptBlock behind its first line.
unfoldable pub crypt : List Bits → Buffer → Buffer
unfolding permute to_bits from_bits rounds xor feistel
crypt keys block =
    let bits = permute (to_bits block) ip in
    let (left, right) = rounds keys (take 32 bits, drop 32 bits) in
    from_bits (permute (right ++ left) fp)

unfoldable pub des_encrypt_block : Buffer → Buffer → Buffer
unfolding subkeys crypt
des_encrypt_block key block = crypt (subkeys key) block

-- The loop of reverseBits, with `i` counting up to 8.
reverse_from : ℕ → ℕ → ℕ → ℕ → ℕ
reverse_from zero i byte reversed = reversed
reverse_from (suc left) i byte reversed =
    reverse_from left (i + 1) byte (bit_or (reversed * 2) (byte / 2 ^ i % 2))

unfoldable pub reverse_bits : ℕ → ℕ
unfolding reverse_from
reverse_bits byte = reverse_from 8 0 byte 0

-- `Buffer.from(password, 'ascii')` keeps the low byte of each code unit; bytes past the end of the
-- password are 0, and a byte of the key is stored modulo 256.
unfoldable pub vnc_key : Text → Buffer
unfolding reverse_bits
vnc_key password =
    map (λ i. reverse_bits (get_or (map (λ c. c % 256) password) i 0) % 256)
      (0 ∷ 1 ∷ 2 ∷ 3 ∷ 4 ∷ 5 ∷ 6 ∷ 7 ∷ [])

unfoldable pub vnc_des_encrypt : Text → Buffer → Buffer
unfolding vnc_key des_encrypt_block
vnc_des_encrypt password challenge =
    des_encrypt_block (vnc_key password) (take 8 challenge)
    ++ des_encrypt_block (vnc_key password) (take 8 (drop 8 challenge))

-- The classic vector: key 133457799BBCDFF1, block 0123456789ABCDEF, answer 85E813540F0AB405.
des_vector :
    des_encrypt_block
      (0x13 ∷ 0x34 ∷ 0x57 ∷ 0x79 ∷ 0x9b ∷ 0xbc ∷ 0xdf ∷ 0xf1 ∷ [])
      (0x01 ∷ 0x23 ∷ 0x45 ∷ 0x67 ∷ 0x89 ∷ 0xab ∷ 0xcd ∷ 0xef ∷ [])
    ≡ 0x85 ∷ 0xe8 ∷ 0x13 ∷ 0x54 ∷ 0x0f ∷ 0x0a ∷ 0xb4 ∷ 0x05 ∷ []
unfolding des_encrypt_block
des_vector = refl
