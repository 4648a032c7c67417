-- ===== src/Console/Des/ByteBits.antt =====
-- src/console/des.ts, toBits and fromBits: bytes as bits.
use pve_agent.Base.{
  ◌++◌, ltb, ◌==◌, length, take, drop, all, take-append-drop, length-take, length-drop, All,
  All-append, All-take, All-drop, text_eq, text_eq_iff, Buffer, IsByte, all_below, all_below_sound,
  ℕ, zero, suc, ◌*◌, ◌%◌, ◌≤◌, ◌≡◌, refl, ap₂, ◌∙◌, true, ◌&&◌, [], ◌∷◌, arith,
}
use pve_agent.Console.Des.{Bits, byte_bits, to_bits, pack_bits, pack_groups, from_bits}
use pve_agent.Console.Des.BitLists.{IsBit, all_bits, all_bits_sound}

pack_group_table : all_bits 8 (λ l. text_eq (byte_bits (pack_bits l % 256)) l) ≡ true
unfolding all_bits text_eq byte_bits pack_bits
pack_group_table = refl

byte_table :
    all_below 256 (λ b. (pack_bits (byte_bits b) % 256) == b && all (λ i. ltb i 2) (byte_bits b))
    ≡ true
unfolding all_below byte_bits pack_bits
byte_table = refl

byte_bits-pack_bits :
    (group : Bits) → length group ≡ 8 → All IsBit group → byte_bits (pack_bits group % 256) ≡ group
byte_bits-pack_bits group len h = (text_eq_iff _ group).0 (
    all_bits_sound group (λ l. text_eq (byte_bits (pack_bits l % 256)) l) h
      (rw len pack_group_table))

to_bits-pack_groups :
    (rounds n : ℕ) (bits : Bits)
    → length bits ≡ n * 8
    → n ≤ rounds
    → All IsBit bits
    → to_bits (pack_groups rounds bits) ≡ bits
unfolding to_bits pack_groups
to_bits-pack_groups zero n [] len h k = refl
to_bits-pack_groups zero n (b ∷ bits) len h k = absurd (omega arith)
to_bits-pack_groups (suc rounds) n [] len h k = refl
to_bits-pack_groups (suc rounds) zero (b ∷ bits) len h k = absurd (omega arith)
to_bits-pack_groups (suc rounds) (suc n) (b ∷ bits) len h k =
    ap₂ ◌++◌
      (byte_bits-pack_bits (take 8 (b ∷ bits)) (omega (arith, length-take 8 (b ∷ bits)))
        (All-take IsBit 8 (b ∷ bits) k))
      (to_bits-pack_groups rounds n (drop 7 bits) (omega (arith, length-drop 7 bits)) (omega arith)
        (All-drop IsBit 7 bits k.1))
    ∙ take-append-drop 8 (b ∷ bits)

-- Whole bytes of bits survive the way through a buffer.
pub to_bits-from_bits :
    (n : ℕ) (bits : Bits) → length bits ≡ n * 8 → All IsBit bits → to_bits (from_bits bits) ≡ bits
unfolding from_bits
to_bits-from_bits n bits len h = to_bits-pack_groups (length bits) n bits len (omega arith) h

all-IsBit : (bits : Bits) → all (λ i. ltb i 2) bits ≡ true → All IsBit bits
all-IsBit [] h = tt
all-IsBit (b ∷ bits) h = (ground arith, all-IsBit bits (ground arith))

byte_row : (b : ℕ) → IsByte b → (pack_bits (byte_bits b) % 256 ≡ b) × All IsBit (byte_bits b)
byte_row b h =
    let row =
      all_below_sound 256
        (λ b. (pack_bits (byte_bits b) % 256) == b && all (λ i. ltb i 2) (byte_bits b)) b byte_table
        h in
    (ground arith, all-IsBit (byte_bits b) (ground arith))

pub to_bits-IsBit : (bytes : Buffer) → All IsByte bytes → All IsBit (to_bits bytes)
unfolding to_bits
to_bits-IsBit [] h = tt
to_bits-IsBit (b ∷ bytes) (p, h) =
    All-append IsBit (byte_bits b) (to_bits bytes) (byte_row b p).1 (to_bits-IsBit bytes h)

pub length-to_bits : (bytes : Buffer) → length (to_bits bytes) ≡ length bytes * 8
unfolding to_bits byte_bits
length-to_bits [] = refl
length-to_bits (b ∷ bytes) = omega (arith, length-to_bits bytes)

pack_groups-to_bits :
    (rounds : ℕ) (bytes : Buffer)
    → length bytes ≤ rounds
    → All IsByte bytes
    → pack_groups rounds (to_bits bytes) ≡ bytes
unfolding to_bits pack_groups
pack_groups-to_bits zero [] h k = refl
pack_groups-to_bits zero (b ∷ bytes) h k = absurd (omega arith)
pack_groups-to_bits (suc rounds) [] h k = refl
pack_groups-to_bits (suc rounds) (b ∷ bytes) h (p, k) =
    ap₂ ◌∷◌ (unfold byte_bits in (byte_row b p).0)
      (unfold byte_bits in pack_groups-to_bits rounds bytes (omega arith) k)

-- A buffer survives the way through its bits.
pub from_bits-to_bits : (bytes : Buffer) → All IsByte bytes → from_bits (to_bits bytes) ≡ bytes
unfolding from_bits
from_bits-to_bits bytes h =
    pack_groups-to_bits (length (to_bits bytes)) bytes (omega (arith, length-to_bits bytes)) h
