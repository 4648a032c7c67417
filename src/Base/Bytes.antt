-- ===== src/Base/Bytes.antt =====
-- Buffers as lists of bytes: the big-endian reads and writes of Node's Buffer.
use Prim.Native.Nat.{ℕ, zero, suc, ◌+◌, ◌*◌, ◌/◌, ◌%◌, ◌<◌}
use mathlib.Core.Path.{◌≡◌}
use mathlib.Core.Bool.{Bool, true, ◌&&◌}
use mathlib.Core.List.{List, [], ◌∷◌, ◌++◌}
use native.Mathlib.Omega.{arith}
use pve_agent.Base.Lists.{length, get_or, get_or-append}

abbrev pub Buffer : Type 0
Buffer = List ℕ

abbrev pub IsByte : ℕ → Type 0
IsByte b = b < 256

-- Reads inside the buffer; the callers check the length before they read.
unfoldable pub read_u8 : Buffer → ℕ → ℕ
read_u8 buf i = get_or buf i 0

unfoldable pub read_u16_be : Buffer → ℕ → ℕ
unfolding read_u8
read_u16_be buf i = read_u8 buf i * 256 + read_u8 buf (i + 1)

unfoldable pub read_u32_be : Buffer → ℕ → ℕ
unfolding read_u16_be
read_u32_be buf i = read_u16_be buf i * 65536 + read_u16_be buf (i + 2)

unfoldable pub u8 : ℕ → Buffer
u8 n = n % 256 ∷ []

unfoldable pub u16_be : ℕ → Buffer
u16_be n = (n / 256) % 256 ∷ n % 256 ∷ []

unfoldable pub u32_be : ℕ → Buffer
unfolding u16_be
u32_be n = u16_be (n / 65536) ++ u16_be n

-- Over a small range, a law is checked at every value.
unfoldable pub all_below : ℕ → (ℕ → Bool) → Bool
all_below zero law = true
all_below (suc top) law = law top && all_below top law

pub all_below_sound :
    (bound : ℕ) (law : ℕ → Bool) (value : ℕ)
    → all_below bound law ≡ true
    → value < bound
    → law value ≡ true
unfolding all_below
all_below_sound zero law value checked below = absurd (omega arith)
all_below_sound (suc top) law value checked below = ground (arith, all_below_sound top law value)

pub read_u8-append :
    (buf more : Buffer) (i : ℕ) → i < length buf → read_u8 (buf ++ more) i ≡ read_u8 buf i
unfolding read_u8
read_u8-append buf more i h = get_or-append buf more i 0 h

pub read_u16_be-append :
    (buf more : Buffer) (i : ℕ)
    → i + 1 < length buf
    → read_u16_be (buf ++ more) i ≡ read_u16_be buf i
unfolding read_u16_be
read_u16_be-append buf more i h =
    ground (arith, get_or-append buf more i 0, get_or-append buf more (i + 1) 0)

pub read_u32_be-append :
    (buf more : Buffer) (i : ℕ)
    → i + 3 < length buf
    → read_u32_be (buf ++ more) i ≡ read_u32_be buf i
unfolding read_u32_be
read_u32_be-append buf more i h = ground (
  arith,
  get_or-append buf more i 0,
  get_or-append buf more (i + 1) 0,
  get_or-append buf more (i + 2) 0,
  get_or-append buf more (i + 2 + 1) 0,
)
