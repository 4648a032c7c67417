-- ===== src/Console/Pty/Stream.antt =====
-- src/console/pty.ts: what the far side of the websocket reads.
use pve_agent.Base.{
  ltb, ◌==◌, if◌then◌else◌, length, take, drop, all, length-append, take-append-drop, length-take,
  length-drop, take-length_append, drop-length_append, All, Text, is_digit, digits_value, print_nat,
  digits_value-print_nat, Buffer, print_nat-all, ℕ, zero, suc, ◌+◌, ◌-◌, ◌*◌, ◌≤◌, ◌<◌, ◌≡◌, refl,
  ap, ◌∙◌, true, false, ◌&&◌, Option, none, some, [], ◌∷◌, ◌++◌, append_assoc, arith,
}
use mathlib.Core.List.{flatten}
use pve_agent.Console.Pty.{input_frame, input_chunk_bytes, frames_from, input_frames}

-- The number of bytes behind `0:`, up to the next colon.
span_number : ℕ → Buffer → Option (ℕ × Buffer)
unfolding is_digit
span_number n [] = none
span_number n (c ∷ s) = elim (c == b':') [
  | true ↦ some (n, s)
  | false ↦ elim (is_digit c) [ true ↦ span_number (n * 10 + (c - b'0')) s | false ↦ none ]
]

abbrev split_data : Option (ℕ × Buffer) → Option (Buffer × Buffer)
split_data none = none
split_data (some (n, s)) = if ltb (length s) n then none else some (take n s, drop n s)

-- One frame `0:<bytes>:<data>` from the front of what arrives, with the rest.
unfoldable pub read_frame : Buffer → Option (Buffer × Buffer)
unfolding span_number
read_frame (a ∷ b ∷ s) = if a == b'0' && b == b':' then split_data (span_number 0 s) else none
read_frame _ = none

abbrev append_read : Buffer → Option Buffer → Option Buffer
append_read input none = none
append_read input (some rest) = some (input ++ rest)

-- The input that so many frames carry.
unfoldable pub read_frames : ℕ → Buffer → Option Buffer
unfolding read_frame
read_frames zero [] = some []
read_frames zero (b ∷ s) = none
read_frames (suc n) s = elim (read_frame s) [
  | none ↦ none
  | some (input, rest) ↦ append_read input (read_frames n rest)
]

span_number-digits :
    (digits rest : Buffer) (n : ℕ)
    → all is_digit digits ≡ true
    → span_number n (digits ++ b':' ∷ rest) ≡ some (digits_value n digits, rest)
unfolding span_number digits_value
span_number-digits [] rest n h = refl
span_number-digits (c ∷ digits) rest n h =
    let digit : is_digit c ≡ true = ground (arith, h) in
    let other : (c == b':') ≡ false = unfold is_digit in ground (arith, digit) in
    let more : all is_digit digits ≡ true = ground (arith, h) in
    rw (other, digit, span_number) (span_number-digits digits rest (n * 10 + (c - b'0')) more)

read_frame-input_frame :
    (chunk rest : Buffer) → read_frame (input_frame chunk ++ rest) ≡ some (chunk, rest)
unfolding read_frame
read_frame-input_frame chunk rest =
    let number = print_nat (length chunk) in
    let e : span_number 0 ((number ++ b':' ∷ chunk) ++ rest) ≡ some (length chunk, chunk ++ rest) =
      ap (span_number 0) (append_assoc number (b':' ∷ chunk) rest)
      ∙ span_number-digits number (chunk ++ rest) 0 (print_nat-all (length chunk))
      ∙ ap (λ n. some (n, chunk ++ rest)) (digits_value-print_nat (length chunk)) in
    let fits : ltb (length (chunk ++ rest)) (length chunk) ≡ false =
      ground (arith, length-append chunk rest) in
    simp (e, fits, take-length_append chunk rest, drop-length_append chunk rest)

read_frames-next :
    (n : ℕ) (s input rest : Buffer)
    → read_frame s ≡ some (input, rest)
    → read_frames (suc n) s ≡ append_read input (read_frames n rest)
unfolding read_frames
read_frames-next n s input rest e = rw (e, read_frames) refl

read_frames-frames_from :
    (fuel : ℕ) (payload : Buffer)
    → length payload ≤ fuel
    → read_frames (length (frames_from fuel payload)) (flatten (frames_from fuel payload))
      ≡ some payload
unfolding frames_from flatten read_frames
read_frames-frames_from zero [] h = refl
read_frames-frames_from zero (b ∷ payload) h = absurd (omega arith)
read_frames-frames_from (suc fuel) [] h = refl
read_frames-frames_from (suc fuel) (b ∷ payload) h =
    let chunk = take input_chunk_bytes (b ∷ payload) in
    let left = drop input_chunk_bytes (b ∷ payload) in
    let rest = flatten (frames_from fuel left) in
    let fewer : length left ≤ fuel = omega (arith, length-drop input_chunk_bytes (b ∷ payload)) in
    read_frames-next (length (frames_from fuel left)) (input_frame chunk ++ rest) chunk rest
      (read_frame-input_frame chunk rest)
    ∙ ap (append_read chunk) (read_frames-frames_from fuel left fewer)
    ∙ ap some (take-append-drop input_chunk_bytes (b ∷ payload))

-- A frame is what stands for a chunk of one to 256 bytes.
abbrev pub IsInput : Buffer → Type 0
IsInput frame =
    (chunk : Buffer) × (frame ≡ input_frame chunk) × (0 < length chunk) × (length chunk ≤ 256)

frames_from-IsInput : (fuel : ℕ) (payload : Buffer) → All IsInput (frames_from fuel payload)
unfolding frames_from
frames_from-IsInput zero payload = tt
frames_from-IsInput (suc fuel) [] = tt
frames_from-IsInput (suc fuel) (b ∷ payload) = (
  (
    take input_chunk_bytes (b ∷ payload),
    refl,
    omega (arith, length-take input_chunk_bytes (b ∷ payload)),
    omega (arith, length-take input_chunk_bytes (b ∷ payload)),
  ),
  frames_from-IsInput fuel (drop input_chunk_bytes (b ∷ payload)),
)

-- The frames of an input are read back as its bytes, in order and with nothing left over, and each
-- carries one to 256 bytes.
pub input_frames-read :
    (utf8 : Text → Buffer) (text : Text)
    → (read_frames (length (input_frames utf8 text)) (flatten (input_frames utf8 text))
        ≡ some (utf8 text))
      × All IsInput (input_frames utf8 text)
unfolding input_frames
input_frames-read utf8 text = (
  read_frames-frames_from (length (utf8 text)) (utf8 text) (omega arith),
  frames_from-IsInput (length (utf8 text)) (utf8 text),
)
