-- ===== src/Console/Rfb.antt =====
-- src/console/rfb.ts: the messages of the RFB 3.8 protocol.
pub mod Keys
pub mod Client
pub mod Bounds
pub mod Framed
pub mod Framing
use pve_agent.Base.{
  ltb, ◌==◌, if◌then◌else◌, length, get_or, take, drop, Text, codes, text_eq, is_digit, Buffer,
  read_u8, read_u16_be, read_u32_be, ℕ, ◌+◌, ◌-◌, ◌*◌, ◌%◌, ◌^◌, Bool, not, ◌&&◌, ◌||◌, List, map,
}

abbrev pub security_none : ℕ
security_none = 1

abbrev pub security_vnc_auth : ℕ
security_vnc_auth = 2

-- Encodings are int32 on the wire, here the word that stands for the number: the last is -223.
abbrev pub rfb_encoding_raw : ℕ
rfb_encoding_raw = 0

abbrev pub rfb_encoding_copyrect : ℕ
rfb_encoding_copyrect = 1

abbrev pub rfb_encoding_desktop_size : ℕ
rfb_encoding_desktop_size = 2 ^ 32 - 223

-- What a parser throws, with the values that its message shows. A reason is the bytes that the
-- source decodes as UTF-8.
pub data RfbError : Type 0 where
  bad_version : Text → RfbError
  connection_refused : Buffer → RfbError
  authentication_failed : Buffer → RfbError
  unknown_message : ℕ → RfbError
  out_of_bounds : (x y w h : ℕ) → RfbError
  unsupported_encoding : ℕ → RfbError

-- `Parsed<T> | number`, or a throw.
pub data ParseResult (A : Type 0) : Type 0 where
  parsed : A → ℕ → ParseResult A
  need : ℕ → ParseResult A
  fail : RfbError → ParseResult A

-- `buf.subarray(start, end)`.
unfoldable pub subarray : Buffer → ℕ → ℕ → Buffer
subarray buf start end = take (end - start) (drop start buf)

-- Three decimal digits at `i`, as `\d{3}`.
abbrev three_digits : Text → ℕ → Bool
three_digits s i =
    is_digit (get_or s i 0) && (is_digit (get_or s (i + 1) 0) && is_digit (get_or s (i + 2) 0))

-- The test `/^RFB \d{3}\.\d{3}\n$/` on a text of 12 characters.
unfoldable pub is_version : Text → Bool
unfolding text_eq is_digit
is_version s =
    text_eq (take 4 s) (codes "RFB ")
    && (three_digits s 4 && (get_or s 7 0 == b'.' && (three_digits s 8 && get_or s 11 0 == 10)))

-- The ASCII decoder drops the high bit of each byte.
unfoldable pub parse_protocol_version : Buffer → ParseResult Text
unfolding is_version
parse_protocol_version buf =
    if ltb (length buf) 12
    then need 12
    else let version = map (λ b. b % 128) (take 12 buf) in
      if is_version version then parsed version 12 else fail (bad_version version)

-- A reason string at `offset` is only read to be thrown.
unfoldable pub read_reason {ℓ} : {A : Type ℓ} → Buffer → ℕ → (ℕ → A) → (Buffer → A) → A
read_reason buf offset wait done =
    if ltb (length buf) (offset + 4)
    then wait (offset + 4)
    else let len = read_u32_be buf offset in
      if ltb (length buf) (offset + 4 + len)
      then wait (offset + 4 + len)
      else done (subarray buf (offset + 4) (offset + 4 + len))

unfoldable pub parse_security_types : Buffer → ParseResult (List ℕ)
unfolding read_reason
parse_security_types buf =
    if ltb (length buf) 1
    then need 1
    else let count = read_u8 buf 0 in
      if count == 0
      then read_reason buf 1 need (λ reason. fail (connection_refused reason))
      else if ltb (length buf) (1 + count)
      then need (1 + count)
      else parsed (subarray buf 1 (1 + count)) (1 + count)

unfoldable pub parse_security_result : Buffer → ParseResult (Unit {0})
unfolding read_reason
parse_security_result buf =
    if ltb (length buf) 4
    then need 4
    else if not (read_u32_be buf 0 == 0)
    then read_reason buf 4 need (λ reason. fail (authentication_failed reason))
    else parsed tt 4

-- The name is the bytes that the source decodes as UTF-8.
pub record ServerInit : Type 0 where
  pub width : ℕ
  pub height : ℕ
  pub name : Buffer

unfoldable pub parse_server_init : Buffer → ParseResult ServerInit
parse_server_init buf =
    if ltb (length buf) 24
    then need 24
    else let name_length = read_u32_be buf 20 in
      if ltb (length buf) (24 + name_length)
      then need (24 + name_length)
      else parsed
          (record {
            width = read_u16_be buf 0;
            height = read_u16_be buf 2;
            name = subarray buf 24 (24 + name_length);
          })
          (24 + name_length)

-- Text in latin-1 is its bytes.
pub data ServerMessage : Type 0 where
  update : ℕ → ServerMessage
  bell : ServerMessage
  cut_text : Text → ServerMessage
  colour_map : ServerMessage

parse_colour_map : Buffer → ParseResult ServerMessage
parse_colour_map buf =
    if ltb (length buf) 6
    then need 6
    else let total = 6 + read_u16_be buf 4 * 6 in
      if ltb (length buf) total then need total else parsed colour_map total

parse_cut_text : Buffer → ParseResult ServerMessage
parse_cut_text buf =
    if ltb (length buf) 8
    then need 8
    else let len = read_u32_be buf 4 in
      if ltb (length buf) (8 + len)
      then need (8 + len)
      else parsed (cut_text (subarray buf 8 (8 + len))) (8 + len)

unfoldable pub parse_server_message : Buffer → ParseResult ServerMessage
unfolding parse_colour_map parse_cut_text
parse_server_message buf =
    if ltb (length buf) 1
    then need 1
    else let type = read_u8 buf 0 in
      if type == 0
      then (if ltb (length buf) 4 then need 4 else parsed (update (read_u16_be buf 2)) 4)
      else if type == 1
      then parse_colour_map buf
      else if type == 2
      then parsed bell 1
      else if type == 3
      then parse_cut_text buf
      else fail (unknown_message type)

pub data Rectangle : Type 0 where
  raw : (x y w h : ℕ) → Buffer → Rectangle
  copy : (x y w h src_x src_y : ℕ) → Rectangle
  resize : (width height : ℕ) → Rectangle

-- The test of checkBounds.
unfoldable pub exceeds : (width height x y w h : ℕ) → Bool
exceeds width height x y w h = ltb width (x + w) || ltb height (y + h)

parse_raw : Buffer → (width height x y w h : ℕ) → ParseResult Rectangle
parse_raw buf width height x y w h =
    if exceeds width height x y w h
    then fail (out_of_bounds x y w h)
    else let len = 12 + w * h * 4 in
      if ltb (length buf) len then need len else parsed (raw x y w h (subarray buf 12 len)) len

parse_copy : Buffer → (width height x y w h : ℕ) → ParseResult Rectangle
parse_copy buf width height x y w h =
    if exceeds width height x y w h
    then fail (out_of_bounds x y w h)
    else if ltb (length buf) 16
    then need 16
    else let src_x = read_u16_be buf 12 in
      let src_y = read_u16_be buf 14 in
      if exceeds width height src_x src_y w h
      then fail (out_of_bounds src_x src_y w h)
      else parsed (copy x y w h src_x src_y) 16

-- The switch on the encoding, behind the five reads of the header.
parse_encoded : ℕ → Buffer → (width height x y w h : ℕ) → ParseResult Rectangle
parse_encoded encoding buf width height x y w h =
    if encoding == rfb_encoding_raw
    then parse_raw buf width height x y w h
    else if encoding == rfb_encoding_copyrect
    then parse_copy buf width height x y w h
    else if encoding == rfb_encoding_desktop_size
    then parsed (resize w h) 12
    else fail (unsupported_encoding encoding)

unfoldable pub parse_rectangle : Buffer → (width height : ℕ) → ParseResult Rectangle
unfolding parse_encoded parse_raw parse_copy
parse_rectangle buf width height =
    if ltb (length buf) 12
    then need 12
    else parse_encoded (read_u32_be buf 8) buf width height (read_u16_be buf 0) (read_u16_be buf 2)
        (read_u16_be buf 4) (read_u16_be buf 6)
