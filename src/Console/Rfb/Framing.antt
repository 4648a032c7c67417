-- ===== src/Console/Rfb/Framing.antt =====
-- src/console/rfb.ts: the parsers on a buffer and on a longer one.
use pve_agent.Base.{
  ltb, ◌==◌, if◌then◌else◌, ltb→lt, lt→ltb, Bool-cases, length, take, drop, length-append,
  length-drop, take-append, drop-append, Buffer, read_u8, read_u16_be, read_u32_be, read_u8-append,
  read_u16_be-append, read_u32_be-append, ℕ, ◌+◌, ◌-◌, ◌*◌, ◌%◌, ◌≤◌, ◌<◌, ◌≡◌, refl, inl, inr,
  Bool, true, false, not, ◌++◌, map, arith,
}
use pve_agent.Console.Rfb.{
  ParseResult, parsed, need, fail, subarray, parse_protocol_version, is_version, read_reason,
  parse_security_types, parse_security_result, parse_server_init, parse_server_message,
  parse_colour_map, parse_cut_text, parse_rectangle, parse_raw, parse_copy, exceeds, copy, resize,
  bell, update, RfbError, connection_refused, authentication_failed, Rectangle, unknown_message,
  out_of_bounds, unsupported_encoding, rfb_encoding_raw, rfb_encoding_copyrect,
  rfb_encoding_desktop_size,
}

pub subarray-append :
    (buf more : Buffer) (start end : ℕ)
    → start ≤ end
    → end ≤ length buf
    → subarray (buf ++ more) start end ≡ subarray buf start end
unfolding subarray
subarray-append buf more start end h k =
    rw (drop-append start buf more (omega arith))
      (take-append (end - start) (drop start buf) more (omega (arith, length-drop start buf)))

module _ {A : Type 0} where
  -- How the answer on `buf ++ more` follows from the answer on `buf`.
  abbrev pub Extends : Buffer → Buffer → ParseResult A → ParseResult A → Type 0
  Extends buf more (parsed v n) r = (0 < n) × (n ≤ length buf) × (r ≡ parsed v n)
  Extends buf more (need n) r = (length buf < n) × (length (buf ++ more) < n → r ≡ need n)
  Extends buf more (fail e) r = r ≡ fail e

  guard-Extends :
      (buf more : Buffer) (n : ℕ) (r r' : ParseResult A)
      → (n ≤ length buf → Extends buf more r r')
      → Extends buf more
          (if ltb (length buf) n then need n else r)
          (if ltb (length (buf ++ more)) n then need n else r')
  guard-Extends buf more n r r' h = elim (Bool-cases (ltb (length buf) n)) [
    | inl short ↦ rw short (ltb→lt _ _ short, λ k. rw (lt→ltb _ _ k))
    | inr long ↦
        let fits : n ≤ length buf = ground arith in
        let still : ltb (length (buf ++ more)) n ≡ false = ground (arith, length-append buf more) in
        rw (long, still) (h fits)
  ]

read_reason-Extends :
    (A : Type 0) (buf more : Buffer) (offset : ℕ) (error : Buffer → RfbError)
    → Extends {A = A} buf more
        (read_reason buf offset need (λ reason. fail (error reason)))
        (read_reason (buf ++ more) offset need (λ reason. fail (error reason)))
unfolding read_reason
read_reason-Extends A buf more offset error = guard-Extends buf more (offset + 4) _ _ λ fits.
    let len = read_u32_be buf offset in
    rw (read_u32_be-append buf more offset (omega arith)) (
      guard-Extends buf more (offset + 4 + len) _ _ λ fits'.
        rw (subarray-append buf more (offset + 4) (offset + 4 + len) (omega arith) fits') refl)

pub parse_protocol_version-Extends :
    (buf more : Buffer)
    → Extends buf more (parse_protocol_version buf) (parse_protocol_version (buf ++ more))
unfolding parse_protocol_version
parse_protocol_version-Extends buf more = guard-Extends buf more 12 _ _ λ fits.
    rw (take-append 12 buf more fits)
      (elim (Bool-cases (is_version (map (λ b. b % 128) (take 12 buf)))) [
        | inl good ↦ rw good (omega arith, fits, refl)
        | inr bad ↦ rw bad refl
      ])

pub parse_security_types-Extends :
    (buf more : Buffer)
    → Extends buf more (parse_security_types buf) (parse_security_types (buf ++ more))
unfolding parse_security_types
parse_security_types-Extends buf more = guard-Extends buf more 1 _ _ λ fits.
    let count = read_u8 buf 0 in
    rw (read_u8-append buf more 0 fits) (elim (Bool-cases (count == 0)) [
      | inl none_offered ↦ rw none_offered (read_reason-Extends _ buf more 1 connection_refused)
      | inr offered ↦ rw offered (
          guard-Extends buf more (1 + count) _ _ λ fits'. (
            omega arith,
            fits',
            rw (subarray-append buf more 1 (1 + count) (omega arith) fits') refl,
          ))
    ])

pub parse_security_result-Extends :
    (buf more : Buffer)
    → Extends buf more (parse_security_result buf) (parse_security_result (buf ++ more))
unfolding parse_security_result
parse_security_result-Extends buf more = guard-Extends buf more 4 _ _ λ fits.
    rw (read_u32_be-append buf more 0 (omega arith))
      (elim (Bool-cases (not (read_u32_be buf 0 == 0))) [
        | inl failed ↦ rw failed (read_reason-Extends _ buf more 4 authentication_failed)
        | inr good ↦ rw good (omega arith, fits, refl)
      ])

pub parse_server_init-Extends :
    (buf more : Buffer) → Extends buf more (parse_server_init buf) (parse_server_init (buf ++ more))
unfolding parse_server_init
parse_server_init-Extends buf more = guard-Extends buf more 24 _ _ λ fits.
    let len = read_u32_be buf 20 in
    rw (read_u32_be-append buf more 20 (omega arith)) (
      guard-Extends buf more (24 + len) _ _ λ fits'.
        rw
          (
            subarray-append buf more 24 (24 + len) (omega arith) fits',
            read_u16_be-append buf more 0 (omega arith),
            read_u16_be-append buf more 2 (omega arith),
          )
          (omega arith, fits', refl))

parse_colour_map-Extends :
    (buf more : Buffer) → Extends buf more (parse_colour_map buf) (parse_colour_map (buf ++ more))
unfolding parse_colour_map
parse_colour_map-Extends buf more = guard-Extends buf more 6 _ _ λ fits.
    rw (read_u16_be-append buf more 4 (omega arith))
      (guard-Extends buf more (6 + read_u16_be buf 4 * 6) _ _ λ fits'. (omega arith, fits', refl))

parse_cut_text-Extends :
    (buf more : Buffer) → Extends buf more (parse_cut_text buf) (parse_cut_text (buf ++ more))
unfolding parse_cut_text
parse_cut_text-Extends buf more = guard-Extends buf more 8 _ _ λ fits.
    let len = read_u32_be buf 4 in
    rw (read_u32_be-append buf more 4 (omega arith)) (
      guard-Extends buf more (8 + len) _ _ λ fits'.
        rw (subarray-append buf more 8 (8 + len) (omega arith) fits') (omega arith, fits', refl))

parse_update-Extends :
    (buf more : Buffer)
    → Extends buf more
        (if ltb (length buf) 4 then need 4 else parsed (update (read_u16_be buf 2)) 4)
        (if ltb (length (buf ++ more)) 4
          then need 4
          else parsed (update (read_u16_be (buf ++ more) 2)) 4)
parse_update-Extends buf more =
    guard-Extends buf more 4 _ _
      λ fits. rw (read_u16_be-append buf more 2 (omega arith)) (omega arith, fits, refl)

module _ {A : Type 0} where
  -- A choice made on a part of the buffer that both hold.
  if-Extends :
      (buf more : Buffer) (b : Bool) (r s r' s' : ParseResult A)
      → Extends buf more r r'
      → Extends buf more s s'
      → Extends buf more (if b then r else s) (if b then r' else s')
  if-Extends buf more true r s r' s' h k = h
  if-Extends buf more false r s r' s' h k = k

pub parse_server_message-Extends :
    (buf more : Buffer)
    → Extends buf more (parse_server_message buf) (parse_server_message (buf ++ more))
unfolding parse_server_message
parse_server_message-Extends buf more = guard-Extends buf more 1 _ _ λ fits.
    let type = read_u8 buf 0 in
    rw (read_u8-append buf more 0 fits) (
      if-Extends buf more (type == 0) _ _ _ _ (parse_update-Extends buf more) (
        if-Extends buf more (type == 1) _ _ _ _ (parse_colour_map-Extends buf more) (
          if-Extends buf more (type == 2) (parsed bell 1) _ (parsed bell 1) _
            (omega arith, fits, refl)
            (if-Extends buf more (type == 3) _ (fail (unknown_message type)) _
              (fail (unknown_message type)) (parse_cut_text-Extends buf more) refl))))

parse_raw-Extends :
    (buf more : Buffer) (width height x y w h : ℕ)
    → Extends buf more
        (parse_raw buf width height x y w h)
        (parse_raw (buf ++ more) width height x y w h)
unfolding parse_raw
parse_raw-Extends buf more width height x y w h =
    let len = 12 + w * h * 4 in
    let refused : ParseResult Rectangle = fail (out_of_bounds x y w h) in
    if-Extends buf more (exceeds width height x y w h) refused _ refused _ refl (
      guard-Extends buf more len _ _
        λ fits. rw (subarray-append buf more 12 len (omega arith) fits) (omega arith, fits, refl))

parse_copy-Extends :
    (buf more : Buffer) (width height x y w h : ℕ)
    → Extends buf more
        (parse_copy buf width height x y w h)
        (parse_copy (buf ++ more) width height x y w h)
unfolding parse_copy
parse_copy-Extends buf more width height x y w h =
    let src_x = read_u16_be buf 12 in
    let src_y = read_u16_be buf 14 in
    let refused : ParseResult Rectangle = fail (out_of_bounds x y w h) in
    let no_source : ParseResult Rectangle = fail (out_of_bounds src_x src_y w h) in
    let copied : ParseResult Rectangle = parsed (copy x y w h src_x src_y) 16 in
    if-Extends buf more (exceeds width height x y w h) refused _ refused _ refl (
      guard-Extends buf more 16 _ _ λ fits.
        rw
          (
            read_u16_be-append buf more 12 (omega arith),
            read_u16_be-append buf more 14 (omega arith),
          )
          (if-Extends buf more (exceeds width height src_x src_y w h) no_source copied no_source
            copied refl (omega arith, fits, refl)))

pub parse_rectangle-Extends :
    (buf more : Buffer) (width height : ℕ)
    → Extends buf more
        (parse_rectangle buf width height)
        (parse_rectangle (buf ++ more) width height)
unfolding parse_rectangle
parse_rectangle-Extends buf more width height = guard-Extends buf more 12 _ _ λ fits.
    let x = read_u16_be buf 0 in
    let y = read_u16_be buf 2 in
    let w = read_u16_be buf 4 in
    let h = read_u16_be buf 6 in
    let encoding = read_u32_be buf 8 in
    let resized : ParseResult Rectangle = parsed (resize w h) 12 in
    let unknown : ParseResult Rectangle = fail (unsupported_encoding encoding) in
    rw
      (
        read_u16_be-append buf more 0 (omega arith),
        read_u16_be-append buf more 2 (omega arith),
        read_u16_be-append buf more 4 (omega arith),
        read_u16_be-append buf more 6 (omega arith),
        read_u32_be-append buf more 8 (omega arith),
      )
      (if-Extends buf more (encoding == rfb_encoding_raw) _ _ _ _
        (parse_raw-Extends buf more width height x y w h)
        (if-Extends buf more (encoding == rfb_encoding_copyrect) _ _ _ _
          (parse_copy-Extends buf more width height x y w h)
          (if-Extends buf more (encoding == rfb_encoding_desktop_size) resized unknown resized
            unknown (omega arith, fits, refl) refl)))
