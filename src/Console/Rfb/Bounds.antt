-- ===== src/Console/Rfb/Bounds.antt =====
-- src/console/rfb.ts, parseRectangle: rectangles and the screen.
use pve_agent.Base.{
  length, drop, length-take, length-drop, Buffer, read_u16_be, ℕ, ◌+◌, ◌*◌, ◌≤◌, ◌≡◌, subst, arith,
}
use pve_agent.Console.Rfb.{
  ParseResult, parsed, Rectangle, raw, copy, resize, subarray, exceeds, parse_rectangle,
  parse_encoded, parse_raw, parse_copy,
}

-- What is checked of a rectangle: a raw one lies inside the screen and comes with all its pixels, a copy
-- and its source lie inside the screen. Of a new screen size nothing is asked here.
abbrev pub InScreen : (width height : ℕ) → Rectangle → Type 0
InScreen width height (raw x y w h bytes) =
    (x + w ≤ width) × (y + h ≤ height) × (length bytes ≡ w * h * 4)
InScreen width height (copy x y w h src_x src_y) =
    (x + w ≤ width) × (y + h ≤ height) × (src_x + w ≤ width) × (src_y + h ≤ height)
InScreen width height (resize w h) = Unit

abbrev IfParsed : (width height : ℕ) → ParseResult Rectangle → Type 0
IfParsed width height (parsed r n) = InScreen width height r
IfParsed width height _ = Unit

parse_raw-IfParsed :
    (buf : Buffer) (width height x y w h : ℕ)
    → IfParsed width height (parse_raw buf width height x y w h)
unfolding parse_raw exceeds subarray
parse_raw-IfParsed buf width height x y w h =
    ground (arith, length-take (w * h * 4) (drop 12 buf), length-drop 12 buf)

parse_copy-IfParsed :
    (buf : Buffer) (width height x y w h : ℕ)
    → IfParsed width height (parse_copy buf width height x y w h)
unfolding parse_copy exceeds
parse_copy-IfParsed buf width height x y w h = ground arith

parse_rectangle-IfParsed :
    (buf : Buffer) (width height : ℕ) → IfParsed width height (parse_rectangle buf width height)
unfolding parse_rectangle parse_encoded
parse_rectangle-IfParsed buf width height =
    let x = read_u16_be buf 0 in
    let y = read_u16_be buf 2 in
    let w = read_u16_be buf 4 in
    let h = read_u16_be buf 6 in
    ground (
      arith,
      parse_raw-IfParsed buf width height x y w h,
      parse_copy-IfParsed buf width height x y w h,
    )

-- A raw rectangle that is read lies inside the screen and has four bytes for each of its pixels; a
-- copied one lies inside the screen, and so does its source. Of a new screen size nothing is said.
pub parse_rectangle-InScreen :
    (buf : Buffer) (width height : ℕ) (rectangle : Rectangle) (n : ℕ)
    → parse_rectangle buf width height ≡ parsed rectangle n
    → InScreen width height rectangle
parse_rectangle-InScreen buf width height rectangle n e =
    subst (IfParsed width height) e (parse_rectangle-IfParsed buf width height)
