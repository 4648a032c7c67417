-- ===== src/Console/Pixels.antt =====
-- src/console/framebuffer.ts: reading pixels out of a snapshot. A snapshot's buffer holds whole pixels
-- of four bytes: blue, green, red and one that is not used. A fraction is a pair of natural numbers
-- with a denominator above 0. A threshold, one that is not negative, is the exact value of its double,
-- and what toleranceFor makes of it is rounded as doubles are. Coordinates of a region are given after
-- `Math.trunc`.
pub mod Bounds
pub mod Match
pub mod Counting
pub mod Rows
pub mod Crop
mod Tests
use pve_agent.Base.{
  ltb, leb, ◌==◌, if◌then◌else◌, in_range, length, take, drop, replicate, Text, trim, ◌>>=◌, ◌>>◌,
  map_ok, Outcome, ok, throw, Buffer, read_u8, ℕ, zero, suc, ◌+◌, ◌-◌, ◌*◌, ◌/◌, ◌%◌, min, max,
  Bool, not, ◌&&◌, ◌||◌, Option, none, some, [], ◌∷◌, ◌++◌,
}
use pve_agent.Console.Rfb.Client.{pixel_format}
use pve_agent.Console.Vnc.Surface.{blit}

pub record Snapshot : Type 0 where
  pub width : ℕ
  pub height : ℕ
  pub buffer : Buffer
  pub seq : ℕ

pub data ℤ : Type 0 where
  pos : ℕ → ℤ
  negsuc : ℕ → ℤ

pub record Region : Type 0 where
  pub x : ℤ
  pub y : ℤ
  pub w : ℤ
  pub h : ℤ

-- A region inside a frame.
pub record Area : Type 0 where
  pub x : ℕ
  pub y : ℕ
  pub w : ℕ
  pub h : ℕ

pub record Rgb : Type 0 where
  pub red : ℕ
  pub green : ℕ
  pub blue : ℕ

pub data Color : Type 0 where
  hex : Text → Color
  triple : Rgb → Color

pub data PixelError : Type 0 where
  not_a_color : Text → PixelError
  bad_threshold empty_framebuffer not_an_integer outside_frame bad_factor : PixelError

-- The channel offsets, from the shifts in the pixel format.
abbrev pub red_offset : ℕ
red_offset = read_u8 pixel_format 10 / 8

abbrev pub green_offset : ℕ
green_offset = read_u8 pixel_format 11 / 8

abbrev pub blue_offset : ℕ
blue_offset = read_u8 pixel_format 12 / 8

unfoldable pub hex_digit : ℕ → Option ℕ
hex_digit c =
    if in_range b'0' b'9' c
    then some (c - b'0')
    else if in_range b'a' b'f' c
    then some (c - b'a' + 10)
    else if in_range b'A' b'F' c
    then some (c - b'A' + 10)
    else none

hex_value : ℕ → Text → Option ℕ
hex_value n [] = some n
hex_value n (c ∷ s) = next (hex_digit c) (λ d. hex_value (n * 16 + d) s)
  where
    next : Option ℕ → (ℕ → Option ℕ) → Option ℕ
    next none k = none
    next (some d) k = k d

abbrev drop_hash : Text → Text
drop_hash [] = []
drop_hash (c ∷ s) = if c == b'#' then s else c ∷ s

abbrev color_of : Text → Option ℕ → Outcome PixelError Rgb
color_of color none = throw (not_a_color color)
color_of color (some value) =
    ok (record { red = value / 65536 % 256; green = value / 256 % 256; blue = value % 256 })

unfoldable pub parse_color : Color → Outcome PixelError Rgb
unfolding hex_value hex_digit trim
parse_color (triple rgb) = ok rgb
parse_color (hex color) =
    let digits = drop_hash (trim color) in
    color_of color (if length digits == 6 then hex_value 0 digits else none)

unfoldable pub abs_diff : ℕ → ℕ → ℕ
abs_diff a b = (a - b) + (b - a)

unfoldable pub color_distance : Rgb → Rgb → ℕ
unfolding abs_diff
color_distance a b =
    max (max (abs_diff a.red b.red) (abs_diff a.green b.green)) (abs_diff a.blue b.blue)

-- The natural number nearest to `a / b`, the even one of two.
unfoldable pub round_even : (a b : ℕ) → ℕ
round_even a b =
    let q = a / b in
    let twice = 2 * (a % b) in if ltb twice b then q else if ltb b twice then q + 1 else q + q % 2

-- A double has 53 bits: `p` rounded to a multiple of the least power of two, from `unit` on, that
-- leaves it no more than that.
unfoldable pub to_double : (fuel unit p : ℕ) → ℕ
unfolding round_even
to_double zero unit p = round_even p unit * unit
to_double (suc fuel) unit p =
    let rest = to_double fuel (unit * 2) p in
    if ltb p (9007199254740992 * unit) then round_even p unit * unit else rest

-- `Math.round((1 - threshold) * 255)`, where `num / den` is the exact value of the double. The
-- difference and the product are rounded to doubles, and both are written here in units of 2 ^ -53:
-- the difference is at most 1, and the product is below 2 ^ 61, so it loses 8 bits at most.
unfoldable pub tolerance_for : ℕ × ℕ → Outcome PixelError ℕ
unfolding round_even to_double
tolerance_for (num, den) =
    let similarity = round_even ((den - num) * 9007199254740992) den in
    let drift = to_double 8 1 (similarity * 255) in
    if ltb den num
    then throw bad_threshold
    else ok ((2 * drift + 9007199254740992) / 18014398509481984)

-- `Math.max(0, Math.min(size - 1, k))` and `Math.max(1, Math.min(room, k))`.
abbrev pub clamp_origin : ℕ → ℤ → ℕ
clamp_origin size (pos k) = min (size - 1) k
clamp_origin size (negsuc k) = 0

abbrev pub clamp_extent : ℕ → ℤ → ℕ
clamp_extent room (pos k) = max 1 (min room k)
clamp_extent room (negsuc k) = 1

unfoldable pub clamp_given : Snapshot → Option Region → Area
clamp_given frame none = record { x = 0; y = 0; w = frame.width; h = frame.height }
clamp_given frame (some region) =
    let x = clamp_origin frame.width region.x in
    let y = clamp_origin frame.height region.y in
    record {
      x = x;
      y = y;
      w = clamp_extent (frame.width - x) region.w;
      h = clamp_extent (frame.height - y) region.h;
    }

unfoldable pub clamp_region : Snapshot → Option Region → Outcome PixelError Area
unfolding clamp_given
clamp_region frame region =
    if frame.width == 0 || frame.height == 0
    then throw empty_framebuffer
    else ok (clamp_given frame region)

-- The three channels at a byte offset.
unfoldable pub rgb_at : Buffer → ℕ → Rgb
unfolding read_u8
rgb_at buffer offset = record {
  red = read_u8 buffer (offset + red_offset);
  green = read_u8 buffer (offset + green_offset);
  blue = read_u8 buffer (offset + blue_offset);
}

-- A coordinate may be no integer.
pub data Coordinate : Type 0 where
  whole : ℤ → Coordinate
  fractional : Coordinate

unfoldable pub pixel_at : Snapshot → Coordinate → Coordinate → Outcome PixelError Rgb
unfolding rgb_at
pixel_at frame (whole (pos x)) (whole (pos y)) =
    if leb frame.width x || leb frame.height y
    then throw outside_frame
    else ok (rgb_at frame.buffer ((y * frame.width + x) * 4))
pixel_at frame (whole x) (whole y) = throw outside_frame
pixel_at frame x y = throw not_an_integer

-- A write behind the end of the output is dropped, and what is not written stays 0.
abbrev fit : ℕ → Buffer → Buffer
fit size bytes = take size bytes ++ replicate (size - length bytes) 0

-- The loop of packRgb, a pixel a round; the flag is `channels === 4`.
pack_pixels : Bool → Buffer → Buffer
pack_pixels alpha (b ∷ g ∷ r ∷ unused ∷ rest) =
    r ∷ g ∷ b ∷ ((if alpha then 255 ∷ [] else []) ++ pack_pixels alpha rest)
pack_pixels alpha _ = []

unfoldable pub pack_rgb : Snapshot → Bool → Buffer
unfolding pack_pixels
pack_rgb frame alpha =
    fit (frame.width * frame.height * (if alpha then 4 else 3)) (pack_pixels alpha frame.buffer)

-- The loop of cropFrame: `rows` are left, and the next is `row`.
unfoldable pub crop_rows : ℕ → ℕ → (x y src_stride row_bytes : ℕ) → Buffer → Buffer → Buffer
crop_rows zero row x y src_stride row_bytes source buffer = buffer
crop_rows (suc rows) row x y src_stride row_bytes source buffer =
    crop_rows rows (row + 1) x y src_stride row_bytes source (
      blit buffer (row * row_bytes) (take row_bytes (drop ((y + row) * src_stride + x * 4) source)))

unfoldable pub crop_area : Snapshot → Area → Snapshot
unfolding crop_rows blit
crop_area frame area = record {
  width = area.w;
  height = area.h;
  buffer =
      crop_rows area.h 0 area.x area.y (frame.width * 4) (area.w * 4) frame.buffer
        (replicate (area.h * (area.w * 4)) 0);
  seq = frame.seq;
}

unfoldable pub crop_frame : Snapshot → Region → Outcome PixelError Snapshot
unfolding crop_area
crop_frame frame region = map_ok (crop_area frame) (clamp_region frame (some region))

-- The columns and the rows of a region, as the two loops of colorRatio and changedFraction count.
unfoldable pub count_columns : ℕ → (ℕ → Bool) → ℕ → ℕ
count_columns zero hit offset = 0
count_columns (suc columns) hit offset =
    (if hit offset then 1 else 0) + count_columns columns hit (offset + 4)

unfoldable pub count_rows : ℕ → ℕ → (x y w stride : ℕ) → (ℕ → Bool) → ℕ
unfolding count_columns
count_rows zero row x y w stride hit = 0
count_rows (suc rows) row x y w stride hit =
    count_columns w hit ((y + row) * stride + x * 4) + count_rows rows (row + 1) x y w stride hit

abbrev pub is_near : ℕ → Rgb → Rgb → Bool
is_near tolerance a b =
    leb (abs_diff a.red b.red) tolerance
    && (leb (abs_diff a.green b.green) tolerance && leb (abs_diff a.blue b.blue) tolerance)

-- The fraction of hits, over the number of pixels.
unfoldable pub color_ratio : Snapshot → Color → ℕ × ℕ → Option Region → Outcome PixelError (ℕ × ℕ)
unfolding count_rows rgb_at abs_diff
color_ratio frame color threshold region = do
  rgb ← parse_color color
  tolerance ← tolerance_for threshold
  area ← clamp_region frame region
  let hit = λ (offset : ℕ). is_near tolerance (rgb_at frame.buffer offset) rgb
  ok (count_rows area.h 0 area.x area.y area.w (frame.width * 4) hit, area.w * area.h)

abbrev pub differs : Rgb → Rgb → Bool
differs a b = not (a.red == b.red) || (not (a.green == b.green) || not (a.blue == b.blue))

unfoldable pub changed_fraction : Snapshot → Snapshot → Option Region → Outcome PixelError (ℕ × ℕ)
unfolding count_rows rgb_at
changed_fraction before frame region =
    if not (before.width == frame.width) || not (before.height == frame.height)
    then ok (1, 1)
    else do
      area ← clamp_region frame region
      let hit = λ (offset : ℕ). differs (rgb_at before.buffer offset) (rgb_at frame.buffer offset)
      ok (count_rows area.h 0 area.x area.y area.w (frame.width * 4) hit, area.w * area.h)
