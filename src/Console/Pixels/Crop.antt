-- ===== src/Console/Pixels/Crop.antt =====
-- src/console/framebuffer.ts, cropFrame: the pixels of a crop.
use pve_agent.Base.{
  length, length-replicate, replicate, map_ok, some, ok, Buffer, read_u8, ℕ, suc, ◌+◌, ◌-◌, ◌*◌,
  ◌≤◌, ◌<◌, ◌≡◌, sym, ap, ◌∙◌, arith,
}
use pve_agent.Console.Vnc.Surface.{}
use pve_agent.Console.Vnc.Sizes.{}
use pve_agent.Console.Pixels.{
  Snapshot, Region, Area, Rgb, crop_area, crop_frame, clamp_region, rgb_at, red_offset,
  green_offset, blue_offset,
}
use pve_agent.Console.Pixels.Bounds.{IsInside, clamp_region-IsInside}
use pve_agent.Console.Pixels.Counting.{pixel_of, pixel_of-inside}
use native.Mathlib.Nat.{mul_assoc, mul_comm}
use pve_agent.Console.Pixels.Rows.{later_rows, crop_rows-inside}

rgb_at-agree :
    (a b : Buffer) (i j : ℕ)
    → ((c : ℕ) → c < 4 → read_u8 a (i + c) ≡ read_u8 b (j + c))
    → rgb_at a i ≡ rgb_at b j
unfolding rgb_at
rgb_at-agree a b i j agree =
    let red : read_u8 a (i + red_offset) ≡ read_u8 b (j + red_offset) =
      agree red_offset (unfold read_u8 in omega arith) in
    let green : read_u8 a (i + green_offset) ≡ read_u8 b (j + green_offset) =
      agree green_offset (unfold read_u8 in omega arith) in
    let blue : read_u8 a (i + blue_offset) ≡ read_u8 b (j + blue_offset) =
      agree blue_offset (unfold read_u8 in omega arith) in
    ap {B = Rgb}
      (λ v. record {
        red = v;
        green = read_u8 a (i + green_offset);
        blue = read_u8 a (i + blue_offset);
      })
      red
    ∙ ap {B = Rgb}
        (λ v. record {
          red = read_u8 b (j + red_offset);
          green = v;
          blue = read_u8 a (i + blue_offset);
        })
        green
    ∙ ap {B = Rgb}
        (λ v. record {
          red = read_u8 b (j + red_offset);
          green = read_u8 b (j + green_offset);
          blue = v;
        })
        blue

rows_fit : (y height n : ℕ) → y < height → y * n + n ≤ height * n
rows_fit y height n h =
    let left = height - suc y in
    let whole : height ≡ y + suc left = omega arith in
    let (shift, split, next) = later_rows y left n in omega (arith, ap (λ k. k * n) whole, split)

crop_area-pixel :
    (frame : Snapshot) (area : Area) (x y : ℕ)
    → IsInside frame area
    → length frame.buffer ≡ frame.width * frame.height * 4
    → x < area.w
    → y < area.h
    → pixel_of (crop_area frame area) (x, y) ≡ pixel_of frame (area.x + x, area.y + y)
unfolding crop_area
crop_area-pixel frame area x y (wide, high, across, down) sized left above =
    let stride = frame.width * 4 in
    let row_bytes = area.w * 4 in
    let blank : Buffer = replicate (area.h * row_bytes) 0 in
    let room : length blank ≡ area.h * row_bytes = length-replicate (area.h * row_bytes) 0 in
    let size : length frame.buffer ≡ frame.height * stride =
      sized
      ∙ ap (λ k. k * 4) (mul_comm frame.width frame.height)
      ∙ mul_assoc frame.height frame.width 4 in
    let inside : ((area.y + y) * stride + area.x * 4) + row_bytes ≤ length frame.buffer =
      omega (arith, rows_fit (area.y + y) frame.height stride (omega arith), size, across) in
    let copies : (c : ℕ)
        → c < 4
        → read_u8 (crop_area frame area).buffer ((y * area.w + x) * 4 + c)
          ≡ read_u8 frame.buffer (((area.y + y) * frame.width + (area.x + x)) * 4 + c) =
      λ c small.
        let to : (y * area.w + x) * 4 + c ≡ y * row_bytes + (x * 4 + c) =
          omega (arith, mul_assoc y area.w 4) in
        let from : ((area.y + y) * stride + area.x * 4) + (x * 4 + c)
            ≡ ((area.y + y) * frame.width + (area.x + x)) * 4 + c =
          omega (arith, mul_assoc (area.y + y) frame.width 4) in
        ap (read_u8 (crop_area frame area).buffer) to
        ∙ crop_rows-inside area.x area.y stride row_bytes frame.buffer area.h 0 y (x * 4 + c) blank
            (omega arith) (omega arith) (omega arith) (omega (arith, room)) inside
        ∙ ap (read_u8 frame.buffer) from in
    pixel_of-inside (crop_area frame area) x y left above
    ∙ ap ok (
        rgb_at-agree (crop_area frame area).buffer frame.buffer ((y * area.w + x) * 4)
          (((area.y + y) * frame.width + (area.x + x)) * 4) copies)
    ∙ sym (pixel_of-inside frame (area.x + x) (area.y + y) (omega arith) (omega arith))

cropped-area :
    (frame : Snapshot) (region : Region) (area : Area) (cropped : Snapshot)
    → clamp_region frame (some region) ≡ ok area
    → crop_frame frame region ≡ ok cropped
    → crop_area frame area ≡ cropped
unfolding crop_frame
cropped-area frame region area cropped clamped e =
    let same : ok (crop_area frame area) ≡ ok cropped =
      ap (map_ok (crop_area frame)) (sym clamped) ∙ e in
    cc

-- In a frame with four bytes for each of its pixels, pixelAt reads at a place of a crop what it reads
-- in the frame at that place of the region pulled inside the frame.
pub crop_frame-pixel :
    (frame : Snapshot) (region : Region) (area : Area) (cropped : Snapshot) (x y : ℕ)
    → clamp_region frame (some region) ≡ ok area
    → crop_frame frame region ≡ ok cropped
    → length frame.buffer ≡ frame.width * frame.height * 4
    → x < area.w
    → y < area.h
    → pixel_of cropped (x, y) ≡ pixel_of frame (area.x + x, area.y + y)
crop_frame-pixel frame region area cropped x y clamped e sized left above =
    ap (λ s. pixel_of s (x, y)) (sym (cropped-area frame region area cropped clamped e))
    ∙ crop_area-pixel frame area x y (clamp_region-IsInside frame (some region) area clamped) sized
        left above
