-- ===== src/Console/Pixels/Tests.antt =====
-- The theorems on src/console/framebuffer.ts at a concrete frame.
use pve_agent.Base.{arith, ℕ, length, replicate, ok, ◌*◌, ◌≤◌, ◌<◌, ◌≡◌, refl, none, some, [], ◌∷◌}
use pve_agent.Console.Pixels.{
  Snapshot, Region, Area, Rgb, pos, negsuc, triple, clamp_region, crop_frame, color_ratio,
  changed_fraction, tolerance_for, pixel_at, color_distance, parse_color,
}
use pve_agent.Console.Pixels.Bounds.{IsInside, clamp_region-IsInside, crop_frame-whole}
use pve_agent.Console.Pixels.Crop.{crop_frame-pixel}
use pve_agent.Console.Pixels.Counting.{
  count, rows_of, pixel_of, color_ratio-count, changed_fraction-count,
}

-- Two pixels, red and black.
abbrev red_black : Snapshot
red_black = record { width = 2; height = 1; buffer = 0 ∷ 0 ∷ 255 ∷ 0 ∷ 0 ∷ 0 ∷ 0 ∷ 0 ∷ []; seq = 1 }

abbrev black_black : Snapshot
black_black = record { width = 2; height = 1; buffer = replicate 8 0; seq = 2 }

-- It starts left of the frame and ends right of it.
abbrev too_wide : Region
too_wide = record { x = negsuc 3; y = pos 0; w = pos 9; h = pos 0 }

abbrev whole_area : Area
whole_area = record { x = 0; y = 0; w = 2; h = 1 }

clamped : clamp_region red_black (some too_wide) ≡ ok whole_area
unfolding clamp_region
clamped = refl

clamp_region-IsInside_example : IsInside red_black whole_area
clamp_region-IsInside_example = clamp_region-IsInside red_black (some too_wide) whole_area clamped

abbrev pure_red : Rgb
pure_red = record { red = 255; green = 0; blue = 0 }

-- The double 0.9.
abbrev nine_tenths : ℕ × ℕ
nine_tenths = (8106479329266893, 9007199254740992)

nine_tenths_allows : tolerance_for nine_tenths ≡ ok 25
unfolding tolerance_for
nine_tenths_allows = refl

zero_allows : tolerance_for (0, 1) ≡ ok 255
unfolding tolerance_for
zero_allows = refl

one_allows : tolerance_for (1, 1) ≡ ok 0
unfolding tolerance_for
one_allows = refl

color_ratio-count_example :
    color_ratio red_black (triple pure_red) nine_tenths (some too_wide) ≡ ok (1, 2)
unfolding parse_color clamp_region count rows_of pixel_at color_distance tolerance_for
color_ratio-count_example =
    color_ratio-count red_black (triple pure_red) nine_tenths (some too_wide)

changed_fraction-count_example : changed_fraction red_black black_black none ≡ ok (1, 2)
unfolding clamp_region count rows_of pixel_at color_distance
changed_fraction-count_example = changed_fraction-count red_black black_black none refl refl

abbrev cropped_frame : Snapshot
cropped_frame = record { width = 2; height = 1; buffer = red_black.buffer; seq = 1 }

crops : crop_frame red_black too_wide ≡ ok cropped_frame
unfolding crop_frame clamp_region
crops = refl

crop_frame-whole_example :
    (length cropped_frame.buffer ≡ 2 * 1 * 4) × (0 < 2) × (0 < 1) × (2 ≤ 2) × (1 ≤ 1)
crop_frame-whole_example = crop_frame-whole red_black too_wide cropped_frame crops

-- Two rows of two pixels, numbered by their blue channel.
abbrev four_pixels : Snapshot
four_pixels = record {
  width = 2;
  height = 2;
  buffer = 1 ∷ 0 ∷ 0 ∷ 0 ∷ 2 ∷ 0 ∷ 0 ∷ 0 ∷ 3 ∷ 0 ∷ 0 ∷ 0 ∷ 4 ∷ 0 ∷ 0 ∷ 0 ∷ [];
  seq = 3;
}

abbrev right_column : Region
right_column = record { x = pos 1; y = pos 0; w = pos 1; h = pos 5 }

abbrev right_area : Area
right_area = record { x = 1; y = 0; w = 1; h = 2 }

abbrev right_pixels : Snapshot
right_pixels = record {
  width = 1;
  height = 2;
  buffer = 2 ∷ 0 ∷ 0 ∷ 0 ∷ 4 ∷ 0 ∷ 0 ∷ 0 ∷ [];
  seq = 3;
}

right_clamped : clamp_region four_pixels (some right_column) ≡ ok right_area
unfolding clamp_region
right_clamped = refl

right_cropped : crop_frame four_pixels right_column ≡ ok right_pixels
unfolding crop_frame clamp_region
right_cropped = refl

crop_frame-pixel_example : pixel_of right_pixels (0, 1) ≡ pixel_of four_pixels (1, 1)
crop_frame-pixel_example =
    crop_frame-pixel four_pixels right_column right_area right_pixels 0 1 right_clamped
      right_cropped refl (omega arith) (omega arith)
