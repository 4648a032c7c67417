-- ===== src/Console/Pixels/Counting.antt =====
-- src/console/framebuffer.ts: the pixels that colorRatio and changedFraction count, told by pixelAt and
-- colorDistance.
use pve_agent.Base.{
  leb, ◌==◌, if◌then◌else◌, length, length-append, ◌>>=◌, Outcome, ok, throw, ℕ, zero, suc, ◌+◌,
  ◌*◌, ◌≤◌, ◌<◌, ◌≡◌, refl, sym, ap, ◌∙◌, Bool, false, not, ◌||◌, Option, List, [], ◌∷◌, ◌++◌,
  arith,
}
use pve_agent.Console.Pixels.{
  Snapshot, Region, Area, Rgb, Color, PixelError, pos, whole, pixel_at, rgb_at, color_distance,
  abs_diff, is_near, differs, clamp_region, count_columns, count_rows, parse_color, tolerance_for,
  color_ratio, changed_fraction,
}
use native.Mathlib.Nat.{mul_assoc, mul-suc}
use pve_agent.Console.Pixels.Bounds.{IsInside, clamp_region-IsInside}

-- How many satisfy the test.
unfoldable pub count : {A : Type 0} → (A → Bool) → List A → ℕ
count p [] = 0
count p (x ∷ xs) = (if p x then 1 else 0) + count p xs

count-append :
    {A : Type 0} (p : A → Bool) (xs ys : List A) → count p (xs ++ ys) ≡ count p xs + count p ys
unfolding count
count-append p [] ys = omega arith
count-append p (x ∷ xs) ys = ground (arith, count-append p xs ys)

unfoldable pub row_of : (columns x y : ℕ) → List (ℕ × ℕ)
row_of zero x y = []
row_of (suc columns) x y = (x, y) ∷ row_of columns (x + 1) y

unfoldable pub rows_of : (rows columns x y : ℕ) → List (ℕ × ℕ)
unfolding row_of
rows_of zero columns x y = []
rows_of (suc rows) columns x y = row_of columns x y ++ rows_of rows columns x (y + 1)

-- The coordinates of the pixels of an area.
abbrev pub pixels_of : Area → List (ℕ × ℕ)
pixels_of area = rows_of area.h area.w area.x area.y

is_near-distance :
    (tolerance : ℕ) (a b : Rgb) → is_near tolerance a b ≡ leb (color_distance a b) tolerance
unfolding color_distance
is_near-distance tolerance a b = ground arith

differs-distance : (a b : Rgb) → differs a b ≡ not (color_distance a b == 0)
unfolding color_distance abs_diff
differs-distance a b = ground arith

next_pixel : (a x : ℕ) → (a + x) * 4 + 4 ≡ (a + (x + 1)) * 4
next_pixel a x = omega arith

first_pixel : (y width x : ℕ) → y * (width * 4) + x * 4 ≡ (y * width + x) * 4
first_pixel y width x = omega (arith, mul_assoc y width 4)

-- A test on byte offsets that is, left of `right` and above `bottom`, a test on coordinates.
module _ (width right bottom : ℕ) (hit : ℕ → Bool) (p : ℕ × ℕ → Bool)
    (agree : (x y : ℕ) → x < right → y < bottom → hit ((y * width + x) * 4) ≡ p (x, y)) where
  count_columns-count :
      (columns x y : ℕ)
      → x + columns ≤ right
      → y < bottom
      → count_columns columns hit ((y * width + x) * 4) ≡ count p (row_of columns x y)
  unfolding count_columns count row_of
  count_columns-count zero x y across down = refl
  count_columns-count (suc columns) x y across down =
      let here = agree x y (omega arith) down in
      let later =
        ap (count_columns columns hit) (next_pixel (y * width) x)
        ∙ count_columns-count columns (x + 1) y (omega arith) down in
      ground (arith, here, later)

  count_rows-count :
      (rows row x y columns : ℕ)
      → x + columns ≤ right
      → (y + row) + rows ≤ bottom
      → count_rows rows row x y columns (width * 4) hit ≡ count p (rows_of rows columns x (y + row))
  unfolding count_rows count rows_of
  count_rows-count zero row x y columns across down = refl
  count_rows-count (suc rows) row x y columns across down =
      let start = first_pixel (y + row) width x in
      let line =
        ap (count_columns columns hit) start
        ∙ count_columns-count columns x (y + row) across (omega arith) in
      let next : y + (row + 1) ≡ (y + row) + 1 = omega arith in
      let below =
        count_rows-count rows (row + 1) x y columns across (omega arith)
        ∙ ap (λ k. count p (rows_of rows columns x k)) next in
      omega (
        arith,
        line,
        below,
        count-append p (row_of columns x (y + row)) (rows_of rows columns x ((y + row) + 1)),
      )

length-row_of : (columns x y : ℕ) → length (row_of columns x y) ≡ columns
unfolding row_of
length-row_of zero x y = refl
length-row_of (suc columns) x y = omega (arith, length-row_of columns (x + 1) y)

length-rows_of : (rows columns x y : ℕ) → length (rows_of rows columns x y) ≡ columns * rows
unfolding rows_of
length-rows_of zero columns x y = omega arith
length-rows_of (suc rows) columns x y = omega (
  arith,
  length-append (row_of columns x y) (rows_of rows columns x (y + 1)),
  length-row_of columns x y,
  length-rows_of rows columns x (y + 1),
  mul-suc columns rows,
)

-- What pixelAt answers for a pixel, as a test; false where it throws.
abbrev test_pixel : (Rgb → Bool) → Outcome PixelError Rgb → Bool
test_pixel p (ok rgb) = p rgb
test_pixel p (throw e) = false

abbrev test_pair : (Rgb → Rgb → Bool) → Outcome PixelError Rgb → Outcome PixelError Rgb → Bool
test_pair p (ok a) (ok b) = p a b
test_pair p _ _ = false

abbrev pub pixel_of : Snapshot → ℕ × ℕ → Outcome PixelError Rgb
pixel_of frame (x, y) = pixel_at frame (whole (pos x)) (whole (pos y))

-- The pixel is within the tolerance of a color.
abbrev pub is_close : Snapshot → Rgb → ℕ → ℕ × ℕ → Bool
is_close frame rgb tolerance at =
    test_pixel (λ c. leb (color_distance c rgb) tolerance) (pixel_of frame at)

-- The pixel is not the same in the two frames.
abbrev pub has_changed : Snapshot → Snapshot → ℕ × ℕ → Bool
has_changed before frame at =
    test_pair (λ a b. not (color_distance a b == 0)) (pixel_of before at) (pixel_of frame at)

pub pixel_of-inside :
    (frame : Snapshot) (x y : ℕ)
    → x < frame.width
    → y < frame.height
    → pixel_of frame (x, y) ≡ ok (rgb_at frame.buffer ((y * frame.width + x) * 4))
unfolding pixel_at
pixel_of-inside frame x y across down =
    let inside : (leb frame.width x || leb frame.height y) ≡ false = ground arith in rw inside refl

-- What the loops count in an area inside the frame, by a test that agrees with one on coordinates.
counted :
    (frame : Snapshot) (area : Area) (hit : ℕ → Bool) (p : ℕ × ℕ → Bool)
    → ((x y : ℕ) → x < frame.width → y < frame.height → hit ((y * frame.width + x) * 4) ≡ p (x, y))
    → IsInside frame area
    → ◌≡◌ {A = ℕ × ℕ}
        (count_rows area.h 0 area.x area.y area.w (frame.width * 4) hit, area.w * area.h)
        (count p (pixels_of area), length (pixels_of area))
counted frame area hit p agree (wide, high, across, down) =
    let start : area.y + 0 ≡ area.y = omega arith in
    let hits =
      count_rows-count frame.width frame.width frame.height hit p agree area.h 0 area.x area.y
        area.w across (omega arith)
      ∙ ap (λ y. count p (rows_of area.h area.w area.x y)) start in
    let all_pixels = sym (length-rows_of area.h area.w area.x area.y) in
    ap {B = ℕ × ℕ} (λ k. (k, area.w * area.h)) hits
    ∙ ap {B = ℕ × ℕ} (λ k. (count p (pixels_of area), k)) all_pixels

bind-agree :
    {E A B : Type 0} (m : Outcome E A) (f g : A → Outcome E B)
    → ((a : A) → m ≡ ok a → f a ≡ g a)
    → (m >>= f) ≡ (m >>= g)
bind-agree (ok a) f g h = h a refl
bind-agree (throw e) f g h = refl

is_close-near :
    (frame : Snapshot) (rgb : Rgb) (tolerance x y : ℕ)
    → x < frame.width
    → y < frame.height
    → is_near tolerance (rgb_at frame.buffer ((y * frame.width + x) * 4)) rgb
      ≡ is_close frame rgb tolerance (x, y)
is_close-near frame rgb tolerance x y across down =
    is_near-distance tolerance (rgb_at frame.buffer ((y * frame.width + x) * 4)) rgb
    ∙ sym (
        ap (test_pixel (λ c. leb (color_distance c rgb) tolerance))
          (pixel_of-inside frame x y across down))

has_changed-differs :
    (before frame : Snapshot) (x y : ℕ)
    → before.width ≡ frame.width
    → before.height ≡ frame.height
    → x < frame.width
    → y < frame.height
    → differs
        (rgb_at before.buffer ((y * frame.width + x) * 4))
        (rgb_at frame.buffer ((y * frame.width + x) * 4))
      ≡ has_changed before frame (x, y)
has_changed-differs before frame x y same_width same_height across down =
    let earlier : pixel_of before (x, y) ≡ ok (rgb_at before.buffer ((y * frame.width + x) * 4)) =
      pixel_of-inside before x y (omega arith) (omega arith)
      ∙ ap (λ w. ok (rgb_at before.buffer ((y * w + x) * 4))) same_width in
    differs-distance (rgb_at before.buffer ((y * frame.width + x) * 4))
      (rgb_at frame.buffer ((y * frame.width + x) * 4))
    ∙ sym (
        ap (λ o. test_pair (λ a b. not (color_distance a b == 0)) o (pixel_of frame (x, y))) earlier
        ∙ ap
            (test_pair (λ a b. not (color_distance a b == 0))
              (ok (rgb_at before.buffer ((y * frame.width + x) * 4))))
            (pixel_of-inside frame x y across down))

-- The answer of colorRatio is that of counting, over the coordinates of the region pulled inside the
-- frame, the pixels that pixelAt reads and colorDistance finds within the tolerance of the color, out of
-- as many as the region has; it throws what reading the color, the threshold or the region throws.
pub color_ratio-count :
    (frame : Snapshot) (color : Color) (threshold : ℕ × ℕ) (region : Option Region)
    → color_ratio frame color threshold region ≡ (do
      rgb ← parse_color color
      tolerance ← tolerance_for threshold
      area ← clamp_region frame region
      ok (count (is_close frame rgb tolerance) (pixels_of area), length (pixels_of area)))
unfolding color_ratio
color_ratio-count frame color threshold region = bind-agree (parse_color color) _ _ λ rgb _.
    bind-agree (tolerance_for threshold) _ _ λ tolerance _.
      bind-agree (clamp_region frame region) _ _ λ area e. ap ok (
        counted frame area _ (is_close frame rgb tolerance) (is_close-near frame rgb tolerance)
          (clamp_region-IsInside frame region area e))

-- For frames of one size, the answer of changedFraction is that of counting, over the coordinates of the
-- region pulled inside the frame, the pixels that pixelAt reads with a colorDistance above 0 between the
-- frames, out of as many as the region has; it throws what reading the region throws.
pub changed_fraction-count :
    (before frame : Snapshot) (region : Option Region)
    → before.width ≡ frame.width
    → before.height ≡ frame.height
    → changed_fraction before frame region ≡ (do
      area ← clamp_region frame region
      ok (count (has_changed before frame) (pixels_of area), length (pixels_of area)))
unfolding changed_fraction
changed_fraction-count before frame region same_width same_height =
    let same : (not (before.width == frame.width) || not (before.height == frame.height)) ≡ false =
      ground arith in
    rw same (
      bind-agree (clamp_region frame region) _ _ λ area e. ap ok (
        counted frame area _ (has_changed before frame)
          (λ x y. has_changed-differs before frame x y same_width same_height)
          (clamp_region-IsInside frame region area e)))
