-- ===== src/Console/Pixels/Match.antt =====
-- src/console/match.ts: whether a screen shows what a caller waits for.
use pve_agent.Base.{
  leb, if◌then◌else◌, any, all, ◌>>=◌, traverse, Outcome, ok, ℕ, ◌*◌, Bool, Option, none, some,
  List,
}
use pve_agent.Console.Pixels.{
  Snapshot, Region, Rgb, Color, PixelError, Coordinate, pixel_at, tolerance_for, color_distance,
  parse_color, color_ratio, changed_fraction,
}

pub data ScreenMatcher : Type 0 where
  pixel : (x y : Coordinate) → Color → Option (ℕ × ℕ) → ScreenMatcher
  color : Color → (threshold area : Option (ℕ × ℕ)) → Option Region → ScreenMatcher
  changed : Snapshot → Option (ℕ × ℕ) → Option Region → ScreenMatcher

pub data MatcherResult : Type 0 where
  pixel_result : Bool → Rgb → MatcherResult
  fraction_result : Bool → ℕ × ℕ → MatcherResult

abbrev pub is_matched : MatcherResult → Bool
is_matched (pixel_result matched rgb) = matched
is_matched (fraction_result matched fraction) = matched

-- `value ?? default`.
abbrev or_else {ℓ} : {A : Type ℓ} → Option A → A → A
or_else none d = d
or_else (some a) d = a

-- The double 0.9.
abbrev default_threshold : ℕ × ℕ
default_threshold = (8106479329266893, 9007199254740992)

abbrev default_color_area : ℕ × ℕ
default_color_area = (1, 2)

abbrev default_changed_area : ℕ × ℕ
default_changed_area = (1, 1000)

-- `a / b >= c / d`.
abbrev pub at_least : ℕ × ℕ → ℕ × ℕ → Bool
at_least (a, b) (c, d) = leb (c * b) (a * d)

unfoldable pub run_matcher : Snapshot → ScreenMatcher → Outcome PixelError MatcherResult
run_matcher frame (pixel x y c threshold) = do
  rgb ← pixel_at frame x y
  tolerance ← tolerance_for (or_else threshold default_threshold)
  target ← parse_color c
  ok (pixel_result (leb (color_distance rgb target) tolerance) rgb)
run_matcher frame (color c threshold area region) = do
  fraction ← color_ratio frame c (or_else threshold default_threshold) region
  ok (fraction_result (at_least fraction (or_else area default_color_area)) fraction)
run_matcher frame (changed since area region) = do
  fraction ← changed_fraction since frame region
  ok (fraction_result (at_least fraction (or_else area default_changed_area)) fraction)

-- The verdict, and one result for each matcher; the flag is `match === 'any'`.
unfoldable pub match_screen :
    Snapshot → List ScreenMatcher → Bool → Outcome PixelError (Bool × List MatcherResult)
unfolding run_matcher
match_screen frame matchers any_of = do
  results ← traverse (run_matcher frame) matchers
  ok (if any_of then any is_matched results else all is_matched results, results)
