-- ===== src/Console/Pixels/Bounds.antt =====
-- src/console/framebuffer.ts: the sizes of regions and crops.
use pve_agent.Base.{
  ◌==◌, Bool-cases, length, length-replicate, map_ok, Outcome, ok, throw, Buffer, ℕ, zero, suc, ◌+◌,
  ◌-◌, ◌*◌, ◌≤◌, ◌<◌, ◌≡◌, refl, sym, ap, ◌∙◌, subst, inl, inr, ◌||◌, Option, none, some, arith,
}
use pve_agent.Console.Pixels.{
  Snapshot, ℤ, pos, negsuc, Region, Area, clamp_region, clamp_given, clamp_origin, clamp_extent,
  crop_rows, crop_area, crop_frame,
}
use native.Mathlib.Nat.{mul_assoc, mul_comm}
use pve_agent.Console.Vnc.Sizes.{length-blit}

-- The area is not empty and lies inside the frame.
abbrev pub IsInside : Snapshot → Area → Type 0
IsInside frame area =
    (0 < area.w) × (0 < area.h) × (area.x + area.w ≤ frame.width) × (area.y + area.h ≤ frame.height)

clamp_origin-below : (size : ℕ) (k : ℤ) → 0 < size → clamp_origin size k < size
clamp_origin-below size (pos k) h = omega arith
clamp_origin-below size (negsuc k) h = h

clamp_extent-fits :
    (room : ℕ) (k : ℤ) → 0 < room → (0 < clamp_extent room k) × (clamp_extent room k ≤ room)
clamp_extent-fits room (pos k) h = (omega arith, omega arith)
clamp_extent-fits room (negsuc k) h = (omega arith, h)

clamp_given-IsInside :
    (frame : Snapshot) (region : Option Region)
    → 0 < frame.width
    → 0 < frame.height
    → IsInside frame (clamp_given frame region)
unfolding clamp_given
clamp_given-IsInside frame none w h = (w, h, omega arith, omega arith)
clamp_given-IsInside frame (some region) w h =
    let x = clamp_origin frame.width region.x in
    let y = clamp_origin frame.height region.y in
    let left = clamp_origin-below frame.width region.x w in
    let above = clamp_origin-below frame.height region.y h in
    let across = clamp_extent-fits (frame.width - x) region.w (omega arith) in
    let down = clamp_extent-fits (frame.height - y) region.h (omega arith) in
    (across.0, down.0, omega arith, omega arith)

abbrev IfOk : {E A : Type 0} → (A → Type 0) → Outcome E A → Type 0
IfOk P (ok a) = P a
IfOk P (throw e) = Unit

clamp_region-IfOk :
    (frame : Snapshot) (region : Option Region) → IfOk (IsInside frame) (clamp_region frame region)
unfolding clamp_region
clamp_region-IfOk frame region = elim (Bool-cases (frame.width == 0 || frame.height == 0)) [
  | inl empty ↦ simp (empty, clamp_region) tt
  | inr there ↦
      simp (there, clamp_region) (clamp_given-IsInside frame region (ground arith) (ground arith))
]

-- Whatever region is asked for, what a clamped region covers is not empty and lies inside the frame.
pub clamp_region-IsInside :
    (frame : Snapshot) (region : Option Region) (area : Area)
    → clamp_region frame region ≡ ok area
    → IsInside frame area
clamp_region-IsInside frame region area e =
    subst (IfOk (IsInside frame)) e (clamp_region-IfOk frame region)

length-crop_rows :
    (rows row x y src_stride row_bytes : ℕ) (source buffer : Buffer)
    → length (crop_rows rows row x y src_stride row_bytes source buffer) ≡ length buffer
unfolding crop_rows
length-crop_rows zero row x y src_stride row_bytes source buffer = refl
length-crop_rows (suc rows) row x y src_stride row_bytes source buffer =
    length-crop_rows rows (row + 1) x y src_stride row_bytes source _ ∙ length-blit buffer _ _

map_ok-IfOk :
    {E A B : Type 0} (P : B → Type 0) (f : A → B) (m : Outcome E A)
    → ((a : A) → m ≡ ok a → P (f a))
    → IfOk P (map_ok f m)
map_ok-IfOk P f (ok a) h = h a refl
map_ok-IfOk P f (throw e) h = tt

crop_area-length :
    (frame : Snapshot) (area : Area)
    → length (crop_area frame area).buffer
      ≡ (crop_area frame area).width * (crop_area frame area).height * 4
unfolding crop_area
crop_area-length frame area =
    length-crop_rows area.h 0 area.x area.y (frame.width * 4) (area.w * 4) frame.buffer _
    ∙ length-replicate (area.h * (area.w * 4)) 0
    ∙ sym (mul_assoc area.h area.w 4)
    ∙ ap (λ k. k * 4) (mul_comm area.h area.w)

-- A part cut from a frame has four bytes for each of its pixels, is not empty, and is no wider and no
-- higher than the frame.
pub crop_frame-whole :
    (frame : Snapshot) (region : Region) (cropped : Snapshot)
    → crop_frame frame region ≡ ok cropped
    → (length cropped.buffer ≡ cropped.width * cropped.height * 4)
      × (0 < cropped.width)
      × (0 < cropped.height)
      × (cropped.width ≤ frame.width)
      × (cropped.height ≤ frame.height)
unfolding crop_frame crop_area
crop_frame-whole frame region cropped e =
    subst
      (IfOk λ cropped.
        (length cropped.buffer ≡ cropped.width * cropped.height * 4)
        × (0 < cropped.width)
        × (0 < cropped.height)
        × (cropped.width ≤ frame.width)
        × (cropped.height ≤ frame.height))
      e
      (map_ok-IfOk _ (crop_area frame) (clamp_region frame (some region)) λ area found.
        let inside = clamp_region-IsInside frame (some region) area found in
        (crop_area-length frame area, inside.0, inside.1, omega arith, omega arith))
