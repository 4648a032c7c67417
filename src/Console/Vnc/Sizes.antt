-- ===== src/Console/Vnc/Sizes.antt =====
-- src/console/vnc.ts, class Framebuffer: the length of its buffer.
use pve_agent.Base.{
  length, take, drop, length-append, length-take, length-drop, length-replicate, Buffer, ℕ, zero,
  suc, ◌+◌, ◌-◌, ◌*◌, ◌≡◌, refl, ◌∙◌, Bool, ◌++◌, arith,
}
use pve_agent.Console.Vnc.Surface.{
  Framebuffer, blit, raw_rows, copy_rows, copy_row, new_framebuffer, apply_raw, apply_copy_rect,
}

pub length-blit :
    (target : Buffer) (at : ℕ) (bytes : Buffer) → length (blit target at bytes) ≡ length target
unfolding blit
length-blit target at bytes = omega (
  arith,
  length-append (take at target)
      (take (length target - at) bytes ++ drop (at + length bytes) target),
  length-append (take (length target - at) bytes) (drop (at + length bytes) target),
  length-take at target,
  length-take (length target - at) bytes,
  length-drop (at + length bytes) target,
)

length-raw_rows :
    (rows row stride x y w : ℕ) (bytes buffer : Buffer)
    → length (raw_rows rows row stride x y w bytes buffer) ≡ length buffer
unfolding raw_rows
length-raw_rows zero row stride x y w bytes buffer = refl
length-raw_rows (suc rows) row stride x y w bytes buffer =
    length-raw_rows rows (row + 1) stride x y w bytes _ ∙ length-blit buffer _ _

length-copy_rows :
    (left i : ℕ) (bottom_up : Bool) (h stride dst_x dst_y w src_x src_y : ℕ) (buffer : Buffer)
    → length (copy_rows left i bottom_up h stride dst_x dst_y w src_x src_y buffer) ≡ length buffer
unfolding copy_rows copy_row
length-copy_rows zero i bottom_up h stride dst_x dst_y w src_x src_y buffer = refl
length-copy_rows (suc left) i bottom_up h stride dst_x dst_y w src_x src_y buffer =
    length-copy_rows left (i + 1) bottom_up h stride dst_x dst_y w src_x src_y _
    ∙ length-blit buffer _ _

-- A frame has four bytes for each of its pixels.
abbrev pub IsSized : Framebuffer → Type 0
IsSized fb = length fb.buffer ≡ fb.width * fb.height * 4

pub new_framebuffer-IsSized : (width height : ℕ) → IsSized (new_framebuffer width height)
unfolding new_framebuffer
new_framebuffer-IsSized width height = length-replicate (width * height * 4) 0

pub apply_raw-IsSized :
    (fb : Framebuffer) (x y w h : ℕ) (bytes : Buffer)
    → IsSized fb
    → IsSized (apply_raw fb x y w h bytes)
unfolding apply_raw
apply_raw-IsSized fb x y w h bytes sized =
    length-raw_rows h 0 (fb.width * 4) x y w bytes fb.buffer ∙ sized

pub apply_copy_rect-IsSized :
    (fb : Framebuffer) (dst_x dst_y w h src_x src_y : ℕ)
    → IsSized fb
    → IsSized (apply_copy_rect fb dst_x dst_y w h src_x src_y)
unfolding apply_copy_rect
apply_copy_rect-IsSized fb dst_x dst_y w h src_x src_y sized =
    length-copy_rows h 0 _ h (fb.width * 4) dst_x dst_y w src_x src_y fb.buffer ∙ sized
