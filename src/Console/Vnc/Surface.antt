-- ===== src/Console/Vnc/Surface.antt =====
-- src/console/vnc.ts, class Framebuffer: the guest's screen, four bytes to a pixel.
use pve_agent.Base.{
  ltb, ◌==◌, if◌then◌else◌, length, take, drop, replicate, Buffer, ℕ, zero, suc, ◌+◌, ◌-◌, ◌*◌,
  Bool, ◌&&◌, ◌||◌, ◌++◌,
}

pub record Framebuffer : Type 0 where
  pub width : ℕ
  pub height : ℕ
  pub buffer : Buffer
  pub update_seq : ℕ

-- `data.copy(target, at)`: what does not fit is not written.
unfoldable pub blit : Buffer → ℕ → Buffer → Buffer
blit target at bytes =
    take at target ++ (take (length target - at) bytes ++ drop (at + length bytes) target)

unfoldable pub new_framebuffer : ℕ → ℕ → Framebuffer
new_framebuffer width height = record {
  width = width;
  height = height;
  buffer = replicate (width * height * 4) 0;
  update_seq = 0;
}

-- The loop of applyRaw: `rows` rows are left, and the next is `row`.
unfoldable pub raw_rows : ℕ → ℕ → (stride x y w : ℕ) → Buffer → Buffer → Buffer
raw_rows zero row stride x y w bytes buffer = buffer
raw_rows (suc rows) row stride x y w bytes buffer =
    raw_rows rows (row + 1) stride x y w bytes
      (blit buffer ((y + row) * stride + x * 4) (take (w * 4) (drop (row * w * 4) bytes)))

unfoldable pub apply_raw : Framebuffer → (x y w h : ℕ) → Buffer → Framebuffer
unfolding raw_rows blit
apply_raw fb x y w h bytes = record fb {
  buffer = raw_rows h 0 (fb.width * 4) x y w bytes fb.buffer;
  update_seq = fb.update_seq + 1;
}

-- The copy of one row inside the frame; `Buffer.copy` moves overlapping bytes correctly.
unfoldable pub copy_row : (stride dst_x dst_y w src_x src_y row : ℕ) → Buffer → Buffer
copy_row stride dst_x dst_y w src_x src_y row buffer =
    blit buffer ((dst_y + row) * stride + dst_x * 4)
      (take (w * 4) (drop ((src_y + row) * stride + src_x * 4) buffer))

-- The loop of applyCopyRect over `i`, with `left` rows to go.
unfoldable pub copy_rows : ℕ → ℕ → Bool → (h stride dst_x dst_y w src_x src_y : ℕ) → Buffer → Buffer
copy_rows zero i bottom_up h stride dst_x dst_y w src_x src_y buffer = buffer
copy_rows (suc left) i bottom_up h stride dst_x dst_y w src_x src_y buffer =
    copy_rows left (i + 1) bottom_up h stride dst_x dst_y w src_x src_y
      (copy_row stride dst_x dst_y w src_x src_y (if bottom_up then h - 1 - i else i) buffer)

unfoldable pub apply_copy_rect : Framebuffer → (dst_x dst_y w h src_x src_y : ℕ) → Framebuffer
unfolding copy_rows copy_row blit
apply_copy_rect fb dst_x dst_y w h src_x src_y =
    let bottom_up = ltb src_y dst_y || (src_y == dst_y && ltb src_x dst_x) in
    record fb {
      buffer = copy_rows h 0 bottom_up h (fb.width * 4) dst_x dst_y w src_x src_y fb.buffer;
      update_seq = fb.update_seq + 1;
    }

unfoldable pub resize_surface : Framebuffer → ℕ → ℕ → Framebuffer
resize_surface fb width height = record {
  width = width;
  height = height;
  buffer = replicate (width * height * 4) 0;
  update_seq = fb.update_seq + 1;
}
