-- ===== src/Console/Pixels/Rows.antt =====
-- src/console/framebuffer.ts, cropFrame: the bytes that its loop copies.
use pve_agent.Base.{
  length, take, drop, length-take, length-drop, Buffer, read_u8, get_or, get_or-append, ℕ, zero,
  suc, ◌+◌, ◌-◌, ◌*◌, ◌≤◌, ◌<◌, ◌≡◌, refl, sym, ap, ◌⊎◌, inl, inr, ◌∙◌, subst, [], ◌∷◌, ◌++◌, arith,
}
use pve_agent.Console.Vnc.Surface.{blit}
use pve_agent.Console.Vnc.Sizes.{length-blit}
use pve_agent.Console.Pixels.{crop_rows}
use pve_agent.Console.Pixels.Bounds.{}
use pve_agent.Console.Pixels.Counting.{}
use native.Mathlib.Nat.{suc-mul, add-mul}

get_or-take : (n i d : ℕ) (xs : Buffer) → i < n → get_or (take n xs) i d ≡ get_or xs i d
get_or-take zero i d xs h = absurd (omega arith)
get_or-take (suc n) i d [] h = refl
get_or-take (suc n) zero d (x ∷ xs) h = refl
get_or-take (suc n) (suc i) d (x ∷ xs) h = get_or-take n i d xs (omega arith)

get_or-drop : (n i d : ℕ) (xs : Buffer) → get_or (drop n xs) i d ≡ get_or xs (n + i) d
get_or-drop zero i d xs = ap (λ k. get_or xs k d) (omega arith)
get_or-drop (suc n) i d [] = refl
get_or-drop (suc n) i d (x ∷ xs) =
    let next : suc n + i ≡ suc (n + i) = omega arith in
    get_or-drop n i d xs ∙ ap (λ k. get_or (x ∷ xs) k d) (sym next)

get_or-behind : (xs ys : Buffer) (i d : ℕ) → get_or (xs ++ ys) (length xs + i) d ≡ get_or ys i d
get_or-behind [] ys i d = ap (λ k. get_or ys k d) (omega arith)
get_or-behind (x ∷ xs) ys i d =
    let next : length (x ∷ xs) + i ≡ suc (length xs + i) = omega arith in
    ap (λ k. get_or (x ∷ (xs ++ ys)) k d) next ∙ get_or-behind xs ys i d

blit-before :
    (target bytes : Buffer) (at i : ℕ)
    → i < at
    → at ≤ length target
    → read_u8 (blit target at bytes) i ≡ read_u8 target i
unfolding read_u8 blit
blit-before target bytes at i h fits =
    get_or-append (take at target) _ i 0 (omega (arith, length-take at target))
    ∙ get_or-take at i 0 target h

blit-inside :
    (target bytes : Buffer) (at k : ℕ)
    → k < length bytes
    → at + length bytes ≤ length target
    → read_u8 (blit target at bytes) (at + k) ≡ read_u8 bytes k
unfolding read_u8 blit
blit-inside target bytes at k h fits =
    let held : length (take at target) ≡ at = omega (arith, length-take at target) in
    let room = length target - at in
    let copied = take room bytes in
    let rest = drop (at + length bytes) target in
    ap (λ n. get_or (take at target ++ (copied ++ rest)) (n + k) 0) (sym held)
    ∙ get_or-behind (take at target) (copied ++ rest) k 0
    ∙ get_or-append copied rest k 0 (omega (arith, length-take room bytes))
    ∙ get_or-take room k 0 bytes (omega arith)

row_cases : (row r : ℕ) → row ≤ r → (row < r) ⊎ (row ≡ r)
row_cases row r h = omega arith

pub later_rows :
    (row rows n : ℕ)
    → ((row + suc rows) * n ≡ ((row + 1) + rows) * n)
      × ((row + suc rows) * n ≡ (row * n + n) + rows * n)
      × ((row + 1) * n ≡ row * n + n)
later_rows row rows n =
    let same : row + suc rows ≡ (row + 1) + rows = omega arith in
    (
      ap (λ k. k * n) same,
      ap (λ k. k * n) same ∙ add-mul (row + 1) rows n ∙ ap (λ k. k + rows * n) (next row),
      next row,
    )
  where
    next : (row : ℕ) → (row + 1) * n ≡ row * n + n
    next row = let up : row + 1 ≡ suc row = omega arith in ap (λ k. k * n) up ∙ suc-mul row n

module _ (x y stride row_bytes : ℕ) (source : Buffer) where
  abbrev row_at : ℕ → Buffer
  row_at row = take row_bytes (drop ((y + row) * stride + x * 4) source)

  crop_rows-before :
      (rows row i : ℕ) (buffer : Buffer)
      → i < row * row_bytes
      → (row + rows) * row_bytes ≤ length buffer
      → read_u8 (crop_rows rows row x y stride row_bytes source buffer) i ≡ read_u8 buffer i
  unfolding crop_rows
  crop_rows-before zero row i buffer h fits = refl
  crop_rows-before (suc rows) row i buffer h fits =
      let (shift, split, next) = later_rows row rows row_bytes in
      let written = blit buffer (row * row_bytes) (row_at row) in
      let same_size = length-blit buffer (row * row_bytes) (row_at row) in
      crop_rows-before rows (row + 1) i written (omega (arith, next))
        (omega (arith, shift, same_size))
      ∙ blit-before buffer (row_at row) (row * row_bytes) i h (omega (arith, split))

  length-row_at :
      (row : ℕ)
      → ((y + row) * stride + x * 4) + row_bytes ≤ length source
      → length (row_at row) ≡ row_bytes
  length-row_at row whole = omega (
    arith,
    length-take row_bytes (drop ((y + row) * stride + x * 4) source),
    length-drop ((y + row) * stride + x * 4) source,
  )

  crop_rows-first :
      (rows row k : ℕ) (buffer : Buffer)
      → k < row_bytes
      → (row + suc rows) * row_bytes ≤ length buffer
      → ((y + row) * stride + x * 4) + row_bytes ≤ length source
      → read_u8 (crop_rows (suc rows) row x y stride row_bytes source buffer) (row * row_bytes + k)
        ≡ read_u8 source (((y + row) * stride + x * 4) + k)
  unfolding crop_rows read_u8
  crop_rows-first rows row k buffer inner fits whole =
      let (shift, split, next) = later_rows row rows row_bytes in
      let start = (y + row) * stride + x * 4 in
      let full = length-row_at row whole in
      let written = blit buffer (row * row_bytes) (row_at row) in
      let same_size = length-blit buffer (row * row_bytes) (row_at row) in
      crop_rows-before rows (row + 1) (row * row_bytes + k) written (omega (arith, next))
        (omega (arith, shift, same_size))
      ∙ blit-inside buffer (row_at row) (row * row_bytes) k (omega (arith, full))
          (omega (arith, full, split))
      ∙ get_or-take row_bytes k 0 (drop start source) inner
      ∙ get_or-drop start k 0 source

  -- A byte of a row that is still to be copied, once it is.
  pub crop_rows-inside :
      (rows row r k : ℕ) (buffer : Buffer)
      → row ≤ r
      → r < row + rows
      → k < row_bytes
      → (row + rows) * row_bytes ≤ length buffer
      → ((y + r) * stride + x * 4) + row_bytes ≤ length source
      → read_u8 (crop_rows rows row x y stride row_bytes source buffer) (r * row_bytes + k)
        ≡ read_u8 source (((y + r) * stride + x * 4) + k)
  unfolding crop_rows
  crop_rows-inside zero row r k buffer from to inner fits whole = absurd (omega arith)
  crop_rows-inside (suc rows) row r k buffer from to inner fits whole =
      elim (row_cases row r from) [
        | inl later ↦
            let (shift, split, next) = later_rows row rows row_bytes in
            let same_size = length-blit buffer (row * row_bytes) (row_at row) in
            crop_rows-inside rows (row + 1) r k (blit buffer (row * row_bytes) (row_at row))
              (omega arith) (omega arith) inner (omega (arith, shift, same_size)) whole
        | inr same ↦
            subst
              (λ q.
                ((y + q) * stride + x * 4) + row_bytes ≤ length source
                → read_u8 (crop_rows (suc rows) row x y stride row_bytes source buffer)
                    (q * row_bytes + k)
                  ≡ read_u8 source (((y + q) * stride + x * 4) + k))
              same (crop_rows-first rows row k buffer inner fits) whole
      ]
