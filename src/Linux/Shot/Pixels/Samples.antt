-- ===== src/Linux/Shot/Pixels/Samples.antt =====
-- tools/linux/shinogi-shot.c: where each byte of the magnified rows comes from.
use shinogi.Base.{
  ℕ, zero, suc, ◌+◌, ◌*◌, ◌/◌, ◌%◌, ◌<◌, ◌≡◌, refl, ap, ◌∙◌, arith, [], ◌∷◌, ◌++◌, Bytes, length,
  get_or, length-append,
}
use shinogi.Linux.Shot.Pixels.{for_each, Region, pixel, scaled_row, scaled_rows, raw_stride}

-- Inside a loop whose every round writes `size` bytes.
module _ (size : ℕ) (body : ℕ → Bytes) (each : (i : ℕ) → length (body i) ≡ size) where
  length-for_each : (n i : ℕ) → length (for_each n i body) ≡ n * size
  unfolding for_each
  length-for_each zero i = omega arith
  length-for_each (suc n) i =
      grind
        (arith, length-append (body i) (for_each n (suc i) body), each i, length-for_each n (suc i))

suc_add : (m n : ℕ) → suc m + n ≡ suc (m + n)
suc_add m n = omega arith

get_or-append_left : (xs ys : Bytes) (j : ℕ) → j < length xs → get_or (xs ++ ys) j 0 ≡ get_or xs j 0
get_or-append_left [] ys j h = absurd (omega (arith, h))
get_or-append_left (x ∷ xs) ys zero h = refl
get_or-append_left (x ∷ xs) ys (suc j) h = get_or-append_left xs ys j (omega (arith, h))

get_or-append_right : (xs ys : Bytes) (j : ℕ) → get_or (xs ++ ys) (length xs + j) 0 ≡ get_or ys j 0
get_or-append_right [] ys j = ap (λ k. get_or ys k 0) (omega arith)
get_or-append_right (x ∷ xs) ys j =
    ap (λ k. get_or (x ∷ (xs ++ ys)) k 0) (suc_add (length xs) j) ∙ get_or-append_right xs ys j

module _ (size : ℕ) (body : ℕ → Bytes) (each : (i : ℕ) → length (body i) ≡ size) where
  -- Byte `k` of round `j`.
  get_or-for_each :
      (n i j k : ℕ)
      → j < n
      → k < size
      → get_or (for_each n i body) (j * size + k) 0 ≡ get_or (body (i + j)) k 0
  unfolding for_each
  get_or-for_each zero i j k h l = absurd (omega (arith, h))
  get_or-for_each (suc n) i zero k h l =
      let rest = for_each n (suc i) body in
      let at : 0 * size + k ≡ k = grind arith in
      rw at (
        get_or-append_left (body i) rest k (omega (arith, each i))
        ∙ ap (λ m. get_or (body m) k 0) (omega arith))
  get_or-for_each (suc n) i (suc j) k h l =
      let rest = for_each n (suc i) body in
      let at : suc j * size + k ≡ length (body i) + (j * size + k) = grind (arith, each i) in
      rw at (
        get_or-append_right (body i) rest (j * size + k)
        ∙ get_or-for_each n (suc i) j k (omega (arith, h)) l
        ∙ ap (λ m. get_or (body m) k 0) (omega arith))

div_parts : (x s : ℕ) → 0 < s → x ≡ x / s * s + x % s
div_parts x s h = grind arith

mod_small : (x s : ℕ) → 0 < s → x % s < s
mod_small x s h = grind arith

div_small : (x s c : ℕ) → 0 < s → x < c * s → x / s < c
div_small x s c h l = grind (arith, div_parts x s h)

-- Byte `k` of the copy of a pixel that column `x` holds, in the order in which they are written.
column : (x s k : ℕ) → 0 < s → x * 3 + k ≡ x / s * (s * 3) + (x % s * 3 + k)
column x s k h = grind (arith, div_parts x s h)

column_small : (x s k : ℕ) → 0 < s → k < 3 → x % s * 3 + k < s * 3
column_small x s k h l = omega (arith, mod_small x s h)

pixel_sample :
    (w : ℕ) (pix : Bytes) (x y k : ℕ)
    → k < 3
    → get_or (pixel w pix x y) k 0 ≡ get_or pix ((y * w + x) * 3 + k) 0
unfolding pixel
pixel_sample w pix x y zero h = ap (λ m. get_or pix m 0) (omega arith)
pixel_sample w pix x y (suc zero) h = refl
pixel_sample w pix x y (suc (suc zero)) h = refl
pixel_sample w pix x y (suc (suc (suc k))) h = absurd (omega (arith, h))

length-pixel : (w : ℕ) (pix : Bytes) (x y : ℕ) → length (pixel w pix x y) ≡ 3
unfolding pixel
length-pixel w pix x y = refl

module _ (w : ℕ) (pix : Bytes) (r : Region) (scale : ℕ) where
  length-copies :
      (x y : ℕ)
      → length (for_each scale 0 λ _. pixel w pix (r.cx + x) (r.cy + y / scale)) ≡ scale * 3
  length-copies x y =
      length-for_each 3 (λ _. pixel w pix (r.cx + x) (r.cy + y / scale))
        (λ _. length-pixel w pix (r.cx + x) (r.cy + y / scale)) scale 0

  pub length-scaled_row : (y : ℕ) → length (scaled_row w pix r scale y) ≡ raw_stride r scale
  unfolding scaled_row raw_stride
  length-scaled_row y = grind (
    arith,
    length-for_each (scale * 3)
        (λ x. for_each scale 0 λ _. pixel w pix (r.cx + x) (r.cy + y / scale))
        (λ x. length-copies x y) r.cw 0,
  )

  pub length-scaled_rows : length (scaled_rows w pix r scale) ≡ r.ch * scale * raw_stride r scale
  unfolding scaled_rows
  length-scaled_rows =
      length-for_each (raw_stride r scale) (scaled_row w pix r scale) length-scaled_row
        (r.ch * scale) 0

  in_row : (x k : ℕ) → x < r.cw * scale → k < 3 → 1 + (x * 3 + k) < raw_stride r scale
  unfolding raw_stride
  in_row x k h l = grind arith

  row_sample :
      (x y k : ℕ)
      → 0 < scale
      → x < r.cw * scale
      → k < 3
      → get_or (scaled_row w pix r scale y) (1 + (x * 3 + k)) 0
        ≡ get_or pix (((r.cy + y / scale) * w + (r.cx + x / scale)) * 3 + k) 0
  unfolding scaled_row
  row_sample x y k pos hx hk =
      let copies = λ (x : ℕ). for_each scale 0 λ _. pixel w pix (r.cx + x) (r.cy + y / scale) in
      let one : 1 + (x * 3 + k) ≡ suc (x / scale * (scale * 3) + (x % scale * 3 + k)) =
        omega (arith, column x scale k pos) in
      rw one (
        get_or-for_each (scale * 3) copies (λ x. length-copies x y) r.cw 0 (x / scale)
          (x % scale * 3 + k) (div_small x scale r.cw pos hx) (column_small x scale k pos hk)
        ∙ ap (λ m. get_or (copies m) (x % scale * 3 + k) 0) (omega arith)
        ∙ get_or-for_each 3 (λ _. pixel w pix (r.cx + x / scale) (r.cy + y / scale))
            (λ _. length-pixel w pix (r.cx + x / scale) (r.cy + y / scale)) scale 0 (x % scale) k
            (mod_small x scale pos) hk
        ∙ pixel_sample w pix (r.cx + x / scale) (r.cy + y / scale) k hk)

  -- Byte `k` of the pixel in column `x` and row `y` of the magnified picture is that of the pixel
  -- in column `cx + x / scale` and row `cy + y / scale` of the screen: no colour is made up.
  pub scaled_rows_sample :
      (x y k : ℕ)
      → 0 < scale
      → x < r.cw * scale
      → y < r.ch * scale
      → k < 3
      → get_or (scaled_rows w pix r scale) (y * raw_stride r scale + (1 + (x * 3 + k))) 0
        ≡ get_or pix (((r.cy + y / scale) * w + (r.cx + x / scale)) * 3 + k) 0
  unfolding scaled_rows
  scaled_rows_sample x y k pos hx hy hk =
      get_or-for_each (raw_stride r scale) (scaled_row w pix r scale) length-scaled_row
        (r.ch * scale) 0 y (1 + (x * 3 + k)) hy (in_row x k hx hk)
      ∙ ap (λ m. get_or (scaled_row w pix r scale m) (1 + (x * 3 + k)) 0) (omega arith)
      ∙ row_sample x y k pos hx hk
