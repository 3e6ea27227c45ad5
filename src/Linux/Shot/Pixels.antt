-- ===== src/Linux/Shot/Pixels.antt =====
-- tools/linux/shinogi-shot.c: the rows of the magnified picture, and the region they are cut from.
pub mod Samples
use shinogi.Base.{
  ℕ, zero, suc, ◌+◌, ◌-◌, ◌*◌, ◌/◌, ◌%◌, ◌≤◌, ◌<◌, Bool, List, [], ◌∷◌, ◌++◌, Bytes, get_or, ltb,
  leb, ◌==◌, if◌then◌else◌,
}

-- What `rounds` rounds of a loop write, the first with counter `i`.
unfoldable pub for_each : ℕ → ℕ → (ℕ → Bytes) → Bytes
for_each zero i body = []
for_each (suc rounds) i body = body i ++ for_each rounds (suc i) body

-- A region of a picture.
pub record Region : Type 0 where
  pub cx : ℕ
  pub cy : ℕ
  pub cw : ℕ
  pub ch : ℕ

-- The three bytes of pixel `(x, y)`, of a picture that is `w` wide.
unfoldable pub pixel : ℕ → Bytes → ℕ → ℕ → Bytes
pixel w pix x y =
    get_or pix ((y * w + x) * 3) 0
    ∷ get_or pix ((y * w + x) * 3 + 1) 0
    ∷ get_or pix ((y * w + x) * 3 + 2) 0
    ∷ []

-- Row `y` of the magnified region: the filter byte and each pixel `scale` times.
unfoldable pub scaled_row : ℕ → Bytes → Region → ℕ → ℕ → Bytes
scaled_row w pix r scale y =
    0 ∷ for_each r.cw 0 λ x. for_each scale 0 λ _. pixel w pix (r.cx + x) (r.cy + y / scale)

unfoldable pub scaled_rows : ℕ → Bytes → Region → ℕ → Bytes
scaled_rows w pix r scale = for_each (r.ch * scale) 0 (scaled_row w pix r scale)

unfoldable pub raw_stride : Region → ℕ → ℕ
raw_stride r scale = 1 + r.cw * 3 * scale
