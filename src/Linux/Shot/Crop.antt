-- ===== src/Linux/Shot/Crop.antt =====
-- tools/linux/shinogi-shot.c: the options of the command line, and the region that they ask for.
pub mod Bounded
use shinogi.Base.{
  ℕ, ◌+◌, ◌-◌, Bool, false, ◌&&◌, ◌||◌, List, [], ◌∷◌, Option, none, some, Bytes, codes, equal, ltb,
  leb, ◌==◌, if◌then◌else◌,
}
use shinogi.Base.Int.{ℤ, pos, negsuc, pos_part, signed, int_limit}
use shinogi.Win.Resolution.{strtol}
use shinogi.Linux.Shot.Pixels.{Region}

pub record Options : Type 0 where
  pub x : ℤ
  pub y : ℤ
  pub w : ℤ
  pub h : ℤ
  pub scale : ℕ

-- `%d`: the number in front and the text behind it.
unfoldable pub scan_int : Bytes → Option (ℤ × Bytes)
scan_int text = elim (strtol text) [
  | none ↦ none
  | some (minus, n, rest) ↦ some (signed minus n, rest)
]

-- `,%d`
unfoldable pub scan_next : Bytes → Option (ℤ × Bytes)
scan_next [] = none
scan_next (c ∷ text) = if c == b',' then scan_int text else none

-- `sscanf(text, "%d,%d,%d,%d", ...) == 4`
unfoldable pub scan_crop : ℕ → Bytes → Option Options
scan_crop scale text = elim (scan_int text) [
  | none ↦ none
  | some (x, text1) ↦ elim (scan_next text1) [
    | none ↦ none
    | some (y, text2) ↦ elim (scan_next text2) [
      | none ↦ none
      | some (w, text3) ↦ elim (scan_next text3) [
        | none ↦ none
        | some (h, _) ↦ some (record { x = x; y = y; w = w; h = h; scale = scale })
      ]
    ]
  ]
]

-- `atoi`
unfoldable pub atoi : Bytes → ℤ
atoi text = elim (scan_int text) [ none ↦ pos 0 | some (n, _) ↦ n ]

-- One option with its value.
unfoldable pub take_option : Bytes → Bytes → Options → Option Options
take_option name value o =
    if equal name (codes "--crop")
    then scan_crop o.scale value
    else if equal name (codes "--scale")
    then (let n = pos_part (atoi value) in
        if ltb n 1 || ltb 16 n then none else some (record o { scale = n }))
    else none

-- The arguments behind the two files; `none` where the program shows its usage.
unfoldable pub take_options : List Bytes → Options → Option Options
take_options [] o = some o
take_options (name ∷ []) o = none
take_options (name ∷ value ∷ args) o = elim (take_option name value o) [
  | none ↦ none
  | some o' ↦ take_options args o'
]

abbrev pub no_options : Options
no_options = record { x = pos 0; y = pos 0; w = pos 0; h = pos 0; scale = 1 }

-- `if (cx < 0) cx = 0; if (cx >= w) cx = w - 1;`
unfoldable pub clamp_start : ℤ → ℕ → ℕ
clamp_start cx w = if leb w (pos_part cx) then w - 1 else pos_part cx

-- `if (cx + cw > w) cw = w - cx;`, and 0 for a number below 0, which is refused like 0. `none`
-- where the sum runs over an `int`.
unfoldable pub clamp_size : ℕ → ℤ → ℕ → Option ℕ
clamp_size cx (negsuc n) w = some 0
clamp_size cx (pos cw) w =
    if leb int_limit (cx + cw) then none else if ltb w (cx + cw) then some (w - cx) else some cw

-- `cw == 0 && ch == 0`
unfoldable pub whole_screen : ℤ → ℤ → Bool
whole_screen (pos cw) (pos ch) = cw == 0 && ch == 0
whole_screen _ _ = false

-- The region in a screen of `w` by `h`.
unfoldable pub crop : Options → ℕ → ℕ → Option Region
crop o w h =
    let cx = clamp_start o.x w in
    let cy = clamp_start o.y h in
    elim (clamp_size cx (if whole_screen o.w o.h then pos w else o.w) w) [
      | none ↦ none
      | some cw ↦ elim (clamp_size cy (if whole_screen o.w o.h then pos h else o.h) h) [
        | none ↦ none
        | some ch ↦ some (record { cx = cx; cy = cy; cw = cw; ch = ch })
      ]
    ]
