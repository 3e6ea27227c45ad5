-- ===== src/Launcher/Screen.antt =====
-- tools/shinogi-launcher.c: the size of the screen.
use shinogi.Base.{
  c_string, ℕ, suc, ◌+◌, Bool, true, false, ◌&&◌, [], ◌∷◌, ◌++◌, Option, none, some, Bytes, codes,
  length, starts_with, drop, leb, ◌==◌, if◌then◌else◌,
}
use shinogi.Base.Int.{ℤ, pos_part}
use shinogi.Win.Resolution.{skip_space, decimal_text}
use shinogi.Win.Resolution.Stored.{fgets}
use shinogi.Linux.Shot.Crop.{scan_int}
use shinogi.Launcher.Actions.{World, Trace, snprintf, path_max}

-- `x%d`
unfoldable pub scan_height : ℤ → Bytes → Option (ℤ × ℤ)
scan_height w [] = none
scan_height w (c ∷ text) =
    if c == b'x' then elim (scan_int text) [ none ↦ none | some (h, _) ↦ some (w, h) ] else none

-- `sscanf(text, "%dx%d", &w, &h) == 2`
unfoldable pub scan_size : Bytes → Option (ℤ × ℤ)
scan_size text = elim (scan_int text) [ none ↦ none | some (w, rest) ↦ scan_height w rest ]

-- `=%dx%d`
unfoldable pub scan_value : Bytes → Option (ℤ × ℤ)
scan_value [] = none
scan_value (c ∷ text) = if c == b'=' then scan_size text else none

-- ` res = %dx%d`, or ` res=%dx%d`, where no space may stand before the sign.
unfoldable pub scan_res : Bool → Bytes → Option (ℤ × ℤ)
scan_res spaced line =
    let key = skip_space line in
    let rest = drop 3 key in
    if starts_with key (codes "res")
    then scan_value (if spaced then skip_space rest else rest)
    else none

-- The two formats, one after the other.
unfoldable pub line_size : Bytes → Option (ℤ × ℤ)
line_size line = elim (scan_res true line) [ none ↦ scan_res false line | some size ↦ some size ]

-- 1024 by 768.
abbrev pub default_size : ℕ × ℕ
default_size = (1024, 768)

-- The size, if it is within the limits, in place of the default.
unfoldable pub limited : ℤ × ℤ → ℕ × ℕ
limited (w, h) =
    if leb 320 (pos_part w)
      && leb 200 (pos_part h)
      && leb (pos_part w) 1920
      && leb (pos_part h) 1080
    then (pos_part w, pos_part h)
    else default_size

-- The loop over the lines of the settings file. Fuel for one call of `fgets` for each byte is
-- enough.
unfoldable pub ini_size : ℕ → Bytes → ℕ × ℕ
ini_size (suc fuel) (c ∷ cs) =
    let (line, rest) = fgets 255 (c ∷ cs) in
    elim (line_size (c_string line)) [ none ↦ ini_size fuel rest | some size ↦ limited size ]
ini_size fuel text = default_size

unfoldable pub screen_size : World → Trace → Bytes → ℕ × ℕ
screen_size m t hostfs = elim (m.getenv (codes "SHINOGI_RES")) [
  | none ↦ elim (m.contents t (snprintf (path_max + 16) (hostfs ++ codes "/SHINOGI.INI"))) [
    | none ↦ default_size
    | some text ↦ ini_size (length text) text
  ]
  | some res ↦ elim (scan_size res) [ none ↦ default_size | some size ↦ limited size ]
]

unfoldable pub gpu_device : ℕ × ℕ → Bytes
gpu_device (w, h) =
    snprintf 64
      (codes "virtio-gpu-device,xres=" ++ (decimal_text w ++ (codes ",yres=" ++ decimal_text h)))
