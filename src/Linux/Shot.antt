-- ===== src/Linux/Shot.antt =====
-- tools/linux/shinogi-shot.c: cutting and magnifying a captured screen.
pub mod Zlib
pub mod Png
pub mod Pixels
pub mod Ppm
pub mod Crop
pub mod Written
use shinogi.Base.{
  ℕ, zero, suc, ◌+◌, ◌-◌, ◌*◌, ◌^◌, Bool, true, false, not, ◌&&◌, ◌||◌, List, [], ◌∷◌, Option, none,
  some, Bytes, codes, length, take, drop, starts_with, ltb, leb, ◌==◌, if◌then◌else◌,
}
use shinogi.Base.Int.{pos_part, int_limit}
use shinogi.Linux.Shot.Zlib.{idat_len}
use shinogi.Linux.Shot.Png.{png}
use shinogi.Linux.Shot.Pixels.{Region, raw_stride, scaled_rows}
use shinogi.Linux.Shot.Ppm.{Header, read_header}
use shinogi.Linux.Shot.Crop.{Options, no_options, take_options, crop}

-- What the machine answers: the file of a name, whether `malloc` finds so many bytes and whether
-- the picture's file can be opened.
pub record Machine : Type 0 where
  pub input : Bytes → Option Bytes
  pub room : ℕ → Bool
  pub writable : Bytes → Bool

-- How the program ends: with an exit status and no picture, with a picture that it names by its
-- size, or in an `int` that ran over, where the language leaves the rest undefined.
pub data Outcome : Type 0 where
  stopped : ℕ → Outcome
  undefined : Outcome
  written : ℕ → ℕ → Bytes → Outcome

-- From the rows on.
unfoldable pub write_picture : Machine → Bytes → ℕ → Bytes → Region → ℕ → Outcome
write_picture m out w pix r scale =
    let raw_len = raw_stride r scale * r.ch * scale in
    if not (m.room (idat_len raw_len)) || not (m.room raw_len)
    then stopped 1
    else if leb int_limit (r.ch * scale)
    then undefined
    else if not (m.writable out)
    then stopped 1
    else if leb int_limit (r.cw * scale)
    then undefined
    else written (r.cw * scale) (r.ch * scale)
        (png (r.cw * scale) (r.ch * scale) (scaled_rows w pix r scale))

-- From the screen on, `w` wide and `h` high; `text` is the file behind its header.
unfoldable pub take_screen : Machine → Bytes → Options → ℕ → ℕ → Bytes → Outcome
take_screen m out o w h text =
    if not (m.room (w * h * 3)) || ltb (length text) (w * h * 3)
    then stopped 1
    else elim (crop o w h) [
      | none ↦ undefined
      | some r ↦
          if r.cw == 0 || r.ch == 0
          then stopped 1
          else write_picture m out w (take (w * h * 3) text) r o.scale
    ]

-- From the header on.
unfoldable pub take_header : Machine → Bytes → Options → Header → Outcome
take_header m out o p =
    if pos_part p.w == 0 || pos_part p.h == 0 || not (pos_part p.maxval == 255)
    then stopped 1
    else take_screen m out o (pos_part p.w) (pos_part p.h) p.rest

unfoldable pub take_file : Machine → Bytes → Options → Bytes → Outcome
take_file m out o file =
    if not (starts_with file (codes "P6"))
    then stopped 1
    else elim (read_header (drop 2 file)) [ none ↦ undefined | some p ↦ take_header m out o p ]

-- `main`, of the arguments behind the program's name.
unfoldable pub shot : Machine → List Bytes → Outcome
shot m (in_path ∷ out_path ∷ args) = elim (take_options args no_options) [
  | none ↦ stopped 2
  | some o ↦ elim (m.input in_path) [ none ↦ stopped 1 | some file ↦ take_file m out_path o file ]
]
shot m _ = stopped 2
