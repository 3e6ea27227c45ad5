-- ===== src/Win/Drives/Images.antt =====
-- tools/win/drives.c: `drives_image_options`.
pub mod Escaped
use shinogi.Base.{
  ℕ, zero, suc, ◌+◌, ◌-◌, Bool, true, false, not, ◌&&◌, ◌||◌, List, [], ◌∷◌, ◌++◌, Option, none,
  some, Bytes, codes, length, drop, ltb, leb, ◌==◌, if◌then◌else◌,
}
use shinogi.Win.Drives.{DriveMapping, extra_folders, first_floppy}

-- `MAX_PATH * 2`
abbrev pub escaped_max : ℕ
escaped_max = 520

abbrev pub forward : ℕ → ℕ
forward c = if c == b'\\' then b'/' else c

-- The loop over the path, with `n` bytes written: what it writes behind them.
unfoldable pub escape_path : ℕ → Bytes → Option Bytes
escape_path n [] = some []
escape_path n (c ∷ cs) =
    if c == 34 || leb escaped_max (n + 2)
    then none
    else elim (escape_path (if c == b',' then n + 2 else n + 1) cs) [
      | none ↦ none
      | some rest ↦ if c == b',' then some (b',' ∷ c ∷ rest) else some (forward c ∷ rest)
    ]

-- `%d` of a number below 100.
abbrev two_digits : ℕ → Bytes
two_digits i =
    if ltb i 10
    then (i + b'0') ∷ []
    else if ltb i 20
    then b'1' ∷ (i - 10 + b'0') ∷ []
    else b'2' ∷ (i - 20 + b'0') ∷ []

unfoldable pub serial_of : ℕ → Bytes
serial_of i =
    if ltb i first_floppy
    then codes "shinogi.disk" ++ two_digits (i - extra_folders + 1)
    else codes "shinogi.floppy" ++ (b'a' + i - first_floppy) ∷ []

unfoldable pub image_text : ℕ → Bool → Bytes → Bytes
image_text i readonly path =
    codes " -drive \"file="
    ++ path
    ++ codes ",format=raw,if=none,id=img"
    ++ two_digits i
    ++ codes ",readonly="
    ++ (if readonly then codes "on" else codes "off")
    ++ codes ",cache=writethrough\" -device virtio-blk-device,drive=img"
    ++ two_digits i
    ++ codes ",serial="
    ++ serial_of i

-- `append`: the text and its NUL must fit behind what is there.
unfoldable pub append : Bytes → ℕ → Bytes → Option Bytes
append out size text = if ltb (length out + length text) size then some (out ++ text) else none

-- The loop from drive `i` on.
unfoldable pub image_loop : ℕ → List DriveMapping → Bytes → ℕ → Option Bytes
image_loop i [] out size = some out
image_loop i (m ∷ ms) out size =
    if length m.path == 0 then image_loop (i + 1) ms out size else elim (escape_path 0 m.path) [
      | none ↦ none
      | some path ↦ elim (append out size (image_text i m.readonly path)) [
        | none ↦ none
        | some out' ↦ image_loop (i + 1) ms out' size
      ]
    ]

unfoldable pub drives_image_options : List DriveMapping → ℕ → Option Bytes
drives_image_options ms size = image_loop extra_folders (drop extra_folders ms) [] size
