-- ===== src/Win/Drives.antt =====
-- tools/win/drives.c: the additional drives, their validation and QEMU's options for images.
pub mod Attached
pub mod Images
use shinogi.Base.{
  ℕ, zero, suc, ◌+◌, ◌-◌, ◌*◌, ◌/◌, ◌%◌, Bool, true, false, not, ◌&&◌, ◌||◌, List, [], ◌∷◌, ◌++◌,
  Option, none, some, Bytes, codes, length, get_or, ltb, leb, ◌==◌, if◌then◌else◌,
}
use shinogi.Base.Result.{Result, ok, err}

abbrev pub extra_folders : ℕ
extra_folders = 23

-- Where the floppies begin: `EXTRA_FOLDERS + HARD_IMAGES`.
abbrev pub first_floppy : ℕ
first_floppy = 27

-- `'U' - 'D'`
abbrev pub drive_u : ℕ
drive_u = 17

abbrev pub drive_path_max : ℕ
drive_path_max = 220

-- `EXTRA_DRIVES` of them are the settings.
pub record DriveMapping : Type 0 where
  pub path : Bytes
  pub readonly : Bool

-- `BY_HANDLE_FILE_INFORMATION`, with the two halves of the size as one number.
pub record FileInfo : Type 0 where
  pub volume : ℕ
  pub index_high : ℕ
  pub index_low : ℕ
  pub is_directory : Bool
  pub size : ℕ

-- What Windows says of files: the result of `identity`, the first 512 bytes where they can be read,
-- and whether `lstrcmpiA` finds two texts the same.
pub record Files : Type 0 where
  pub identity : Bytes → Option FileInfo
  pub first_sector : Bytes → Option Bytes
  pub same_text : Bytes → Bytes → Bool

-- The messages, by what they complain of.
pub data DriveError : Type 0 where
  reserved_u not_found needs_image needs_folder bad_size bad_floppy_size bad_format : DriveError
  bad_extension serves_c duplicate : DriveError

abbrev pub has_quote : Bytes → Bool
has_quote [] = false
has_quote (c ∷ cs) = c == 34 || has_quote cs

abbrev is_letter : ℕ → Bool
is_letter c = leb b'A' c && leb c b'Z' || leb b'a' c && leb c b'z'

-- The byte at an index, which is the NUL at the end.
abbrev byte_at : Bytes → ℕ → ℕ
byte_at path i = get_or path i 0

unfoldable pub full_path : Bytes → Bool
full_path path =
    if length path == 0 || ltb drive_path_max (length path) || has_quote path
    then false
    else if byte_at path 0 == b'\\' && byte_at path 1 == b'\\'
    then not (byte_at path 2 == b'.') && not (byte_at path 2 == b'?')
    else leb 3 (length path)
      && is_letter (byte_at path 0)
      && byte_at path 1 == b':'
      && (byte_at path 2 == b'\\' || byte_at path 2 == b'/')

unfoldable pub same_file : FileInfo → FileInfo → Bool
same_file a b = a.volume == b.volume && a.index_high == b.index_high && a.index_low == b.index_low

unfoldable pub any_same : List FileInfo → FileInfo → Bool
any_same [] info = false
any_same (x ∷ xs) info = same_file x info || any_same xs info

-- `strrchr(path, '.')`
unfoldable pub extension : Bytes → Option Bytes
extension [] = none
extension (c ∷ cs) = elim (extension cs) [
  | some e ↦ some e
  | none ↦ if c == b'.' then some (c ∷ cs) else none
]

-- The fields of the boot sector, for a size that is one of the two.
unfoldable pub sector_ok : ℕ → Bytes → Bool
sector_ok bytes sector =
    get_or sector 11 0 == 0
    && get_or sector 12 0 == 2
    && get_or sector 24 0 == (if bytes == 737280 then 9 else 18)
    && get_or sector 25 0 == 0
    && get_or sector 26 0 == 2
    && get_or sector 27 0 == 0
    && get_or sector 19 0 + get_or sector 20 0 * 256 == bytes / 512

module _ (F : Files) where
  unfoldable pub floppy_ok : Bytes → ℕ → Bool
  floppy_ok path bytes = elim (F.first_sector path) [
    | none ↦ false
    | some sector ↦ sector_ok bytes sector
  ]

  unfoldable pub extension_ok : Bool → Bytes → Bool
  extension_ok floppy path = elim (extension path) [
    | none ↦ false
    | some e ↦
        F.same_text e (codes ".img")
        || F.same_text e (codes ".hdf")
        || floppy && F.same_text e (codes ".st")
  ]

  unfoldable pub is_boot : Option FileInfo → FileInfo → Bool
  is_boot none info = false
  is_boot (some boot) info = same_file boot info

  -- The tests behind `identity`, with the drives before this one in `before`.
  unfoldable pub check_info :
      Option FileInfo → List FileInfo → ℕ → Bytes → FileInfo → Result DriveError FileInfo
  check_info boot before i path info =
      let image = leb extra_folders i in
      let floppy = leb first_floppy i in
      if info.is_directory && image
      then err needs_image
      else if not info.is_directory && not image
      then err needs_folder
      else if image && (info.size == 0 || not (info.size % 512 == 0))
      then err bad_size
      else if floppy && not (info.size == 737280) && not (info.size == 1474560)
      then err bad_floppy_size
      else if floppy && not (floppy_ok path info.size)
      then err bad_format
      else if image && not (extension_ok floppy path)
      then err bad_extension
      else if is_boot boot info
      then err serves_c
      else if any_same before info
      then err duplicate
      else ok info

  unfoldable pub check_drive :
      Option FileInfo → List FileInfo → ℕ → Bytes → Result DriveError FileInfo
  check_drive boot before i path =
      if i == drive_u
      then err reserved_u
      else if not (full_path path)
      then err not_found
      else elim (F.identity path) [
        | none ↦ err not_found
        | some info ↦ check_info boot before i path info
      ]

  -- The loop from drive `i` on.
  unfoldable pub drives_loop :
      Option FileInfo → ℕ → List FileInfo → List DriveMapping → Result DriveError (List FileInfo)
  drives_loop boot i before [] = ok before
  drives_loop boot i before (m ∷ ms) = elim (length m.path == 0) [
    | true ↦ drives_loop boot (i + 1) before ms
    | false ↦ elim (check_drive boot before i m.path) [
      | err e ↦ err e
      | ok info ↦ drives_loop boot (i + 1) (before ++ info ∷ []) ms
    ]
  ]

  -- The result is `ok` where the source's is 1, with the files of the drives in use.
  unfoldable pub drives_valid : List DriveMapping → Bytes → Result DriveError (List FileInfo)
  drives_valid ms drivec = drives_loop (F.identity drivec) 0 [] ms
