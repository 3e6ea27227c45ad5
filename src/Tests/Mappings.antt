-- ===== src/Tests/Mappings.antt =====
-- Runs of the drive settings.
use shinogi.Base.{
  true, false, List, [], ◌∷◌, ◌++◌, none, some, ◌≡◌, refl, arith, Bytes, codes, equal, replicate,
  if◌then◌else◌,
}
use shinogi.Base.Result.{ok}
use shinogi.Win.Drives.{
  DriveMapping, FileInfo, Files, full_path, same_file, any_same, extension, floppy_ok, extension_ok,
  is_boot, check_info, check_drive, drives_loop, drives_valid,
}
use shinogi.Win.Drives.Attached.{Distinct, Attached, drives_valid-Attached}
use shinogi.Win.Drives.Images.{escape_path}
use shinogi.Win.Drives.Images.Escaped.{IsEscaped, escape_path-IsEscaped}

abbrev games : Bytes
games = codes "D:\\Games"

abbrev disk_image : Bytes
disk_image = codes "D:\\a,b\\disk.img"

abbrev folder_info : FileInfo
folder_info = record { volume = 1; index_high = 0; index_low = 7; is_directory = true; size = 0 }

abbrev image_info : FileInfo
image_info = record { volume = 1; index_high = 0; index_low = 8; is_directory = false; size = 1024 }

abbrev windows : Files
windows = record {
  identity = λ p.
      if equal p games
      then some folder_info
      else if equal p disk_image
      then some image_info
      else none;
  first_sector = λ p. none;
  same_text = equal;
}

abbrev unused_slot : DriveMapping
unused_slot = record { path = []; readonly = false }

-- Folder D: and the first hard disk.
abbrev mappings : List DriveMapping
mappings =
    record { path = games; readonly = false }
    ∷ (replicate 22 unused_slot
        ++ record { path = disk_image; readonly = true } ∷ replicate 5 unused_slot)

mappings_run : drives_valid windows mappings (codes "D:\\C") ≡ ok (folder_info ∷ image_info ∷ [])
unfolding drives_valid drives_loop check_drive check_info full_path same_file any_same extension
    floppy_ok extension_ok is_boot equal
mappings_run = refl

drives_valid-Attached_example :
    Attached windows none 0 mappings (folder_info ∷ image_info ∷ [])
    × Distinct (folder_info ∷ image_info ∷ [])
unfolding equal
drives_valid-Attached_example =
    drives_valid-Attached windows mappings (codes "D:\\C") (folder_info ∷ image_info ∷ [])
      mappings_run

escape_run : escape_path 0 disk_image ≡ some (codes "D:/a,,b/disk.img")
unfolding escape_path
escape_run = refl

escape_path-IsEscaped_example : IsEscaped 0 disk_image (codes "D:/a,,b/disk.img")
escape_path-IsEscaped_example =
    escape_path-IsEscaped 0 disk_image (codes "D:/a,,b/disk.img") (omega arith) escape_run
