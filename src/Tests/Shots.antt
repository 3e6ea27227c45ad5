-- ===== src/Tests/Shots.antt =====
-- tools/linux/shinogi-shot.c: runs on a screen of two pixels.
use shinogi.Base.{
  ◌+◌, ◌*◌, ◌/◌, ◌≡◌, refl, arith, true, List, [], ◌∷◌, ◌++◌, some, Bytes, codes, get_or,
}
use shinogi.Win.Resolution.{strtol, read_digits, skip_space, read_sign, after_sign}
use shinogi.Linux.Shot.Zlib.{
  zlib_stream, stored, block_size, block_header, put_be32, adler32, adler,
}
use shinogi.Linux.Shot.Png.{png, write_chunk, chunk_crc, crc_update, crc_table, crc_rounds}
use shinogi.Linux.Shot.Pixels.{Region, for_each, pixel, scaled_row, scaled_rows, raw_stride}
use shinogi.Linux.Shot.Pixels.Samples.{scaled_rows_sample}
use shinogi.Linux.Shot.Ppm.{ppm_loop, ppm_int, read_header}
use shinogi.Linux.Shot.Crop.{
  scan_int, scan_next, scan_crop, atoi, take_option, take_options, clamp_start, clamp_size,
  whole_screen, crop,
}
use shinogi.Linux.Shot.{
  Machine, stopped, written, write_picture, take_screen, take_header, take_file, shot,
}
use shinogi.Linux.Shot.Written.{Cut, IsPicture, IsOrdered, shot_lem}
use shinogi.Base.CString.{equal, starts_with}

abbrev pixels : Bytes
pixels = 1 ∷ 2 ∷ 3 ∷ 250 ∷ 251 ∷ 252 ∷ []

abbrev machine : Machine
machine = record {
  input = λ _. some (codes "P6\n# captured\n2 1\n255\n" ++ pixels);
  room = λ _. true;
  writable = λ _. true;
}

abbrev arguments : List Bytes
arguments =
    codes "in.ppm"
    ∷ codes "out.png"
    ∷ codes "--crop"
    ∷ codes "1,-5,9,9"
    ∷ codes "--scale"
    ∷ codes "2"
    ∷ []

-- The second pixel alone.
abbrev right_pixel : Region
right_pixel = record { cx = 1; cy = 0; cw = 1; ch = 1 }

right_rows :
    scaled_rows 2 pixels right_pixel 2
    ≡ 0 ∷ 250 ∷ 251 ∷ 252 ∷ 250 ∷ 251 ∷ 252 ∷ 0 ∷ 250 ∷ 251 ∷ 252 ∷ 250 ∷ 251 ∷ 252 ∷ []
unfolding scaled_rows scaled_row for_each pixel
right_rows = refl

table_entry : crc_table 1 ≡ 0x77073096
unfolding crc_table crc_rounds
table_entry = refl

end_chunk :
    write_chunk (codes "IEND") [] ≡ 0 ∷ 0 ∷ 0 ∷ 0 ∷ 73 ∷ 69 ∷ 78 ∷ 68 ∷ 174 ∷ 66 ∷ 96 ∷ 130 ∷ []
unfolding write_chunk put_be32 chunk_crc crc_update crc_table crc_rounds
end_chunk = refl

one_byte : zlib_stream (97 ∷ []) ≡ 0x78 ∷ 1 ∷ 1 ∷ 1 ∷ 0 ∷ 254 ∷ 255 ∷ 97 ∷ 0 ∷ 98 ∷ 0 ∷ 98 ∷ []
unfolding zlib_stream stored block_size block_header put_be32 adler32 adler
one_byte = refl

shot_run : shot machine arguments ≡ written 2 2 (png 2 2 (scaled_rows 2 pixels right_pixel 2))
unfolding shot take_options take_option scan_crop scan_int scan_next atoi strtol read_digits
    skip_space read_sign after_sign take_file starts_with equal read_header ppm_int ppm_loop
    take_header take_screen crop clamp_start clamp_size whole_screen write_picture
shot_run = refl

usage : shot machine (codes "in.ppm" ∷ []) ≡ stopped 2
unfolding shot
usage = refl

shot_lem_example :
    (c : Cut) × IsPicture 2 2 (png 2 2 (scaled_rows 2 pixels right_pixel 2)) c
    × IsOrdered machine arguments c
shot_lem_example = shot_lem machine arguments shot_run

scaled_rows_sample_example :
    get_or (scaled_rows 2 pixels right_pixel 2) (1 * raw_stride right_pixel 2 + (1 + (1 * 3 + 2))) 0
    ≡ get_or pixels (((0 + 1 / 2) * 2 + (1 + 1 / 2)) * 3 + 2) 0
scaled_rows_sample_example =
    scaled_rows_sample 2 pixels right_pixel 2 1 1 2 (omega arith) (omega arith) (omega arith)
      (omega arith)
