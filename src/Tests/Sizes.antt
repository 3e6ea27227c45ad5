-- ===== src/Tests/Sizes.antt =====
-- Runs of the size of the screen.
use shinogi.Base.{
  some, none, c_string, NoNul, ◌∷◌, ◌++◌, ◌≡◌, refl, arith, true, false, Bytes, codes, length,
}
use shinogi.Base.CString.{starts_with}
use shinogi.Win.Resolution.{
  shinogi_parse_resolution, res_value, res_line, skip_blank, value_text, decimal_text, strtol,
  skip_space, read_sign, after_sign, read_digits, parse_height, size_ok,
}
use shinogi.Win.Resolution.Stored.{
  shinogi_read_resolution, shinogi_write_resolution, text_lines, reads_before, lines, fgets,
  read_lines, write_lines, line_size, skip_line, has_newline, final_byte, cut_comment,
}
use shinogi.Win.Resolution.Stored.Others.{Edited, other_text}
use shinogi.Win.Resolution.Stored.Read.{shinogi_write_resolution_lem}
use shinogi.Win.Resolution.Parsed.{IsSize, shinogi_parse_resolution_lem}

shinogi_parse_resolution_lem_example :
    ((text : Bytes) → shinogi_parse_resolution text ≡ some (1280, 720) → IsSize 1280 720)
    × (IsSize 1280 720
        → (value : Bytes) × (res_value (res_line 1280 720) ≡ some value)
          × (shinogi_parse_resolution value ≡ some (1280, 720)))
shinogi_parse_resolution_lem_example = shinogi_parse_resolution_lem 1280 720

-- A comment, a size, another key and a line that has no newline.
abbrev settings : Bytes
settings = codes "# shinogi\r\nres = 640x480 ; small\nfps=60\n  res=800x600\r\nlast"

settings_read : shinogi_read_resolution settings ≡ some (640, 480)
unfolding shinogi_read_resolution text_lines c_string lines fgets read_lines line_size has_newline
    cut_comment res_value skip_blank value_text starts_with shinogi_parse_resolution strtol
    skip_space read_sign after_sign read_digits parse_height size_ok
settings_read = refl

settings_written :
    shinogi_write_resolution settings 1280 720
    ≡ some (codes "# shinogi\r\nres = 1280x720\r\nfps=60\nlast")
unfolding shinogi_write_resolution text_lines c_string reads_before lines fgets write_lines
    skip_line has_newline final_byte res_value skip_blank value_text starts_with res_line
    decimal_text
settings_written = refl

unended :
    shinogi_write_resolution (codes "fps=60") 640 480 ≡ some (codes "fps=60\r\nres = 640x480\r\n")
unfolding shinogi_write_resolution text_lines c_string reads_before lines fgets write_lines
    skip_line has_newline final_byte res_value skip_blank value_text starts_with res_line
    decimal_text
unended = refl

IsSize-1280 : IsSize 1280 720
IsSize-1280 = record {
  w_min = omega arith;
  w_max = omega arith;
  w_eight = omega arith;
  h_min = omega arith;
  h_max = omega arith;
}

-- What follows a 0 byte in a line is not written again, its newline included.
nul_dropped :
    shinogi_write_resolution (codes "fps=60" ++ 0 ∷ codes "x\nlast\n") 640 480
    ≡ some (codes "fps=60last\nres = 640x480\r\n")
unfolding shinogi_write_resolution text_lines c_string reads_before lines fgets write_lines
    skip_line has_newline final_byte res_value skip_blank value_text starts_with res_line
    decimal_text
nul_dropped = refl

-- A line that begins with a 0 byte makes the loop read before its buffer.
nul_first : shinogi_write_resolution (0 ∷ codes "\n") 640 480 ≡ none
unfolding shinogi_write_resolution text_lines c_string reads_before lines fgets skip_line
    has_newline res_value skip_blank value_text starts_with
nul_first = refl

settings-NoNul : NoNul settings
settings-NoNul = ground arith

shinogi_write_resolution_lem_example :
    (out : Bytes) × (shinogi_write_resolution settings 1280 720 ≡ some out)
    × (shinogi_read_resolution out ≡ some (1280, 720))
    × Edited (res_line 1280 720) (other_text true false (lines (length settings) settings)) out
    × (shinogi_write_resolution out 640 480 ≡ shinogi_write_resolution settings 640 480)
shinogi_write_resolution_lem_example =
    shinogi_write_resolution_lem settings 1280 720 640 480 settings-NoNul IsSize-1280
