-- ===== src/Win/Resolution/Stored.antt =====
-- tools/win/resolution.c: reading the size from the settings file and writing it there. A file is
-- the list of its bytes; a 0 byte ends a line for the calls that work on C strings.
pub mod Chunks
pub mod Kept
pub mod Last
pub mod End
pub mod SizeLine
pub mod Others
pub mod Read
pub mod Plain
use shinogi.Base.{
  c_string, map, ℕ, zero, suc, ◌+◌, Bool, true, false, not, ◌&&◌, ◌||◌, List, [], ◌∷◌, ◌++◌, Option,
  none, some, Bytes, length, ◌==◌, if◌then◌else◌,
}
use shinogi.Win.Resolution.{res_value, res_line, shinogi_parse_resolution}

-- `fgets` with room for so many characters: the line or the part of it, and the text behind it.
unfoldable pub fgets : ℕ → Bytes → Bytes × Bytes
fgets zero text = ([], text)
fgets (suc room) [] = ([], [])
fgets (suc room) (c ∷ cs) =
    let (line, rest) = fgets room cs in if c == 10 then (c ∷ [], cs) else (c ∷ line, rest)

-- `sizeof(line) - 1`
abbrev pub line_room : ℕ
line_room = 1023

-- All that the calls of `fgets` give. Fuel for one call for each byte is enough.
unfoldable pub lines : ℕ → Bytes → List Bytes
lines (suc fuel) (c ∷ cs) = let (line, rest) = fgets line_room (c ∷ cs) in line ∷ lines fuel rest
lines fuel text = []

-- What the calls behind `fgets` see of the buffer.
unfoldable pub text_lines : Bytes → List Bytes
text_lines file = map c_string (lines (length file) file)

-- `strchr(line, '\n') != NULL`
unfoldable pub has_newline : Bytes → Bool
has_newline [] = false
has_newline (c ∷ cs) = c == 10 || has_newline cs

-- `value[strcspn(value, "#;")] = '\0'`
unfoldable pub cut_comment : Bytes → Bytes
cut_comment [] = []
cut_comment (c ∷ cs) = let rest = cut_comment cs in if c == b'#' || c == b';' then [] else c ∷ rest

-- The size that a line sets, if it sets one.
unfoldable pub line_size : Bool → Bytes → Option (ℕ × ℕ)
line_size start line = if not start then none else elim (res_value line) [
  | none ↦ none
  | some value ↦ shinogi_parse_resolution (cut_comment value)
]

-- The loop over the lines; `none` where width and height are left as they were.
unfoldable pub read_lines : Bool → List Bytes → Option (ℕ × ℕ)
read_lines start [] = none
read_lines start (line ∷ rest) = elim (line_size start line) [
  | none ↦ read_lines (has_newline line) rest
  | some size ↦ some size
]

unfoldable pub shinogi_read_resolution : Bytes → Option (ℕ × ℕ)
shinogi_read_resolution file = read_lines true (text_lines file)

abbrev pub is_some {ℓ} : {A : Type ℓ} → Option A → Bool
is_some none = false
is_some (some _) = true

-- `line[strlen(line) - 1]`
unfoldable pub final_byte : Bytes → ℕ
final_byte [] = 0
final_byte (c ∷ []) = c
final_byte (c ∷ d ∷ cs) = final_byte (d ∷ cs)

unfoldable pub skip_line : Bool → Bool → Bytes → Bool
skip_line start skip line = if start then is_some (res_value line) else skip

-- What is written, of the line for the size and the variables of the loop.
unfoldable pub write_lines : Bytes → Bool → Bool → Bool → ℕ → List Bytes → Bytes
write_lines new wrote start skip last [] =
    if wrote then [] else if last == 10 then new else b'\r' ∷ b'\n' ∷ new
write_lines new wrote start skip last (line ∷ rest) =
    let skipped = write_lines new true (has_newline line) true last rest in
    let kept = write_lines new wrote (has_newline line) false (final_byte line) rest in
    if skip_line start skip line then (if wrote then skipped else new ++ skipped) else line ++ kept

-- Whether a line that is kept begins with a 0 byte, so that `line[strlen(line) - 1]` stands before
-- the buffer.
unfoldable pub reads_before : Bool → Bool → List Bytes → Bool
reads_before start skip [] = false
reads_before start skip (line ∷ rest) =
    let gone = skip_line start skip line in
    not gone && length line == 0 || reads_before (has_newline line) gone rest

-- The text of the new file; `none` where the loop reads before its buffer, which the language leaves
-- undefined. The result of the function is that neither stream reports an error.
unfoldable pub shinogi_write_resolution : Bytes → ℕ → ℕ → Option Bytes
shinogi_write_resolution file width height =
    let ls = text_lines file in
    if reads_before true false ls
    then none
    else some (write_lines (res_line width height) false true false 10 ls)
