-- ===== src/Linux/Shot/Png/Reader.antt =====
-- tools/linux/shinogi-shot.c: a reader of PNG files finds the size and the rows that were written.
use shinogi.Base.{
  ℕ, suc, ◌+◌, ◌*◌, ◌^◌, ◌<◌, ◌≡◌, refl, arith, true, ◌&&◌, [], ◌∷◌, ◌++◌, append_assoc, Option,
  none, some, Bytes, codes, length, take, drop, equal, equal_refl, leb, if◌then◌else◌,
  length-append, take-length-append, drop-length-append,
}
use shinogi.Linux.Shot.Zlib.{put_be32, zlib_stream}
use shinogi.Linux.Shot.Zlib.Inflate.{read_zlib, read_zlib-zlib_stream}
use shinogi.Linux.Shot.Png.{chunk_crc, write_chunk, ihdr, signature, png}

-- Four bytes as a number.
unfoldable pub get_be32 : Bytes → ℕ
get_be32 (a ∷ b ∷ c ∷ d ∷ _) = ((a * 256 + b) * 256 + c) * 256 + d
get_be32 _ = 0

-- The contents of a chunk of this type in front, and what follows it; `none` where another chunk
-- stands there or its check value is wrong.
unfoldable pub read_chunk : Bytes → Bytes → Option (Bytes × Bytes)
read_chunk type text =
    let n = get_be32 (take 4 text) in
    let contents = take n (drop 8 text) in
    let check = drop n (drop 8 text) in
    if equal (take 4 (drop 4 text)) type
      && leb n (length (drop 8 text))
      && equal (take 4 check) (put_be32 (chunk_crc type contents))
    then some (contents, drop 4 check)
    else none

-- Width, height and rows of a file of three chunks.
unfoldable pub read_png : ℕ → Bytes → Option (ℕ × ℕ × Bytes)
read_png fuel file = elim (read_chunk (codes "IHDR") (drop 8 file)) [
  | none ↦ none
  | some (head, text) ↦ elim (read_chunk (codes "IDAT") text) [
    | none ↦ none
    | some (stream, text') ↦ elim (read_zlib fuel stream) [
      | none ↦ none
      | some row ↦
          if equal (take 8 file) signature
            && equal (drop 8 head) (8 ∷ 2 ∷ 0 ∷ 0 ∷ 0 ∷ [])
            && equal text' (write_chunk (codes "IEND") [])
          then some (get_be32 (take 4 head), get_be32 (take 4 (drop 4 head)), row)
          else none
    ]
  ]
]

get_be32-put_be32 : (n : ℕ) → n < 2 ^ 32 → get_be32 (put_be32 n) ≡ n
unfolding get_be32 put_be32
get_be32-put_be32 n h = omega arith

-- A chunk that was written is read, whatever follows it.
read_chunk-write_chunk :
    (a b c d : ℕ) (contents rest : Bytes)
    → length contents < 2 ^ 32
    → read_chunk (a ∷ b ∷ c ∷ d ∷ []) (write_chunk (a ∷ b ∷ c ∷ d ∷ []) contents ++ rest)
      ≡ some (contents, rest)
unfolding read_chunk write_chunk put_be32
read_chunk-write_chunk a b c d contents rest h =
    let check = put_be32 (chunk_crc (a ∷ b ∷ c ∷ d ∷ []) contents) in
    let enough : leb (length contents) (length (contents ++ (check ++ rest))) ≡ true =
      ground (arith, length-append contents (check ++ rest)) in
    rw (get_be32-put_be32 (length contents) h) (
      rw (append_assoc contents check rest) (
        rw (take-length-append contents (check ++ rest)) (
          rw (drop-length-append contents (check ++ rest))
            (rw enough (rw (equal_refl (a ∷ b ∷ c ∷ d ∷ [])) (rw (equal_refl check)))))))

length-ihdr : (w h : ℕ) → length (ihdr w h) ≡ 13
unfolding ihdr put_be32
length-ihdr w h = refl

ihdr_fields :
    (w h : ℕ)
    → (take 4 (ihdr w h) ≡ put_be32 w)
      × (take 4 (drop 4 (ihdr w h)) ≡ put_be32 h)
      × (drop 8 (ihdr w h) ≡ 8 ∷ 2 ∷ 0 ∷ 0 ∷ 0 ∷ [])
unfolding ihdr put_be32
ihdr_fields w h = (refl, refl, refl)

-- The file that is written for a picture is read back as that picture: the three chunks are found
-- in it with their check values, the header gives the width and the height, and the zlib stream
-- gives every byte of the rows.
pub read_png-png :
    (width height : ℕ) (row : Bytes)
    → width < 2 ^ 32
    → height < 2 ^ 32
    → length (zlib_stream row) < 2 ^ 32
    → read_png (suc (length row)) (png width height row) ≡ some (width, height, row)
unfolding read_png png equal
read_png-png width height row hw hh hl =
    let head = ihdr width height in
    let stream = zlib_stream row in
    let last = write_chunk (codes "IEND") [] in
    let (w, h, rest) = ihdr_fields width height in
    let short : length head < 2 ^ 32 = omega (arith, length-ihdr width height) in
    rw
      (
        read_chunk-write_chunk 73 72 68 82 head (write_chunk (codes "IDAT") stream ++ last) short,
        read_png,
        png,
      )
      (rw (read_chunk-write_chunk 73 68 65 84 stream last hl) (
        rw (read_zlib-zlib_stream row) (
          rw rest (
            rw (equal_refl last)
              (rw w (rw h (rw (get_be32-put_be32 width hw) (rw (get_be32-put_be32 height hh)))))))))
