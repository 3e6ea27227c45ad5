-- ===== src/Linux/Shot/Png.antt =====
-- tools/linux/shinogi-shot.c: the chunks of a PNG file and their check values.
pub mod Reader
use Prim.Native.Nat.{bit_and, bit_xor}
use shinogi.Base.{
  ℕ, zero, suc, ◌+◌, ◌*◌, ◌/◌, ◌%◌, ◌^◌, List, [], ◌∷◌, ◌++◌, Bytes, codes, length, ◌==◌,
  if◌then◌else◌,
}
use shinogi.Linux.Shot.Zlib.{put_be32, zlib_stream}

-- `k` rounds of the loop over the bits of a table entry.
unfoldable pub crc_rounds : ℕ → ℕ → ℕ
crc_rounds zero c = c
crc_rounds (suc k) c = crc_rounds k (if bit_and c 1 == 0 then c / 2 else bit_xor 0xedb88320 (c / 2))

-- The entry of `crc_table` that `crc_init` writes.
unfoldable pub crc_table : ℕ → ℕ
crc_table n = crc_rounds 8 n

unfoldable pub crc_update : ℕ → Bytes → ℕ
crc_update crc [] = crc
crc_update crc (c ∷ cs) =
    crc_update (bit_xor (crc_table (bit_and (bit_xor crc c) 0xff)) (crc / 256)) cs

-- The check value of a chunk: over its type and its contents.
unfoldable pub chunk_crc : Bytes → Bytes → ℕ
chunk_crc type contents = bit_xor (crc_update (crc_update 0xffffffff type) contents) 0xffffffff

unfoldable pub write_chunk : Bytes → Bytes → Bytes
write_chunk type contents =
    put_be32 (length contents) ++ (type ++ (contents ++ put_be32 (chunk_crc type contents)))

-- Size, depth 8, true colour, deflate, adaptive filtering, no interlace.
unfoldable pub ihdr : ℕ → ℕ → Bytes
ihdr width height = put_be32 width ++ (put_be32 height ++ (8 ∷ 2 ∷ 0 ∷ 0 ∷ 0 ∷ []))

abbrev pub signature : Bytes
signature = 137 ∷ 80 ∷ 78 ∷ 71 ∷ 13 ∷ 10 ∷ 26 ∷ 10 ∷ []

-- The file for rows of `width` pixels that are `height` in number.
unfoldable pub png : ℕ → ℕ → Bytes → Bytes
png width height row =
    signature
    ++ (write_chunk (codes "IHDR") (ihdr width height)
        ++ (write_chunk (codes "IDAT") (zlib_stream row) ++ write_chunk (codes "IEND") []))
