-- ===== src/Linux/Shot/Zlib/Bound.antt =====
-- tools/linux/shinogi-shot.c: the stream fits in the room that is allocated for it.
use shinogi.Base.{
  Bool, ◌&&◌, ◌%◌, ℕ, zero, suc, ◌+◌, ◌-◌, ◌*◌, ◌/◌, ◌<◌, ◌≡◌, refl, arith, inl, inr, ◌++◌, Bytes,
  length, take, drop, ltb, ◌==◌, if◌then◌else◌, Bool-cases, ltb→lt, ltb→le, length-append,
  length-take, length-drop,
}
use shinogi.Linux.Shot.Zlib.Blocks.{stored_last, stored_more}
use shinogi.Linux.Shot.Zlib.{stored, block_header, zlib_stream, idat_len, put_be32, adler32}

length-put_be32 : (v : ℕ) → length (put_be32 v) ≡ 4
unfolding put_be32
length-put_be32 v = refl

length-block_header : (left n : ℕ) → length (block_header left n) ≡ 5
unfolding block_header
length-block_header left n = refl

-- The number of blocks.
abbrev blocks : ℕ → ℕ
blocks n = (n - 1) / 65535 + 1

length-stored :
    (fuel : ℕ) (row : Bytes)
    → length row < fuel
    → length (stored fuel row) ≡ length row + 5 * blocks (length row)
length-stored zero row h = absurd (omega (arith, h))
length-stored (suc fuel) row h = elim (Bool-cases (ltb 65535 (length row))) [
  | inl more ↦
      let enough : length (drop 65535 row) < fuel =
        omega (arith, length-drop 65535 row, ltb→lt 65535 (length row) more) in
      let head = length-block_header (length row) 65535 in
      let rest = stored fuel (drop 65535 row) in
      rw (stored_more fuel row more) (
        rw (length-append (block_header (length row) 65535) (take 65535 row ++ rest)) (
          omega (
            arith,
            head,
            length-append (take 65535 row) rest,
            length-take 65535 row,
            length-drop 65535 row,
            ltb→lt 65535 (length row) more,
            length-stored fuel (drop 65535 row) enough,
          )))
  | inr last ↦ rw (stored_last fuel row last) (
      rw (length-append (block_header (length row) (length row)) row) (
        omega
          (arith, length-block_header (length row) (length row), ltb→le 65535 (length row) last)))
]

-- A whole number of full blocks, not none.
abbrev spare : ℕ → Bool
spare n = ltb 0 n && n % 65535 == 0

-- The stream of a picture never runs over the room that is allocated for it, and it fills that room
-- to the last byte unless the picture's bytes are a whole number of full blocks; then five bytes
-- are to spare.
pub length-zlib_stream :
    (row : Bytes)
    → length (zlib_stream row) + (if spare (length row) then 5 else 0) ≡ idat_len (length row)
unfolding zlib_stream idat_len
length-zlib_stream row =
    let body = stored (suc (length row)) row in
    ground (
      arith,
      length-append body (put_be32 (adler32 row)),
      length-put_be32 (adler32 row),
      length-stored (suc (length row)) row (omega arith),
    )
