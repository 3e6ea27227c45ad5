-- ===== src/Linux/Shot/Zlib/Inflate.antt =====
-- tools/linux/shinogi-shot.c: a decoder of zlib streams of stored blocks gives the bytes back that
-- went into the stream.
use shinogi.Base.{
  ℕ, zero, suc, ◌+◌, ◌*◌, ◌/◌, ◌%◌, ◌≤◌, ◌<◌, ◌≡◌, refl, arith, inl, inr, true, false, ◌&&◌, ◌∷◌,
  ◌++◌, append_assoc, Option, none, some, Bytes, length, take, drop, equal, equal_refl, ltb, leb,
  ◌==◌, if◌then◌else◌, Bool-cases, ltb→lt, ltb→le, length-append, length-take, length-drop,
  take-append-drop, take-length-append, drop-length-append,
}
use shinogi.Linux.Shot.Zlib.{stored, block_header, zlib_stream, put_be32, adler32, complement}
use shinogi.Linux.Shot.Zlib.Blocks.{stored_last, stored_more}

-- What the block and those after it hold.
abbrev pub then_block : Bytes → Option (Bytes × Bytes) → Option (Bytes × Bytes)
then_block block none = none
then_block block (some (out, rest)) = some (block ++ out, rest)

-- What the blocks hold, and what follows the last; `none` where a header is not that of a stored
-- block, its two lengths do not agree or bytes are missing.
unfoldable pub inflate : ℕ → Bytes → Option (Bytes × Bytes)
inflate (suc fuel) (kind ∷ lo ∷ hi ∷ not_lo ∷ not_hi ∷ text) =
    let n = hi * 256 + lo in
    let more = then_block (take n text) (inflate fuel (drop n text)) in
    if lo + not_lo == 255 && hi + not_hi == 255 && leb kind 1 && leb n (length text)
    then (if kind == 1 then some (take n text, drop n text) else more)
    else none
inflate fuel text = none

-- The bytes of a zlib stream, whose check value is compared; `none` where the stream is damaged or
-- goes on behind it.
unfoldable pub read_zlib : ℕ → Bytes → Option Bytes
read_zlib fuel (method ∷ flags ∷ text) = elim (inflate fuel text) [
  | none ↦ none
  | some (out, check) ↦
      if method == 0x78 && (method * 256 + flags) % 31 == 0 && equal check (put_be32 (adler32 out))
      then some out
      else none
]
read_zlib fuel text = none

low_high : (n : ℕ) → n ≤ 65535 → n / 256 % 256 * 256 + n % 256 ≡ n
low_high n h = omega arith

low_complement : (n : ℕ) → n ≤ 65535 → n % 256 + complement n % 256 ≡ 255
low_complement n h = omega arith

high_complement : (n : ℕ) → n ≤ 65535 → n / 256 % 256 + complement n / 256 % 256 ≡ 255
high_complement n h = omega arith

above : (n m : ℕ) → m < n → (n == m) ≡ false
above n m h = ground arith

-- A header announces the block behind it.
inflate-block :
    (fuel left n : ℕ) (block rest : Bytes)
    → length block ≡ n
    → n ≤ 65535
    → inflate (suc fuel) (block_header left n ++ (block ++ rest))
      ≡ (if left == n then some (block, rest) else then_block block (inflate fuel rest))
unfolding inflate block_header
inflate-block fuel left n block rest e h =
    let all : leb n (length (block ++ rest)) ≡ true = ground (arith, length-append block rest) in
    let here : take n (block ++ rest) ≡ block = rw (← e) (take-length-append block rest) in
    let there : drop n (block ++ rest) ≡ rest = rw (← e) (drop-length-append block rest) in
    let lows : (n % 256 + complement n % 256 == 255) ≡ true = ground (arith, low_complement n h) in
    let highs : (n / 256 % 256 + complement n / 256 % 256 == 255) ≡ true =
      ground (arith, high_complement n h) in
    elim (Bool-cases (left == n)) [
      | inl last ↦ rw last (rw (low_high n h) (rw all (rw lows (rw highs (rw here (rw there))))))
      | inr more ↦ rw more (rw (low_high n h) (rw all (rw lows (rw highs (rw here (rw there))))))
    ]

pub inflate-stored :
    (fuel : ℕ) (row rest : Bytes)
    → length row < fuel
    → inflate fuel (stored fuel row ++ rest) ≡ some (row, rest)
inflate-stored zero row rest h = absurd (omega (arith, h))
inflate-stored (suc fuel) row rest h = elim (Bool-cases (ltb 65535 (length row))) [
  | inl more ↦
      let lt = ltb→lt 65535 (length row) more in
      let block = take 65535 row in
      let row' = drop 65535 row in
      let enough : length row' < fuel = omega (arith, length-drop 65535 row, lt) in
      let full : length block ≡ 65535 = omega (arith, length-take 65535 row, lt) in
      let other : (length row == 65535) ≡ false = above (length row) 65535 lt in
      let head = block_header (length row) 65535 in
      rw (stored_more fuel row more) (
        rw (append_assoc head (block ++ stored fuel row') rest) (
          rw (append_assoc block (stored fuel row') rest) (
            rw
              (inflate-block fuel (length row) 65535 block (stored fuel row' ++ rest) full
                (omega arith))
              (rw other
                (rw (inflate-stored fuel row' rest enough) (rw (take-append-drop 65535 row)))))))
  | inr last ↦
      let le = ltb→le 65535 (length row) last in
      let same : (length row == length row) ≡ true = ground arith in
      rw (stored_last fuel row last) (
        rw (append_assoc (block_header (length row) (length row)) row rest)
          (rw (inflate-block fuel (length row) (length row) row rest refl le) (rw same)))
]

-- The stream read back.
pub read_zlib-zlib_stream :
    (row : Bytes) → read_zlib (suc (length row)) (zlib_stream row) ≡ some row
unfolding read_zlib zlib_stream
read_zlib-zlib_stream row =
    let check = put_be32 (adler32 row) in
    rw (inflate-stored (suc (length row)) row check (omega arith), read_zlib, zlib_stream)
      (rw (equal_refl check))
