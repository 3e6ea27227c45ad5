-- ===== src/Linux/Shot/Zlib.antt =====
-- tools/linux/shinogi-shot.c: the zlib stream of stored blocks, and its check value.
pub mod Blocks
pub mod Inflate
pub mod Bound
use shinogi.Base.{
  ℕ, zero, suc, ◌+◌, ◌-◌, ◌*◌, ◌/◌, ◌%◌, ◌^◌, List, [], ◌∷◌, ◌++◌, Bytes, length, take, drop, ltb,
  ◌==◌, if◌then◌else◌,
}
use Prim.Native.Nat.{bit_or}

unfoldable pub put_be32 : ℕ → Bytes
put_be32 v = v / 2 ^ 24 % 256 ∷ v / 2 ^ 16 % 256 ∷ v / 2 ^ 8 % 256 ∷ v % 256 ∷ []

-- The two sums after the bytes; `a` and `b` are those before.
unfoldable pub adler : ℕ → ℕ → Bytes → ℕ × ℕ
adler a b [] = (a, b)
adler a b (c ∷ cs) = adler ((a + c) % 65521) ((b + (a + c) % 65521) % 65521) cs

-- `(b << 16) | a` at the end, from 1 and 0.
unfoldable pub adler32 : Bytes → ℕ
adler32 raw = let (a, b) = adler 1 0 raw in bit_or (b * 2 ^ 16) a

-- `~n`, of a size_t.
abbrev pub complement : ℕ → ℕ
complement n = 2 ^ 64 - 1 - n

-- The five bytes before a block of `n` bytes, of which `left` are left.
unfoldable pub block_header : ℕ → ℕ → Bytes
block_header left n =
    (if left == n then 1 else 0)
    ∷ n % 256
    ∷ n / 256 % 256
    ∷ complement n % 256
    ∷ complement n / 256 % 256
    ∷ []

-- `left > 65535 ? 65535 : left`
unfoldable pub block_size : ℕ → ℕ
block_size left = if ltb 65535 left then 65535 else left

-- The blocks for the bytes that are left. Fuel above their number is enough.
unfoldable pub stored : ℕ → Bytes → Bytes
stored zero row = []
stored (suc fuel) row =
    let n = block_size (length row) in
    let rest = stored fuel (drop n row) in
    block_header (length row) n ++ (take n row ++ (if length row - n == 0 then [] else rest))

-- The stream: two bytes, the blocks and the check value.
unfoldable pub zlib_stream : Bytes → Bytes
zlib_stream row = 0x78 ∷ 0x01 ∷ (stored (suc (length row)) row ++ put_be32 (adler32 row))

-- The room that is allocated for the stream.
unfoldable pub idat_len : ℕ → ℕ
idat_len raw_len = 2 + raw_len + 5 * (raw_len / 65535 + 1) + 4
