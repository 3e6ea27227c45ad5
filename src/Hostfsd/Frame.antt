-- ===== src/Hostfsd/Frame.antt =====
-- tools/hostfsd/shinogi-hostfsd.c, "Frame encoding": little-endian fields of a frame.
pub mod RoundTrip
use shinogi.Base.{ℕ, ◌+◌, ◌*◌, ◌/◌, ◌%◌, ◌^◌, [], ◌∷◌, Bytes, get_or}

-- The shifted bytes do not overlap, so `|` is `+`.
unfoldable pub get32 : Bytes → ℕ
get32 p = get_or p 0 0 + get_or p 1 0 * 2 ^ 8 + get_or p 2 0 * 2 ^ 16 + get_or p 3 0 * 2 ^ 24

unfoldable pub get16 : Bytes → ℕ
get16 p = get_or p 0 0 + get_or p 1 0 * 2 ^ 8

-- The four bytes that are stored at `p`.
unfoldable pub put32 : ℕ → Bytes
put32 v = (v % 256) ∷ (v / 2 ^ 8 % 256) ∷ (v / 2 ^ 16 % 256) ∷ (v / 2 ^ 24 % 256) ∷ []

unfoldable pub put16 : ℕ → Bytes
put16 v = (v % 256) ∷ (v / 2 ^ 8 % 256) ∷ []
