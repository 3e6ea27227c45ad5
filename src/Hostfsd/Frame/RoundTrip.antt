-- ===== src/Hostfsd/Frame/RoundTrip.antt =====
-- Reading a field back gives what was stored, cut to the field's width.
use shinogi.Base.{ℕ, ◌%◌, ◌^◌, ◌++◌, Bytes, ◌≡◌, arith}
use shinogi.Hostfsd.Frame.{get32, get16, put32, put16}

pub get32-put32 : (v : ℕ) (rest : Bytes) → get32 (put32 v ++ rest) ≡ v % 2 ^ 32
unfolding get32 put32
get32-put32 v rest = omega arith

pub get16-put16 : (v : ℕ) (rest : Bytes) → get16 (put16 v ++ rest) ≡ v % 2 ^ 16
unfolding get16 put16
get16-put16 v rest = omega arith
