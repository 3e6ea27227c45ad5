-- ===== src/Linux/Shot/Zlib/Blocks.antt =====
-- tools/linux/shinogi-shot.c: one round of the loop that writes the stored blocks.
use shinogi.Base.{
  ℕ, suc, ◌-◌, ◌≡◌, refl, ap, arith, true, false, List, [], ◌∷◌, ◌++◌, append-nil, Bytes, length,
  take, drop, ltb, ◌==◌, ltb→lt,
}
use shinogi.Linux.Shot.Zlib.{stored, block_size, block_header}

pub take-length {ℓ} : {A : Type ℓ} (xs : List A) → take (length xs) xs ≡ xs
take-length [] = refl
take-length (x ∷ xs) = ap (◌∷◌ x) (take-length xs)

-- The last block holds all that is left.
pub stored_last :
    (fuel : ℕ) (row : Bytes)
    → ltb 65535 (length row) ≡ false
    → stored (suc fuel) row ≡ block_header (length row) (length row) ++ row
unfolding stored block_size
stored_last fuel row e =
    let none_left : (length row - length row == 0) ≡ true = ground arith in
    rw e (rw (take-length row) (rw none_left (rw (append-nil row))))

-- A block before it holds 65535 bytes.
pub stored_more :
    (fuel : ℕ) (row : Bytes)
    → ltb 65535 (length row) ≡ true
    → stored (suc fuel) row
      ≡ block_header (length row) 65535 ++ (take 65535 row ++ stored fuel (drop 65535 row))
unfolding stored block_size
stored_more fuel row e =
    let more : (length row - 65535 == 0) ≡ false = ground (arith, ltb→lt 65535 (length row) e) in
    rw e (rw more)
