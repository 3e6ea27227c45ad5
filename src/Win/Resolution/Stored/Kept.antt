-- ===== src/Win/Resolution/Stored/Kept.antt =====
-- tools/win/resolution.c: lines that a second run treats as the first did.
use shinogi.Base.{
  ℕ, ◌≡◌, refl, ◌⊎◌, arith, Bool, true, false, not, ◌||◌, List, [], ◌∷◌, ◌++◌, Option, none, Bytes,
  codes, drop, starts_with, if◌then◌else◌,
}
use shinogi.Win.Resolution.{res_value, skip_blank, value_text}
use shinogi.Win.Resolution.Stored.{
  line_room, has_newline, final_byte, is_some, skip_line, write_lines,
}
use shinogi.Win.Resolution.Stored.Chunks.{Ended}

-- A line that sets a size, whole.
pub record IsSizeLine (line : Bytes) : Type 0 where
  pub whole : Ended line_room line
  pub sets : is_some (res_value line) ≡ true

skip_blank-cr : (p s : Bytes) → skip_blank (p ++ 13 ∷ s) ≡ skip_blank p ++ 13 ∷ s
unfolding skip_blank
skip_blank-cr [] s = refl
skip_blank-cr (c ∷ p) s = ground (arith, skip_blank-cr p s)

value_text-cr :
    (p s : Bytes) → is_some (value_text p) ≡ false → is_some (value_text (p ++ 13 ∷ s)) ≡ false
unfolding value_text
value_text-cr [] s h = refl
value_text-cr (c ∷ p) s h = ground arith

after_key : Bytes → Option Bytes
after_key key =
    if not (starts_with key (codes "res")) then none else value_text (skip_blank (drop 3 key))

after_key-cr :
    (p s : Bytes) → is_some (after_key p) ≡ false → is_some (after_key (p ++ 13 ∷ s)) ≡ false
unfolding after_key starts_with
after_key-cr [] s h = refl
after_key-cr (a ∷ []) s h = ground arith
after_key-cr (a ∷ b ∷ []) s h = ground arith
after_key-cr (a ∷ b ∷ c ∷ p) s h = ground (arith, skip_blank-cr p s, value_text-cr (skip_blank p) s)

-- What does not set a size sets none with a carriage return behind it.
pub res_value-cr :
    (p s : Bytes) → is_some (res_value p) ≡ false → is_some (res_value (p ++ 13 ∷ s)) ≡ false
unfolding res_value after_key
res_value-cr p s h = rw (skip_blank-cr p s, res_value) (after_key-cr (skip_blank p) s h)

-- A second run, which is at `start'` where the first is at `start`, keeps what the first kept.
pub skip_line_again :
    (start skip start' skip' : Bool) (p : Bytes)
    → start' ≡ (start || skip)
    → (start' ≡ true) ⊎ (skip' ≡ false)
    → skip_line start skip p ≡ false
    → skip_line start' skip' p ≡ false
unfolding skip_line
skip_line_again start skip start' skip' p e f h = ground arith

-- A line that is skipped, wherever the second run stands.
pub skipped_start :
    (start skip : Bool) (p : Bytes) → skip_line start skip p ≡ true → (start || skip) ≡ true
unfolding skip_line
skipped_start start skip p h = ground arith

-- One round of the loop behind the line that was written.
pub skip_round :
    (new : Bytes) (start skip : Bool) (last : ℕ) (p : Bytes) (ps : List Bytes)
    → skip_line start skip p ≡ true
    → write_lines new true start skip last (p ∷ ps)
      ≡ write_lines new true (has_newline p) true last ps
unfolding write_lines
skip_round new start skip last p ps h = rw h

pub first_round :
    (new : Bytes) (start skip : Bool) (last : ℕ) (p : Bytes) (ps : List Bytes)
    → skip_line start skip p ≡ true
    → write_lines new false start skip last (p ∷ ps)
      ≡ new ++ write_lines new true (has_newline p) true last ps
unfolding write_lines
first_round new start skip last p ps h = rw h

pub keep_round :
    (new : Bytes) (wrote start skip : Bool) (last : ℕ) (p : Bytes) (ps : List Bytes)
    → skip_line start skip p ≡ false
    → write_lines new wrote start skip last (p ∷ ps)
      ≡ p ++ write_lines new wrote (has_newline p) false (final_byte p) ps
unfolding write_lines
keep_round new wrote start skip last p ps h = rw h

pub end_round :
    (new : Bytes) (start skip : Bool) (last : ℕ) → write_lines new true start skip last [] ≡ []
unfolding write_lines
end_round new start skip last = refl
