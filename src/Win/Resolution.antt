-- ===== src/Win/Resolution.antt =====
-- tools/win/resolution.c: the size of the screen in the settings file.
pub mod Parsed
pub mod Stored
use shinogi.Base.{
  ℕ, zero, suc, ◌+◌, ◌-◌, ◌*◌, ◌/◌, ◌%◌, ◌^◌, Bool, true, false, not, ◌&&◌, ◌||◌, List, [], ◌∷◌,
  ◌++◌, Option, none, some, Bytes, codes, length, starts_with, drop, ltb, leb, ◌==◌, if◌then◌else◌,
}
use shinogi.Win.Network.{is_digit}
use shinogi.Win.Network.Hook.{is_space}

-- The digits in front, behind those that stand for `n`, and the text behind them.
unfoldable pub read_digits : ℕ → Bytes → ℕ × Bytes
read_digits n [] = (n, [])
read_digits n (c ∷ cs) =
    let rest = read_digits (n * 10 + (c - b'0')) cs in if is_digit c then rest else (n, c ∷ cs)

unfoldable pub skip_space : Bytes → Bytes
skip_space [] = []
skip_space (c ∷ cs) = let rest = skip_space cs in if is_space c then rest else c ∷ cs

-- Whether there is a minus, and the text behind the sign.
unfoldable pub read_sign : Bytes → Bool × Bytes
read_sign [] = (false, [])
read_sign (c ∷ cs) =
    if c == b'-' then (true, cs) else if c == b'+' then (false, cs) else (false, c ∷ cs)

-- The digits behind the sign, if there is one digit at least.
unfoldable pub after_sign : Bool → Bytes → Option (Bool × ℕ × Bytes)
after_sign minus [] = none
after_sign minus (c ∷ cs) =
    let (n, rest) = read_digits 0 (c ∷ cs) in if is_digit c then some (minus, n, rest) else none

-- `strtol(text, &end, 10)`: the sign, the magnitude and the text at `end`; `none` where `end` is
-- `text`. A magnitude above 2147483647 sets `errno` where a long has 32 bits.
unfoldable pub strtol : Bytes → Option (Bool × ℕ × Bytes)
strtol text = let (minus, digits) = read_sign (skip_space text) in after_sign minus digits

abbrev pub overflows : ℕ → Bool
overflows n = ltb 2147483647 n

-- The tests of the two numbers; a negative one is below its range.
unfoldable pub size_ok : Bool → ℕ → Bool → ℕ → Bool
size_ok w_minus w h_minus h =
    not w_minus && leb 320 w && leb w 1920 && not h_minus && leb 200 h && leb h 1080 && w % 8 == 0

-- From the text behind the `x` on.
unfoldable pub parse_height : Bool → ℕ → Bytes → Option (ℕ × ℕ)
parse_height w_minus w text = elim (strtol text) [
  | none ↦ none
  | some (h_minus, h, rest) ↦
      if overflows h || not (length (skip_space rest) == 0) || not (size_ok w_minus w h_minus h)
      then none
      else some (w, h)
]

unfoldable pub shinogi_parse_resolution : Bytes → Option (ℕ × ℕ)
shinogi_parse_resolution text = elim (strtol text) [
  | none ↦ none
  | some (_, _, []) ↦ none
  | some (w_minus, w, c ∷ rest) ↦
      if not (c == b'x') || overflows w then none else parse_height w_minus w rest
]

unfoldable pub skip_blank : Bytes → Bytes
skip_blank [] = []
skip_blank (c ∷ cs) = let rest = skip_blank cs in if c == b' ' || c == b'\t' then rest else c ∷ cs

-- The text behind the sign of equality, if the key is `res`.
unfoldable pub value_text : Bytes → Option Bytes
value_text [] = none
value_text (c ∷ cs) = if c == b'=' then some cs else none

unfoldable pub res_value : Bytes → Option Bytes
res_value line =
    let key = skip_blank line in
    if not (starts_with key (codes "res")) then none else value_text (skip_blank (drop 3 key))

-- `%d` of a number of three or four digits.
unfoldable pub decimal_text : ℕ → Bytes
decimal_text n =
    let low = (n / 100 % 10 + b'0') ∷ (n / 10 % 10 + b'0') ∷ (n % 10 + b'0') ∷ [] in
    if ltb n 1000 then low else (n / 1000 + b'0') ∷ low

-- The line that `shinogi_write_resolution` prints.
unfoldable pub res_line : ℕ → ℕ → Bytes
res_line width height =
    codes "res = " ++ (decimal_text width ++ (b'x' ∷ (decimal_text height ++ (b'\r' ∷ b'\n' ∷ []))))
