-- ===== src/Linux/Shot/Ppm.antt =====
-- tools/linux/shinogi-shot.c: the header of the captured screen.
pub mod Announced
use shinogi.Base.{
  ℕ, ◌+◌, ◌-◌, ◌*◌, Bool, true, false, ◌||◌, [], ◌∷◌, Option, none, some, Bytes, ltb, leb, ◌==◌,
  if◌then◌else◌,
}
use shinogi.Base.Int.{ℤ, pos, negsuc, int_limit}

abbrev pub is_blank : ℕ → Bool
is_blank c = c == 32 || c == 9 || c == 10 || c == 13

-- The loop over the characters: whether it is in a comment, whether a digit came, the value so far
-- and the text; the value and the text behind it. `none` where the value runs over an `int`, which
-- the language leaves undefined.
unfoldable pub ppm_loop : Bool → Bool → ℕ → Bytes → Option (ℤ × Bytes)
ppm_loop comment got v [] = some (negsuc 0, [])
ppm_loop true got v (c ∷ cs) = ppm_loop (if c == 10 then false else true) got v cs
ppm_loop false got v (c ∷ cs) =
    let comment = ppm_loop true got v cs in
    let blank = ppm_loop false got v cs in
    let digit = ppm_loop false true (v * 10 + (c - b'0')) cs in
    if c == b'#'
    then comment
    else if is_blank c
    then (if got then some (pos v, cs) else blank)
    else if ltb c b'0' || ltb b'9' c
    then some (negsuc 0, cs)
    else if leb int_limit (v * 10 + (c - b'0'))
    then none
    else digit

unfoldable pub ppm_int : Bytes → Option (ℤ × Bytes)
ppm_int text = ppm_loop false false 0 text

pub record Header : Type 0 where
  pub w : ℤ
  pub h : ℤ
  pub maxval : ℤ
  pub rest : Bytes

-- The three numbers behind `P6`, and what follows them.
unfoldable pub read_header : Bytes → Option Header
read_header text = elim (ppm_int text) [
  | none ↦ none
  | some (w, text1) ↦ elim (ppm_int text1) [
    | none ↦ none
    | some (h, text2) ↦ elim (ppm_int text2) [
      | none ↦ none
      | some (maxval, rest) ↦ some (record { w = w; h = h; maxval = maxval; rest = rest })
    ]
  ]
]
