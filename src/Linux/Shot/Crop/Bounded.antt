-- ===== src/Linux/Shot/Crop/Bounded.antt =====
-- tools/linux/shinogi-shot.c: the scale and the region that come of the options.
use shinogi.Base.{
  min, ◌-◌, refl, subst, Bool, true, false, ℕ, ◌+◌, ◌≤◌, ◌<◌, ◌≡◌, arith, inl, inr, List, [], ◌∷◌,
  some, Bytes, if◌then◌else◌, Option-cases,
}
use shinogi.Base.Int.{ℤ, pos, negsuc, pos_part}
use shinogi.Linux.Shot.Pixels.{Region}
use shinogi.Linux.Shot.Crop.{
  Options, take_option, take_options, scan_crop, clamp_start, clamp_size, whole_screen, crop,
}

abbrev pub IsScale : ℕ → Type 0
IsScale n = (1 ≤ n) × (n ≤ 16)

scan_crop_scale : (n : ℕ) (text : Bytes) {o : Options} → scan_crop n text ≡ some o → o.scale ≡ n
unfolding scan_crop
scan_crop_scale n text e = ground arith

take_option-IsScale :
    (name value : Bytes) (o : Options) {o' : Options}
    → IsScale o.scale
    → take_option name value o ≡ some o'
    → IsScale o'.scale
unfolding take_option
take_option-IsScale name value o {o'} s e = ground (arith, scan_crop_scale o.scale value {o = o'})

pub take_options-IsScale :
    (args : List Bytes) (o : Options) {o' : Options}
    → IsScale o.scale
    → take_options args o ≡ some o'
    → IsScale o'.scale
unfolding take_options
take_options-IsScale [] o s e = ground arith
take_options-IsScale (name ∷ []) o s e = absurd (cc)
take_options-IsScale (name ∷ value ∷ args) o s e = elim (Option-cases (take_option name value o)) [
  | inl stop ↦ let bad = rw (stop, take_options) at e in absurd (cc)
  | inr (o1, one) ↦
      take_options-IsScale args o1 (take_option-IsScale name value o s one)
        (rw (one, take_options) at e)
]

clamp_start-lt : (x : ℤ) (w : ℕ) → 0 < w → clamp_start x w < w
unfolding clamp_start
clamp_start-lt x w h = ground arith

clamp_size-le : (x : ℕ) (cw : ℤ) (w : ℕ) {n : ℕ} → x ≤ w → clamp_size x cw w ≡ some n → x + n ≤ w
unfolding clamp_size
clamp_size-le x (negsuc k) w h e = ground arith
clamp_size-le x (pos k) w h e = ground arith

pub record IsWithin (r : Region) (w h : ℕ) : Type 0 where
  pub across : r.cx + r.cw ≤ w
  pub down : r.cy + r.ch ≤ h

pub crop-IsWithin :
    (o : Options) (w h : ℕ) {r : Region} → 0 < w → 0 < h → crop o w h ≡ some r → IsWithin r w h
unfolding crop
crop-IsWithin o w h pw ph e =
    let x = clamp_start-lt o.x w pw in
    let y = clamp_start-lt o.y h ph in
    let cw = if whole_screen o.w o.h then pos w else o.w in
    let ch = if whole_screen o.w o.h then pos h else o.h in
    elim (Option-cases (clamp_size (clamp_start o.x w) cw w)) [
      | inl over ↦ let bad = rw (over, crop) at e in absurd (cc)
      | inr (m, em) ↦ elim (Option-cases (clamp_size (clamp_start o.y h) ch h)) [
        | inl over ↦ let bad = rw (em, crop) at e in let worse = rw over at bad in absurd (cc)
        | inr (n, en) ↦
            let made = rw (em, crop) at e in
            let made' = rw en at made in
            let across = clamp_size-le (clamp_start o.x w) cw w (omega arith) em in
            let down = clamp_size-le (clamp_start o.y h) ch h (omega arith) en in ground arith
      ]
    ]

-- Of one side of the screen, `whole` long: the start that was asked for, moved into the screen, and
-- as much of the length as the screen has behind it.
pub record IsSide (asked : ℤ) (len whole start size : ℕ) : Type 0 where
  pub starts : start ≡ min (pos_part asked) (whole - 1)
  pub goes_on : size ≡ min len (whole - start)

-- The region is what the options ask for, or everything from its corner on where they name no size.
pub record IsAsked (o : Options) (w h : ℕ) (r : Region) : Type 0 where
  pub across : IsSide o.x (if whole_screen o.w o.h then w else pos_part o.w) w r.cx r.cw
  pub down : IsSide o.y (if whole_screen o.w o.h then h else pos_part o.h) h r.cy r.ch

clamp-IsSide :
    (asked len : ℤ) (whole : ℕ) {n : ℕ}
    → 0 < whole
    → clamp_size (clamp_start asked whole) len whole ≡ some n
    → IsSide asked (pos_part len) whole (clamp_start asked whole) n
unfolding clamp_start clamp_size
clamp-IsSide asked (negsuc k) whole h e = record { starts = ground arith; goes_on = ground arith }
clamp-IsSide asked (pos k) whole h e = record { starts = ground arith; goes_on = ground arith }

pos_part-if :
    (b : Bool) (n : ℕ) (z : ℤ) → pos_part (if b then pos n else z) ≡ (if b then n else pos_part z)
pos_part-if true n z = refl
pos_part-if false n z = refl

pub crop-IsAsked :
    (o : Options) (w h : ℕ) {r : Region} → 0 < w → 0 < h → crop o w h ≡ some r → IsAsked o w h r
unfolding crop
crop-IsAsked o w h {r} pw ph e =
    let cw = if whole_screen o.w o.h then pos w else o.w in
    let ch = if whole_screen o.w o.h then pos h else o.h in
    elim (Option-cases (clamp_size (clamp_start o.x w) cw w)) [
      | inl over ↦ let bad = rw (over, crop) at e in absurd (cc)
      | inr (m, em) ↦ elim (Option-cases (clamp_size (clamp_start o.y h) ch h)) [
        | inl over ↦ let bad = rw (em, crop) at e in let worse = rw over at bad in absurd (cc)
        | inr (n, en) ↦
            let made = rw (em, crop) at e in
            let made' = rw en at made in
            let region : record { cx = clamp_start o.x w; cy = clamp_start o.y h; cw = m; ch = n }
                ≡ r =
              cc in
            let across = clamp-IsSide o.x cw w pw em in
            let down = clamp-IsSide o.y ch h ph en in
            subst (IsAsked o w h) region (record {
              across = rw (pos_part-if (whole_screen o.w o.h) w o.w) at across;
              down = rw (pos_part-if (whole_screen o.w o.h) h o.h) at down;
            })
      ]
    ]
