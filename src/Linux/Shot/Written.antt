-- ===== src/Linux/Shot/Written.antt =====
-- tools/linux/shinogi-shot.c: what a picture that is written was cut from.
use shinogi.Base.{
  ◌+◌, ◌/◌, get_or, refl, ap, ◌++◌, starts_with-split, suc, ◌^◌, ℕ, ◌*◌, ◌≤◌, ◌<◌, ◌≡◌, sym, subst,
  arith, inl, inr, not, ◌||◌, List, [], ◌∷◌, some, Bytes, codes, length, take, drop, starts_with,
  ltb, ◌==◌, ◌⊎◌, Bool-cases, ltb→lt, ltb→le, Option-cases, length-take,
}
use shinogi.Base.Int.{pos_part}
use shinogi.Linux.Shot.Zlib.{idat_len, zlib_stream}
use shinogi.Linux.Shot.Zlib.Bound.{length-zlib_stream}
use shinogi.Linux.Shot.Png.{png}
use shinogi.Linux.Shot.Pixels.{Region, raw_stride, scaled_rows}
use shinogi.Linux.Shot.Pixels.Samples.{length-scaled_rows, scaled_rows_sample}
use shinogi.Linux.Shot.Ppm.{read_header}
use shinogi.Linux.Shot.Ppm.Announced.{IsHeader, read_header-announced}
use shinogi.Linux.Shot.Crop.{Options, no_options, take_options, crop}
use shinogi.Linux.Shot.{Machine, written, write_picture, take_screen, take_header, take_file, shot}
use shinogi.Linux.Shot.Crop.Bounded.{
  IsScale, IsWithin, IsAsked, take_options-IsScale, crop-IsWithin, crop-IsAsked,
}
use shinogi.Linux.Shot.Png.Reader.{read_png, read_png-png}

-- What a picture is cut from: the screen, the region and the scale.
pub record Cut : Type 0 where
  pub w : ℕ
  pub h : ℕ
  pub pix : Bytes
  pub region : Region
  pub scale : ℕ

abbrev pub rows_of : Cut → Bytes
rows_of c = scaled_rows c.w c.pix c.region c.scale

pub record IsPicture (width height : ℕ) (file : Bytes) (c : Cut) : Type 0 where
  pub screen : length c.pix ≡ c.w * c.h * 3
  pub within : IsWithin c.region c.w c.h
  pub some_pixels : (0 < c.region.cw) × (0 < c.region.ch)
  pub scaled : IsScale c.scale
  pub wide : width ≡ c.region.cw * c.scale
  pub high : height ≡ c.region.ch * c.scale
  pub image : file ≡ png width height (rows_of c)
  pub filled : length (rows_of c) ≡ c.region.ch * c.scale * raw_stride c.region c.scale
  pub samples :
      (x y k : ℕ)
      → x < c.region.cw * c.scale
      → y < c.region.ch * c.scale
      → k < 3
      → get_or (rows_of c) (y * raw_stride c.region c.scale + (1 + (x * 3 + k))) 0
        ≡ get_or c.pix (((c.region.cy + y / c.scale) * c.w + (c.region.cx + x / c.scale)) * 3 + k) 0
  pub readable :
      (2 ^ 32 ≤ length (zlib_stream (rows_of c)))
      ⊎ (read_png (suc (length (rows_of c))) file ≡ some (width, height, rows_of c))
  pub fits :
      length (zlib_stream (rows_of c))
      ≤ idat_len (raw_stride c.region c.scale * c.region.ch * c.scale)

-- The captured file is P6, the numbers for width, height and 255, and the pixels of the whole screen.
pub record IsScreen (text : Bytes) (c : Cut) : Type 0 where
  pub behind : Bytes
  pub rest : Bytes
  pub magic : text ≡ codes "P6" ++ behind
  pub header : IsHeader behind c.w c.h 255 rest
  pub pixels : c.pix ≡ take (c.w * c.h * 3) rest
  pub whole : c.w * c.h * 3 ≤ length rest

abbrev cut_of : Options → ℕ → ℕ → Bytes → Region → Cut
cut_of o w h text r = record {
  w = w;
  h = h;
  pix = take (w * h * 3) text;
  region = r;
  scale = o.scale;
}

readable_lem :
    (width height : ℕ) (row : Bytes)
    → width < 2 ^ 32
    → height < 2 ^ 32
    → (2 ^ 32 ≤ length (zlib_stream row))
      ⊎ (read_png (suc (length row)) (png width height row) ≡ some (width, height, row))
readable_lem width height row hw hh = elim (Bool-cases (ltb (length (zlib_stream row)) (2 ^ 32))) [
  | inl short ↦ inr (read_png-png width height row hw hh (ltb→lt _ _ short))
  | inr long ↦ inl (ltb→le _ _ long)
]

module _ (m : Machine) (out : Bytes) {width height : ℕ} {file : Bytes} where
  write_picture_lem :
      (c : Cut)
      → length c.pix ≡ c.w * c.h * 3
      → IsWithin c.region c.w c.h
      → (0 < c.region.cw) × (0 < c.region.ch)
      → IsScale c.scale
      → write_picture m out c.w c.pix c.region c.scale ≡ written width height file
      → IsPicture width height file c
  unfolding write_picture
  write_picture_lem c full r p s e =
      let room : raw_stride c.region c.scale * c.region.ch * c.scale ≡ length (rows_of c) =
        grind (arith, length-scaled_rows c.w c.pix c.region c.scale) in
      let bound = length-zlib_stream (rows_of c) in
      let small : length (zlib_stream (rows_of c)) ≤ idat_len (length (rows_of c)) =
        omega (arith, bound) in
      let image : file ≡ png width height (rows_of c) = ground arith in
      let narrow : width < 2 ^ 32 = ground arith in
      let low : height < 2 ^ 32 = ground arith in
      record {
        screen = full;
        within = r;
        some_pixels = p;
        scaled = s;
        wide = ground arith;
        high = ground arith;
        image = image;
        filled = length-scaled_rows c.w c.pix c.region c.scale;
        samples = λ x y k hx hy hk.
            scaled_rows_sample c.w c.pix c.region c.scale x y k (omega (arith, s)) hx hy hk;
        readable = rw image (readable_lem width height (rows_of c) narrow low);
        fits = subst (λ n. length (zlib_stream (rows_of c)) ≤ idat_len n) (sym room) small;
      }

  take_screen_lem :
      (o : Options) (w h : ℕ) (text : Bytes)
      → 0 < w
      → 0 < h
      → IsScale o.scale
      → take_screen m out o w h text ≡ written width height file
      → (r : Region) × IsPicture width height file (cut_of o w h text r)
        × IsAsked o w h r
        × (w * h * 3 ≤ length text)
  unfolding take_screen
  take_screen_lem o w h text pw ph s e =
      elim (Bool-cases (not (m.room (w * h * 3)) || ltb (length text) (w * h * 3))) [
        | inl short ↦ let bad = rw (short, take_screen) at e in absurd (cc)
        | inr enough ↦ elim (Option-cases (crop o w h)) [
          | inl over ↦
              let bad = rw (enough, take_screen) at e in let worse = rw over at bad in absurd (cc)
          | inr (r, er) ↦ elim (Bool-cases (r.cw == 0 || r.ch == 0)) [
            | inl empty ↦
                let bad = rw (enough, take_screen) at e in
                let worse = rw er at bad in let worst = rw empty at worse in absurd (cc)
            | inr some_left ↦
                let made = rw (enough, take_screen) at e in
                let made' = rw er at made in
                let made'' = rw some_left at made' in
                let full : length (take (w * h * 3) text) ≡ w * h * 3 =
                  ground (arith, length-take (w * h * 3) text) in
                let picture =
                  write_picture_lem (cut_of o w h text r) full (crop-IsWithin o w h pw ph er)
                    (ground arith, ground arith) s made'' in
                (r, picture, crop-IsAsked o w h pw ph er, ground (arith, enough))
          ]
        ]
      ]

  take_file_lem :
      (o : Options) (text : Bytes)
      → IsScale o.scale
      → take_file m out o text ≡ written width height file
      → (c : Cut) × IsPicture width height file c
        × IsScreen text c
        × IsAsked o c.w c.h c.region
        × (c.scale ≡ o.scale)
  unfolding take_file take_header
  take_file_lem o text s e = elim (Bool-cases (not (starts_with text (codes "P6")))) [
    | inl other ↦ let bad = rw (other, take_file) at e in absurd (cc)
    | inr ppm ↦ elim (Option-cases (read_header (drop 2 text))) [
      | inl over ↦ let bad = rw (ppm, take_file) at e in let worse = rw over at bad in absurd (cc)
      | inr (p, ep) ↦
          let made = rw (ppm, take_file) at e in
          let made' = rw ep at made in
          elim (Bool-cases
            (pos_part p.w == 0 || pos_part p.h == 0 || not (pos_part p.maxval == 255))) [
              | inl bad ↦ let worse = rw bad at made' in absurd (cc)
              | inr good ↦
                  let (r, picture, asked, enough) =
                    take_screen_lem o (pos_part p.w) (pos_part p.h) p.rest (ground arith)
                      (ground arith) s (rw good at made') in
                  let (behind, shape) = starts_with-split text (codes "P6") (ground arith) in
                  let header =
                    read_header-announced (drop 2 text) p ep (ground arith) (ground arith)
                      (ground arith) in
                  let depth : pos_part p.maxval ≡ 255 = ground arith in
                  let is_behind : drop 2 text ≡ behind = ap (drop 2) shape in
                  let header' =
                    subst (λ l. IsHeader l (pos_part p.w) (pos_part p.h) (pos_part p.maxval) p.rest)
                      is_behind header in
                  (
                    cut_of o (pos_part p.w) (pos_part p.h) p.rest r,
                    picture,
                    record {
                      behind = behind;
                      rest = p.rest;
                      magic = shape;
                      header =
                          subst (λ n. IsHeader behind (pos_part p.w) (pos_part p.h) n p.rest) depth
                            header';
                      pixels = refl;
                      whole = enough;
                    },
                    asked,
                    refl,
                  )
            ]
    ]
  ]

-- The program's arguments and its input, and the cut that they ask for.
pub record IsOrdered (m : Machine) (args : List Bytes) (c : Cut) : Type 0 where
  pub in_path : Bytes
  pub out_path : Bytes
  pub rest : List Bytes
  pub options : Options
  pub text : Bytes
  pub shape : args ≡ in_path ∷ out_path ∷ rest
  pub taken : take_options rest no_options ≡ some options
  pub captured : m.input in_path ≡ some text
  pub screen : IsScreen text c
  pub asked : IsAsked options c.w c.h c.region
  pub scale : c.scale ≡ options.scale

-- Whatever the arguments and the captured file are: where the program writes a picture, the file that
-- the first argument names is P6, three numbers and the pixels, and it was cut from the pixels behind
-- the numbers, as many as the first two announce; the region is what the options ask for, moved into
-- the screen, lies inside it and is not empty; the scale is the options', 1 to 16; width and height
-- are the region's times the scale; the picture is the PNG of rows that hold for each of its pixels the
-- one of the screen at the region's corner plus the position divided by the scale, from which a reader
-- gets these rows back unless their stream takes 4 gigabytes; and the compressed stream did not run over
-- the room allocated for it.
pub shot_lem :
    (m : Machine) (args : List Bytes) {width height : ℕ} {file : Bytes}
    → shot m args ≡ written width height file
    → (c : Cut) × IsPicture width height file c × IsOrdered m args c
unfolding shot
shot_lem m [] e = absurd (cc)
shot_lem m (a ∷ []) e = absurd (cc)
shot_lem m (a ∷ out ∷ args) e = elim (Option-cases (take_options args no_options)) [
  | inl usage ↦ let bad = rw (usage, shot) at e in absurd (cc)
  | inr (o, eo) ↦ elim (Option-cases (m.input a)) [
    | inl missing ↦ let bad = rw (eo, shot) at e in let worse = rw missing at bad in absurd (cc)
    | inr (text, et) ↦
        let made = rw (eo, shot) at e in
        let (c, picture, screen, asked, scale) =
          take_file_lem m out o text
            (take_options-IsScale args no_options (omega arith, omega arith) eo) (rw et at made) in
        (
          c,
          picture,
          record {
            in_path = a;
            out_path = out;
            rest = args;
            options = o;
            text = text;
            shape = refl;
            taken = eo;
            captured = et;
            screen = screen;
            asked = asked;
            scale = scale;
          },
        )
  ]
]
