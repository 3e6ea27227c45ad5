-- ===== src/Linux/Shot/Ppm/Announced.antt =====
-- tools/linux/shinogi-shot.c: the three numbers of a header, as a reader of the format sees them.
use shinogi.Base.{
  ℕ, ◌+◌, ◌-◌, ◌*◌, ◌≤◌, ◌<◌, ◌≡◌, ◌≢◌, refl, ap, ◌∙◌, sym, subst, inl, inr, arith, Bool, true,
  false, ◌||◌, [], ◌∷◌, ◌++◌, append_assoc, some, Bytes, All, length, ltb, leb, ◌==◌, if◌then◌else◌,
  Bool-cases, Option-cases,
}
use shinogi.Base.Int.{ℤ, pos, negsuc, pos_part, int_limit}
use shinogi.Linux.Shot.Ppm.{is_blank, ppm_loop, ppm_int, Header, read_header}

abbrev pub IsDigit : ℕ → Type 0
IsDigit c = (48 ≤ c) × (c ≤ 57)

-- The number of decimal digits, behind those that stand for `n`.
abbrev pub value : ℕ → Bytes → ℕ
value n [] = n
value n (d ∷ ds) = value (n * 10 + (d - 48)) ds

-- A text, and what is left of it without its comments, which go from a `#` to the end of its line.
pub data Bare : Bytes → Bytes → Type 0 where
  no_more : Bare [] []
  other : {text left : Bytes} (c : ℕ) → c ≢ 35 → Bare text left → Bare (c ∷ text) (c ∷ left)
  comment :
      {text left : Bytes} (body : Bytes)
      → All (λ c. c ≢ 10) body
      → Bare text left
      → Bare (35 ∷ (body ++ 10 ∷ text)) left

-- A token in front: blanks, and digits for `n` behind those for `v`, with comments between them, up
-- to one blank; `got` is whether a digit came before.
pub record IsToken (got : Bool) (v : ℕ) (text : Bytes) (n : ℕ) (rest : Bytes) : Type 0 where
  pub front : Bytes
  pub blank : ℕ
  pub spaces : Bytes
  pub digits : Bytes
  pub shape : text ≡ front ++ blank ∷ rest
  pub ends : is_blank blank ≡ true
  pub bare : Bare front (spaces ++ digits)
  pub all_blank : All (λ c. is_blank c ≡ true) spaces
  pub all_digits : All IsDigit digits
  pub some_digit : got ≡ false → 0 < length digits
  pub no_spaces : got ≡ true → spaces ≡ []
  pub is_value : n ≡ value v digits

-- A number in front of the text.
abbrev pub IsNumber : Bytes → ℕ → Bytes → Type 0
IsNumber = IsToken false 0

-- The same inside a comment.
Within : Bool → Bool → ℕ → Bytes → ℕ → Bytes → Type 0
Within false got v text n rest = IsToken got v text n rest
Within true got v text n rest =
    (body : Bytes) × (text' : Bytes) × (text ≡ body ++ 10 ∷ text')
    × All (λ c. c ≢ 10) body
    × IsToken got v text' n rest

commented :
    (got : Bool) (v : ℕ) (cs : Bytes) (n : ℕ) (rest : Bytes)
    → Within true got v cs n rest
    → IsToken got v (35 ∷ cs) n rest
unfolding Within
commented got v cs n rest (body, text', e, plain, t) = record {
  front = 35 ∷ (body ++ 10 ∷ t.front);
  blank = t.blank;
  spaces = t.spaces;
  digits = t.digits;
  shape = ap (◌∷◌ 35) (
      e
      ∙ ap (λ l. body ++ 10 ∷ l) t.shape
      ∙ sym (append_assoc body (10 ∷ t.front) (t.blank ∷ rest)));
  ends = t.ends;
  bare = comment body plain t.bare;
  all_blank = t.all_blank;
  all_digits = t.all_digits;
  some_digit = t.some_digit;
  no_spaces = t.no_spaces;
  is_value = t.is_value;
}

spaced :
    (v c : ℕ) (cs : Bytes) (n : ℕ) (rest : Bytes)
    → is_blank c ≡ true
    → IsToken false v cs n rest
    → IsToken false v (c ∷ cs) n rest
spaced v c cs n rest b t = record {
  front = c ∷ t.front;
  blank = t.blank;
  spaces = c ∷ t.spaces;
  digits = t.digits;
  shape = ap (◌∷◌ c) t.shape;
  ends = t.ends;
  bare = other c (ground (arith, b)) t.bare;
  all_blank = (b, t.all_blank);
  all_digits = t.all_digits;
  some_digit = t.some_digit;
  no_spaces = λ e. absurd (cc);
  is_value = t.is_value;
}

digit_token :
    (got : Bool) (v c : ℕ) (cs : Bytes) (n : ℕ) (rest : Bytes)
    → IsDigit c
    → IsToken true (v * 10 + (c - 48)) cs n rest
    → IsToken got v (c ∷ cs) n rest
digit_token got v c cs n rest d t = record {
  front = c ∷ t.front;
  blank = t.blank;
  spaces = [];
  digits = c ∷ t.digits;
  shape = ap (◌∷◌ c) t.shape;
  ends = t.ends;
  bare =
      other c (ground (arith, d))
        (subst (λ s. Bare t.front (s ++ t.digits)) (t.no_spaces refl) t.bare);
  all_blank = tt;
  all_digits = (d, t.all_digits);
  some_digit = λ _. omega arith;
  no_spaces = λ _. refl;
  is_value = t.is_value;
}

ended : (v c : ℕ) (cs : Bytes) → is_blank c ≡ true → IsToken true v (c ∷ cs) v cs
ended v c cs b = record {
  front = [];
  blank = c;
  spaces = [];
  digits = [];
  shape = refl;
  ends = b;
  bare = no_more;
  all_blank = tt;
  all_digits = tt;
  some_digit = λ e. absurd (cc);
  no_spaces = λ _. refl;
  is_value = refl;
}

at_blank :
    (got : Bool) (v c : ℕ) (cs : Bytes) (n : ℕ) (rest : Bytes)
    → is_blank c ≡ true
    → (if got then some (pos v, cs) else ppm_loop false got v cs) ≡ some (pos n, rest)
    → (ppm_loop false got v cs ≡ some (pos n, rest) → IsToken got v cs n rest)
    → IsToken got v (c ∷ cs) n rest
at_blank true v c cs n rest b e more =
    let same_n : v ≡ n = cc in
    let same_rest : cs ≡ rest = cc in rw (← same_n) (rw (← same_rest) (ended v c cs b))
at_blank false v c cs n rest b e more = spaced v c cs n rest b (more e)

ppm_loop-Within :
    (hidden got : Bool) (v : ℕ) (text : Bytes) (n : ℕ) (rest : Bytes)
    → ppm_loop hidden got v text ≡ some (pos n, rest)
    → Within hidden got v text n rest
unfolding ppm_loop Within
ppm_loop-Within hidden got v [] n rest e = absurd (cc)
ppm_loop-Within true got v (c ∷ cs) n rest e = elim (Bool-cases (c == 10)) [
  | inl ends ↦
      let newline : c ≡ 10 = ground (arith, ends) in
      let t = ppm_loop-Within false got v cs n rest (rw (ends, ppm_loop) at e) in
      ([], cs, ap (λ x. x ∷ cs) newline, tt, t)
  | inr goes_on ↦
      let inside : c ≢ 10 = ground (arith, goes_on) in
      let (body, text', shape, plain, t) =
        ppm_loop-Within true got v cs n rest (rw (goes_on, ppm_loop) at e) in
      (c ∷ body, text', ap (◌∷◌ c) shape, (inside, plain), t)
]
ppm_loop-Within false got v (c ∷ cs) n rest e = elim (Bool-cases (c == 35)) [
  | inl hash ↦
      let mark : c ≡ 35 = ground (arith, hash) in
      rw mark (
        commented got v cs n rest (ppm_loop-Within true got v cs n rest (rw (hash, ppm_loop) at e)))
  | inr not_hash ↦ elim (Bool-cases (is_blank c)) [
    | inl blank ↦
        at_blank got v c cs n rest blank (rw (not_hash, blank, ppm_loop) at e)
          (ppm_loop-Within false got v cs n rest)
    | inr solid ↦ elim (Bool-cases (ltb c 48 || ltb 57 c)) [
      | inl bad ↦ let stop = rw (not_hash, solid, bad, ppm_loop) at e in absurd (cc)
      | inr good ↦ elim (Bool-cases (leb int_limit (v * 10 + (c - 48)))) [
        | inl over ↦ let stop = rw (not_hash, solid, good, over, ppm_loop) at e in absurd (cc)
        | inr fits ↦ digit_token got v c cs n rest (ground (arith, good)) (
            ppm_loop-Within false true (v * 10 + (c - 48)) cs n rest
              (rw (not_hash, solid, good, fits, ppm_loop) at e))
      ]
    ]
  ]
]

ppm_int-IsNumber :
    (text : Bytes) (n : ℕ) (rest : Bytes) → ppm_int text ≡ some (pos n, rest) → IsNumber text n rest
unfolding ppm_int Within
ppm_int-IsNumber text n rest e = ppm_loop-Within false false 0 text n rest e

-- The three numbers behind `P6`, and what follows them.
pub record IsHeader (text : Bytes) (w h maxval : ℕ) (rest : Bytes) : Type 0 where
  pub text1 : Bytes
  pub text2 : Bytes
  pub width : IsNumber text w text1
  pub height : IsNumber text1 h text2
  pub depth : IsNumber text2 maxval rest

read_header-IsHeader :
    (text : Bytes) (w h maxval : ℕ) (rest : Bytes)
    → read_header text ≡ some (record { w = pos w; h = pos h; maxval = pos maxval; rest = rest })
    → IsHeader text w h maxval rest
unfolding read_header
read_header-IsHeader text w h maxval rest e = elim (Option-cases (ppm_int text)) [
  | inl over ↦ let bad = rw (over, read_header) at e in absurd (cc)
  | inr ((w', text1), e1) ↦
      let rest1 = rw (e1, read_header) at e in
      elim (Option-cases (ppm_int text1)) [
        | inl over ↦ let bad = rw over at rest1 in absurd (cc)
        | inr ((h', text2), e2) ↦
            let rest2 = rw e2 at rest1 in
            elim (Option-cases (ppm_int text2)) [
              | inl over ↦ let bad = rw over at rest2 in absurd (cc)
              | inr ((maxval', rest'), e3) ↦
                  let made = rw e3 at rest2 in
                  let is_w : w' ≡ pos w = cc in
                  let is_h : h' ≡ pos h = cc in
                  let is_max : maxval' ≡ pos maxval = cc in
                  let is_rest : rest' ≡ rest = cc in
                  record {
                    text1 = text1;
                    text2 = text2;
                    width = ppm_int-IsNumber text w text1 (e1 ∙ ap (λ x. some (x, text1)) is_w);
                    height = ppm_int-IsNumber text1 h text2 (e2 ∙ ap (λ x. some (x, text2)) is_h);
                    depth = ppm_int-IsNumber text2 maxval rest (
                        e3
                        ∙ ap (λ x. some (x, rest')) is_max
                        ∙ ap (λ r. some (pos maxval, r)) is_rest);
                  }
            ]
      ]
]

positive : (z : ℤ) → (pos_part z == 0) ≡ false → z ≡ pos (pos_part z)
positive (pos n) h = refl
positive (negsuc n) h = absurd (cc)

-- Of a header with three positive numbers.
pub read_header-announced :
    (text : Bytes) (p : Header)
    → read_header text ≡ some p
    → (pos_part p.w == 0) ≡ false
    → (pos_part p.h == 0) ≡ false
    → (pos_part p.maxval == 0) ≡ false
    → IsHeader text (pos_part p.w) (pos_part p.h) (pos_part p.maxval) p.rest
read_header-announced text p e pw ph pm =
    let w = positive p.w pw in
    let h = positive p.h ph in
    let m = positive p.maxval pm in
    read_header-IsHeader text (pos_part p.w) (pos_part p.h) (pos_part p.maxval) p.rest
      (e ∙ (λ i. some (record { w = w i; h = h i; maxval = m i; rest = p.rest })))
