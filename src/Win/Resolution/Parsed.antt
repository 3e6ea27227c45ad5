-- ===== src/Win/Resolution/Parsed.antt =====
-- What `shinogi_parse_resolution` makes of the line that is written.
use shinogi.Base.{
  inl, inr, ℕ, ◌+◌, ◌*◌, ◌/◌, ◌%◌, ◌≤◌, ◌<◌, Bool, true, false, [], ◌∷◌, ◌++◌, some, ◌≡◌, refl, ap,
  ◌∙◌, arith, Bytes, starts_with, ltb, ◌==◌, Bool-cases, Option-cases,
}
use shinogi.Win.Network.{is_digit}
use shinogi.Win.Network.Hook.{is_space}
use shinogi.Win.Resolution.{
  read_digits, skip_space, read_sign, after_sign, strtol, overflows, size_ok, parse_height,
  shinogi_parse_resolution, skip_blank, value_text, res_value, decimal_text, res_line,
}

-- A size that the two launchers accept.
pub record IsSize (w h : ℕ) : Type 0 where
  pub w_min : 320 ≤ w
  pub w_max : w ≤ 1920
  pub w_eight : w % 8 ≡ 0
  pub h_min : 200 ≤ h
  pub h_max : h ≤ 1080

-- The text does not go on with a digit.
abbrev Ends : Bytes → Type 0
Ends [] = Unit {0}
Ends (c ∷ cs) = is_digit c ≡ false

read_digits-stop : (n : ℕ) (rest : Bytes) → Ends rest → read_digits n rest ≡ (n, rest)
unfolding read_digits
read_digits-stop n [] s = refl
read_digits-stop n (c ∷ cs) s = rw s

read_digits-digit :
    (n d : ℕ) (cs : Bytes) → d < 10 → read_digits n ((d + b'0') ∷ cs) ≡ read_digits (n * 10 + d) cs
unfolding read_digits
read_digits-digit n d cs h =
    let digit : is_digit (d + b'0') ≡ true = ground arith in
    rw digit (ap (λ x. read_digits (n * 10 + x) cs) (omega arith))

three_digits :
    (n : ℕ) (m : ℕ) (rest : Bytes)
    → Ends rest
    → read_digits m ((n / 100 % 10 + b'0') ∷ (n / 10 % 10 + b'0') ∷ (n % 10 + b'0') ∷ rest)
      ≡ (((m * 10 + n / 100 % 10) * 10 + n / 10 % 10) * 10 + n % 10, rest)
three_digits n m rest s =
    read_digits-digit m (n / 100 % 10) _ (omega arith)
    ∙ read_digits-digit (m * 10 + n / 100 % 10) (n / 10 % 10) _ (omega arith)
    ∙ read_digits-digit ((m * 10 + n / 100 % 10) * 10 + n / 10 % 10) (n % 10) _ (omega arith)
    ∙ read_digits-stop _ rest s

read_digits-decimal_text :
    (n : ℕ) (rest : Bytes)
    → 100 ≤ n
    → n < 10000
    → Ends rest
    → read_digits 0 (decimal_text n ++ rest) ≡ (n, rest)
unfolding decimal_text
read_digits-decimal_text n rest h k s = elim (Bool-cases (ltb n 1000)) [
  | inl small ↦
      rw (small, decimal_text) (three_digits n 0 rest s ∙ ap (λ x. (x, rest)) (ground arith))
  | inr large ↦
      rw (large, decimal_text)
        (read_digits-digit 0 (n / 1000) _ (omega (arith, k))
          ∙ three_digits n (0 * 10 + n / 1000) rest s
          ∙ ap (λ x. (x, rest)) (ground arith))
]

skip_space-digit : (c : ℕ) (cs : Bytes) → is_digit c ≡ true → skip_space (c ∷ cs) ≡ c ∷ cs
unfolding skip_space
skip_space-digit c cs h = let visible : is_space c ≡ false = ground arith in rw visible

read_sign-digit : (c : ℕ) (cs : Bytes) → is_digit c ≡ true → read_sign (c ∷ cs) ≡ (false, c ∷ cs)
unfolding read_sign
read_sign-digit c cs h =
    let no_minus : (c == b'-') ≡ false = ground arith in
    let no_plus : (c == b'+') ≡ false = ground arith in rw (no_minus, no_plus)

-- A number that is read whole, in front of which no sign stands.
strtol-digit :
    (c n : ℕ) (cs rest : Bytes)
    → is_digit c ≡ true
    → read_digits 0 (c ∷ cs) ≡ (n, rest)
    → strtol (c ∷ cs) ≡ some (false, n, rest)
unfolding strtol after_sign
strtol-digit c n cs rest h e =
    rw (skip_space-digit c cs h, read_sign-digit c cs h, strtol) (rw (h, e) refl)

decimal_text-first :
    (n : ℕ) → n < 10000 → (c : ℕ) × (cs : Bytes) × (decimal_text n ≡ c ∷ cs) × (is_digit c ≡ true)
unfolding decimal_text
decimal_text-first n h =
    let low : Bytes = (n / 10 % 10 + b'0') ∷ (n % 10 + b'0') ∷ [] in
    elim (Bool-cases (ltb n 1000)) [
      | inl small ↦ (n / 100 % 10 + b'0', low, rw (small, decimal_text) refl, ground arith)
      | inr large ↦ (
        n / 1000 + b'0',
        (n / 100 % 10 + b'0') ∷ low,
        rw (large, decimal_text) refl,
        ground arith,
      )
    ]

strtol-decimal_text :
    (n : ℕ) (rest : Bytes)
    → 100 ≤ n
    → n < 10000
    → Ends rest
    → strtol (decimal_text n ++ rest) ≡ some (false, n, rest)
strtol-decimal_text n rest h k s =
    let read = read_digits-decimal_text n rest h k s in
    let (c, cs, e, digit) = decimal_text-first n k in
    rw e (strtol-digit c n (cs ++ rest) rest digit (rw e at read))

parse_height-IsSize :
    (m : Bool) (w w' h' : ℕ) (text : Bytes) → parse_height m w text ≡ some (w', h') → IsSize w' h'
unfolding parse_height size_ok
parse_height-IsSize m w w' h' text e = elim (Option-cases (strtol text)) [
  | inl none_there ↦ absurd (ground arith)
  | inr ((n, h, rest), found) ↦
      let ok_size : size_ok m w n h ≡ true = ground arith in
      let same : (w ≡ w') × (h ≡ h') = (ground arith, ground arith) in
      record {
        w_min = ground arith;
        w_max = ground arith;
        w_eight = ground arith;
        h_min = ground arith;
        h_max = ground arith;
      }
]

parsed : (w h : ℕ) (text : Bytes) → shinogi_parse_resolution text ≡ some (w, h) → IsSize w h
unfolding shinogi_parse_resolution
parsed w h text e = elim (Option-cases (strtol text)) [
  | inl none_there ↦ absurd (ground arith)
  | inr ((m, n, []), found) ↦ absurd (ground arith)
  | inr ((m, n, c ∷ rest), found) ↦ parse_height-IsSize m n w h rest (ground arith)
]

-- The text behind the sign of equality.
abbrev pub written : ℕ → ℕ → Bytes
written w h = b' ' ∷ (decimal_text w ++ (b'x' ∷ (decimal_text h ++ (b'\r' ∷ b'\n' ∷ []))))

pub written-res_value : (w h : ℕ) → res_value (res_line w h) ≡ some (written w h)
unfolding res_value res_line skip_blank value_text starts_with
written-res_value w h = refl

strtol-space : (cs : Bytes) → strtol (b' ' ∷ cs) ≡ strtol cs
unfolding strtol skip_space
strtol-space cs = refl

pub written-parsed : (w h : ℕ) → IsSize w h → shinogi_parse_resolution (written w h) ≡ some (w, h)
unfolding shinogi_parse_resolution parse_height size_ok skip_space
written-parsed w h s =
    let end_h : Bytes = b'\r' ∷ b'\n' ∷ [] in
    let read_w =
      strtol-space _
      ∙ strtol-decimal_text w (b'x' ∷ (decimal_text h ++ end_h)) (omega (arith, s.w_min))
          (omega (arith, s.w_max)) refl in
    let read_h =
      strtol-decimal_text h end_h (omega (arith, s.h_min)) (omega (arith, s.h_max)) refl in
    let fits : size_ok false w false h ≡ true =
      ground (arith, s.w_min, s.w_max, s.w_eight, s.h_min, s.h_max) in
    let w_fits : overflows w ≡ false = ground (arith, s.w_max) in
    let h_fits : overflows h ≡ false = ground (arith, s.h_max) in
    rw (read_w, w_fits, shinogi_parse_resolution) (rw (read_h, h_fits, fits, parse_height) refl)

-- What is parsed is within the limits, and the line that is written for a size within them is read
-- back as this size.
pub shinogi_parse_resolution_lem :
    (w h : ℕ)
    → ((text : Bytes) → shinogi_parse_resolution text ≡ some (w, h) → IsSize w h)
      × (IsSize w h
          → (value : Bytes) × (res_value (res_line w h) ≡ some value)
            × (shinogi_parse_resolution value ≡ some (w, h)))
shinogi_parse_resolution_lem w h = (
  λ text e. parsed w h text e,
  λ size. (written w h, written-res_value w h, written-parsed w h size),
)
