-- ===== src/Win/Resolution/Stored/SizeLine.antt =====
-- tools/win/resolution.c: the line that is written is a whole line for the key.
use shinogi.Base.{
  inl, inr, ℕ, ◌+◌, ◌/◌, ◌%◌, ◌≤◌, ◌<◌, ◌≡◌, refl, ap, ◌∙◌, sym, arith, Bool, true, false, not,
  ◌||◌, ◌&&◌, [], ◌∷◌, ◌++◌, append_assoc, Bytes, codes, length, length-append, ltb, ◌==◌,
  Bool-cases,
}
use shinogi.Win.Resolution.{res_value, res_line, decimal_text}
use shinogi.Win.Resolution.Parsed.{IsSize, written, written-res_value}
use shinogi.Win.Resolution.Stored.{has_newline, is_some, cut_comment}
use shinogi.Win.Resolution.Stored.Chunks.{ended}
use shinogi.Win.Resolution.Stored.Kept.{IsSizeLine}

-- No character of the text is a newline or begins a comment.
abbrev plain : Bytes → Bool
plain [] = true
plain (c ∷ cs) = not (c == 10) && not (c == b'#' || c == b';') && plain cs

plain-append : (p q : Bytes) → plain p ≡ true → plain q ≡ true → plain (p ++ q) ≡ true
plain-append [] q h k = k
plain-append (c ∷ p) q h k = ground (arith, plain-append p q)

plain_digit :
    (n : ℕ) → n < 11 → (not (n + b'0' == 10) && not (n + b'0' == b'#' || n + b'0' == b';')) ≡ true
plain_digit n h = ground arith

plain_digits :
    (a b c : ℕ)
    → a < 11
    → b < 11
    → c < 11
    → plain ((a + b'0') ∷ (b + b'0') ∷ (c + b'0') ∷ []) ≡ true
plain_digits a b c ha hb hc = ground (arith, plain_digit a ha, plain_digit b hb, plain_digit c hc)

plain-cons : (d : ℕ) (cs : Bytes) → d < 11 → plain cs ≡ true → plain ((d + b'0') ∷ cs) ≡ true
plain-cons d cs h k = ground (arith, plain_digit d h)

decimal_text-plain :
    (n : ℕ) → n < 10000 → (plain (decimal_text n) ≡ true) × (length (decimal_text n) ≤ 4)
unfolding decimal_text
decimal_text-plain n h =
    let last : Bytes = (n / 100 % 10 + b'0') ∷ (n / 10 % 10 + b'0') ∷ (n % 10 + b'0') ∷ [] in
    let low : plain last ≡ true =
      plain_digits (n / 100 % 10) (n / 10 % 10) (n % 10) (omega arith) (omega arith)
        (omega arith) in
    elim (Bool-cases (ltb n 1000)) [
      | inl small ↦ rw small (low, omega arith)
      | inr large ↦ rw large (plain-cons (n / 1000) last (omega (arith, h)) low, omega arith)
    ]

plain-has_newline : (p : Bytes) → plain p ≡ true → has_newline p ≡ false
unfolding has_newline
plain-has_newline [] h = refl
plain-has_newline (c ∷ p) h = ground (arith, plain-has_newline p)

cut_comment-plain : (p : Bytes) → plain p ≡ true → cut_comment (p ++ 10 ∷ []) ≡ p ++ 10 ∷ []
unfolding cut_comment
cut_comment-plain [] h = refl
cut_comment-plain (c ∷ p) h = ground (arith, cut_comment-plain p)

-- The line without its newline.
abbrev front : ℕ → ℕ → Bytes
front w h = codes "res = " ++ (decimal_text w ++ (b'x' ∷ (decimal_text h ++ (13 ∷ []))))

module _ (w h : ℕ) (size : IsSize w h) where
  wide : (plain (decimal_text w) ≡ true) × (length (decimal_text w) ≤ 4)
  wide = decimal_text-plain w (omega (arith, size.w_max))

  high : (plain (decimal_text h) ≡ true) × (length (decimal_text h) ≤ 4)
  high = decimal_text-plain h (omega (arith, size.h_max))

  behind_x : plain (b'x' ∷ (decimal_text h ++ (13 ∷ []))) ≡ true
  behind_x = plain-append (decimal_text h) (13 ∷ []) high.0 refl

  size_text : plain (decimal_text w ++ (b'x' ∷ (decimal_text h ++ (13 ∷ [])))) ≡ true
  size_text = plain-append (decimal_text w) (b'x' ∷ (decimal_text h ++ (13 ∷ []))) wide.0 behind_x

  front_last :
      (text : Bytes)
      → (decimal_text w ++ (b'x' ∷ (decimal_text h ++ (13 ∷ [])))) ++ text
        ≡ decimal_text w ++ (b'x' ∷ (decimal_text h ++ (13 ∷ text)))
  front_last text =
      append_assoc (decimal_text w) (b'x' ∷ (decimal_text h ++ (13 ∷ []))) text
      ∙ ap (λ (t : Bytes). decimal_text w ++ (b'x' ∷ t))
          (append_assoc (decimal_text h) (13 ∷ []) text)

  pub res_line-IsSizeLine : IsSizeLine (res_line w h)
  unfolding res_line
  res_line-IsSizeLine =
      let sets : is_some (res_value (res_line w h)) ≡ true = ap is_some (written-res_value w h) in
      record {
        whole =
            ended (front w h) (ap (λ (t : Bytes). codes "res = " ++ t) (sym (front_last (10 ∷ []))))
              (plain-has_newline (front w h) size_text)
              (omega (
                arith,
                wide.1,
                high.1,
                length-append (decimal_text w) (b'x' ∷ (decimal_text h ++ (13 ∷ []))),
                length-append (decimal_text h) (13 ∷ []),
              ));
        sets = sets;
      }

  -- No comment is cut off the value.
  pub cut_comment-written : cut_comment (written w h) ≡ written w h
  cut_comment-written =
      let text = b' ' ∷ (decimal_text w ++ (b'x' ∷ (decimal_text h ++ (13 ∷ [])))) in
      let whole : text ++ 10 ∷ [] ≡ written w h = ap (◌∷◌ b' ') (front_last (10 ∷ [])) in
      rw (← whole) (cut_comment-plain text size_text)
