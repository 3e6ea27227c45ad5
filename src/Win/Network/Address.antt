-- ===== src/Win/Network/Address.antt =====
-- What `network_ipv4` accepts.
use shinogi.Base.{
  ℕ, zero, suc, ◌+◌, ◌*◌, ◌^◌, ◌<◌, false, List, [], ◌∷◌, ◌++◌, some, ◌≡◌, ◌↔◌, refl, sym, ap, ◌∙◌,
  arith, Bytes, All, length, inl, inr, ◌==◌, Bool-cases, Option-cases, append_assoc, append-nil,
}
use shinogi.Win.Network.{octet_loop, after_part, part_loop, network_ipv4}
use shinogi.Win.Network.Octet.{decimal, IsPart, Stops, octet_loop-Took, octet_loop-part}

-- The parts with dots between them.
abbrev pub dotted : List Bytes → Bytes
dotted [] = []
dotted (p ∷ []) = p
dotted (p ∷ q ∷ ps) = p ++ b'.' ∷ dotted (q ∷ ps)

-- The parts as digits in base 256.
abbrev pub value : ℕ → List Bytes → ℕ
value r [] = r
value r (p ∷ ps) = value (r * 2 ^ 8 + decimal 0 p) ps

-- One round: a part, and what stands behind it.
part_loop-part :
    (left r : ℕ) (p rest rest' : Bytes)
    → IsPart p
    → Stops rest
    → after_part left rest ≡ some rest'
    → part_loop (suc left) r (p ++ rest) ≡ part_loop left (r * 2 ^ 8 + decimal 0 p) rest'
unfolding part_loop
part_loop-part left r p rest rest' h s a =
    let some_digit : (length p == 0) ≡ false = ground (arith, h.size_min) in
    rw (octet_loop-part p rest h s, some_digit, a, part_loop) refl

part_loop-dotted :
    (ps : List Bytes) (r : ℕ)
    → All IsPart ps
    → part_loop (length ps) r (dotted ps) ≡ some (value r ps, [])
unfolding part_loop after_part
part_loop-dotted [] r h = refl
part_loop-dotted (p ∷ []) r h =
    ap (part_loop 1 r) (sym (append-nil p)) ∙ part_loop-part 0 r p [] [] h.0 tt refl
part_loop-dotted (p ∷ q ∷ ps) r h =
    part_loop-part (suc (length ps)) r p (b'.' ∷ dotted (q ∷ ps)) (dotted (q ∷ ps)) h.0 refl
      (ground arith)
    ∙ part_loop-dotted (q ∷ ps) (r * 2 ^ 8 + decimal 0 p) h.1

-- What the outer loop has taken: so many parts, and behind them the rest.
record Parts (left r : ℕ) (text : Bytes) (v : ℕ) (rest : Bytes) : Type 0 where
  parts : List Bytes
  count : length parts ≡ left
  each : All IsPart parts
  splits : text ≡ dotted parts ++ rest
  value_is : v ≡ value r parts

after_part-splits :
    (left : ℕ) (rest rest' : Bytes) (p : Bytes) (ps : List Bytes) (behind : Bytes)
    → after_part left rest ≡ some rest'
    → length ps ≡ left
    → rest' ≡ dotted ps ++ behind
    → p ++ rest ≡ dotted (p ∷ ps) ++ behind
unfolding after_part
after_part-splits zero rest rest' p [] behind a n e = ap (λ x. p ++ x) (cc)
after_part-splits zero rest rest' p (q ∷ ps) behind a n e = absurd (omega (arith, n))
after_part-splits (suc left) rest rest' p [] behind a n e = absurd (omega (arith, n))
after_part-splits (suc left) [] rest' p (q ∷ ps) behind a n e = absurd (cc)
after_part-splits (suc left) (c ∷ rest) rest' p (q ∷ ps) behind a n e =
    let dot : c ≡ b'.' = ground arith in
    let same : rest ≡ rest' = ground arith in
    rw (dot, same, e) (sym (append_assoc p (b'.' ∷ dotted (q ∷ ps)) behind))

part_loop-Parts :
    (left r : ℕ) (text : Bytes) (v : ℕ) (rest : Bytes)
    → part_loop left r text ≡ some (v, rest)
    → Parts left r text v rest
unfolding part_loop
part_loop-Parts zero r text v rest h = record {
  parts = [];
  count = refl;
  each = tt;
  splits = ground arith;
  value_is = ground arith;
}
part_loop-Parts (suc left) r text v rest h = elim (Option-cases (octet_loop 0 0 text)) [
  | inl e ↦ absurd (ground arith)
  | inr ((o, g, after), e) ↦
      let t = octet_loop-Took text 0 0 o g after (omega arith) (omega arith) e in
      elim (Bool-cases (g == 0)) [
        | inl no_digit ↦ absurd (ground arith)
        | inr digit ↦ elim (Option-cases (after_part left after)) [
          | inl m ↦ absurd (ground arith)
          | inr (text', m) ↦
              let more = part_loop-Parts left (r * 2 ^ 8 + o) text' v rest (ground arith) in
              record {
                parts = t.ds ∷ more.parts;
                count = omega (arith, more.count);
                each = (
                  record {
                    digits = t.all_digits;
                    size_min = ground (arith, t.digits_is);
                    size_max = omega (arith, t.digits_is, t.digits_max);
                    value_max = omega (arith, t.octet_is, t.octet_max);
                  },
                  more.each,
                );
                splits =
                    t.splits
                    ∙ after_part-splits left after text' t.ds more.parts rest m more.count
                        more.splits;
                value_is = more.value_is ∙ ap (λ x. value (r * 2 ^ 8 + x) more.parts) t.octet_is;
              }
        ]
      ]
]

-- An address in dotted decimal: four parts of one to three digits and of at most 255, whose value
-- is `v` in base 256.
pub record IsAddress (text : Bytes) (v : ℕ) : Type 0 where
  pub parts : List Bytes
  pub count : length parts ≡ 4
  pub each : All IsPart parts
  pub is_text : text ≡ dotted parts
  pub is_value : v ≡ value 0 parts

network_ipv4-to_IsAddress : (text : Bytes) (v : ℕ) → network_ipv4 text ≡ some v → IsAddress text v
unfolding network_ipv4
network_ipv4-to_IsAddress text v h = elim (Option-cases (part_loop 4 0 text)) [
  | inl e ↦ absurd (ground arith)
  | inr ((r, c ∷ cs), e) ↦ absurd (ground arith)
  | inr ((r, []), e) ↦
      let t = part_loop-Parts 4 0 text r [] e in
      record {
        parts = t.parts;
        count = t.count;
        each = t.each;
        is_text = t.splits ∙ append-nil (dotted t.parts);
        is_value = ground (arith, t.value_is);
      }
]

network_ipv4-of_IsAddress : (text : Bytes) (v : ℕ) → IsAddress text v → network_ipv4 text ≡ some v
unfolding network_ipv4
network_ipv4-of_IsAddress text v a =
    let e = rw a.count at (part_loop-dotted a.parts 0 a.each) in
    rw (a.is_text, e, network_ipv4) (ap some (sym a.is_value))

-- `network_ipv4` accepts a text exactly when it is four decimal parts with dots between them, each of
-- one to three digits and of at most 255, and yields the number that they are in base 256.
pub network_ipv4_iff : (text : Bytes) (v : ℕ) → (network_ipv4 text ≡ some v) ↔ IsAddress text v
network_ipv4_iff text v = (network_ipv4-to_IsAddress text v, network_ipv4-of_IsAddress text v)

value-lt : (ps : List Bytes) → length ps ≡ 4 → All IsPart ps → value 0 ps < 2 ^ 32
value-lt (a ∷ b ∷ c ∷ d ∷ []) n h =
    omega (arith, h.0.value_max, h.1.0.value_max, h.1.1.0.value_max, h.1.1.1.0.value_max)
value-lt [] n h = absurd (omega (arith, n))
value-lt (_ ∷ []) n h = absurd (omega (arith, n))
value-lt (_ ∷ _ ∷ []) n h = absurd (omega (arith, n))
value-lt (_ ∷ _ ∷ _ ∷ []) n h = absurd (omega (arith, n))
value-lt (_ ∷ _ ∷ _ ∷ _ ∷ _ ∷ ps) n h = absurd (omega (arith, n))

-- The value fits 32 bits.
pub network_ipv4-lt : (text : Bytes) (v : ℕ) → network_ipv4 text ≡ some v → v < 2 ^ 32
network_ipv4-lt text v h =
    let a = (network_ipv4_iff text v).0 h in
    omega (arith, a.is_value, value-lt a.parts a.count a.each)
