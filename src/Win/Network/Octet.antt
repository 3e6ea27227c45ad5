-- ===== src/Win/Network/Octet.antt =====
-- What the inner loop of `network_ipv4` takes.
use shinogi.Base.{
  ℕ, ◌+◌, ◌-◌, ◌*◌, ◌≤◌, true, false, [], ◌∷◌, ◌++◌, some, ◌≡◌, ap, ◌∙◌, arith, Bytes, All, length,
  inl, inr, Bool-cases,
}
use shinogi.Win.Network.{is_digit, octet_loop}

-- The value of decimal digits, behind a number that stands for those before.
abbrev pub decimal : ℕ → Bytes → ℕ
decimal n [] = n
decimal n (c ∷ cs) = decimal (n * 10 + (c - b'0')) cs

-- One part of an address: one to three digits, of at most 255 in value.
pub record IsPart (ds : Bytes) : Type 0 where
  pub digits : All (λ c. is_digit c ≡ true) ds
  pub size_min : 1 ≤ length ds
  pub size_max : length ds ≤ 3
  pub value_max : decimal 0 ds ≤ 255

-- The text does not go on with a digit.
abbrev pub Stops : Bytes → Type 0
Stops [] = Unit {0}
Stops (c ∷ cs) = is_digit c ≡ false

decimal-le : (n : ℕ) (ds : Bytes) → n ≤ decimal n ds
decimal-le n [] = omega arith
decimal-le n (c ∷ ds) = omega (arith, decimal-le (n * 10 + (c - b'0')) ds)

octet_loop-digits :
    (ds rest : Bytes) (n k : ℕ)
    → All (λ c. is_digit c ≡ true) ds
    → Stops rest
    → k + length ds ≤ 3
    → decimal n ds ≤ 255
    → octet_loop n k (ds ++ rest) ≡ some (decimal n ds, k + length ds, rest)
unfolding octet_loop
octet_loop-digits [] [] n k h s p q = ground arith
octet_loop-digits [] (c ∷ rest) n k h s p q = ground arith
octet_loop-digits (d ∷ ds) rest n k h s p q = ground (
  arith,
  h.0,
  decimal-le (n * 10 + (d - b'0')) ds,
  octet_loop-digits ds rest (n * 10 + (d - b'0')) (k + 1) h.1 s (omega (arith, p)) q,
)

-- What the inner loop has taken.
pub record Took (n k : ℕ) (text : Bytes) (octet digits : ℕ) (rest : Bytes) : Type 0 where
  pub ds : Bytes
  pub splits : text ≡ ds ++ rest
  pub all_digits : All (λ c. is_digit c ≡ true) ds
  pub octet_is : octet ≡ decimal n ds
  pub digits_is : digits ≡ k + length ds
  pub digits_max : digits ≤ 3
  pub octet_max : octet ≤ 255

pub octet_loop-Took :
    (text : Bytes) (n k octet digits : ℕ) (rest : Bytes)
    → k ≤ 3
    → n ≤ 255
    → octet_loop n k text ≡ some (octet, digits, rest)
    → Took n k text octet digits rest
unfolding octet_loop
octet_loop-Took [] n k o g rest p q h = record {
  ds = [];
  splits = ground arith;
  all_digits = tt;
  octet_is = ground arith;
  digits_is = ground arith;
  digits_max = ground arith;
  octet_max = ground arith;
}
octet_loop-Took (c ∷ text) n k o g rest p q h = elim (Bool-cases (is_digit c)) [
  | inr other ↦ record {
    ds = [];
    splits = ground arith;
    all_digits = tt;
    octet_is = ground arith;
    digits_is = ground arith;
    digits_max = ground arith;
    octet_max = ground arith;
  }
  | inl digit ↦
      let t =
        octet_loop-Took text (n * 10 + (c - b'0')) (k + 1) o g rest (ground arith) (ground arith)
          (ground arith) in
      record {
        ds = c ∷ t.ds;
        splits = ap (◌∷◌ c) t.splits;
        all_digits = (digit, t.all_digits);
        octet_is = t.octet_is;
        digits_is = omega (arith, t.digits_is);
        digits_max = t.digits_max;
        octet_max = t.octet_max;
      }
]

pub octet_loop-part :
    (p rest : Bytes)
    → IsPart p
    → Stops rest
    → octet_loop 0 0 (p ++ rest) ≡ some (decimal 0 p, length p, rest)
octet_loop-part p rest h s =
    octet_loop-digits p rest 0 0 h.digits s (omega (arith, h.size_max)) h.value_max
    ∙ ap (λ k. some (decimal 0 p, k, rest)) (omega arith)
