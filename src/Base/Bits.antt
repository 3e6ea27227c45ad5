-- ===== src/Base/Bits.antt =====
-- Masks in the arithmetic of the native numbers: `bit_and` with a run of ones.
use Prim.Native.Nat.{min, bit_and, digits, bit_and-bitwise}
use Prim.Native.Nat.{ℕ, zero, suc, ◌+◌, ◌-◌, ◌*◌, ◌/◌, ◌%◌, ◌≤◌, ◌<◌}
use mathlib.Core.Path.{◌≡◌, refl, ap, ◌∙◌}
use mathlib.Core.Logic.{inl, inr}
use native.Mathlib.Omega.{arith}
use shinogi.Base.Tests.{◌==◌, Bool-cases}

-- The digits of `x` are compared, `n` of them.
abbrev common : ℕ → ℕ → ℕ → ℕ
common n x y = digits (λ _. zero) min n x y

common_enough : (m n x y : ℕ) → x ≤ m → x ≤ n → common m x y ≡ common n x y
common_enough zero zero x y h k = refl
common_enough zero (suc n) zero y h k = refl
common_enough (suc m) zero zero y h k = refl
common_enough (suc m) (suc n) zero y h k = refl
common_enough zero (suc n) (suc x) y h k = absurd (omega (arith, h))
common_enough (suc m) zero (suc x) y h k = absurd (omega (arith, k))
common_enough (suc m) (suc n) (suc x) y h k =
    let half = common_enough m n (suc x / 2) (y / 2) (omega (arith, h)) (omega (arith, k)) in
    omega (arith, half)

-- The lowest digit, and the others.
pub bit_and_halves : (x y : ℕ) → bit_and x y ≡ bit_and (x / 2) (y / 2) * 2 + min (x % 2) (y % 2)
bit_and_halves zero y =
    let here : bit_and 0 y ≡ 0 = bit_and-bitwise 0 y in
    let there : bit_and 0 (y / 2) ≡ 0 = bit_and-bitwise 0 (y / 2) in omega (arith, here, there)
bit_and_halves (suc x) y =
    let enough = common_enough x (suc x / 2) (suc x / 2) (y / 2) (omega arith) (omega arith) in
    omega (arith, bit_and-bitwise (suc x) y, bit_and-bitwise (suc x / 2) (y / 2), enough)

-- `q` behind which `k` zero digits stand.
abbrev pub shift : ℕ → ℕ → ℕ
shift zero q = q
shift (suc k) q = shift k q * 2

pub shift-pos : (k : ℕ) → 1 ≤ shift k 1
shift-pos zero = omega arith
shift-pos (suc k) = omega (arith, shift-pos k)

bit_and-zero_of : (n x : ℕ) → x ≤ n → bit_and x 0 ≡ 0
bit_and-zero_of n zero h = refl
bit_and-zero_of zero (suc x) h = absurd (omega (arith, h))
bit_and-zero_of (suc n) (suc x) h =
    omega (arith, bit_and_halves (suc x) 0, bit_and-zero_of n (suc x / 2) (omega (arith, h)))

-- With the low `k` bits set, what is left is the part below.
pub bit_and-low : (k q r x : ℕ) → x ≡ shift k q + r → r < shift k 1 → bit_and x (shift k 1 - 1) ≡ r
bit_and-low zero q r x e h = omega (arith, bit_and-zero_of x x (omega arith), h)
bit_and-low (suc k) q r x e h =
    let p = shift-pos k in
    let mask : (shift k 1 * 2 - 1) / 2 ≡ shift k 1 - 1 = omega (arith, p) in
    let ih = bit_and-low k q (r / 2) (x / 2) (omega (arith, e)) (omega (arith, h)) in
    omega (arith, bit_and_halves x (shift k 1 * 2 - 1), ap (bit_and (x / 2)) mask, ih, e, p)

-- With the low `k` bits of the mask clear, what is left is the part above.
pub bit_and-high :
    (k q m r x : ℕ)
    → x ≡ shift k q + r
    → r < shift k 1
    → bit_and x (shift k m) ≡ shift k (bit_and q m)
bit_and-high zero q m r x e h = ap (λ y. bit_and y m) (omega (arith, e, h))
bit_and-high (suc k) q m r x e h =
    let mask : shift k m * 2 / 2 ≡ shift k m = omega arith in
    let ih = bit_and-high k q m (r / 2) (x / 2) (omega (arith, e)) (omega (arith, h)) in
    omega (arith, bit_and_halves x (shift k m * 2), ap (bit_and (x / 2)) mask, ih)

-- Each number is a part above and a part below.
pub split_at : (k x : ℕ) → (q : ℕ) × (r : ℕ) × (x ≡ shift k q + r) × (r < shift k 1)
split_at zero x = (x, 0, omega arith, omega arith)
split_at (suc k) x =
    let (q, r, e, h) = split_at k (x / 2) in (q, r * 2 + x % 2, omega (arith, e), omega (arith, h))

bit_and-self_of : (n x : ℕ) → x ≤ n → bit_and x x ≡ x
bit_and-self_of n zero h = refl
bit_and-self_of zero (suc x) h = absurd (omega (arith, h))
bit_and-self_of (suc n) (suc x) h =
    omega (arith, bit_and_halves (suc x) (suc x), bit_and-self_of n (suc x / 2) (omega (arith, h)))

run_of_ones_of : (n x : ℕ) → x ≤ n → bit_and x (x + 1) ≡ 0 → (k : ℕ) × (x + 1 ≡ shift k 1)
run_of_ones_of n zero h z = (0, refl)
run_of_ones_of zero (suc x) h z = absurd (omega (arith, h))
run_of_ones_of (suc n) (suc x) h z = elim (Bool-cases (suc x % 2 == 0)) [
  | inl even ↦
      let same : (suc x + 1) / 2 ≡ suc x / 2 = ground arith in
      let self = bit_and-self_of (suc x / 2) (suc x / 2) (omega arith) in
      absurd
        (ground (arith, bit_and_halves (suc x) (suc x + 1), ap (bit_and (suc x / 2)) same, self))
  | inr odd ↦
      let next : (suc x + 1) / 2 ≡ suc x / 2 + 1 = ground arith in
      let below : bit_and (suc x / 2) (suc x / 2 + 1) ≡ 0 =
        omega (arith, bit_and_halves (suc x) (suc x + 1), ap (bit_and (suc x / 2)) next) in
      let (k, e) = run_of_ones_of n (suc x / 2) (omega (arith, h)) below in
      (suc k, ground (arith, e))
]

-- A number that shares no digit with its successor is a run of ones.
pub run_of_ones : (x : ℕ) → bit_and x (x + 1) ≡ 0 → (k : ℕ) × (x + 1 ≡ shift k 1)
run_of_ones x z = run_of_ones_of x x (omega arith) z

pub shift-le : (j k : ℕ) → j ≤ k → shift j 1 ≤ shift k 1
shift-le zero k h = shift-pos k
shift-le (suc j) zero h = absurd (omega (arith, h))
shift-le (suc j) (suc k) h = omega (arith, shift-le j k (omega (arith, h)))

pub shift-zero : (k : ℕ) → shift k 0 ≡ 0
shift-zero zero = refl
shift-zero (suc k) = omega (arith, shift-zero k)

shift-shift : (k n : ℕ) → k ≤ n → shift k (shift (n - k) 1) ≡ shift n 1
shift-shift zero n h = ap (λ m. shift m 1) (omega arith)
shift-shift (suc k) zero h = absurd (omega (arith, h))
shift-shift (suc k) (suc n) h =
    let less : suc n - suc k ≡ n - k = omega arith in
    omega (arith, ap (λ m. shift k (shift m 1)) less, shift-shift k n (omega (arith, h)))

shift_pred : (k x : ℕ) → 1 ≤ x → shift k x ≡ shift k (x - 1) + shift k 1
shift_pred zero x h = omega (arith, h)
shift_pred (suc k) x h = omega (arith, shift_pred k x h)

shift-lt_of : (k x y : ℕ) → shift k x < shift k y → x < y
shift-lt_of zero x y h = h
shift-lt_of (suc k) x y h = shift-lt_of k x y (omega (arith, h))

-- A mask of `n` digits with the low `k` clear leaves the part above.
pub bit_and-mask :
    (n k q r x : ℕ)
    → k ≤ n
    → x < shift n 1
    → x ≡ shift k q + r
    → r < shift k 1
    → bit_and x (shift n 1 - shift k 1) ≡ shift k q
bit_and-mask n k q r x le lt e h =
    let m = shift (n - k) 1 - 1 in
    let pos = shift-pos (n - k) in
    let whole = shift-shift k n le in
    let mask : shift n 1 - shift k 1 ≡ shift k m =
      omega (arith, whole, shift_pred k (shift (n - k) 1) pos) in
    let small : q < shift (n - k) 1 =
      shift-lt_of k q (shift (n - k) 1) (omega (arith, whole, lt, e)) in
    let kept = bit_and-low (n - k) 0 q q (omega (arith, shift-zero (n - k))) small in
    ap (bit_and x) mask ∙ bit_and-high k q m r x e h ∙ ap (shift k) kept
