-- ===== src/Hostfsd/Names/Fold.antt =====
-- `match_fold`: which entry it picks, and that it picks none that the vetting would refuse.
use shinogi.Base.{
  ℕ, ◌<◌, Bool, true, false, not, ◌&&◌, ◌||◌, List, [], ◌∷◌, ◌++◌, none, some, ◌≡◌, inl, inr, refl,
  ap, arith, Bytes, equal_iff, length, ltb, ◌==◌, Bool-cases, All,
}
use shinogi.Hostfsd.Proto.{max_name}
use shinogi.Hostfsd.Names.{
  device_names, stem, upper, same_device, any_device, is_dos_device, byte_ok, bytes_ok, last_byte,
  component_ok, ascii_lower, name_eq_fold, is_dots, match_fold_in,
}

pub name_eq_fold_refl : (n : Bytes) → name_eq_fold n n ≡ true
unfolding name_eq_fold
name_eq_fold_refl [] = refl
name_eq_fold_refl (c ∷ n) = ground (arith, name_eq_fold_refl n)

byte_ok-fold : (a b : ℕ) → ascii_lower a ≡ ascii_lower b → byte_ok a ≡ byte_ok b
unfolding byte_ok ascii_lower
byte_ok-fold a b h = ground arith

upper-fold : (a b : ℕ) → ascii_lower a ≡ ascii_lower b → upper a ≡ upper b
unfolding upper ascii_lower
upper-fold a b h = ground arith

-- The bytes 0x2e and 0x20, which the vetting looks for at the ends of a name.
mark-fold : (a b k : ℕ) → k < b'A' → ascii_lower a ≡ ascii_lower b → (a == k) ≡ (b == k)
unfolding ascii_lower
mark-fold a b k small h = ground arith

stem-fold : (a b : Bytes) → name_eq_fold a b ≡ true → name_eq_fold (stem a) (stem b) ≡ true
unfolding name_eq_fold stem
stem-fold [] [] h = refl
stem-fold (a ∷ xs) (b ∷ ys) h = ground (arith, stem-fold xs ys, mark-fold a b b'.')
stem-fold [] (b ∷ ys) h = absurd (cc)
stem-fold (a ∷ xs) [] h = absurd (cc)

same_device-fold : (a b d : Bytes) → name_eq_fold a b ≡ true → same_device a d ≡ same_device b d
unfolding name_eq_fold same_device
same_device-fold [] [] d h = refl
same_device-fold (a ∷ xs) (b ∷ ys) [] h = refl
same_device-fold (a ∷ xs) (b ∷ ys) (c ∷ d) h =
    ground (arith, same_device-fold xs ys d, upper-fold a b)
same_device-fold [] (b ∷ ys) d h = absurd (cc)
same_device-fold (a ∷ xs) [] d h = absurd (cc)

any_device-fold :
    (ds : List Bytes) (a b : Bytes) → name_eq_fold a b ≡ true → any_device ds a ≡ any_device ds b
unfolding any_device
any_device-fold [] a b h = refl
any_device-fold (d ∷ ds) a b h = ground (arith, same_device-fold a b d h, any_device-fold ds a b h)

is_dos_device-fold : (a b : Bytes) → name_eq_fold a b ≡ true → is_dos_device a ≡ is_dos_device b
unfolding is_dos_device
is_dos_device-fold a b h = any_device-fold device_names (stem a) (stem b) (stem-fold a b h)

bytes_ok-fold : (a b : Bytes) → name_eq_fold a b ≡ true → bytes_ok a ≡ bytes_ok b
unfolding name_eq_fold bytes_ok
bytes_ok-fold [] [] h = refl
bytes_ok-fold (a ∷ xs) (b ∷ ys) h = ground (arith, bytes_ok-fold xs ys, byte_ok-fold a b)
bytes_ok-fold [] (b ∷ ys) h = absurd (cc)
bytes_ok-fold (a ∷ xs) [] h = absurd (cc)

-- An ASCII fold never changes a name's length.
pub length-fold : (a b : Bytes) → name_eq_fold a b ≡ true → length a ≡ length b
unfolding name_eq_fold
length-fold [] [] h = refl
length-fold (a ∷ xs) (b ∷ ys) h = ground (arith, length-fold xs ys)
length-fold [] (b ∷ ys) h = absurd (cc)
length-fold (a ∷ xs) [] h = absurd (cc)

last_byte-fold :
    (a b : Bytes) (k : ℕ)
    → k < b'A'
    → name_eq_fold a b ≡ true
    → (last_byte a == k) ≡ (last_byte b == k)
unfolding name_eq_fold last_byte
last_byte-fold [] [] k s h = refl
last_byte-fold (a ∷ []) (b ∷ []) k s h = mark-fold a b k s (ground arith)
last_byte-fold (a ∷ c ∷ xs) (b ∷ d ∷ ys) k s h = last_byte-fold (c ∷ xs) (d ∷ ys) k s (ground arith)
last_byte-fold (a ∷ c ∷ xs) (b ∷ []) k s h = absurd (ground arith)
last_byte-fold (a ∷ []) (b ∷ d ∷ ys) k s h = absurd (ground arith)
last_byte-fold [] (b ∷ ys) k s h = absurd (cc)
last_byte-fold (a ∷ xs) [] k s h = absurd (cc)

-- A name that equals `.` or `..` ends in a dot.
component_ok-flat :
    (c : Bytes)
    → component_ok c ≡ (
        not (length c == 0 || ltb max_name (length c))
        && not (last_byte c == b'.' || last_byte c == b' ')
        && bytes_ok c
        && not (is_dos_device c))
unfolding component_ok
component_ok-flat c =
    ground (arith, equal_iff c (b'.' ∷ []), equal_iff c (b'.' ∷ b'.' ∷ []), dot_last, dots_last)
  where
    dot_last : last_byte (b'.' ∷ []) ≡ b'.'
    dot_last = refl

    dots_last : last_byte (b'.' ∷ b'.' ∷ []) ≡ b'.'
    dots_last = refl

-- Names that are equal when folded pass the vetting together.
pub component_ok-fold : (a b : Bytes) → name_eq_fold a b ≡ true → component_ok a ≡ component_ok b
component_ok-fold a b h =
    rw (component_ok-flat a, component_ok-flat b)
      (ground (
        arith,
        length-fold a b h,
        last_byte-fold a b b'.' (omega arith) h,
        last_byte-fold a b b' ' (omega arith) h,
        bytes_ok-fold a b h,
        is_dos_device-fold a b h,
      ))

-- The test that an entry passes in the loop.
pub is_match : Bytes → Bytes → Bool
is_match comp name = not (is_dots name) && length name == length comp && name_eq_fold name comp

-- `name` is the first of the entries that matches.
pub record IsFirstMatch (names : List Bytes) (comp name : Bytes) : Type 0 where
  pub before : List Bytes
  pub after : List Bytes
  pub splits : names ≡ before ++ name ∷ after
  pub skipped : All (λ n. is_match comp n ≡ false) before
  pub matches : is_match comp name ≡ true

-- What the scan returns is the first entry, in the host's order, that is neither `.` nor `..`, has
-- the component's length and equals it when folded.
pub match_fold_in-IsFirstMatch :
    (names : List Bytes) (comp name : Bytes)
    → match_fold_in names comp ≡ some name
    → IsFirstMatch names comp name
unfolding match_fold_in is_match
match_fold_in-IsFirstMatch [] comp name h = absurd (cc)
match_fold_in-IsFirstMatch (n ∷ names) comp name h = elim (Bool-cases (is_match comp n)) [
  | inl fits ↦
      let e : n ≡ name = ground arith in
      record {
        before = [];
        after = names;
        splits = ap (λ m. m ∷ names) e;
        skipped = tt;
        matches = ground arith;
      }
  | inr differs ↦
      let later = match_fold_in-IsFirstMatch names comp name (ground arith) in
      record {
        before = n ∷ later.before;
        after = later.after;
        splits = ap (◌∷◌ n) later.splits;
        skipped = (differs, later.skipped);
        matches = later.matches;
      }
]

-- Where the scan returns nothing, no entry matches.
pub match_fold_in-none :
    (names : List Bytes) (comp : Bytes)
    → match_fold_in names comp ≡ none
    → All (λ n. is_match comp n ≡ false) names
unfolding match_fold_in is_match
match_fold_in-none [] comp h = tt
match_fold_in-none (n ∷ names) comp h = ground (arith, match_fold_in-none names comp)

pub match_fold_in-name_eq_fold :
    (names : List Bytes) (comp name : Bytes)
    → match_fold_in names comp ≡ some name
    → name_eq_fold name comp ≡ true
unfolding is_match
match_fold_in-name_eq_fold names comp name h =
    let m = (match_fold_in-IsFirstMatch names comp name h).matches in ground arith

-- What the fold finds has the component's length and passes the vetting that it passed.
match_fold_in-component_ok :
    (names : List Bytes) (comp name : Bytes)
    → match_fold_in names comp ≡ some name
    → (length name ≡ length comp) × (component_ok name ≡ component_ok comp)
match_fold_in-component_ok names comp name h =
    let same = match_fold_in-name_eq_fold names comp name h in
    (length-fold name comp same, component_ok-fold name comp same)
