-- ===== src/Hostfsd/Names.antt =====
-- tools/hostfsd/shinogi-hostfsd.c, "Path containment" and "Case folding": one component of a path.
pub mod Vetted
pub mod Fold
use shinogi.Base.{
  ℕ, zero, suc, ◌+◌, ◌-◌, ◌≤◌, ◌<◌, Bool, true, false, not, ◌&&◌, ◌||◌, List, [], ◌∷◌, ◌++◌, Option,
  none, some, map, Bytes, codes, equal, length, leb, ltb, ◌==◌, if◌then◌else◌,
}
use shinogi.Hostfsd.Proto.{max_name}

abbrev device_names : List Bytes
device_names =
    codes "CON"
    ∷ codes "PRN"
    ∷ codes "AUX"
    ∷ codes "NUL"
    ∷ codes "CLOCK$"
    ∷ codes "COM1"
    ∷ codes "COM2"
    ∷ codes "COM3"
    ∷ codes "COM4"
    ∷ codes "COM5"
    ∷ codes "COM6"
    ∷ codes "COM7"
    ∷ codes "COM8"
    ∷ codes "COM9"
    ∷ codes "LPT1"
    ∷ codes "LPT2"
    ∷ codes "LPT3"
    ∷ codes "LPT4"
    ∷ codes "LPT5"
    ∷ codes "LPT6"
    ∷ codes "LPT7"
    ∷ codes "LPT8"
    ∷ codes "LPT9"
    ∷ []

-- The bytes before the first dot, which the `stem` loop counts.
unfoldable pub stem : Bytes → Bytes
stem [] = []
stem (c ∷ cs) = let rest = stem cs in if c == b'.' then [] else c ∷ rest

unfoldable pub upper : ℕ → ℕ
upper c = if leb b'a' c && leb c b'z' then c - b'a' + b'A' else c

-- The inner loop over `j`, with the test of the lengths in front of it: the stem in upper case
-- is the device's name.
unfoldable pub same_device : Bytes → Bytes → Bool
unfolding upper
same_device [] [] = true
same_device (c ∷ cs) (d ∷ ds) = upper c == d && same_device cs ds
same_device _ _ = false

unfoldable pub any_device : List Bytes → Bytes → Bool
unfolding same_device
any_device [] s = false
any_device (d ∷ ds) s = same_device s d || any_device ds s

unfoldable pub is_dos_device : Bytes → Bool
unfolding any_device stem
is_dos_device comp = any_device device_names (stem comp)

unfoldable pub one_of : List ℕ → ℕ → Bool
one_of [] c = false
one_of (d ∷ ds) c = c == d || one_of ds c

-- `:\*?"<>|`, and the control characters.
abbrev forbidden : List ℕ
forbidden = b':' ∷ b'\\' ∷ b'*' ∷ b'?' ∷ 34 ∷ b'<' ∷ b'>' ∷ b'|' ∷ []

unfoldable pub byte_ok : ℕ → Bool
unfolding one_of
byte_ok c = not (ltb c 0x20 || c == 0x7f) && not (one_of forbidden c)

unfoldable pub bytes_ok : Bytes → Bool
unfolding byte_ok
bytes_ok [] = true
bytes_ok (c ∷ cs) = byte_ok c && bytes_ok cs

-- `comp[len - 1]`
unfoldable pub last_byte : Bytes → ℕ
last_byte [] = 0
last_byte (c ∷ []) = c
last_byte (c ∷ d ∷ cs) = last_byte (d ∷ cs)

unfoldable pub component_ok : Bytes → Bool
unfolding is_dos_device bytes_ok last_byte equal
component_ok comp =
    if length comp == 0 || ltb max_name (length comp)
    then false
    else if equal comp (b'.' ∷ [])
    then false
    else if equal comp (b'.' ∷ b'.' ∷ [])
    then false
    else if last_byte comp == b'.' || last_byte comp == b' '
    then false
    else if not (bytes_ok comp)
    then false
    else not (is_dos_device comp)

unfoldable pub ascii_lower : ℕ → ℕ
ascii_lower c = if leb b'A' c && leb c b'Z' then c - b'A' + b'a' else c

-- Both names have the same length, which `match_fold` tests first.
unfoldable pub name_eq_fold : Bytes → Bytes → Bool
unfolding ascii_lower
name_eq_fold [] [] = true
name_eq_fold (a ∷ xs) (b ∷ ys) = ascii_lower a == ascii_lower b && name_eq_fold xs ys
name_eq_fold _ _ = false

abbrev pub is_dots : Bytes → Bool
is_dots name = equal name (b'.' ∷ []) || equal name (b'.' ∷ b'.' ∷ [])

-- The loop over `readdir` in `match_fold`, on the entries in the order that it hands over.
unfoldable pub match_fold_in : List Bytes → Bytes → Option Bytes
unfolding name_eq_fold equal
match_fold_in [] comp = none
match_fold_in (name ∷ names) comp =
    let rest = match_fold_in names comp in
    if is_dots name
    then rest
    else if not (length name == length comp)
    then rest
    else if not (name_eq_fold name comp)
    then rest
    else some name
