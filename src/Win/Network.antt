-- ===== src/Win/Network.antt =====
-- tools/win/network-config.c: the network settings.
pub mod Octet
pub mod Address
pub mod Valid
pub mod Hook
pub mod Options
pub mod Script
pub mod Stored
use shinogi.Base.{
  ℕ, zero, suc, ◌+◌, ◌-◌, ◌*◌, ◌%◌, ◌^◌, Bool, true, false, not, ◌&&◌, ◌||◌, List, [], ◌∷◌, ◌++◌,
  Option, none, some, Bytes, length, ltb, leb, ◌==◌, if◌then◌else◌,
}

abbrev pub is_digit : ℕ → Bool
is_digit c = leb b'0' c && leb c b'9'

-- The inner loop of `network_ipv4`: the octet, its digits, and the text behind it.
unfoldable pub octet_loop : ℕ → ℕ → Bytes → Option (ℕ × ℕ × Bytes)
octet_loop octet digits [] = some (octet, digits, [])
octet_loop octet digits (c ∷ text) =
    let octet' = octet * 10 + (c - b'0') in
    let rest = octet_loop octet' (digits + 1) text in
    if is_digit c
    then (if ltb 3 (digits + 1) || ltb 255 octet' then none else rest)
    else some (octet, digits, c ∷ text)

-- The separator behind a part, unless it is the last.
unfoldable pub after_part : ℕ → Bytes → Option Bytes
after_part zero text = some text
after_part (suc left) [] = none
after_part (suc left) (c ∷ text) = if c == b'.' then some text else none

-- The outer loop, with so many parts to go; an octet has 8 bits, so `|` is `+`.
unfoldable pub part_loop : ℕ → ℕ → Bytes → Option (ℕ × Bytes)
part_loop zero result text = some (result, text)
part_loop (suc left) result text = elim (octet_loop 0 0 text) [
  | none ↦ none
  | some (octet, digits, rest) ↦ elim (digits == 0) [
    | true ↦ none
    | false ↦ elim (after_part left rest) [
      | none ↦ none
      | some rest' ↦ part_loop left (result * 2 ^ 8 + octet) rest'
    ]
  ]
]

-- `value`, where the result is 1.
unfoldable pub network_ipv4 : Bytes → Option ℕ
network_ipv4 text = elim (part_loop 4 0 text) [
  | none ↦ none
  | some (result, []) ↦ some result
  | some (_, _ ∷ _) ↦ none
]
