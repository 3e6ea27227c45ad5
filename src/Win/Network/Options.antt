-- ===== src/Win/Network/Options.antt =====
-- tools/win/network-config.c: `network_qemu_options`.
pub mod Value
use shinogi.Base.{
  ℕ, zero, suc, ◌+◌, Bool, true, false, not, ◌&&◌, ◌||◌, List, [], ◌∷◌, ◌++◌, Option, none, some,
  Bytes, codes, length, ltb, leb, ◌==◌, if◌then◌else◌,
}
use shinogi.Win.Network.Valid.{NetworkSettings}

abbrev pub network_name_size : ℕ
network_name_size = 256

abbrev pub quote : ℕ
quote = 34

-- The loop over `tap_name`, with what it adds to `escaped`.
unfoldable pub escape : Bytes → Option Bytes
escape [] = some []
escape (c ∷ cs) = elim (escape cs) [
  | none ↦ none
  | some rest ↦
      if c == quote || ltb c 32
      then none
      else if c == b','
      then some (c ∷ b',' ∷ rest)
      else some (c ∷ rest)
]

-- `snprintf` into `size` bytes, where the text and its NUL fit.
unfoldable pub fitted : ℕ → Bytes → Option Bytes
fitted size text = if ltb (length text) size then some text else none

-- The text of the options; `none` is the result 0.
unfoldable pub network_qemu_options : NetworkSettings → Bytes → ℕ → Option Bytes
network_qemu_options s tap_name size =
    if not (s.lan == 0)
    then (if length tap_name == 0 || leb network_name_size (length tap_name)
        then none
        else elim (escape tap_name) [
          | none ↦ none
          | some escaped ↦ fitted size (
              codes " -netdev \"tap,id=net0,ifname="
              ++ (escaped ++ (codes "\" -device virtio-net-device,netdev=net0,mac=" ++ s.mac)))
        ])
    else fitted size
        (codes " -netdev user,id=net0,ipv6=off -device virtio-net-device,netdev=net0,mac=" ++ s.mac)
