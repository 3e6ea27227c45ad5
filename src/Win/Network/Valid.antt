-- ===== src/Win/Network/Valid.antt =====
-- tools/win/network-config.c: `network_config_valid`.
pub mod Static
use Prim.Native.Nat.{bit_and}
use shinogi.Base.{
  ℕ, zero, suc, ◌+◌, ◌-◌, ◌*◌, ◌/◌, ◌%◌, ◌^◌, Bool, true, false, not, ◌&&◌, ◌||◌, List, [], ◌∷◌,
  Option, none, some, Bytes, length, get_or, ltb, leb, ◌==◌, if◌then◌else◌,
}
use shinogi.Base.Result.{Result, ok, err}
use shinogi.Win.Network.{network_ipv4, is_digit}

-- `lan` and `dhcp` are 0 or 1; a value that is neither, a negative one too, is a number above 1.
pub record NetworkSettings : Type 0 where
  pub lan : ℕ
  pub dhcp : ℕ
  pub ethernet_guid : Bytes
  pub tap_guid : Bytes
  pub address : Bytes
  pub netmask : Bytes
  pub gateway : Bytes
  pub dns : Bytes
  pub mac : Bytes

-- The messages, by what they complain of.
pub data Refusal : Type 0 where
  bad_mac group_mac bad_lan bad_adapter bad_dhcp bad_address bad_mask loose_mask bad_host : Refusal
  bad_gateway bad_dns : Refusal

abbrev pub is_xdigit : ℕ → Bool
is_xdigit c = is_digit c || leb b'a' c && leb c b'f' || leb b'A' c && leb c b'F'

unfoldable pub guid_char : ℕ → ℕ → Bool
guid_char i c = if i == 9 || i == 14 || i == 19 || i == 24 then c == b'-' else is_xdigit c

-- The loop from index `i`, with `n` rounds to go.
unfoldable pub guid_loop : ℕ → ℕ → Bytes → Bool
guid_loop zero i text = true
guid_loop (suc n) i text = guid_char i (get_or text i 0) && guid_loop n (suc i) text

unfoldable pub network_guid_valid : Bytes → Bool
network_guid_valid text =
    if not (length text == 38) || not (get_or text 0 0 == b'{') || not (get_or text 37 0 == b'}')
    then false
    else guid_loop 36 1 text

unfoldable pub mac_char : ℕ → ℕ → Bool
mac_char i c = if suc i % 3 == 0 then c == b':' else is_xdigit c

unfoldable pub mac_loop : ℕ → ℕ → Bytes → Bool
mac_loop zero i mac = true
mac_loop (suc n) i mac = mac_char i (get_or mac i 0) && mac_loop n (suc i) mac

unfoldable pub xdigit_value : ℕ → ℕ
xdigit_value c =
    if is_digit c then c - b'0' else if leb b'a' c then c - b'a' + 10 else c - b'A' + 10

-- `strtoul(text, NULL, 16)` of a text that begins with a digit: the digits in front.
unfoldable pub strtoul16 : ℕ → Bytes → ℕ
strtoul16 n [] = n
strtoul16 n (c ∷ cs) =
    let rest = strtoul16 (n * 16 + xdigit_value c) cs in if is_xdigit c then rest else n

unfoldable pub unicast : ℕ → Bool
unicast value = leb 0x01000000 value && ltb value 0xe0000000 && not (value / 2 ^ 24 == 127)

-- The number of an address, where it passes.
unfoldable pub address_of : (ℕ → Bool) → Refusal → Bytes → Result Refusal ℕ
address_of passes e text = elim (network_ipv4 text) [
  | none ↦ err e
  | some value ↦ if passes value then ok value else err e
]

abbrev pub inverse_of : ℕ → ℕ
inverse_of mask = 2 ^ 32 - 1 - mask

-- The test of the mask, by which `loose_mask` is reported.
unfoldable pub is_loose : ℕ → Bool
is_loose mask =
    let inverse = inverse_of mask in
    mask == 0 || ltb inverse 3 || not (bit_and inverse (inverse + 1) == 0)

-- The network or the broadcast address.
unfoldable pub is_edge : ℕ → ℕ → Bool
is_edge inverse ip = bit_and ip inverse == 0 || bit_and ip inverse == inverse

unfoldable pub gateway_ok : ℕ → ℕ → ℕ → Bool
gateway_ok ip mask gateway =
    unicast gateway
    && not (gateway == ip)
    && bit_and gateway mask == bit_and ip mask
    && not (is_edge (inverse_of mask) gateway)

-- From the test of the address on.
unfoldable pub static_valid : NetworkSettings → Result Refusal (Unit {0})
static_valid s = elim (address_of unicast bad_address s.address) [
  | err e ↦ err e
  | ok ip ↦ elim (address_of (λ _. true) bad_mask s.netmask) [
    | err e ↦ err e
    | ok mask ↦ elim (is_loose mask) [
      | true ↦ err loose_mask
      | false ↦ elim (is_edge (inverse_of mask) ip) [
        | true ↦ err bad_host
        | false ↦ elim (address_of (gateway_ok ip mask) bad_gateway s.gateway) [
          | err e ↦ err e
          | ok _ ↦ elim (address_of unicast bad_dns s.dns) [ err e ↦ err e | ok _ ↦ ok tt ]
        ]
      ]
    ]
  ]
]

-- `ok` is the result 1.
unfoldable pub network_config_valid : NetworkSettings → Result Refusal (Unit {0})
network_config_valid s =
    if not (length s.mac == 17) || not (mac_loop 17 0 s.mac)
    then err bad_mac
    else if strtoul16 0 s.mac % 2 == 1
    then err group_mac
    else if not (s.lan == 0) && not (s.lan == 1)
    then err bad_lan
    else if s.lan == 0
    then ok tt
    else if not (network_guid_valid s.ethernet_guid)
    then err bad_adapter
    else if not (s.dhcp == 0) && not (s.dhcp == 1)
    then err bad_dhcp
    else if s.dhcp == 1
    then ok tt
    else static_valid s
